-- ===== src/Outbox/Guard/Tests.antt =====
-- A room that passes the dispatch guard.
use threema_beeper.Prelude.{◌≡◌, refl, List, [], ◌∷◌, some, none, select}
use threema_beeper.Outbox.Guard.{
  StateEvent, Options, Request, check, passed, exactly_one, authorizes, has_key, check_sound,
}

abbrev blank : StateEvent
blank = record {
  type = none;
  state_key = none;
  sender = none;
  algorithm = none;
  creator = none;
  network = none;
  channel = none;
  membership = none;
}

abbrev encryption : StateEvent
encryption = record blank {
  type = some "m.room.encryption";
  state_key = some "";
  algorithm = some "m.megolm.v1.aes-sha2";
}

abbrev marker : StateEvent
marker = record blank {
  type = some "m.bridge";
  state_key = some "threema://bridge";
  sender = some "@bot:example.org";
  creator = some "@me:example.org";
  network = some "ABCDEFGH";
  channel = some "c:HGFEDCBA";
}

abbrev member : StateEvent
member = record blank {
  type = some "m.room.member";
  state_key = some "@me:example.org";
  membership = some "join";
}

abbrev room : List StateEvent
room = encryption ∷ blank ∷ marker ∷ member ∷ []

abbrev options : Options
options = record { owner = "@me:example.org"; profile = "ABCDEFGH"; bot = "@bot:example.org" }

abbrev request : Request
request = record {
  profile = "ABCDEFGH";
  sender = "@me:example.org";
  chat_id = "c:HGFEDCBA";
  room_id = "!r:example.org";
}

room_passes :
    check options request (some "!r:example.org") (some room) (some "!r:example.org") ≡ passed
unfolding check exactly_one authorizes
room_passes = refl

check_sound_example :
    (some "!r:example.org" ≡ some request.room_id)
    × (request.profile ≡ options.profile)
    × (request.sender ≡ options.owner)
    × ((found : StateEvent) × (select (has_key "m.bridge" "threema://bridge") room ≡ found ∷ [])
        × (found.sender ≡ some options.bot)
        × (found.creator ≡ some options.owner)
        × (found.network ≡ some options.profile)
        × (found.channel ≡ some request.chat_id))
    × ((found : StateEvent) × (select (has_key "m.room.member" options.owner) room ≡ found ∷ [])
        × (found.membership ≡ some "join"))
check_sound_example =
    check_sound options request (some "!r:example.org") (some "!r:example.org") room room_passes
