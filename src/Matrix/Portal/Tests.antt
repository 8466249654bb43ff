-- ===== src/Matrix/Portal/Tests.antt =====
-- A store with a portal, a message, an upload and a receipt, and the theorems about PortalStore
-- applied to it.
use threema_beeper.Prelude.{
  ◌≡◌, ◌↔◌, ◌&&◌, not, refl, true, false, ℕ, String, List, [], ◌∷◌, some, none, exists, str_eq,
  if◌then◌else◌,
}
use threema_beeper.Matrix.Portal.Tables.{
  MessageKey, key_eq, MessageMapping, MessageProjection, EncryptedOperation, UploadRow, Store, ok,
}
use threema_beeper.Matrix.Portal.Rooms
use threema_beeper.Matrix.Portal.Rooms.{get, portal_for_room}
use threema_beeper.Matrix.Portal.Messages.{message_mapping}
use threema_beeper.Matrix.Portal.Deliveries.{
  receipt_position, covers, is_visible, is_legacy, finish_deletion,
}
use threema_beeper.Matrix.Portal.Uploads
use threema_beeper.Matrix.Portal.Uploads.{Plan, media_upload}
use threema_beeper.Matrix.Portal.History.{
  Call, run, bind, finish_projection, complete_operation, replace_media_upload,
  complete_media_upload, save_receipt_position,
}
use threema_beeper.Matrix.Portal.Roots.{mapping_is_permanent}
use threema_beeper.Matrix.Portal.Permanent.{upload_is_permanent}
use threema_beeper.Matrix.Portal.Retries.{Follows, retry_resends}
use threema_beeper.Matrix.Portal.Inverse.{portals_are_inverse, get-bind}
use threema_beeper.Matrix.Portal.Receipts.{receipts_go_forward}
use threema_beeper.Matrix.Portal.Erasure.{deletion_is_complete}

abbrev blank : Store
blank = record {
  portals = [];
  ghosts = [];
  operations = [];
  mappings = [];
  projections = [];
  reactions = [];
  versions = [];
  histories = [];
  deletions = [];
  statuses = [];
  receipts = [];
  uploads = [];
  read_targets = [];
}

abbrev key : MessageKey
key = record { profile = "ABCDEFGH"; chat = "c:HGFEDCBA"; message = "m:0123456789abcdef" }

abbrev mapping : MessageMapping
mapping = record {
  key = key;
  room = "!r:example.org";
  sender = "@ghost:example.org";
  root = "$root";
  latest = "$root";
  digest = "one";
}

-- An edit of the mapped message, whose event is delivered.
abbrev edit : MessageProjection
edit = record {
  id = "message_2";
  key = key;
  room = "!r:example.org";
  sender = "@ghost:example.org";
  fingerprint = "f";
  digest = "two";
  root = some "$root";
  content = "{}";
}

abbrev sent : EncryptedOperation
sent = record {
  id = "message_2";
  sender = "@ghost:example.org";
  room = "!r:example.org";
  digest = "two";
  ciphertext = "";
  event = some "$edit";
}

abbrev edited : Store
edited = record blank { mappings = mapping ∷ []; projections = edit ∷ []; operations = sent ∷ [] }

mapped : message_mapping edited key ≡ some mapping
unfolding message_mapping
mapped = refl

mapping_is_permanent_example :
    (now : MessageMapping) × (message_mapping
        (run (finish_projection "message_2" "$edit" ∷ []) edited)
        key
      ≡ some now)
    × (now.root ≡ mapping.root)
    × (now.room ≡ mapping.room)
    × (now.sender ≡ mapping.sender)
mapping_is_permanent_example =
    mapping_is_permanent (finish_projection "message_2" "$edit" ∷ []) edited key mapping mapped

abbrev uploaded : UploadRow
uploaded = record {
  id = "u1";
  fingerprint = "f";
  prepared = "p";
  result = some "mxc://example.org/a";
}

upload_found : media_upload (record blank { uploads = uploaded ∷ [] }) "u1" ≡ some uploaded
unfolding media_upload
upload_found = refl

abbrev upload_calls : List Call
upload_calls = replace_media_upload "u1" "f" "p" "q" ∷ complete_media_upload "u1" "other" ∷ []

upload_is_permanent_example :
    media_upload (run upload_calls (record blank { uploads = uploaded ∷ [] })) "u1" ≡ some uploaded
upload_is_permanent_example =
    upload_is_permanent upload_calls (record blank { uploads = uploaded ∷ [] }) "u1" uploaded
      "mxc://example.org/a" upload_found refl

abbrev first_plan : Plan
first_plan = record {
  id = "message_3";
  sender = "@ghost:example.org";
  room = "!r:example.org";
  digest = "three";
  ciphertext = "encrypted once";
}

abbrev second_plan : Plan
second_plan = record first_plan { ciphertext = "encrypted again" }

abbrev given : EncryptedOperation
given = record {
  id = "message_3";
  sender = "@ghost:example.org";
  room = "!r:example.org";
  digest = "three";
  ciphertext = "encrypted once";
  event = none;
}

abbrev planned : Store
planned = record blank { operations = given ∷ [] }

first_preparation : Uploads.prepare_operation blank first_plan ≡ ok (planned, given)
unfolding Uploads.prepare_operation
first_preparation = refl

second_preparation :
    Uploads.prepare_operation (run (complete_operation "other" "$e" ∷ []) planned) second_plan
    ≡ ok (planned, given)
unfolding Uploads.prepare_operation Uploads.complete_operation run
second_preparation = refl

retry_resends_example : Follows given given
retry_resends_example =
    retry_resends (complete_operation "other" "$e" ∷ []) blank planned planned first_plan
      second_plan given given refl first_preparation second_preparation

abbrev room_calls : List Call
room_calls = bind "ABCDEFGH" "c:HGFEDCBA" "!r:example.org" ∷ []

portals_are_inverse_example :
    (get (run room_calls blank) "ABCDEFGH" "c:HGFEDCBA" ≡ some "!r:example.org")
    ↔ (portal_for_room (run room_calls blank) "!r:example.org" ≡ some ("ABCDEFGH", "c:HGFEDCBA"))
portals_are_inverse_example =
    portals_are_inverse room_calls blank "ABCDEFGH" "c:HGFEDCBA" "!r:example.org" tt

abbrev bound : Store
bound = record blank {
  portals = record { profile = "ABCDEFGH"; chat = "c:HGFEDCBA"; room = "!r:example.org" } ∷ [];
}

first_bind : Rooms.bind blank "ABCDEFGH" "c:HGFEDCBA" "!r:example.org" ≡ ok bound
unfolding Rooms.bind
first_bind = refl

get-bind_example : get bound "ABCDEFGH" "c:HGFEDCBA" ≡ (
    if str_eq "ABCDEFGH" "ABCDEFGH" && str_eq "c:HGFEDCBA" "c:HGFEDCBA"
    then some "!r:example.org"
    else get blank "ABCDEFGH" "c:HGFEDCBA")
get-bind_example =
    get-bind blank bound "ABCDEFGH" "c:HGFEDCBA" "!r:example.org" "ABCDEFGH" "c:HGFEDCBA" first_bind

abbrev received : Store
received = record blank {
  receipts =
      record {
        profile = "ABCDEFGH";
        chat = "c:HGFEDCBA";
        reader = "HGFEDCBA";
        ordinal = 7;
        message = "m:0123456789abcdef";
      }
      ∷ [];
}

seven :
    receipt_position received "ABCDEFGH" "c:HGFEDCBA" "HGFEDCBA" ≡ some (7, "m:0123456789abcdef")
unfolding receipt_position
seven = refl

-- A late receipt of an older message, and one of a newer message.
abbrev receipt_calls : List Call
receipt_calls =
    save_receipt_position "ABCDEFGH" "c:HGFEDCBA" "HGFEDCBA" 5 "m:aaaaaaaaaaaaaaaa"
    ∷ save_receipt_position "ABCDEFGH" "c:HGFEDCBA" "HGFEDCBA" 9 "m:bbbbbbbbbbbbbbbb"
    ∷ []

receipts_go_forward_example :
    (last : ℕ) × (seen : String) × (receipt_position
        (run receipt_calls received)
        "ABCDEFGH"
        "c:HGFEDCBA"
        "HGFEDCBA"
      ≡ some (last, seen))
    × (covers (some (last, seen)) 7 "m:0123456789abcdef" ≡ true)
receipts_go_forward_example =
    receipts_go_forward receipt_calls received "ABCDEFGH" "c:HGFEDCBA" "HGFEDCBA" 7
      "m:0123456789abcdef" seven

-- A message whose only event is redacted.
abbrev redacted : Store
redacted = record blank {
  mappings = mapping ∷ [];
  histories = record { key = key; complete = true } ∷ [];
  versions = record { key = key; event = "$root"; redacted = true } ∷ [];
  deletions = record { key = key; is_done = false } ∷ [];
}

abbrev erased : Store
erased = record redacted { deletions = record { key = key; is_done = true } ∷ [] }

deletion_finishes : finish_deletion redacted key ≡ ok erased
unfolding finish_deletion
deletion_finishes = refl

deletion_is_complete_example :
    (is_legacy redacted key ≡ false)
    × (exists (is_visible key) redacted.versions ≡ false)
    × (exists (λ r. key_eq r.key key) redacted.reactions ≡ false)
    × (exists (λ d. key_eq d.key key && not d.is_done) erased.deletions ≡ false)
    × (erased ≡ record redacted { deletions = erased.deletions })
deletion_is_complete_example = deletion_is_complete redacted erased key deletion_finishes
