-- ===== src/Outbox/Dispatcher/Tests.antt =====
-- A reaction whose reply is lost, a restart, and a second pass.
use threema_beeper.Prelude.{◌≡◌, refl, true, false, List, [], ◌∷◌, Pairs}
use threema_beeper.Text.{
  is_profile, is_chat_id, is_message_id, is_event_id, is_server_id, utf16_length, byte_length,
  starts_with,
}
use threema_beeper.Outbox.Request.{has_duplicates}
use threema_beeper.Outbox.Tables.{Database, ReactionAction, ReactionOperation}
use threema_beeper.Outbox.Store.Query
use threema_beeper.Outbox.Reactions.Journal
use threema_beeper.Outbox.Reactions.Dispatch
use threema_beeper.Outbox.Reactions.References
use threema_beeper.Outbox.Reactions.Retirement
use threema_beeper.Outbox.Reactions.Invariant.{Inv}
use threema_beeper.Outbox.Reactions.History
use threema_beeper.Outbox.Reactions.History.{Claimed, prepare}
use threema_beeper.Outbox.Reactions.Attempts.{same_claim}
use threema_beeper.Outbox.Dispatcher
use threema_beeper.Outbox.Dispatcher.{
  Attempt, Reply, accepted, cut_off, Event, pass, restart, other, serve,
}
use threema_beeper.Outbox.Dispatcher.Delivery.{handed_apart}

abbrev blank : Database
blank = record {
  requests = [];
  next_sequence = 1;
  parts = [];
  rejections = [];
  mutations = [];
  next_mutation = 1;
  reactions = [];
  next_reaction = 1;
  retirements = [];
  media = [];
  media_parts = [];
  media_replies = [];
}

abbrev thumb : ReactionOperation
thumb = record {
  profile = "ABCDEFGH";
  event = "$r1";
  room = "!r:example.org";
  owner = "@me:example.org";
  chat = "c:HGFEDCBA";
  target = "$e1";
  emoji = "+1";
  action = ReactionAction.apply;
  messages = "m:0123456789abcdef" ∷ [];
}

abbrev answered : Reply → Attempt
answered r = record {
  ready = true;
  still_ready = true;
  authorize = λ o. true;
  during_check = [];
  reply = λ q. r;
  during_reply = [];
}

abbrev events : List Event
events =
    other (prepare thumb)
    ∷ pass 100 (answered cut_off ∷ [])
    ∷ restart
    ∷ pass 100 (answered accepted ∷ answered accepted ∷ [])
    ∷ []

-- The part is handed over, once.
one_handed :
    (serve "ABCDEFGH" events blank).1
    ≡ record { profile = "ABCDEFGH"; event = "$r1"; part = 0 } ∷ []
unfolding serve Dispatcher.drain Dispatcher.process Dispatcher.turn Dispatcher.attempt
    Dispatcher.claim_and_dispatch Dispatcher.dispatch Dispatcher.answer
    References.requires_remote_mutation References.replay References.history_to References.history
    References.is_part_rejected References.is_unrelated References.advance References.index_of
    Retirement.retirement Journal.get History.call History.run Journal.prepare Journal.serialize
    Journal.has_shape Journal.all_commands Journal.is_command Journal.insert Journal.new_parts
    Journal.is_classified Query.media_exists Dispatch.next Dispatch.claim Dispatch.candidate
    Dispatch.first_part Dispatch.is_blocked Dispatch.update_parts Dispatch.finish Dispatch.changes
    Dispatch.recover_interrupted is_profile is_chat_id is_message_id is_event_id is_server_id
    utf16_length byte_length starts_with has_duplicates
one_handed = refl

blank-Inv : Inv blank
blank-Inv = record { order = tt; own = tt; next = tt }

handed_apart_example : Pairs (λ c d. same_claim c d ≡ false) (serve "ABCDEFGH" events blank).1
handed_apart_example = handed_apart "ABCDEFGH" events blank blank-Inv
