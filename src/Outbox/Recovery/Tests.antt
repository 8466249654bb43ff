-- ===== src/Outbox/Recovery/Tests.antt =====
-- A recovery pass over a reaction whose outcome is unknown.
use threema_beeper.Prelude.{◌≡◌, refl, true, [], ◌∷◌, none, some}
use threema_beeper.Text.{
  is_profile, is_chat_id, is_message_id, is_event_id, is_server_id, utf16_length, byte_length,
  starts_with,
}
use threema_beeper.Outbox.Request.{has_duplicates}
use threema_beeper.Outbox.Tables.{Database, ReactionAction, ReactionOperation, ReactionState}
use threema_beeper.Outbox.Reactions.Journal
use threema_beeper.Outbox.Reactions.Dispatch
use threema_beeper.Outbox.Reactions
use threema_beeper.Outbox.Reactions.History
use threema_beeper.Outbox.Recovery
use threema_beeper.Outbox.Recovery.{Answer, Pass, done, drain, first_cursor}
use threema_beeper.Outbox.Recovery.Settlement.{Settles, recovery_only_observes}

abbrev blank : Database
blank = record {
  requests = [];
  next_sequence = 1;
  parts = [];
  rejections = [];
  mutations = [];
  next_mutation = 1;
  reactions = [];
  next_reaction = 1;
  retirements = [];
  media = [];
  media_parts = [];
  media_replies = [];
}

abbrev thumb : ReactionOperation
thumb = record {
  profile = "ABCDEFGH";
  event = "$r1";
  room = "!r:example.org";
  owner = "@me:example.org";
  chat = "c:HGFEDCBA";
  target = "$e1";
  emoji = "+1";
  action = ReactionAction.apply;
  messages = "m:0123456789abcdef" ∷ [];
}

abbrev in_state : ReactionState → Database
in_state state = record blank {
  reactions =
      record {
        sequence = 1;
        profile = "ABCDEFGH";
        event = "$r1";
        chat = "c:HGFEDCBA";
        body = thumb;
        parts = record { part = 0; state = state; failure = none } ∷ [];
      }
      ∷ [];
  next_reaction = 2;
}

-- The backend has the reaction.
abbrev present : Answer
present = record {
  ready = true;
  ready_to_ask = true;
  ready_to_settle = true;
  authorize = λ o. true;
  state = λ q. some true;
  during_check = [];
  during_state = [];
}

-- The part is settled.
settled_part :
    drain "ABCDEFGH" 100 true (present ∷ []) (in_state ReactionState.outcome_unknown) first_cursor
    ≡ record {
      db = in_state ReactionState.sent;
      cursor = record { sequence = 1; part = some 0 };
      outcome = done 1;
    }
unfolding drain Recovery.process Recovery.settle_page Recovery.turn Recovery.ask Recovery.settle
    Reactions.Recovery.uncertain Reactions.Recovery.validate_cursor Reactions.Recovery.joined
    Reactions.Recovery.uncertain_of Dispatch.observe_desired_state Dispatch.update_parts Journal.get
    Journal.serialize Journal.has_shape Journal.all_commands Journal.is_command History.run
    is_profile is_chat_id is_message_id is_event_id is_server_id utf16_length byte_length
    starts_with has_duplicates
settled_part = refl

recovery_only_observes_example :
    Settles
      (present ∷ [])
      (in_state ReactionState.outcome_unknown)
      (drain "ABCDEFGH" 100 true
        (present ∷ [])
        (in_state ReactionState.outcome_unknown)
        first_cursor).db
recovery_only_observes_example =
    recovery_only_observes "ABCDEFGH" 100 true (present ∷ [])
      (in_state ReactionState.outcome_unknown) first_cursor
