-- ===== src/Outbox/Mutations/Tests.antt =====
-- A plan whose edit is in flight, and its echo.
use threema_beeper.Prelude.{some, ◌≡◌, refl, true, false, [], ◌∷◌, none}
use threema_beeper.Text.{
  is_profile, is_chat_id, is_message_id, is_event_id, is_server_id, utf16_length, byte_length,
  starts_with,
}
use threema_beeper.Outbox.Request.{has_duplicates}
use threema_beeper.Outbox.Result.{ok}
use threema_beeper.Outbox.Tables.{
  Database, MutationOperation, MutationState, MutationPart, MutationRow, MutationRequest, Action,
}
use threema_beeper.Outbox.Mutations.Plan
use threema_beeper.Outbox.Mutations.Plan.{serialize}
use threema_beeper.Outbox.Mutations.Recovery.{
  EditEcho, concerns, latest, matches_edit_echo, is_edit_to, command_at, is_for_message,
}
use threema_beeper.Outbox.Mutations.Echoes.{Found, matches_edit_echo_sound}

abbrev edit_plan : MutationOperation
edit_plan = record {
  profile = "ABCDEFGH";
  owner = "@me:example.org";
  room = "!r:example.org";
  chat = "c:HGFEDCBA";
  event = "$e2";
  target = "$e1";
  commands =
      record {
        profile = "ABCDEFGH";
        chat_id = "c:HGFEDCBA";
        message_id = "m:0123456789abcdef";
        action = Action.edit "hello again";
      }
      ∷ [];
}

abbrev editing : Database
editing = record {
  requests = [];
  next_sequence = 1;
  parts = [];
  rejections = [];
  mutations =
      record {
        sequence = 1;
        profile = "ABCDEFGH";
        event = "$e2";
        chat = "c:HGFEDCBA";
        body = edit_plan;
        parts =
            record { part = 0; state = MutationState.dispatching; reason = none; notified = false }
            ∷ [];
      }
      ∷ [];
  next_mutation = 2;
  reactions = [];
  next_reaction = 1;
  retirements = [];
  media = [];
  media_parts = [];
  media_replies = [];
}

abbrev echo : EditEcho
echo = record {
  profile = "ABCDEFGH";
  owner = "@me:example.org";
  room = "!r:example.org";
  chat = "c:HGFEDCBA";
  target = "$e1";
  message = "m:0123456789abcdef";
}

echo_matches : matches_edit_echo editing echo "hello again" ≡ ok true
unfolding matches_edit_echo Plan.serialize Plan.has_shape Plan.has_targets Plan.all_commands
    Plan.is_command Plan.total_bytes is_profile is_chat_id is_message_id is_event_id is_server_id
    utf16_length byte_length starts_with has_duplicates latest concerns is_edit_to command_at
    is_for_message
echo_matches = refl

matches_edit_echo_sound_example :
    (o : MutationRow) × (p : MutationPart) × (c : MutationRequest) × Found editing echo o p
    × (command_at p.part o.body.commands ≡ some c)
    × (c.message_id ≡ "m:0123456789abcdef")
    × (c.action ≡ Action.edit "hello again")
matches_edit_echo_sound_example = matches_edit_echo_sound editing echo "hello again" echo_matches
