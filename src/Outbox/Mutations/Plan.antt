-- ===== src/Outbox/Mutations/Plan.antt =====
-- Plans of edits and deletions (src/outbox/mutation-journal.ts, src/threema/mutation-command.ts):
-- one command for each message part, checked by `serialize`.
use threema_beeper.Prelude.{
  ℕ, ◌+◌, Bool, true, false, not, ◌&&◌, ◌||◌, List, [], ◌∷◌, map, leb, str_eq, exists, length,
}
use threema_beeper.Text.{
  byte_length, is_profile, is_chat_id, is_message_id, is_event_id, is_server_id,
}
use threema_beeper.Outbox.Result.{
  Result, ok, invalid_operation, invalid_targets, invalid_command, ◌>>◌, require,
}
use threema_beeper.Outbox.Request.{has_duplicates}
use threema_beeper.Outbox.Tables.{Action, edit, delete, MutationRequest, MutationOperation}

abbrev text_bytes : Action → ℕ
text_bytes (edit text) = byte_length text
text_bytes delete = 0

unfoldable pub is_command : MutationRequest → Bool
is_command c =
    is_profile c.profile
    && is_chat_id c.chat_id
    && is_message_id c.message_id
    && leb (text_bytes c.action) 6000

unfoldable pub all_commands : List MutationRequest → Bool
all_commands [] = true
all_commands (c ∷ cs) = is_command c && all_commands cs

unfoldable pub total_bytes : List MutationRequest → ℕ
total_bytes [] = 0
total_bytes (c ∷ cs) = text_bytes c.action + total_bytes cs

unfoldable pub has_shape : MutationOperation → Bool
has_shape o =
    is_server_id b'@' o.owner
    && is_server_id b'!' o.room
    && is_event_id o.event
    && is_event_id o.target
    && not (str_eq o.event o.target)
    && leb 1 (length o.commands)
    && leb (length o.commands) 1024

unfoldable pub has_targets : MutationOperation → Bool
has_targets o =
    not (exists (λ c. not (str_eq c.profile o.profile) || not (str_eq c.chat_id o.chat)) o.commands)
    && not (has_duplicates (map (λ c. c.message_id) o.commands))
    && leb (total_bytes o.commands) 1048576

-- `serialize`: the checks of a plan; the body that it prints is the record itself.
unfoldable pub serialize : MutationOperation → Result MutationOperation
serialize o = do
  require (has_shape o) invalid_operation
  require (all_commands o.commands) invalid_command
  require (has_targets o) invalid_targets
  ok o

unfoldable pub action_eq : Action → Action → Bool
action_eq (edit s) (edit t) = str_eq s t
action_eq delete delete = true
action_eq _ _ = false

unfoldable pub commands_eq : List MutationRequest → List MutationRequest → Bool
unfolding action_eq
commands_eq [] [] = true
commands_eq [] (_ ∷ _) = false
commands_eq (_ ∷ _) [] = false
commands_eq (c ∷ cs) (d ∷ ds) =
    (str_eq c.profile d.profile
      && str_eq c.chat_id d.chat_id
      && str_eq c.message_id d.message_id
      && action_eq c.action d.action)
    && commands_eq cs ds

-- `old.body !== body` compares the canonical texts.
unfoldable pub body_eq : MutationOperation → MutationOperation → Bool
unfolding commands_eq
body_eq a b =
    str_eq a.profile b.profile
    && str_eq a.owner b.owner
    && str_eq a.room b.room
    && str_eq a.chat b.chat
    && str_eq a.event b.event
    && str_eq a.target b.target
    && commands_eq a.commands b.commands
