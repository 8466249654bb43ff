-- ===== src/Outbox/Reactions/Journal.antt =====
-- Plans of reactions: `serialize`, `prepare` and `get` of ReactionJournal
-- (src/outbox/reaction-journal.ts, src/threema/reaction-command.ts).
use threema_beeper.Prelude.{
  ℕ, suc, String, Bool, true, false, not, ◌&&◌, ◌||◌, List, [], ◌∷◌, ◌++◌, map, Option, none, some,
  leb, str_eq, strs_eq, exists, select_one, if◌then◌else◌, length,
}
use threema_beeper.Text.{
  byte_length, is_profile, is_chat_id, is_message_id, is_event_id, is_server_id,
}
use threema_beeper.Outbox.Result.{
  Result, ok, err, invalid_operation, invalid_command, mutation_event, media_event,
  already_classified, reaction_conflict, ◌>>◌, ◌>>=◌, require, refuse,
}
use threema_beeper.Outbox.Request.{has_duplicates}
use threema_beeper.Outbox.Tables.{
  Database, ReactionAction, apply, withdraw, ReactionOperation, ReactionState, ReactionPart,
  ReactionRow,
}
use threema_beeper.Outbox.Store.Query.{media_exists}

unfoldable pub has_shape : ReactionOperation → Bool
has_shape o =
    leb 1 (length o.messages)
    && leb (length o.messages) 1024
    && not (has_duplicates o.messages)
    && is_event_id o.event
    && is_event_id o.target
    && is_server_id b'!' o.room
    && is_server_id b'@' o.owner

-- `parseReactionCommand` for one message.
unfoldable pub is_command : ReactionOperation → String → Bool
is_command o message =
    is_profile o.profile
    && is_chat_id o.chat
    && is_message_id message
    && not (str_eq o.emoji "")
    && leb (byte_length o.emoji) 128

unfoldable pub all_commands : ReactionOperation → List String → Bool
unfolding is_command
all_commands o [] = true
all_commands o (m ∷ ms) = is_command o m && all_commands o ms

-- `serialize`: the checks of a plan; the body that it prints is the record itself.
unfoldable pub serialize : ReactionOperation → Result ReactionOperation
unfolding has_shape all_commands
serialize o = do
  require (has_shape o) invalid_operation
  require (all_commands o o.messages) invalid_command
  ok o

unfoldable pub action_eq : ReactionAction → ReactionAction → Bool
action_eq apply apply = true
action_eq withdraw withdraw = true
action_eq _ _ = false

-- Two plans have one body.
unfoldable pub body_eq : ReactionOperation → ReactionOperation → Bool
unfolding action_eq
body_eq a b =
    str_eq a.profile b.profile
    && str_eq a.event b.event
    && str_eq a.room b.room
    && str_eq a.owner b.owner
    && str_eq a.chat b.chat
    && str_eq a.target b.target
    && str_eq a.emoji b.emoji
    && action_eq a.action b.action
    && strs_eq a.messages b.messages

-- WHERE profile=? AND event=?, of reaction_operations.
abbrev pub is_row : String → String → ReactionRow → Bool
is_row profile event o = str_eq o.profile profile && str_eq o.event event

-- The parts of a new operation, all PREPARED, numbered from `n`.
unfoldable pub new_parts : ℕ → List String → List ReactionPart
new_parts n [] = []
new_parts n (m ∷ ms) =
    record { part = n; state = ReactionState.prepared; failure = none } ∷ new_parts (suc n) ms

unfoldable pub insert : Database → ReactionOperation → Database
unfolding new_parts
insert db o = record db {
  reactions =
      db.reactions
      ++ record {
        sequence = db.next_reaction;
        profile = o.profile;
        event = o.event;
        chat = o.chat;
        body = o;
        parts = new_parts 0 o.messages;
      }
        ∷ [];
  next_reaction = suc db.next_reaction;
}

-- The event is a row of `rejections` or `requests`.
unfoldable pub is_classified : Database → String → String → Bool
is_classified db profile event =
    exists (λ r. str_eq r.profile profile && str_eq r.event event) db.rejections
    || exists (λ r. str_eq r.profile profile && str_eq r.event event) db.requests

unfoldable pub prepare : Database → ReactionOperation → Result Database
unfolding insert is_classified
prepare db operation = do
  body ← serialize operation
  refuse
      (exists (λ r. str_eq r.profile operation.profile && str_eq r.event operation.event)
        db.mutations)
      mutation_event
  refuse (media_exists db operation.profile operation.event) media_event
  refuse (is_classified db operation.profile operation.event) already_classified
  elim (select_one (is_row operation.profile operation.event) db.reactions) [
    | some old ↦ if body_eq old.body body then ok db else err reaction_conflict
    | none ↦ ok (insert db body)
  ]

pub record ReactionRecord : Type 0 where
  pub operation : ReactionOperation
  pub states : List ReactionState

unfoldable pub get : Database → String → String → Result (Option ReactionRecord)
get db profile event = elim (select_one (is_row profile event) db.reactions) [
  | none ↦ ok none
  | some row ↦ do
    operation ← serialize row.body
    ok (some (record { operation = operation; states = map (λ p. p.state) row.parts }))
]

-- state NOT IN ('SENT','REJECTED'), negated.
abbrev pub is_settled : ReactionState → Bool
is_settled ReactionState.sent = true
is_settled ReactionState.rejected = true
is_settled _ = false

abbrev pub is_prepared : ReactionState → Bool
is_prepared ReactionState.prepared = true
is_prepared _ = false

abbrev pub is_dispatching : ReactionState → Bool
is_dispatching ReactionState.dispatching = true
is_dispatching _ = false

abbrev pub is_unknown : ReactionState → Bool
is_unknown ReactionState.outcome_unknown = true
is_unknown _ = false

abbrev pub is_sent : ReactionState → Bool
is_sent ReactionState.sent = true
is_sent _ = false

abbrev pub is_rejected : ReactionState → Bool
is_rejected ReactionState.rejected = true
is_rejected _ = false
