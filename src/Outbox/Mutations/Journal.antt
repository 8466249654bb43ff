-- ===== src/Outbox/Mutations/Journal.antt =====
-- `prepare` and `get` of MutationJournal (src/outbox/mutation-journal.ts).
use threema_beeper.Prelude.{
  ℕ, suc, String, Bool, true, false, ◌&&◌, ◌||◌, List, [], ◌∷◌, ◌++◌, map, Option, none, some, ◌==◌,
  str_eq, exists, select_one, if◌then◌else◌, select_one, length,
}
use threema_beeper.Outbox.Result.{
  Result, ok, err, already_classified, plan_conflict, incomplete_journal, ◌>>◌, ◌>>=◌, require,
  refuse,
}
use threema_beeper.Outbox.Tables.{
  Database, MutationRequest, MutationOperation, MutationState, MutationPart, MutationRow,
}
use threema_beeper.Outbox.Mutations.Plan.{serialize, body_eq}

-- WHERE profile=? AND event=?, of mutation_operations.
abbrev pub is_row : String → String → MutationRow → Bool
is_row profile event o = str_eq o.profile profile && str_eq o.event event

-- The parts of a new operation, all PREPARED, numbered from `n`.
unfoldable pub new_parts : ℕ → List MutationRequest → List MutationPart
new_parts n [] = []
new_parts n (c ∷ cs) =
    record { part = n; state = MutationState.prepared; reason = none; notified = false }
    ∷ new_parts (suc n) cs

-- The event is a row of `requests`, `media_requests`, `reaction_operations` or `rejections`.
unfoldable pub is_classified_elsewhere : Database → String → String → Bool
is_classified_elsewhere db profile event =
    exists (λ r. str_eq r.profile profile && str_eq r.event event) db.requests
    || exists (λ r. str_eq r.profile profile && str_eq r.event event) db.media
    || exists (λ r. str_eq r.profile profile && str_eq r.event event) db.reactions
    || exists (λ r. str_eq r.profile profile && str_eq r.event event) db.rejections

unfoldable pub insert : Database → MutationOperation → Database
unfolding new_parts
insert db o = record db {
  mutations =
      db.mutations
      ++ record {
        sequence = db.next_mutation;
        profile = o.profile;
        event = o.event;
        chat = o.chat;
        body = o;
        parts = new_parts 0 o.commands;
      }
        ∷ [];
  next_mutation = suc db.next_mutation;
}

unfoldable pub prepare : Database → MutationOperation → Result Database
unfolding insert
prepare db operation = do
  body ← serialize operation
  refuse (is_classified_elsewhere db operation.profile operation.event) already_classified
  elim (select_one (is_row operation.profile operation.event) db.mutations) [
    | some old ↦ if body_eq old.body body then ok db else err plan_conflict
    | none ↦ ok (insert db body)
  ]

pub record MutationRecord : Type 0 where
  pub operation : MutationOperation
  pub states : List MutationState
  pub reasons : List (Option String)

unfoldable pub get : Database → String → String → Result (Option MutationRecord)
get db profile event = elim (select_one (is_row profile event) db.mutations) [
  | none ↦ ok none
  | some row ↦ do
    operation ← serialize row.body
    require (length row.parts == length operation.commands) incomplete_journal
    ok (
        some (record {
          operation = operation;
          states = map (λ p. p.state) row.parts;
          reasons = map (λ p. p.reason) row.parts;
        }))
]

-- q.state IN ('APPLIED','REJECTED','CANCELLED').
abbrev pub is_settled : MutationState → Bool
is_settled MutationState.applied = true
is_settled MutationState.rejected = true
is_settled MutationState.cancelled = true
is_settled _ = false

abbrev pub is_prepared : MutationState → Bool
is_prepared MutationState.prepared = true
is_prepared _ = false

abbrev pub is_dispatching : MutationState → Bool
is_dispatching MutationState.dispatching = true
is_dispatching _ = false

abbrev pub is_unknown : MutationState → Bool
is_unknown MutationState.outcome_unknown = true
is_unknown _ = false
