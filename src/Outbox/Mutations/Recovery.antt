-- ===== src/Outbox/Mutations/Recovery.antt =====
-- `pendingFailures`, `uncertain` and `matchesEditEcho` of MutationJournal
-- (src/outbox/mutation-journal.ts).
use threema_beeper.Prelude.{
  ℕ, zero, suc, String, Bool, true, false, not, ◌&&◌, ◌||◌, List, [], ◌∷◌, ◌++◌, map, Option, none,
  some, leb, ltb, ◌==◌, str_eq, select, select_one, count, take,
}
use threema_beeper.Outbox.Result.{Result, ok, invalid_page, ◌>>=◌, ◌>>◌, require}
use threema_beeper.Outbox.Request.{max_safe}
use threema_beeper.Outbox.Tables.{
  Database, MutationOperation, MutationRequest, Action, MutationState, MutationPart, MutationRow,
}
use threema_beeper.Outbox.Mutations.Plan.{serialize}
use threema_beeper.Outbox.Mutations.Journal.{is_unknown}
use threema_beeper.Outbox.Mutations.Dispatch.{is_rejected}

abbrev pub is_applied : MutationState → Bool
is_applied MutationState.applied = true
is_applied _ = false

abbrev pub is_cancelled : MutationState → Bool
is_cancelled MutationState.cancelled = true
is_cancelled _ = false

-- state IN ('DISPATCHING','OUTCOME_UNKNOWN','APPLIED').
abbrev pub is_attempted : MutationState → Bool
is_attempted MutationState.dispatching = true
is_attempted MutationState.outcome_unknown = true
is_attempted MutationState.applied = true
is_attempted _ = false

-- The join of an operation with those of its parts that pass a test.
unfoldable pub joined :
    (MutationRow → MutationPart → Bool) → List MutationRow → List (MutationRow × MutationPart)
joined test [] = []
joined test (o ∷ rows) =
    map {B = MutationRow × MutationPart} (λ p. (o, p)) (select (test o) o.parts) ++ joined test rows

pub record Failure : Type 0 where
  pub sequence : ℕ
  pub operation : MutationOperation
  pub part : ℕ
  pub reason : Option String
  pub applied : ℕ
  pub cancelled : ℕ

-- Each row is parsed, and validated by `serialize`.
unfoldable pub failures_of : List (MutationRow × MutationPart) → Result (List Failure)
failures_of [] = ok []
failures_of ((o, p) ∷ rows) = do
  operation ← serialize o.body
  rest ← failures_of rows
  ok (
      record {
        sequence = o.sequence;
        operation = operation;
        part = p.part;
        reason = p.reason;
        applied = count (λ q. is_applied q.state) o.parts;
        cancelled = count (λ q. is_cancelled q.state) o.parts;
      }
      ∷ rest)

abbrev pub fails : String → ℕ → MutationRow → MutationPart → Bool
fails profile after o p =
    str_eq o.profile profile && ltb after o.sequence && is_rejected p.state && not p.notified

unfoldable pub pending_failures : Database → String → ℕ → ℕ → Result (List Failure)
unfolding joined failures_of
pending_failures db profile limit after = do
  require (leb 1 limit && leb limit 1000 && leb after max_safe) invalid_page
  failures_of (take limit (joined (fails profile after) db.mutations))

pub record Uncertain : Type 0 where
  pub sequence : ℕ
  pub operation : MutationOperation
  pub part : ℕ

unfoldable pub uncertain_of : List (MutationRow × MutationPart) → Result (List Uncertain)
uncertain_of [] = ok []
uncertain_of ((o, p) ∷ rows) = do
  operation ← serialize o.body
  rest ← uncertain_of rows
  ok (record { sequence = o.sequence; operation = operation; part = p.part } ∷ rest)

-- The cursor of `uncertain`; a part of `none` is the -1 of the source, which is before part 0.
pub record Cursor : Type 0 where
  pub sequence : ℕ
  pub part : Option ℕ

abbrev pub is_after : Option ℕ → ℕ → Bool
is_after none part = true
is_after (some last) part = ltb last part

abbrev pub is_part : Option ℕ → Bool
is_part none = true
is_part (some last) = leb last max_safe

abbrev pub is_open : String → Cursor → MutationRow → MutationPart → Bool
is_open profile after o p =
    str_eq o.profile profile
    && is_unknown p.state
    && (ltb after.sequence o.sequence
        || (o.sequence == after.sequence && is_after after.part p.part))

unfoldable pub uncertain : Database → String → ℕ → Cursor → Result (List Uncertain)
unfolding joined uncertain_of
uncertain db profile limit after = do
  require (leb 1 limit && leb limit 1000 && leb after.sequence max_safe && is_part after.part)
      invalid_page
  uncertain_of (take limit (joined (is_open profile after) db.mutations))

unfoldable pub command_at : ℕ → List MutationRequest → Option MutationRequest
command_at n [] = none
command_at zero (c ∷ commands) = some c
command_at (suc n) (c ∷ commands) = command_at n commands

unfoldable pub is_for_message : String → Option MutationRequest → Bool
is_for_message message none = false
is_for_message message (some c) = str_eq c.message_id message

unfoldable pub is_edit_to : String → Option MutationRequest → Bool
is_edit_to text none = false
is_edit_to text (some c) = elim c.action [ Action.edit t ↦ str_eq t text | Action.delete ↦ false ]

-- What an echo of an edit names.
pub record EditEcho : Type 0 where
  pub profile : String
  pub owner : String
  pub room : String
  pub chat : String
  pub target : String
  pub message : String

unfoldable pub concerns : EditEcho → MutationRow → MutationPart → Bool
unfolding command_at is_for_message
concerns e o p =
    str_eq o.profile e.profile
    && str_eq o.chat e.chat
    && str_eq o.body.target e.target
    && str_eq o.body.owner e.owner
    && str_eq o.body.room e.room
    && is_attempted p.state
    && is_for_message e.message (command_at p.part o.body.commands)

-- ORDER BY o.sequence DESC LIMIT 1.
unfoldable pub latest : EditEcho → List MutationRow → Option (MutationRow × MutationPart)
unfolding concerns
latest e [] = none
latest e (o ∷ rows) = elim (latest e rows) [
  | some found ↦ some found
  | none ↦ elim (select_one (concerns e o) o.parts) [ none ↦ none | some p ↦ some (o, p) ]
]

unfoldable pub matches_edit_echo : Database → EditEcho → String → Result Bool
unfolding latest is_edit_to
matches_edit_echo db e text = elim (latest e db.mutations) [
  | none ↦ ok false
  | some (o, p) ↦ do
    operation ← serialize o.body
    ok (is_edit_to text (command_at p.part operation.commands))
]
