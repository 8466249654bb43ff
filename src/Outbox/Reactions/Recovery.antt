-- ===== src/Outbox/Reactions/Recovery.antt =====
-- `pendingFailures`, `uncertain` and `pendingCounts` of ReactionJournal
-- (src/outbox/reaction-journal.ts).
use threema_beeper.Prelude.{
  ℕ, String, Bool, true, false, not, ◌&&◌, ◌||◌, List, [], ◌∷◌, ◌++◌, map, Option, none, some, ◌+◌,
  leb, ltb, ◌==◌, str_eq, select, count, take, if◌then◌else◌,
}
use threema_beeper.Outbox.Result.{Result, ok, invalid_page, invalid_cursor, ◌>>=◌, ◌>>◌, require}
use threema_beeper.Outbox.Request.{max_safe}
use threema_beeper.Outbox.Tables.{
  Database, ReactionOperation, ReactionFailure, ReactionPart, ReactionRow,
}
use threema_beeper.Outbox.Reactions.Journal.{serialize, is_prepared, is_dispatching, is_unknown}

-- A part of `none` is the -1 of the source, which is before part 0.
pub record Cursor : Type 0 where
  pub sequence : ℕ
  pub part : Option ℕ

abbrev pub is_part : Option ℕ → Bool
is_part none = true
is_part (some part) = leb part 1023

-- `validateCursor`.
unfoldable pub validate_cursor : Cursor → Result Bool
validate_cursor cursor = do
  require (leb cursor.sequence max_safe && is_part cursor.part) invalid_cursor
  ok true

abbrev pub is_later : Option ℕ → ℕ → Bool
is_later none part = true
is_later (some last) part = ltb last part

-- The row of the cursor stands before the part.
abbrev pub is_after : Cursor → ReactionRow → ReactionPart → Bool
is_after cursor o p =
    ltb cursor.sequence o.sequence || (o.sequence == cursor.sequence && is_later cursor.part p.part)

-- The join of the operations with those of their parts that pass a test.
unfoldable pub joined :
    (ReactionRow → ReactionPart → Bool) → List ReactionRow → List (ReactionRow × ReactionPart)
joined test [] = []
joined test (o ∷ rows) =
    map {B = ReactionRow × ReactionPart} (λ p. (o, p)) (select (test o) o.parts) ++ joined test rows

-- notified=0.
abbrev pub is_unnotified : Option ReactionFailure → Bool
is_unnotified none = false
is_unnotified (some f) = not f.notified

abbrev pub reason_of : Option ReactionFailure → Option String
reason_of none = none
reason_of (some f) = some f.reason

pub record Failure : Type 0 where
  pub sequence : ℕ
  pub operation : ReactionOperation
  pub part : ℕ
  pub reason : Option String

unfoldable pub failures_of : List (ReactionRow × ReactionPart) → Result (List Failure)
failures_of [] = ok []
failures_of ((o, p) ∷ rows) = do
  operation ← serialize o.body
  rest ← failures_of rows
  ok (
      record {
        sequence = o.sequence;
        operation = operation;
        part = p.part;
        reason = reason_of p.failure;
      }
      ∷ rest)

abbrev pub fails : String → Cursor → ReactionRow → ReactionPart → Bool
fails profile after o p = str_eq o.profile profile && is_unnotified p.failure && is_after after o p

unfoldable pub pending_failures : Database → String → ℕ → Cursor → Result (List Failure)
unfolding validate_cursor joined failures_of
pending_failures db profile limit after = do
  valid ← validate_cursor after
  require (leb 1 limit && leb limit 1000) invalid_page
  failures_of (take limit (joined (fails profile after) db.reactions))

pub record Uncertain : Type 0 where
  pub sequence : ℕ
  pub operation : ReactionOperation
  pub part : ℕ

unfoldable pub uncertain_of : List (ReactionRow × ReactionPart) → Result (List Uncertain)
uncertain_of [] = ok []
uncertain_of ((o, p) ∷ rows) = do
  operation ← serialize o.body
  rest ← uncertain_of rows
  ok (record { sequence = o.sequence; operation = operation; part = p.part } ∷ rest)

abbrev pub is_open : String → Cursor → ReactionRow → ReactionPart → Bool
is_open profile after o p = str_eq o.profile profile && is_unknown p.state && is_after after o p

unfoldable pub uncertain : Database → String → ℕ → Cursor → Result (List Uncertain)
unfolding validate_cursor joined uncertain_of
uncertain db profile limit after = do
  valid ← validate_cursor after
  require (leb 1 limit && leb limit 1000) invalid_page
  uncertain_of (take limit (joined (is_open profile after) db.reactions))

pub record Counts : Type 0 where
  pub prepared : ℕ
  pub dispatching : ℕ
  pub uncertain : ℕ
  pub failure_notices : ℕ
  pub retirements : ℕ

-- The parts of a profile that pass a test.
unfoldable pub count_parts : String → (ReactionPart → Bool) → List ReactionRow → ℕ
count_parts profile test [] = 0
count_parts profile test (o ∷ rows) =
    let rest = count_parts profile test rows in
    if str_eq o.profile profile then count test o.parts + rest else rest

unfoldable pub pending_counts : Database → String → Counts
unfolding count_parts
pending_counts db profile = record {
  prepared = count_parts profile (λ p. is_prepared p.state) db.reactions;
  dispatching = count_parts profile (λ p. is_dispatching p.state) db.reactions;
  uncertain = count_parts profile (λ p. is_unknown p.state) db.reactions;
  failure_notices = count_parts profile (λ p. is_unnotified p.failure) db.reactions;
  retirements = count (λ r. str_eq r.profile profile && not r.is_done) db.retirements;
}
