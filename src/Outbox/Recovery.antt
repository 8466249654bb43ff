-- ===== src/Outbox/Recovery.antt =====
-- ReactionRecovery (src/outbox/reaction-recovery.ts): `process`, against a journal that others use
-- while it waits. Each row of the page has an `Answer`, which lists what the environment does for
-- it; where the list of answers ends, the process has ended.
pub mod Settlement
mod Tests
use threema_beeper.Prelude.{
  ℕ, zero, suc, String, Bool, true, false, not, ◌&&◌, List, [], ◌∷◌, Option, none, some, leb, ◌==◌,
  if◌then◌else◌,
}
use threema_beeper.Outbox.Result.{Result, ok, err}
use threema_beeper.Outbox.Tables.{Database, ReactionOperation}
use threema_beeper.Outbox.Reactions.Dispatch.{observe_desired_state}
use threema_beeper.Outbox.Reactions.Recovery.{Cursor, Uncertain, uncertain}
use threema_beeper.Outbox.Reactions.History.{Call, run}
use threema_beeper.Outbox.Dispatcher.{Request, request}

pub record Answer : Type 0 where
  -- The three readings of `ready()`.
  pub ready : Bool
  pub ready_to_ask : Bool
  pub ready_to_settle : Bool
  -- `authorize` resolves; `reactionState` resolves to a Boolean, or throws.
  pub authorize : ReactionOperation → Bool
  pub state : Request → Option Bool
  -- The calls that others make while these two are awaited.
  pub during_check : List Call
  pub during_state : List Call

-- The cursor of the object, and the variables of `process`.
pub record Progress : Type 0 where
  pub db : Database
  pub cursor : Cursor
  pub completed : ℕ
  pub failed : Bool

pub data Outcome : Type 0 where
  done : ℕ → Outcome
  pending thrown ended : Outcome

pub record Pass : Type 0 where
  pub db : Database
  pub cursor : Cursor
  pub outcome : Outcome

abbrev pub stop : Progress → Outcome → Pass
stop s outcome = record { db = s.db; cursor = s.cursor; outcome = outcome }

-- `if (failed) throw ...; return completed`.
abbrev pub conclude : Progress → Pass
conclude s = stop s (if s.failed then pending else done s.completed)

-- The loop goes on, or breaks.
pub data Turn : Type 0 where
  again broken : Progress → Turn

abbrev pub fail : Progress → Progress
fail s = record s { failed = true }

unfoldable pub settle : Progress → Uncertain → Bool → Turn
settle s u present =
    elim (observe_desired_state s.db u.operation.profile u.operation.event u.part present) [
      | err e ↦ again (fail s)
      | ok (db, true) ↦ again (record s { db = db; completed = suc s.completed })
      | ok (db, false) ↦ again (record s { db = db })
    ]

-- After `authorize`.
unfoldable pub ask : Answer → Progress → Uncertain → Turn
unfolding settle
ask a s u = elim a.ready_to_ask [
  | false ↦ broken s
  | true ↦
      let later = record s { db = (run a.during_state s.db).0 } in
      elim (a.state (request u.operation.profile u.operation u.part)) [
        | none ↦ again (fail later)
        | some present ↦ elim a.ready_to_settle [
          | false ↦ broken later
          | true ↦ settle later u present
        ]
      ]
]

unfoldable pub turn : Answer → Progress → Uncertain → Turn
unfolding ask
turn a s u = elim a.ready [
  | false ↦ broken s
  | true ↦
      let later = record s {
        db = (run a.during_check s.db).0;
        cursor = record { sequence = u.sequence; part = some u.part };
      } in
      elim (a.authorize u.operation) [ false ↦ again (fail later) | true ↦ ask a later u ]
]

abbrev pub pass_of : Turn → (Progress → Pass) → Pass
pass_of (again s) f = f s
pass_of (broken s) f = conclude s

-- The loop over the page.
unfoldable pub settle_page : List Answer → List Uncertain → Progress → Pass
unfolding turn
settle_page answers [] s = conclude s
settle_page [] (u ∷ page) s = stop s ended
settle_page (a ∷ answers) (u ∷ page) s = pass_of (turn a s u) (λ t. settle_page answers page t)

abbrev pub first_cursor : Cursor
first_cursor = record { sequence = 0; part = none }

abbrev pub begin : Database → Cursor → Progress
begin db cursor = record { db = db; cursor = cursor; completed = 0; failed = false }

abbrev pub is_past_end : List Uncertain → Cursor → Bool
is_past_end [] cursor = not (cursor.sequence == 0)
is_past_end (u ∷ page) cursor = false

unfoldable pub from_cursor : String → ℕ → List Answer → Database → Cursor → Pass
unfolding settle_page
from_cursor profile limit answers db cursor = elim (uncertain db profile limit cursor) [
  | err e ↦ stop (begin db cursor) thrown
  | ok page ↦ settle_page answers page (begin db cursor)
]

unfoldable pub process : String → ℕ → Bool → List Answer → Database → Cursor → Pass
unfolding from_cursor
process profile limit ready answers db cursor = elim ready [
  | false ↦ stop (begin db cursor) (done 0)
  | true ↦ elim (uncertain db profile limit cursor) [
    | err e ↦ stop (begin db cursor) thrown
    | ok page ↦ elim (is_past_end page cursor) [
      | true ↦ from_cursor profile limit answers db first_cursor
      | false ↦ settle_page answers page (begin db cursor)
    ]
  ]
]

unfoldable pub drain : String → ℕ → Bool → List Answer → Database → Cursor → Pass
unfolding process
drain profile limit ready answers db cursor =
    if leb 1 limit && leb limit 1000
    then process profile limit ready answers db cursor
    else stop (begin db cursor) thrown
