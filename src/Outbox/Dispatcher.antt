-- ===== src/Outbox/Dispatcher.antt =====
-- ReactionDispatcher (src/outbox/reaction-dispatcher.ts): `process`, against a journal that others
-- use while it waits. A `Turn` of the loop has an `Attempt`, which lists what the environment does
-- in it; where the list of attempts ends, the process has ended.
pub mod Delivery
mod Tests
use threema_beeper.Prelude.{
  ℕ, zero, suc, String, Bool, true, false, not, ◌&&◌, List, [], ◌∷◌, ◌++◌, Option, none, some, leb,
  if◌then◌else◌,
}
use threema_beeper.Outbox.Result.{Result, ok, err}
use threema_beeper.Outbox.Tables.{Database, ReactionAction, ReactionOperation}
use threema_beeper.Outbox.Reactions.Dispatch.{
  next, claim, finish, reject, recover_interrupted, is_code, Completion,
}
use threema_beeper.Outbox.Reactions.References.{requires_remote_mutation, message_at, or_empty}
use threema_beeper.Outbox.Reactions.History.{Call, Claimed, call, run}

-- What `reactMessage` is given.
pub record Request : Type 0 where
  pub profile : String
  pub chat_id : String
  pub message_id : String
  pub emoji : String
  pub action : ReactionAction

-- `reactMessage` resolves, throws a BackendWorkerError with a code, throws another error, or is cut
-- off by the end of the process.
pub data Reply : Type 0 where
  accepted : Reply
  refused : String → Reply
  lost cut_off : Reply

pub record Attempt : Type 0 where
  -- `ready()` before the selection and before the claim.
  pub ready : Bool
  pub still_ready : Bool
  -- `authorize` resolves, and the calls that others make meanwhile.
  pub authorize : ReactionOperation → Bool
  pub during_check : List Call
  -- `reactMessage`, and the calls that others make meanwhile.
  pub reply : Request → Reply
  pub during_reply : List Call

-- The variables of `process`.
pub record Progress : Type 0 where
  pub db : Database
  pub excluded : List String
  pub sent : ℕ
  pub failed : Bool

-- `return sent`, the error at the end, another exception, and the end of the process.
pub data Outcome : Type 0 where
  done : ℕ → Outcome
  pending thrown ended : Outcome

-- One turn of the loop, with the part that was handed to the backend.
pub data Turn : Type 0 where
  again : Progress → List Claimed → Turn
  stop : Database → Outcome → List Claimed → Turn

-- `if (failed) throw ...; return sent`.
abbrev pub conclude : Progress → Turn
conclude s = stop s.db (if s.failed then pending else done s.sent) []

abbrev pub exclude : String → Progress → Progress
exclude chat s = record s { excluded = s.excluded ++ chat ∷ []; failed = true }

-- What follows an operation of the journal that may throw.
abbrev pub continue_with : Database → List Claimed → Result Database → (Database → Progress) → Turn
continue_with db handed (err e) f = stop db thrown handed
continue_with db handed (ok db') f = again (f db') handed

abbrev pub succeed : Progress → Database → Progress
succeed s db = record s { db = db; sent = suc s.sent }

-- The reply of the backend to the part `c` of a plan.
unfoldable pub answer : Progress → Database → Claimed → String → Reply → Turn
answer s db c chat cut_off = stop db ended (c ∷ [])
answer s db c chat accepted =
    continue_with db (c ∷ []) (finish db c.profile c.event c.part Completion.sent) (succeed s)
answer s db c chat lost =
    continue_with db (c ∷ []) (finish db c.profile c.event c.part Completion.outcome_unknown)
      (λ db'. exclude chat (record s { db = db' }))
answer s db c chat (refused code) = elim (is_code code) [
  | true ↦ continue_with db (c ∷ []) (reject db c.profile c.event c.part code) (succeed s)
  | false ↦
      continue_with db (c ∷ []) (finish db c.profile c.event c.part Completion.outcome_unknown)
        (λ db'. exclude chat (record s { db = db' }))
]

abbrev pub request : String → ReactionOperation → ℕ → Request
request profile o part = record {
  profile = profile;
  chat_id = o.chat;
  message_id = or_empty (message_at part o.messages);
  emoji = o.emoji;
  action = o.action;
}

-- What follows the claim.
unfoldable pub dispatch : String → Attempt → Progress → Database → ReactionOperation → ℕ → Turn
unfolding answer
dispatch profile a s db o part = elim (requires_remote_mutation db profile o.event part) [
  | err e ↦ stop db thrown []
  | ok false ↦ continue_with db [] (finish db profile o.event part Completion.sent) (succeed s)
  | ok true ↦
      answer s (run a.during_reply db).0
        (record { profile = profile; event = o.event; part = part }) o.chat
        (a.reply (request profile o part))
]

unfoldable pub claim_and_dispatch : String → Attempt → Progress → ReactionOperation → ℕ → Turn
unfolding dispatch
claim_and_dispatch profile a s o part =
    elim (claim s.db profile (some (o.event, part)) s.excluded) [
      | err e ↦ stop s.db thrown []
      | ok (db, none) ↦ again (record s { db = db }) []
      | ok (db, some (operation, n)) ↦ dispatch profile a s db operation n
    ]

unfoldable pub attempt : String → Attempt → Progress → ReactionOperation → ℕ → Turn
unfolding claim_and_dispatch
attempt profile a s o part =
    let later = record s { db = (run a.during_check s.db).0 } in
    elim (a.authorize o) [
      | false ↦ again (exclude o.chat later) []
      | true ↦ elim a.still_ready [
        | false ↦ conclude later
        | true ↦ claim_and_dispatch profile a later o part
      ]
    ]

unfoldable pub turn : String → Attempt → Progress → Turn
unfolding attempt
turn profile a s = elim a.ready [
  | false ↦ conclude s
  | true ↦ elim (next s.db profile s.excluded) [
    | err e ↦ stop s.db thrown []
    | ok none ↦ conclude s
    | ok (some (o, part)) ↦ attempt profile a s o part
  ]
]

pub record Pass : Type 0 where
  pub db : Database
  pub outcome : Outcome
  pub handed : List Claimed

abbrev pub pass_of : Turn → (Progress → Pass) → Pass
pass_of (stop db outcome handed) f = record { db = db; outcome = outcome; handed = handed }
pass_of (again s handed) f =
    let rest = f s in
    record { db = rest.db; outcome = rest.outcome; handed = handed ++ rest.handed }

-- The loop, with the turns that the limit leaves.
unfoldable pub process : String → ℕ → List Attempt → Progress → Pass
unfolding turn
process profile zero attempts s =
    pass_of (conclude s) (λ t. record { db = t.db; outcome = ended; handed = [] })
process profile (suc n) [] s = record { db = s.db; outcome = ended; handed = [] }
process profile (suc n) (a ∷ attempts) s =
    pass_of (turn profile a s) (λ t. process profile n attempts t)

unfoldable pub drain : String → ℕ → List Attempt → Database → Pass
unfolding process
drain profile limit attempts db =
    if leb 1 limit && leb limit 1000
    then process profile limit attempts
        (record { db = db; excluded = []; sent = 0; failed = false })
    else record { db = db; outcome = thrown; handed = [] }

-- What the journal lives through: passes, restarts, and calls of others.
pub data Event : Type 0 where
  pass : ℕ → List Attempt → Event
  restart : Event
  other : Call → Event

-- The journal after some events, and what was handed to the backend.
unfoldable pub serve : String → List Event → Database → Database × List Claimed
unfolding drain
serve profile [] db = (db, [])
serve profile (restart ∷ events) db = serve profile events (recover_interrupted db)
serve profile (other c ∷ events) db = serve profile events (call c db).0
serve profile (pass limit attempts ∷ events) db =
    let p = drain profile limit attempts db in
    let rest = serve profile events p.db in (rest.0, p.handed ++ rest.1)
