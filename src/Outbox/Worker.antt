-- ===== src/Outbox/Worker.antt =====
-- OutboxWorker (src/outbox/worker.ts): one pass of `perform`. The sender, the clock and the
-- readiness test are the environment's: an `Attempt` lists what they answer in one pass. The
-- callback that persists the allocated IDs is called by the sender, any number of times.
pub mod Delivery
use threema_beeper.Prelude.{
  ℕ, ◌+◌, ◌*◌, ◌^◌, Bool, not, List, [], ◌∷◌, ◌++◌, String, Option, none, some, min, if◌then◌else◌,
}
use threema_beeper.Outbox.Result.{Result, ok, err}
use threema_beeper.Outbox.Tables.{Database, TextRequest, OutboxRecord}
use threema_beeper.Outbox.Store.Dispatch.{
  next_prepared, recover_requests, claim, defer_preflight, unknown,
}
use threema_beeper.Outbox.Store.Parts.{record_ids, record_sent}

-- `sender.send` resolves to IDs, throws, or is cut off by the end of the process.
pub data Reply : Type 0 where
  returned : List String → Reply
  threw cut_off : Reply

pub record Attempt : Type 0 where
  -- `ready()` before the selection and before the claim.
  pub ready : Bool
  pub still_ready : Bool
  -- `now()` at the selection, at a failure of the check, and at the claim.
  pub now : ℕ
  pub now_failed : ℕ
  pub now_claim : ℕ
  -- `sender.check` resolves.
  pub check : TextRequest → Bool
  -- The lists that `sender.send` hands to `beforeSend`, and how it ends.
  pub allocations : TextRequest → List (List String)
  pub reply : TextRequest → Reply

pub data Outcome : Type 0 where
  -- `return false`, `return true`, and an exception.
  idle done failed : Outcome

pub record Pass : Type 0 where
  pub db : Database
  pub outcome : Outcome
  -- The request that was handed to `sender.send`.
  pub handed : Option TextRequest

unfoldable pub retry_delay : ℕ → ℕ → ℕ
retry_delay retry_delay_ms failures = min 300000 (retry_delay_ms * 2 ^ min failures 20)

-- An exception of an operation leaves the database as it was.
abbrev pub after : Database → Result Database → Database
after db (ok db') = db'
after db (err e) = db

-- The calls of `beforeSend`: each one is a transaction of its own.
unfoldable pub persist : Database → String → List (List String) → Database
persist db id [] = db
persist db id (ids ∷ rest) = persist (after db (record_ids db id ids)) id rest

-- What follows `send`.
unfoldable pub conclude : Database → TextRequest → Reply → Pass
conclude db r cut_off = record { db = db; outcome = failed; handed = some r }
conclude db r threw = record { db = unknown db r.request_id; outcome = failed; handed = some r }
conclude db r (returned ids) = elim (record_sent db r.request_id ids) [
  | ok db' ↦ record { db = db'; outcome = done; handed = some r }
  | err e ↦ record { db = unknown db r.request_id; outcome = failed; handed = some r }
]

unfoldable pub dispatch : Attempt → Database → TextRequest → Pass
unfolding persist conclude
dispatch a db r = conclude (persist db r.request_id (a.allocations r)) r (a.reply r)

abbrev pub stop : Database → Outcome → Pass
stop db o = record { db = db; outcome = o; handed = none }

unfoldable pub claim_and_send : Attempt → Database → String → Pass
unfolding dispatch
claim_and_send a db id = elim (claim db (some id) a.now_claim) [
  | err e ↦ stop db failed
  | ok (db', found) ↦ elim found [ none ↦ stop db' idle | some r ↦ dispatch a db' r.request ]
]

unfoldable pub attempt : ℕ → Attempt → Database → OutboxRecord → Pass
unfolding claim_and_send retry_delay
attempt retry_delay_ms a db candidate =
    let id = candidate.request.request_id in
    let until = a.now_failed + retry_delay retry_delay_ms candidate.preflight_failures in
    if not (a.check candidate.request)
    then stop (after db (defer_preflight db id until)) failed
    else if not a.still_ready
    then stop db idle
    else claim_and_send a db id

abbrev pub handed_ids : Option TextRequest → List String
handed_ids none = []
handed_ids (some r) = r.request_id ∷ []

unfoldable pub perform : ℕ → Attempt → Database → Pass
unfolding attempt
perform retry_delay_ms a db = if not a.ready then stop db idle else elim (next_prepared db a.now) [
  | err e ↦ stop db failed
  | ok found ↦ elim found [
    | none ↦ stop db idle
    | some candidate ↦ attempt retry_delay_ms a db candidate
  ]
]

-- What the worker's journal lives through: passes of the worker, and restarts of the process.
pub data Event : Type 0 where
  pass : Attempt → Event
  restart : Event

-- The journal after some events, and the IDs of the requests that were handed to the sender, the
-- latest first.
unfoldable pub serve : ℕ → List Event → Database → List String → Database × List String
unfolding perform
serve retry_delay_ms [] db sent = (db, sent)
serve retry_delay_ms (restart ∷ events) db sent =
    serve retry_delay_ms events (recover_requests db) sent
serve retry_delay_ms (pass a ∷ events) db sent =
    let p = perform retry_delay_ms a db in
    serve retry_delay_ms events p.db (handed_ids p.handed ++ sent)
