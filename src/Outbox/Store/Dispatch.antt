-- ===== src/Outbox/Store/Dispatch.antt =====
-- `nextPrepared`, `claim`, `deferPreflight`, `recoverInterrupted` and `unknown` of OutboxStore
-- (src/outbox/store.ts).
use threema_beeper.Prelude.{
  ℕ, ◌+◌, String, Bool, true, false, not, ◌&&◌, min, Option, none, some, leb, ltb, str_eq, exists,
  select_one, update, if◌then◌else◌,
}
use threema_beeper.Outbox.Result.{
  Result, ok, invalid_time, invalid_retry_deadline, ◌>>◌, ◌>>=◌, require,
}
use threema_beeper.Outbox.Request.{max_safe}
use threema_beeper.Outbox.Tables.{
  Database, OutboxRecord, OutboxState, dispatching, sent, outcome_unknown, RequestRow,
}
use threema_beeper.Outbox.Store.Query.{is_prepared, is_dispatching, is_unsettled, has_id, get}

-- An earlier row of the same chat that is not settled.
unfoldable pub is_blocked : Database → RequestRow → Bool
is_blocked db current =
    exists
      (λ earlier.
        (str_eq earlier.profile current.profile && str_eq earlier.chat current.chat)
        && ltb earlier.sequence current.sequence
        && is_unsettled earlier.state)
      db.requests

unfoldable pub is_next : Database → ℕ → RequestRow → Bool
unfolding is_blocked
is_next db now current =
    is_prepared current.state && leb current.retry_at now && not (is_blocked db current)

unfoldable pub next_prepared : Database → ℕ → Result (Option OutboxRecord)
unfolding is_next
next_prepared db now = do
  require (leb now max_safe) invalid_time
  elim (select_one (is_next db now) db.requests) [ none ↦ ok none | some row ↦ get db row.id ]

-- UPDATE requests SET f WHERE test.
unfoldable pub update_requests :
    (RequestRow → Bool) → (RequestRow → RequestRow) → Database → Database
update_requests test f db = record db { requests = update test f db.requests }

abbrev pub set_state : OutboxState → RequestRow → RequestRow
set_state s r = record r { state = s }

abbrev pub is_expected : Option String → String → Bool
is_expected none id = true
is_expected (some expected) id = str_eq id expected

unfoldable pub claim : Database → Option String → ℕ → Result (Database × Option OutboxRecord)
unfolding update_requests
claim db expected now = do
  next ← next_prepared db now
  elim next [
    | none ↦ ok (db, none)
    | some r ↦
        let id = r.request.request_id in
        let db' = update_requests (has_id id) (set_state dispatching) db in
        if is_expected expected id then (do found ← get db' id; ok (db', found)) else ok (db, none)
  ]

abbrev pub waiting : String → RequestRow → Bool
waiting id r = str_eq r.id id && is_prepared r.state

unfoldable pub defer_preflight : Database → String → ℕ → Result Database
unfolding update_requests
defer_preflight db id retry_at = do
  require (leb retry_at max_safe) invalid_retry_deadline
  ok (
      update_requests (waiting id)
        (λ r. record r {
          retry_at = retry_at;
          preflight_failures = min (r.preflight_failures + 1) 30;
        })
        db)

-- state IN ('DISPATCHING','SENT').
abbrev pub is_interrupted : RequestRow → Bool
is_interrupted r = elim r.state [ dispatching ↦ true | sent ↦ true | _ ↦ false ]

-- The last statement of `recoverInterrupted`: the rows of `requests`.
unfoldable pub recover_requests : Database → Database
unfolding update_requests
recover_requests = update_requests is_interrupted (set_state outcome_unknown)

abbrev pub in_flight : String → RequestRow → Bool
in_flight id r = str_eq r.id id && is_dispatching r.state

unfoldable pub unknown : Database → String → Database
unfolding update_requests
unknown db id = update_requests (in_flight id) (set_state outcome_unknown) db
