-- ===== src/Outbox/Worker/Delivery.antt =====
-- The worker hands each request to the sender at most once (src/outbox/worker.ts).
use threema_beeper.Prelude.{
  ℕ, ◌+◌, ◌≡◌, refl, ap, ◌∙◌, ◌⊎◌, inl, inr, false, List, [], ◌∷◌, ◌++◌, String, none, some, arith,
  Bool-cases, Option-cases,
}
use threema_beeper.Outbox.Result.{Result, ok, err, Error}
use threema_beeper.Outbox.Request.{has_duplicates}
use threema_beeper.Outbox.Tables.{Database, TextRequest, OutboxRecord}
use threema_beeper.Outbox.Store.Dispatch.{next_prepared, claim, defer_preflight, recover_requests}
use threema_beeper.Outbox.Store.Parts.{record_ids, record_sent}
use threema_beeper.Outbox.Store.Invariant.{Inv}
use threema_beeper.Outbox.Store.Claim.{Claimed, idle, taken, claim-Claimed}
use threema_beeper.Outbox.Store.History.{
  defers, recovers, gives_up, records, sends, Run, start, dispatch, other, Run-Inv,
}
use threema_beeper.Outbox.Store.Once.{dispatched_once}
use threema_beeper.Outbox.Worker
use threema_beeper.Outbox.Worker.{
  Attempt, Reply, returned, threw, cut_off, Pass, Event, pass, restart, done, failed, retry_delay,
  after, persist, conclude, claim_and_send, attempt, perform, handed_ids, serve,
}

pub Result-cases {ℓ} :
    {A : Type ℓ} (m : Result A) → ((a : A) × (m ≡ ok a)) ⊎ ((e : Error) × (m ≡ err e))
Result-cases (ok a) = inl (a, refl)
Result-cases (err e) = inr (e, refl)

module _ (db : Database) {ids : List String} where
  persist-Run :
      (mid : Database) (id : String) (lists : List (List String))
      → Run db ids mid
      → Run db ids (persist mid id lists)
  unfolding persist
  persist-Run mid id [] run = run
  persist-Run mid id (l ∷ lists) run = elim (Result-cases (record_ids mid id l)) [
    | inl (next, e) ↦ rw e (persist-Run next id lists (other run (records id l e)))
    | inr (x, e) ↦ rw e (persist-Run mid id lists run)
  ]

  conclude-Run :
      (mid : Database) (r : TextRequest) (reply : Reply)
      → Run db ids mid
      → Run db ids (conclude mid r reply).db
  unfolding conclude
  conclude-Run mid r cut_off run = run
  conclude-Run mid r threw run = other run (gives_up r.request_id refl)
  conclude-Run mid r (returned l) run = elim (Result-cases (record_sent mid r.request_id l)) [
    | inl (next, e) ↦ rw (e, conclude) (other run (sends r.request_id l e))
    | inr (x, e) ↦ rw (e, conclude) (other run (gives_up r.request_id refl))
  ]

conclude-handed :
    (db : Database) (r : TextRequest) (reply : Reply) → (conclude db r reply).handed ≡ some r
unfolding conclude
conclude-handed db r cut_off = refl
conclude-handed db r threw = refl
conclude-handed db r (returned l) = ground arith

-- The history after a pass.
abbrev After : Database → List String → Pass → Type 0
After db ids p = Run db (handed_ids p.handed ++ ids) p.db

module _ (db : Database) (h : Inv db) {ids : List String} where
  send-After :
      (mid next : Database) (a : Attempt) (id : String) (r : OutboxRecord)
      → Run db ids mid
      → claim mid (some id) a.now_claim ≡ ok (next, some r)
      → After db ids (Worker.dispatch a next r.request)
  unfolding Worker.dispatch
  send-After mid next a id r run e =
      rw
        (conclude-handed (persist next r.request.request_id (a.allocations r.request)) r.request
          (a.reply r.request))
        (conclude-Run db _ r.request (a.reply r.request) (
          persist-Run db next r.request.request_id (a.allocations r.request)
            (dispatch run (some id) a.now_claim r e)))

  claim_and_send-After :
      (mid : Database) (a : Attempt) (id : String)
      → Run db ids mid
      → After db ids (claim_and_send a mid id)
  unfolding claim_and_send
  claim_and_send-After mid a id run = elim (Result-cases (claim mid (some id) a.now_claim)) [
    | inr (x, e) ↦ rw (e, claim_and_send) run
    | inl ((next, found), e) ↦ elim (Option-cases found) [
      | inl missing ↦
          rw (e, missing, claim_and_send)
            (unchanged next (
              claim-Claimed mid (some id) a.now_claim (next, none) (Run-Inv db h run)
                (e ∙ ap (λ f. ok (next, f)) missing)))
      | inr (r, taken') ↦
          rw (e, taken', claim_and_send)
            (send-After mid next a id r run (e ∙ ap (λ f. ok (next, f)) taken'))
    ]
  ]
    where
      unchanged : (next : Database) → Claimed mid a.now_claim (next, none) → Run db ids next
      unchanged next (idle same) = let e : next ≡ mid = ground arith in rw e run
      unchanged next (taken row m n moved) = absurd (ground arith)

  attempt-After :
      (delay : ℕ) (mid : Database) (a : Attempt) (c : OutboxRecord)
      → Run db ids mid
      → After db ids (attempt delay a mid c)
  unfolding attempt
  attempt-After delay mid a c run = elim (Bool-cases (a.check c.request)) [
    | inr refused ↦ rw refused (
        put_off
          (defer_preflight mid c.request.request_id
            (a.now_failed + retry_delay delay c.preflight_failures))
          refl)
    | inl passed ↦ rw passed (elim (Bool-cases a.still_ready) [
      | inr stopped ↦ rw stopped run
      | inl on ↦ rw on (claim_and_send-After mid a c.request.request_id run)
    ])
  ]
    where
      put_off :
          (d : Result Database)
          → defer_preflight mid c.request.request_id
              (a.now_failed + retry_delay delay c.preflight_failures)
            ≡ d
          → Run db ids (after mid d)
      put_off (ok next) e = other run (defers c.request.request_id _ e)
      put_off (err x) e = run

  perform-After :
      (delay : ℕ) (mid : Database) (a : Attempt)
      → Run db ids mid
      → After db ids (perform delay a mid)
  unfolding perform
  perform-After delay mid a run = elim (Bool-cases a.ready) [
    | inr stopped ↦ rw stopped run
    | inl on ↦ rw on (elim (Result-cases (next_prepared mid a.now)) [
      | inr (x, e) ↦ rw e run
      | inl (found, e) ↦ rw e (elim (Option-cases found) [
        | inl missing ↦ rw missing run
        | inr (c, got) ↦ rw got (attempt-After delay mid a c run)
      ])
    ])
  ]

serve-Run :
    (db : Database) (delay : ℕ) (events : List Event) (mid : Database) {ids : List String}
    → Inv db
    → Run db ids mid
    → Run db (serve delay events mid ids).1 (serve delay events mid ids).0
unfolding serve
serve-Run db delay [] mid h run = run
serve-Run db delay (restart ∷ events) mid h run =
    serve-Run db delay events (recover_requests mid) h (other run (recovers refl))
serve-Run db delay (pass a ∷ events) mid h run =
    serve-Run db delay events (perform delay a mid).db h (perform-After db h delay mid a run)

-- Whatever the sender, the clock and the checks answer, and however often the process restarts,
-- the worker hands no request to the sender twice.
pub handed_once :
    (db : Database) (delay : ℕ) (events : List Event)
    → Inv db
    → has_duplicates (serve delay events db []).1 ≡ false
handed_once db delay events h = dispatched_once db h (serve-Run db delay events db h start)
