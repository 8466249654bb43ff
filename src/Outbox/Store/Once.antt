-- ===== src/Outbox/Store/Once.antt =====
-- No request is dispatched twice (src/outbox/store.ts).
use threema_beeper.Prelude.{
  subst, sym, min, ◌+◌, ℕ, ◌≡◌, refl, inl, inr, String, Bool, true, false, not, ◌&&◌, List, [], ◌∷◌,
  Memᴰ, Option, some, arith, str_eq, str_eq_comm, eq_refl, eq_iff, exists, exists-true, exists-map,
  exists_of_mem, exists-append_left, All, All-of, All-imp, Pairs-trichotomy, Bool-cases, update,
  update_row, mem-update,
}
use threema_beeper.Outbox.Result.{ok}
use threema_beeper.Outbox.Request.{has_duplicates}
use threema_beeper.Outbox.Tables.{
  Database, OutboxRecord, RequestRow, OutboxState, dispatching, outcome_unknown, acked, sent,
}
use threema_beeper.Outbox.Store.Query.{is_prepared, is_dispatching, has_id}
use threema_beeper.Outbox.Store.Prepare.{insert}
use threema_beeper.Outbox.Store.Dispatch.{
  claim, recover_requests, unknown, update_requests, set_state, waiting, in_flight, is_interrupted,
  is_next,
}
use threema_beeper.Outbox.Store.Parts.{apply_echo, mark_observed, is_pending}
use threema_beeper.Outbox.Store.Invariant.{Before, IsRow, Inv, same_chat, eq_of_same_id}
use threema_beeper.Outbox.Store.Recovery.{is_delayed, retry_prepared}
use threema_beeper.Outbox.Store.Reorder.Kept.{reorder-exists}
use threema_beeper.Outbox.Store.Claim.{Claimed, idle, taken, claim-Claimed}
use threema_beeper.Outbox.Store.Insertion.{Prepared, known, inserted, prepare-Prepared}
use threema_beeper.Outbox.Store.Recording.{
  Recorded, known as known_ids, added, record_ids-Recorded, Reported, reported,
  record_sent-Reported,
}
use threema_beeper.Outbox.Store.Echo.{Observed, absent, echoed, observe-Observed}
use threema_beeper.Outbox.Store.History.{
  Quiet, prepares, defers, recovers, gives_up, records, sends, observes, rejects, retries, reorders,
  elsewhere, postponed, reject_event_lem, defer_lem, Run, start, dispatch, other, Run-Inv,
}

-- A row of the ID has left PREPARED.
abbrev attempted : String → RequestRow → Bool
attempted id r = str_eq r.id id && not (is_prepared r.state)

unfoldable pub is_attempted : Database → String → Bool
is_attempted db id = exists (attempted id) db.requests

is_attempted-update :
    (test : RequestRow → Bool) (s : OutboxState) (db : Database) (id : String)
    → is_prepared s ≡ false
    → is_attempted db id ≡ true
    → is_attempted (update_requests test (set_state s) db) id ≡ true
unfolding is_attempted update_requests
is_attempted-update test s db id left e =
    exists-map (attempted id) (attempted id) (update_row test (set_state s)) db.requests
      (λ r h. ground arith) e

is_attempted-put_off :
    (db : Database) (test : RequestRow → Bool) (at failures : RequestRow → ℕ) (id : String)
    → is_attempted db id ≡ true
    → is_attempted (update_requests test (postponed at failures) db) id ≡ true
unfolding is_attempted update_requests
is_attempted-put_off db test at failures id e =
    exists-map (attempted id) (attempted id) (update_row test (postponed at failures)) db.requests
      (λ r h. ground arith) e

is_attempted-apply_echo :
    (db : Database) (i message id : String)
    → is_attempted db id ≡ true
    → is_attempted (apply_echo db i message) id ≡ true
unfolding apply_echo
is_attempted-apply_echo db i message id e =
    elim (Bool-cases (is_pending i (mark_observed i message db.parts))) [
      | inl more ↦ rw more (unfold is_attempted in e)
      | inr last ↦ rw last (
          is_attempted-update (has_id i) acked
            (record db { parts = mark_observed i message db.parts }) id refl
            (unfold is_attempted in e))
    ]

same_requests :
    (db db' : Database) (id : String)
    → db'.requests ≡ db.requests
    → is_attempted db id ≡ true
    → is_attempted db' id ≡ true
unfolding is_attempted
same_requests db db' id rows a = subst (λ rs. exists (attempted id) rs ≡ true) (sym rows) a

-- No operation takes an attempted request back to PREPARED.
pub Quiet-is_attempted :
    (db db' : Database) (id : String)
    → Inv db
    → Quiet db db'
    → is_attempted db id ≡ true
    → is_attempted db' id ≡ true
unfolding recover_requests unknown
Quiet-is_attempted db db' id h (prepares sha256 now r o e same) a =
    rw same (after (prepare-Prepared sha256 db now r o e).1)
  where
    after : {d : String} → Prepared db now d r o.0 → is_attempted o.0 id ≡ true
    after (known unchanged) = rw unchanged a
    after (inserted no_id no_event grown) =
        rw grown (unfold insert is_attempted in exists-append_left (attempted id) db.requests _ a)
Quiet-is_attempted db db' id h (defers i retry_at e) a = rw (defer_lem db db' i retry_at e) (
    is_attempted-put_off db (waiting i) (λ r. retry_at) (λ r. min (r.preflight_failures + 1) 30) id
      a)
Quiet-is_attempted db db' id h (recovers same) a =
    rw same (is_attempted-update is_interrupted outcome_unknown db id refl a)
Quiet-is_attempted db db' id h (gives_up i same) a =
    rw same (is_attempted-update (in_flight i) outcome_unknown db id refl a)
Quiet-is_attempted db db' id h (records i ids e) a = after (record_ids-Recorded db i ids db' h e).1
  where
    after : Recorded db i ids db' → is_attempted db' id ≡ true
    after (known_ids row m same stored unchanged) = rw unchanged a
    after (added row m same flying empty grown) = rw grown (unfold is_attempted in a)
Quiet-is_attempted db db' id h (sends i ids e) a = after (record_sent-Reported db i ids db' h e)
  where
    after : Reported db i ids db' → is_attempted db' id ≡ true
    after (reported row m same stored (inl (done, unchanged))) = rw unchanged a
    after (reported row m same stored (inr (flying, moved))) =
        rw moved (is_attempted-update (has_id i) sent db id refl a)
Quiet-is_attempted db db' id h (observes profile chat message o e same) a =
    rw same (after (observe-Observed db profile chat message o h e))
  where
    after : Observed db profile chat message o → is_attempted o.0 id ≡ true
    after (absent none' unchanged) = rw unchanged a
    after (echoed p row mp key mr same' written) =
        rw written (is_attempted-apply_echo db p.request p.message id a)
Quiet-is_attempted db db' id h (rejects profile event room reason e) a =
    same_requests db db' id (reject_event_lem db db' profile event room reason e).0 a
Quiet-is_attempted db db' id h (retries profile same) a = rw same (
    retried_attempt
      (is_attempted-put_off db (is_delayed profile) (λ r. 0) (λ r. r.preflight_failures) id a))
  where
    retried_attempt :
        is_attempted
            (update_requests
              (is_delayed profile)
              (postponed (λ r. 0) (λ r. r.preflight_failures))
              db)
            id
          ≡ true
        → is_attempted (retry_prepared db profile).0 id ≡ true
    retried_attempt k =
        unfold is_attempted retry_prepared in (unfold is_attempted update_requests in k)
Quiet-is_attempted db db' id h (reorders source n e) a =
    unfold is_attempted in
    reorder-exists source db db' n (attempted id) (λ o k. refl) e (unfold is_attempted in a)
Quiet-is_attempted db db' id h (elsewhere rows next parts) a = same_requests db db' id rows a

-- A claim takes a request that was never attempted, and leaves it attempted.
claim-is_attempted :
    (db : Database) (expected : Option String) (now : ℕ) (db' : Database) (r : OutboxRecord)
    → Inv db
    → claim db expected now ≡ ok (db', some r)
    → (is_attempted db r.request.request_id ≡ false)
      × (is_attempted db' r.request.request_id ≡ true)
      × ((id : String) → is_attempted db id ≡ true → is_attempted db' id ≡ true)
claim-is_attempted db expected now db' r h e =
    split (claim-Claimed db expected now (db', some r) h e)
  where
    split :
        Claimed db now (db', some r)
        → (is_attempted db r.request.request_id ≡ false)
          × (is_attempted db' r.request.request_id ≡ true)
          × ((id : String) → is_attempted db id ≡ true → is_attempted db' id ≡ true)
    split (idle none') = absurd (ground arith)
    split (taken row m next moved) =
        let same : r.request.request_id ≡ row.id =
          ground (arith, (All-of (IsRow db.next_sequence) db.requests h.rows m).id_body) in
        let grown : db' ≡ update_requests (has_id row.id) (set_state dispatching) db =
          ground arith in
        (
          rw same (fresh row m next),
          rw (same, grown) (taken_row row m),
          λ id a. rw grown (is_attempted-update (has_id row.id) dispatching db id refl a),
        )
      where
        fresh :
            (row : RequestRow)
            → Memᴰ row db.requests
            → is_next db now row ≡ true
            → is_attempted db row.id ≡ false
        fresh row m next = elim (Bool-cases (is_attempted db row.id)) [
          | inr miss ↦ miss
          | inl hit ↦
              let (x, mx, t) =
                exists-true (attempted row.id) db.requests (unfold is_attempted in hit) in
              absurd (clash x mx t)
        ]
          where
            clash : (x : RequestRow) → Memᴰ x db.requests → attempted row.id x ≡ true → ⊥
            clash x mx t =
                unfold is_next in
                ground (arith, eq_of_same_id x row db.requests h.order mx m (ground arith))

        taken_row :
            (row : RequestRow)
            → Memᴰ row db.requests
            → is_attempted (update_requests (has_id row.id) (set_state dispatching) db) row.id
              ≡ true
        taken_row row m =
            unfold is_attempted update_requests in
            exists_of_mem (attempted row.id)
              (update (has_id row.id) (set_state dispatching) db.requests)
              (mem-update (has_id row.id) (set_state dispatching) db.requests m)
              (ground (arith, eq_refl row.id))

-- What a history has dispatched stays attempted, and so does what was attempted before it.
Run-is_attempted :
    (db : Database) {ids : List String} {db' : Database}
    → Inv db
    → Run db ids db'
    → All (λ id. is_attempted db' id ≡ true) ids
      × ((id : String) → is_attempted db id ≡ true → is_attempted db' id ≡ true)
Run-is_attempted db h start = (tt, λ id a. a)
Run-is_attempted db h (dispatch {ids = ids} {mid = mid} {db' = db'} run expected now r e) =
    let (done, old) = Run-is_attempted db h run in
    let (fresh, now_taken, keep) = claim-is_attempted mid expected now db' r (Run-Inv db h run) e in
    (
      (
        now_taken,
        All-imp (λ id. is_attempted mid id ≡ true) (λ id. is_attempted db' id ≡ true) ids keep done,
      ),
      λ id a. keep id (old id a),
    )
Run-is_attempted db h (other {ids = ids} {mid = mid} {db' = db'} run q) =
    let (done, old) = Run-is_attempted db h run in
    (
      All-imp (λ id. is_attempted mid id ≡ true) (λ id. is_attempted db' id ≡ true) ids
          (λ id. Quiet-is_attempted mid db' id (Run-Inv db h run) q) done,
      λ id a. Quiet-is_attempted mid db' id (Run-Inv db h run) q (old id a),
    )

not_among :
    (db : Database) (id : String) (ids : List String)
    → is_attempted db id ≡ false
    → All (λ i. is_attempted db i ≡ true) ids
    → exists (str_eq id) ids ≡ false
not_among db id [] fresh a = refl
not_among db id (i ∷ ids) fresh a = ground (arith, eq_iff id i, not_among db id ids fresh a.1, a.0)

-- In a history of any length, restarts included, no request is dispatched twice.
pub dispatched_once :
    (db : Database) {ids : List String} {db' : Database}
    → Inv db
    → Run db ids db'
    → has_duplicates ids ≡ false
unfolding has_duplicates
dispatched_once db h start = refl
dispatched_once db h (dispatch {ids = ids} {mid = mid} {db' = db'} run expected now r e) =
    let (done, old) = Run-is_attempted db h run in
    let (fresh, taken', keep) = claim-is_attempted mid expected now db' r (Run-Inv db h run) e in
    ground (arith, dispatched_once db h run, not_among mid r.request.request_id ids fresh done)
dispatched_once db h (other run q) = dispatched_once db h run

-- A request that was attempted is never dispatched again by any history.
pub attempted_never_dispatched :
    (db : Database) {ids : List String} {db' : Database} (id : String)
    → Inv db
    → is_attempted db id ≡ true
    → Run db ids db'
    → exists (str_eq id) ids ≡ false
attempted_never_dispatched db id h a start = refl
attempted_never_dispatched db id h a (dispatch {mid = mid} {db' = db'} run expected now r e) =
    let (done, old) = Run-is_attempted db h run in
    let (fresh, taken', keep) = claim-is_attempted mid expected now db' r (Run-Inv db h run) e in
    ground (
      arith,
      attempted_never_dispatched db id h a run,
      eq_iff id r.request.request_id,
      old id a,
      fresh,
    )
attempted_never_dispatched db id h a (other run q) = attempted_never_dispatched db id h a run

-- Two requests of one chat are never in flight at once.
pub one_in_flight :
    (db : Database) {ids : List String} {db' : Database} (x y : RequestRow)
    → Inv db
    → Run db ids db'
    → Memᴰ x db'.requests
    → Memᴰ y db'.requests
    → same_chat x y ≡ true
    → is_dispatching x.state ≡ true
    → is_dispatching y.state ≡ true
    → x ≡ y
one_in_flight db {db' = db'} x y h run mx my chat fx fy =
    elim (Pairs-trichotomy Before db'.requests (Run-Inv db h run).order mx my) [
      | inl same ↦ same
      | inr (inl b) ↦ absurd (ground (arith, b.fifo))
      | inr (inr b) ↦
          absurd
            (ground (arith, b.fifo, str_eq_comm x.profile y.profile, str_eq_comm x.chat y.chat))
    ]
