-- ===== src/Outbox/Store/History.antt =====
-- Any sequence of operations on the text journal (src/outbox/store.ts), restarts included.
use threema_beeper.Prelude.{
  Bool, none, ◌++◌, All, Pairs, subst, sym, str_eq, ◌&&◌, exists, if◌then◌else◌, ℕ, ◌≡◌, refl, inl,
  inr, String, true, List, [], ◌∷◌, Option, some, arith, exists-map, All-imp, All-map,
  Pairs-map_mem, All-every, Bool-cases, update, update_row,
}
use threema_beeper.Outbox.Result.{
  ok, err, >>=-eq-ok, refuse-eq-ok, mutation_event, media_event, invalid_rejection, reaction_event,
  accepted_event, rejection_conflict,
}
use threema_beeper.Outbox.Request.{max_safe}
use threema_beeper.Outbox.Result.{require-eq-ok, invalid_retry_deadline}
use threema_beeper.Prelude.{leb, min, ◌+◌}
use threema_beeper.Outbox.Tables.{
  Database, OutboxRecord, RequestRow, PartRow, RejectionRow, TextRequest, outcome_unknown,
}
use threema_beeper.Outbox.Mutations.Journal
use threema_beeper.Outbox.Slots.{Position}
use threema_beeper.Outbox.Store.Query.{is_some, media_exists, reaction_exists, rejection, has_event}
use threema_beeper.Outbox.Store.Recovery.{is_delayed, retry_prepared}
use threema_beeper.Outbox.Store.Reorder.{reorder_prepared}
use threema_beeper.Outbox.Store.Reorder.Kept.{reorder-Inv}
use threema_beeper.Outbox.Store.Prepare.{Content, prepare, reject_event, is_rejection}
use threema_beeper.Outbox.Store.Dispatch.{
  claim, defer_preflight, recover_requests, unknown, update_requests, waiting, in_flight,
  is_interrupted,
}
use threema_beeper.Outbox.Store.Parts.{record_ids, record_sent, observe}
use threema_beeper.Outbox.Store.Invariant.{Before, IsRow, IsOwned, HasParts, Inv, owns}
use threema_beeper.Outbox.Store.Updates.{Inv-update, order-update}
use threema_beeper.Outbox.Store.Claim.{Claimed, idle, taken, claim-Claimed, Inv-dispatch}
use threema_beeper.Outbox.Store.Insertion.{prepare-Inv}
use threema_beeper.Outbox.Store.Recording.{record_ids-Inv, record_sent-Inv}
use threema_beeper.Outbox.Store.Echo.{observe-Inv}

recover-Inv : (db : Database) → Inv db → Inv (recover_requests db)
unfolding recover_requests
recover-Inv db h =
    Inv-update is_interrupted outcome_unknown db refl
      (order-update is_interrupted outcome_unknown db.requests
        (All-every _ db.requests (λ r e. ground arith)) refl h.order)
      (All-every _ db.requests (λ r e f. absurd (cc))) h

unknown-Inv : (db : Database) (id : String) → Inv db → Inv (unknown db id)
unfolding unknown
unknown-Inv db id h =
    Inv-update (in_flight id) outcome_unknown db refl
      (order-update (in_flight id) outcome_unknown db.requests
        (All-every _ db.requests (λ r e. ground arith)) refl h.order)
      (All-every _ db.requests (λ r e f. absurd (cc))) h

claim-Inv :
    (db : Database) (expected : Option String) (now : ℕ) (o : Database × Option OutboxRecord)
    → Inv db
    → claim db expected now ≡ ok o
    → Inv o.0
claim-Inv db expected now o h e = keep (claim-Claimed db expected now o h e)
  where
    keep : Claimed db now o → Inv o.0
    keep (idle same) = rw same h
    keep (taken row m next moved) = rw moved (Inv-dispatch db now row h m next)

-- The operations other than a claim that succeeds, and the operations of the other journals, which
-- leave the tables of this one; an operation that throws changes nothing.
pub data Quiet (db db' : Database) : Type 0 where
  prepares :
      (sha256 : Content → String) (now : ℕ) (r : TextRequest) (o : Database × OutboxRecord)
      → prepare sha256 db now r ≡ ok o
      → db' ≡ o.0
      → Quiet db db'
  defers : (id : String) (retry_at : ℕ) → defer_preflight db id retry_at ≡ ok db' → Quiet db db'
  recovers : db' ≡ recover_requests db → Quiet db db'
  gives_up : (id : String) → db' ≡ unknown db id → Quiet db db'
  records : (id : String) (ids : List String) → record_ids db id ids ≡ ok db' → Quiet db db'
  sends : (id : String) (ids : List String) → record_sent db id ids ≡ ok db' → Quiet db db'
  observes :
      (profile chat message : String) (o : Database × Option OutboxRecord)
      → observe db profile chat message ≡ ok o
      → db' ≡ o.0
      → Quiet db db'
  rejects :
      (profile event room reason : String)
      → reject_event db profile event room reason ≡ ok db'
      → Quiet db db'
  retries : (profile : String) → db' ≡ (retry_prepared db profile).0 → Quiet db db'
  reorders :
      (source : String → Option Position) (n : ℕ)
      → reorder_prepared source db ≡ ok (db', n)
      → Quiet db db'
  elsewhere :
      db'.requests ≡ db.requests
      → db'.next_sequence ≡ db.next_sequence
      → db'.parts ≡ db.parts
      → Quiet db db'

-- A row with a new deadline and a new count of failures.
abbrev pub postponed : (RequestRow → ℕ) → (RequestRow → ℕ) → RequestRow → RequestRow
postponed at failures r = record r { retry_at = at r; preflight_failures = failures r }

abbrev pub deferred : ℕ → RequestRow → RequestRow
deferred retry_at = postponed (λ r. retry_at) (λ r. min (r.preflight_failures + 1) 30)

-- A new deadline changes nothing that the invariant reads.
module _ (test : RequestRow → Bool) (at failures : RequestRow → ℕ) where
  abbrev put_off : RequestRow → RequestRow
  put_off = update_row test (postponed at failures)

  IsRow-put_off : (n : ℕ) (r : RequestRow) → IsRow n r → IsRow n (put_off r)
  IsRow-put_off n r h = ground arith

  Before-put_off : (x y : RequestRow) → Before x y → Before (put_off x) (put_off y)
  Before-put_off x y b = ground arith

  owns-put_off : (p : PartRow) (r : RequestRow) → owns p r ≡ true → owns p (put_off r) ≡ true
  owns-put_off p r e = ground arith

  HasParts-put_off :
      (parts : List PartRow) (r : RequestRow) → HasParts parts r → HasParts parts (put_off r)
  HasParts-put_off parts r h = elim (Bool-cases (test r)) [
    | inl hit ↦ rw hit (record { ids = h.ids; complete = h.complete })
    | inr miss ↦ rw miss h
  ]

  Inv-put_off : (db : Database) → Inv db → Inv (update_requests test (postponed at failures) db)
  unfolding update_requests
  Inv-put_off db h = record {
    rows =
        All-map (IsRow db.next_sequence) (IsRow db.next_sequence) put_off db.requests
          (IsRow-put_off db.next_sequence) h.rows;
    order =
        Pairs-map_mem Before Before put_off db.requests (λ x y mx my b. Before-put_off x y b)
          h.order;
    owned =
        All-imp (IsOwned db.requests) (IsOwned (update test (postponed at failures) db.requests))
          db.parts (λ p e. exists-map (owns p) (owns p) put_off db.requests (owns-put_off p) e)
          h.owned;
    allocated =
        All-map (HasParts db.parts) (HasParts db.parts) put_off db.requests
          (HasParts-put_off db.parts) h.allocated;
  }

pub defer_lem :
    (db db' : Database) (id : String) (retry_at : ℕ)
    → defer_preflight db id retry_at ≡ ok db'
    → db' ≡ update_requests (waiting id) (deferred retry_at) db
unfolding defer_preflight
defer_lem db db' id retry_at e =
    let (fits, k) = require-eq-ok (leb retry_at max_safe) invalid_retry_deadline _ e in
    ground (arith, k)

-- Nothing but the three tables counts.
elsewhere-Inv :
    (db db' : Database)
    → db'.requests ≡ db.requests
    → db'.next_sequence ≡ db.next_sequence
    → db'.parts ≡ db.parts
    → Inv db
    → Inv db'
elsewhere-Inv db db' rows next parts h = record {
  rows =
      subst (λ n. All (IsRow n) db'.requests) (sym next)
        (subst (All (IsRow db.next_sequence)) (sym rows) h.rows);
  order = subst (Pairs Before) (sym rows) h.order;
  owned =
      subst (λ rs. All (IsOwned rs) db'.parts) (sym rows)
        (subst (All (IsOwned db.requests)) (sym parts) h.owned);
  allocated =
      subst (λ ps. All (HasParts ps) db'.requests) (sym parts)
        (subst (All (HasParts db.parts)) (sym rows) h.allocated);
}

pub reject_event_lem :
    (db db' : Database) (profile event room reason : String)
    → reject_event db profile event room reason ≡ ok db'
    → (db'.requests ≡ db.requests) × (db'.next_sequence ≡ db.next_sequence) × (db'.parts ≡ db.parts)
unfolding reject_event
reject_event_lem db db' profile event room reason e =
    let (m, em, e1) = >>=-eq-ok (Journal.get db profile event) _ e in
    let (no_mutation, e2) = refuse-eq-ok (is_some m) mutation_event _ e1 in
    let (no_media, e3) = refuse-eq-ok (media_exists db profile event) media_event _ e2 in
    let (fits, e4) =
      require-eq-ok (is_rejection profile event room reason) invalid_rejection _ e3 in
    let (no_reaction, e5) = refuse-eq-ok (reaction_exists db profile event) reaction_event _ e4 in
    let (no_request, e6) =
      refuse-eq-ok (exists (has_event profile event) db.requests) accepted_event _ e5 in
    stored (rejection db profile event) e6
  where
    stored :
        (old : Option RejectionRow)
        → (elim old [
          | some old ↦
              if str_eq old.room room && str_eq old.reason reason
              then ok db
              else err rejection_conflict
          | none ↦ ok (record db {
            rejections =
                db.rejections
                ++ record { profile = profile; event = event; room = room; reason = reason } ∷ [];
          })
        ])
          ≡ ok db'
        → (db'.requests ≡ db.requests)
          × (db'.next_sequence ≡ db.next_sequence)
          × (db'.parts ≡ db.parts)
    stored none k = (ground (arith, k), ground (arith, k), ground (arith, k))
    stored (some old) k = elim (Bool-cases (str_eq old.room room && str_eq old.reason reason)) [
      | inl same ↦ (ground (arith, k, same), ground (arith, k, same), ground (arith, k, same))
      | inr differs ↦ absurd (ground (arith, k, differs))
    ]

retried :
    (db : Database) (profile : String)
    → Inv (update_requests (is_delayed profile) (postponed (λ r. 0) (λ r. r.preflight_failures)) db)
    → Inv (retry_prepared db profile).0
unfolding update_requests retry_prepared
retried db profile k = record {
  rows = k.rows;
  order = k.order;
  owned = k.owned;
  allocated = k.allocated;
}

pub Quiet-Inv : (db db' : Database) → Inv db → Quiet db db' → Inv db'
Quiet-Inv db db' h (prepares sha256 now r o e same) = rw same (prepare-Inv sha256 db now r o h e)
Quiet-Inv db db' h (defers id retry_at e) =
    rw (defer_lem db db' id retry_at e)
      (Inv-put_off (waiting id) (λ r. retry_at) (λ r. min (r.preflight_failures + 1) 30) db h)
Quiet-Inv db db' h (recovers same) = rw same (recover-Inv db h)
Quiet-Inv db db' h (gives_up id same) = rw same (unknown-Inv db id h)
Quiet-Inv db db' h (records id ids e) = record_ids-Inv db id ids db' h e
Quiet-Inv db db' h (sends id ids e) = record_sent-Inv db id ids db' h e
Quiet-Inv db db' h (observes profile chat message o e same) =
    rw same (observe-Inv db profile chat message o h e)
Quiet-Inv db db' h (rejects profile event room reason e) =
    let (rows, next, parts) = reject_event_lem db db' profile event room reason e in
    elsewhere-Inv db db' rows next parts h
Quiet-Inv db db' h (retries profile same) =
    let k = Inv-put_off (is_delayed profile) (λ r. 0) (λ r. r.preflight_failures) db h in
    rw same (retried db profile k)
Quiet-Inv db db' h (reorders source n e) = reorder-Inv source db db' n h e
Quiet-Inv db db' h (elsewhere rows next parts) = elsewhere-Inv db db' rows next parts h

-- A history, with the IDs of the requests that it dispatched, the latest first.
pub data Run (db : Database) : List String → Database → Type 0 where
  start : Run db [] db
  dispatch :
      {ids : List String} {mid db' : Database}
      → Run db ids mid
      → (expected : Option String) (now : ℕ) (r : OutboxRecord)
      → claim mid expected now ≡ ok (db', some r)
      → Run db (r.request.request_id ∷ ids) db'
  other : {ids : List String} {mid db' : Database} → Run db ids mid → Quiet mid db' → Run db ids db'

-- Every history keeps the invariant.
pub Run-Inv :
    (db : Database) {ids : List String} {db' : Database} → Inv db → Run db ids db' → Inv db'
Run-Inv db h start = h
Run-Inv db h (dispatch {mid = mid} run expected now r e) =
    claim-Inv mid expected now _ (Run-Inv db h run) e
Run-Inv db h (other {mid = mid} {db' = db'} run q) = Quiet-Inv mid db' (Run-Inv db h run) q
