-- ===== src/Outbox/Store/Recording.antt =====
-- `recordIds` and `sent` keep the invariant (src/outbox/store.ts).
use threema_beeper.Prelude.{
  ◌≡◌, refl, ap, subst, ◌∙◌, ◌⊎◌, inl, inr, String, true, false, List, [], ◌∷◌, ◌++◌, Memᴰ, arith,
  eq_iff, strs_eq, eq_of_strs_eq, All, All-intro, All-every, Bool-cases, Option-cases,
}
use threema_beeper.Outbox.Result.{
  ok, >>=-eq-ok, require-eq-ok, refuse-eq-ok, allocation_state_conflict, media_id_conflict,
  invalid_ids,
}
use threema_beeper.Outbox.Request.{validate_ids, are_ids}
use threema_beeper.Outbox.Tables.{Database, RequestRow, sent}
use threema_beeper.Outbox.Store.Query.{is_prepared, is_acked, is_dispatching, has_id, ids_of, get}
use threema_beeper.Outbox.Store.Dispatch.{update_requests, set_state}
use threema_beeper.Outbox.Store.Parts.{
  insert_parts, clashes_with_media, allocate, record_ids, accept_result, record_sent,
}
use threema_beeper.Outbox.Store.Invariant.{Inv, eq_of_same_id}
use threema_beeper.Outbox.Store.Updates.{Inv-update, order-update}
use threema_beeper.Outbox.Store.Selection.{record_of, get-Mem}
use threema_beeper.Outbox.Store.Allocation.{part_rows, insert_parts-part_rows, Inv-allocate}

-- What `recordIds` may do without throwing: the IDs are recorded already, or they are inserted
-- for a dispatching request that has none.
pub data Recorded (db : Database) (id : String) (ids : List String) (db' : Database) : Type 0 where
  known :
      (row : RequestRow)
      → Memᴰ row db.requests
      → row.id ≡ id
      → ids_of row.id db.parts ≡ ids
      → db' ≡ db
      → Recorded db id ids db'
  added :
      (row : RequestRow)
      → Memᴰ row db.requests
      → row.id ≡ id
      → is_dispatching row.state ≡ true
      → ids_of row.id db.parts ≡ []
      → db' ≡ record db { parts = db.parts ++ part_rows row.id row.body.profile 0 ids }
      → Recorded db id ids db'

allocate-Recorded :
    (db db' : Database) (row : RequestRow) (ids stored : List String)
    → Memᴰ row db.requests
    → ids_of row.id db.parts ≡ stored
    → allocate db row.id ids (record (record_of db row) { ids = stored }) ≡ ok db'
    → Recorded db row.id ids db'
unfolding allocate
allocate-Recorded db db' row ids (x ∷ xs) m s e =
    let (flying, k) = require-eq-ok (is_dispatching row.state) allocation_state_conflict _ e in
    elim (Bool-cases (strs_eq (x ∷ xs) ids)) [
      | inl same ↦ known row m refl (s ∙ eq_of_strs_eq (x ∷ xs) ids same) (ground arith)
      | inr other ↦ absurd (ground arith)
    ]
allocate-Recorded db db' row ids [] m s e =
    let (flying, k) = require-eq-ok (is_dispatching row.state) allocation_state_conflict _ e in
    let (free, k2) =
      refuse-eq-ok (clashes_with_media db row.body.profile ids) media_id_conflict _ k in
    let (parts, ins, k3) = >>=-eq-ok (insert_parts row.id row.body.profile 0 ids db.parts) _ k2 in
    added row m refl flying s
      (ground (arith, insert_parts-part_rows row.id row.body.profile 0 ids db.parts parts ins))

pub record_ids-Recorded :
    (db : Database) (id : String) (ids : List String) (db' : Database)
    → Inv db
    → record_ids db id ids ≡ ok db'
    → (are_ids ids ≡ true) × Recorded db id ids db'
unfolding record_ids validate_ids
record_ids-Recorded db id ids db' h e =
    let (valid, e1) = require-eq-ok (are_ids ids) invalid_ids _ e in
    let (found, eg, e2) = >>=-eq-ok (get db id) _ e1 in
    elim (Option-cases found) [
      | inl missing ↦ absurd (ground arith)
      | inr (r, got) ↦
          let (row, m, same, is_r) = get-Mem db id r h (eg ∙ ap ok got) in
          (
            valid,
            subst (λ i. Recorded db i ids db') same
                (allocate-Recorded db db' row ids (ids_of row.id db.parts) m refl
                  (ground (arith, got, same, is_r))),
          )
    ]

pub record_ids-Inv :
    (db : Database) (id : String) (ids : List String) (db' : Database)
    → Inv db
    → record_ids db id ids ≡ ok db'
    → Inv db'
record_ids-Inv db id ids db' h e =
    let (valid, r) = record_ids-Recorded db id ids db' h e in keep valid r
  where
    keep : are_ids ids ≡ true → Recorded db id ids db' → Inv db'
    keep valid (known row m same stored unchanged) = rw unchanged h
    keep valid (added row m same flying empty grown) =
        rw grown (Inv-allocate db row h m row.body.profile ids flying empty valid)

-- The row of an ID is attempted if some row of that ID is.
pub attempted_by_id :
    (db : Database) (row : RequestRow) (id : String)
    → Inv db
    → Memᴰ row db.requests
    → row.id ≡ id
    → is_prepared row.state ≡ false
    → All (λ r. has_id id r ≡ true → is_prepared r.state ≡ false) db.requests
attempted_by_id db row id h m same attempted =
    All-intro (λ r. has_id id r ≡ true → is_prepared r.state ≡ false) db.requests
      (λ r mr e. ground (
        arith,
        eq_of_same_id row r db.requests h.order m mr
            (ground (arith, eq_iff r.id id, eq_iff row.id r.id)),
      ))

-- `sent` that does not throw: nothing changes, or a dispatching request becomes SENT.
pub data Reported (db : Database) (id : String) (ids : List String) (db' : Database) : Type 0 where
  reported :
      (row : RequestRow)
      → Memᴰ row db.requests
      → row.id ≡ id
      → ids_of row.id db.parts ≡ ids
      → ((is_acked row.state ≡ true) × (db' ≡ db))
        ⊎ ((is_dispatching row.state ≡ true)
            × (db' ≡ update_requests (has_id id) (set_state sent) db))
      → Reported db id ids db'

pub record_sent-Reported :
    (db : Database) (id : String) (ids : List String) (db' : Database)
    → Inv db
    → record_sent db id ids ≡ ok db'
    → Reported db id ids db'
unfolding record_sent validate_ids accept_result
record_sent-Reported db id ids db' h e =
    let (valid, e1) = require-eq-ok (are_ids ids) invalid_ids _ e in
    let (found, eg, e2) = >>=-eq-ok (get db id) _ e1 in
    elim (Option-cases found) [
      | inl missing ↦ absurd (ground arith)
      | inr (r, got) ↦
          let (row, m, same, is_r) = get-Mem db id r h (eg ∙ ap ok got) in
          reported row m same (ground (arith, eq_of_strs_eq (ids_of row.id db.parts) ids))
            (ground arith)
    ]

pub record_sent-Inv :
    (db : Database) (id : String) (ids : List String) (db' : Database)
    → Inv db
    → record_sent db id ids ≡ ok db'
    → Inv db'
record_sent-Inv db id ids db' h e = keep (record_sent-Reported db id ids db' h e)
  where
    keep : Reported db id ids db' → Inv db'
    keep (reported row m same stored (inl (done, unchanged))) = rw unchanged h
    keep (reported row m same stored (inr (flying, moved))) = rw moved (
        Inv-update (has_id id) sent db refl
          (order-update (has_id id) sent db.requests
            (attempted_by_id db row id h m same (ground arith)) refl h.order)
          (All-every _ db.requests (λ r t f. absurd (cc))) h)
