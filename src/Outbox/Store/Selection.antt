-- ===== src/Outbox/Store/Selection.antt =====
-- What `get` and `nextPrepared` return (src/outbox/store.ts).
use threema_beeper.Prelude.{
  eq_iff, ℕ, ◌≡◌, refl, ◌≤◌, ◌⊎◌, inl, inr, String, true, false, List, [], ◌∷◌, Memᴰ, some, none,
  arith, select_one, select_one-Mem, select_one-none, All, All-of, Option-cases,
}
use threema_beeper.Outbox.Result.{ok}
use threema_beeper.Outbox.Request.{are_ids, validate_ids, max_safe}
use threema_beeper.Outbox.Tables.{Database, OutboxRecord, RequestRow}
use threema_beeper.Outbox.Store.Query.{has_id, ids_of, checked_ids, read_row, get}
use threema_beeper.Outbox.Store.Dispatch.{is_next, next_prepared}
use threema_beeper.Outbox.Store.Invariant.{IsRow, HasParts, Inv, select_one-has_id}

-- The record that a row and its parts make.
abbrev pub record_of : Database → RequestRow → OutboxRecord
record_of db row = record {
  request = row.body;
  state = row.state;
  ids = ids_of row.id db.parts;
  retry_at = row.retry_at;
  preflight_failures = row.preflight_failures;
}

checked_ids_lem : (ids : List String) → (ids ≡ []) ⊎ (are_ids ids ≡ true) → checked_ids ids ≡ ok ids
unfolding validate_ids
checked_ids_lem [] h = refl
checked_ids_lem (x ∷ xs) (inl e) = absurd (cc)
checked_ids_lem (x ∷ xs) (inr e) = rw e refl

read_row_lem :
    (db : Database) (row : RequestRow)
    → Inv db
    → Memᴰ row db.requests
    → read_row db row.id row ≡ ok (record_of db row)
unfolding read_row
read_row_lem db row h m =
    rw
      (
        (All-of (IsRow db.next_sequence) db.requests h.rows m).valid,
        checked_ids_lem (ids_of row.id db.parts)
            (All-of (HasParts db.parts) db.requests h.allocated m).ids,
      )
      refl

-- A stored row is read back whole: `get` never throws on it.
pub get_lem :
    (db : Database) (row : RequestRow)
    → Inv db
    → Memᴰ row db.requests
    → get db row.id ≡ ok (some (record_of db row))
unfolding get
get_lem db row h m =
    ground (arith, select_one-has_id row db.requests h.order m, read_row_lem db row h m)

-- What a record returned by `next_prepared` stands for.
pub record Found (db : Database) (now : ℕ) (r : OutboxRecord) : Type 0 where
  pub row : RequestRow
  pub member : Memᴰ row db.requests
  pub next : is_next db now row ≡ true
  pub is_record : r ≡ record_of db row

pub next_prepared-Found :
    (db : Database) (now : ℕ) (r : OutboxRecord)
    → Inv db
    → next_prepared db now ≡ ok (some r)
    → Found db now r
unfolding next_prepared
next_prepared-Found db now r h e = elim (Option-cases (select_one (is_next db now) db.requests)) [
  | inl empty ↦ absurd (ground arith)
  | inr (row, found) ↦
      let (m, t) = select_one-Mem (is_next db now) db.requests found in
      record { row = row; member = m; next = t; is_record = ground (arith, get_lem db row h m) }
]

-- The selection never throws: some row is next, or none is.
pub next_prepared-total :
    (db : Database) (now : ℕ)
    → Inv db
    → now ≤ max_safe
    → ((next_prepared db now ≡ ok none) × All (λ r. is_next db now r ≡ false) db.requests)
      ⊎ ((row : RequestRow) × Memᴰ row db.requests
          × (is_next db now row ≡ true)
          × (next_prepared db now ≡ ok (some (record_of db row))))
unfolding next_prepared
next_prepared-total db now h le = elim (Option-cases (select_one (is_next db now) db.requests)) [
  | inl empty ↦ inl (ground arith, select_one-none (is_next db now) db.requests empty)
  | inr (row, found) ↦
      let (m, t) = select_one-Mem (is_next db now) db.requests found in
      inr (row, m, t, ground (arith, get_lem db row h m))
]

-- A record that `get` returns is that of a stored row.
pub get-Mem :
    (db : Database) (id : String) (r : OutboxRecord)
    → Inv db
    → get db id ≡ ok (some r)
    → (row : RequestRow) × Memᴰ row db.requests × (row.id ≡ id) × (r ≡ record_of db row)
unfolding get
get-Mem db id r h e = elim (Option-cases (select_one (has_id id) db.requests)) [
  | inl empty ↦ absurd (ground arith)
  | inr (row, found) ↦
      let (m, t) = select_one-Mem (has_id id) db.requests found in
      let same = (eq_iff row.id id).0 t in (row, m, same, ground (arith, get_lem db row h m, same))
]
