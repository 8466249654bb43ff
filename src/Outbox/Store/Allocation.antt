-- ===== src/Outbox/Store/Allocation.antt =====
-- `recordIds`, `sent` and `observe` keep the invariant (src/outbox/store.ts).
use threema_beeper.Prelude.{
  ℕ, suc, ◌≡◌, refl, ◌∙◌, inl, inr, String, true, false, ◌||◌, List, [], ◌∷◌, ◌++◌, Memᴰ, arith,
  str_eq, eq_refl, exists, All, All-of, All-append, All-intro, Bool-cases, exists_of_mem,
}
use mathlib.Core.List.{append-nil, append_assoc}
use threema_beeper.Outbox.Result.{ok, refuse-eq-ok, constraint}
use threema_beeper.Outbox.Request.{are_ids}
use threema_beeper.Outbox.Tables.{Database, RequestRow, PartRow}
use threema_beeper.Outbox.Store.Query.{is_dispatching, has_message, ids_of}
use threema_beeper.Outbox.Store.Parts.{insert_parts, is_pending}
use threema_beeper.Outbox.Store.Invariant.{IsOwned, HasParts, Inv, owns, eq_of_same_id}

-- The rows that `recordIds` inserts.
abbrev pub part_rows : String → String → ℕ → List String → List PartRow
part_rows id profile n [] = []
part_rows id profile n (m ∷ ms) =
    record { request = id; profile = profile; message = m; part = n; observed = false }
    ∷ part_rows id profile (suc n) ms

pub insert_parts-part_rows :
    (id profile : String) (n : ℕ) (ids : List String) (parts out : List PartRow)
    → insert_parts id profile n ids parts ≡ ok out
    → out ≡ parts ++ part_rows id profile n ids
unfolding insert_parts
insert_parts-part_rows id profile n [] parts out e = ground (arith, append-nil parts)
insert_parts-part_rows id profile n (m ∷ ms) parts out e =
    let (fresh, rest) = refuse-eq-ok (exists (has_message profile m) parts) constraint _ e in
    insert_parts-part_rows id profile (suc n) ms (parts ++ one ∷ []) out rest
    ∙ append_assoc parts (one ∷ []) (part_rows id profile (suc n) ms)
  where
    one : PartRow
    one = record { request = id; profile = profile; message = m; part = n; observed = false }

ids_of-append :
    (id : String) (xs ys : List PartRow) → ids_of id (xs ++ ys) ≡ ids_of id xs ++ ids_of id ys
unfolding ids_of
ids_of-append id [] ys = refl
ids_of-append id (x ∷ xs) ys = ground (arith, ids_of-append id xs ys)

is_pending-append :
    (id : String) (xs ys : List PartRow)
    → is_pending id (xs ++ ys) ≡ (is_pending id xs || is_pending id ys)
unfolding is_pending
is_pending-append id [] ys = refl
is_pending-append id (x ∷ xs) ys = ground (arith, is_pending-append id xs ys)

ids_of-part_rows :
    (id profile : String) (n : ℕ) (ids : List String) → ids_of id (part_rows id profile n ids) ≡ ids
unfolding ids_of
ids_of-part_rows id profile n [] = refl
ids_of-part_rows id profile n (m ∷ ms) =
    ground (arith, eq_refl id, ids_of-part_rows id profile (suc n) ms)

-- They are parts of no other request.
part_rows-other :
    (id other profile : String) (n : ℕ) (ids : List String)
    → str_eq id other ≡ false
    → (ids_of other (part_rows id profile n ids) ≡ [])
      × (is_pending other (part_rows id profile n ids) ≡ false)
unfolding ids_of is_pending
part_rows-other id other profile n [] e = (refl, refl)
part_rows-other id other profile n (m ∷ ms) e =
    ground (arith, part_rows-other id other profile (suc n) ms e)

module _ (db : Database) (row : RequestRow) (h : Inv db) (m : Memᴰ row db.requests) where
  -- New parts of a dispatching request without parts keep the invariant.
  pub Inv-allocate :
      (profile : String) (ids : List String)
      → is_dispatching row.state ≡ true
      → ids_of row.id db.parts ≡ []
      → are_ids ids ≡ true
      → Inv (record db { parts = db.parts ++ part_rows row.id profile 0 ids })
  Inv-allocate profile ids flying empty valid = record {
    rows = h.rows;
    order = h.order;
    owned = All-append (IsOwned db.requests) db.parts new h.owned (owned_rows 0 ids);
    allocated = All-intro (HasParts (db.parts ++ new)) db.requests (λ x mx.
        elim (Bool-cases (str_eq row.id x.id)) [
          | inl same ↦ rw (← eq_of_same_id row x db.requests h.order m mx same) (record {
            ids = inr (
                rw (ids_of-append row.id db.parts new, empty, ids_of-part_rows row.id profile 0 ids)
                  valid);
            complete = λ e. absurd (ground arith);
          })
          | inr other ↦
              kept x (All-of (HasParts db.parts) db.requests h.allocated mx)
                (part_rows-other row.id x.id profile 0 ids other)
        ]);
  }
    where
      new : List PartRow
      new = part_rows row.id profile 0 ids

      owned_rows :
          (n : ℕ) (ms : List String) → All (IsOwned db.requests) (part_rows row.id profile n ms)
      owned_rows n [] = tt
      owned_rows n (x ∷ ms) = (
        exists_of_mem
            (owns (record {
              request = row.id;
              profile = profile;
              message = x;
              part = n;
              observed = false;
            }))
            db.requests m (ground (arith, eq_refl row.id)),
        owned_rows (suc n) ms,
      )

      kept :
          (x : RequestRow)
          → HasParts db.parts x
          → (ids_of x.id new ≡ []) × (is_pending x.id new ≡ false)
          → HasParts (db.parts ++ new) x
      kept x hp o = record {
        ids = rw (ids_of-append x.id db.parts new, o.0, append-nil (ids_of x.id db.parts)) hp.ids;
        complete =
            λ e. rw (is_pending-append x.id db.parts new) (ground (arith, hp.complete e, o.1));
      }
