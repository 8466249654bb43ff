-- ===== src/Outbox/Store/Updates.antt =====
-- UPDATE requests SET state=... keeps the invariant of the text journal (src/outbox/store.ts).
use threema_beeper.Prelude.{
  ℕ, ◌≡◌, Bool, true, false, List, arith, All, All-map, All-imp, All-both, Pairs, Pairs-map, update,
  update_row, exists-map, Bool-cases, inl, inr,
}
use threema_beeper.Outbox.Tables.{Database, OutboxState, RequestRow, PartRow}
use threema_beeper.Outbox.Store.Query.{is_prepared, is_acked}
use threema_beeper.Outbox.Store.Dispatch.{update_requests, set_state}
use threema_beeper.Outbox.Store.Parts.{is_pending}
use threema_beeper.Outbox.Store.Invariant.{Before, IsRow, IsOwned, HasParts, Inv, owns, is_past}

module _ (test : RequestRow → Bool) (s : OutboxState) where
  -- An attempted row that moves to a state in which its dispatch is over keeps the order.
  Before-update :
      (x y : RequestRow)
      → (test x ≡ true → is_prepared x.state ≡ false)
      → (test y ≡ true → is_prepared y.state ≡ false)
      → is_past s ≡ true
      → Before x y
      → Before (update_row test (set_state s) x) (update_row test (set_state s) y)
  Before-update x y hx hy past b = ground arith

  pub order-update :
      (rows : List RequestRow)
      → All (λ r. test r ≡ true → is_prepared r.state ≡ false) rows
      → is_past s ≡ true
      → Pairs Before rows
      → Pairs Before (update test (set_state s) rows)
  order-update rows attempted past =
      Pairs-map (λ r. test r ≡ true → is_prepared r.state ≡ false) Before Before
        (update_row test (set_state s)) rows (λ x y hx hy b. Before-update x y hx hy past b)
        attempted

  IsRow-update : (n : ℕ) (r : RequestRow) → IsRow n r → IsRow n (update_row test (set_state s) r)
  IsRow-update n r h = ground arith

  owns-update :
      (p : PartRow) (r : RequestRow)
      → is_prepared s ≡ false
      → owns p r ≡ true
      → owns p (update_row test (set_state s) r) ≡ true
  owns-update p r h e = ground arith

  HasParts-update :
      (parts : List PartRow) (r : RequestRow)
      → (test r ≡ true → is_acked s ≡ true → is_pending r.id parts ≡ false)
      → HasParts parts r
      → HasParts parts (update_row test (set_state s) r)
  HasParts-update parts r done h = elim (Bool-cases (test r)) [
    | inl hit ↦ rw hit (record { ids = h.ids; complete = done hit })
    | inr miss ↦ rw miss h
  ]

  -- Such an update keeps the invariant if it keeps the order, and acknowledges only requests with
  -- no part left to observe.
  pub Inv-update :
      (db : Database)
      → is_prepared s ≡ false
      → Pairs Before (update test (set_state s) db.requests)
      → All (λ r. test r ≡ true → is_acked s ≡ true → is_pending r.id db.parts ≡ false) db.requests
      → Inv db
      → Inv (update_requests test (set_state s) db)
  unfolding update_requests
  Inv-update db attempted order done h = record {
    rows =
        All-map (IsRow db.next_sequence) (IsRow db.next_sequence) (update_row test (set_state s))
          db.requests (IsRow-update db.next_sequence) h.rows;
    order = order;
    owned =
        All-imp (IsOwned db.requests) (IsOwned (update test (set_state s) db.requests)) db.parts
          (λ p e.
            exists-map (owns p) (owns p) (update_row test (set_state s)) db.requests
              (λ r. owns-update p r attempted) e)
          h.owned;
    allocated =
        All-map
          (λ r.
            (test r ≡ true → is_acked s ≡ true → is_pending r.id db.parts ≡ false)
            × HasParts db.parts r)
          (HasParts db.parts) (update_row test (set_state s)) db.requests
          (λ r b. HasParts-update db.parts r b.0 b.1)
          (All-both _ (HasParts db.parts) db.requests done h.allocated);
  }
