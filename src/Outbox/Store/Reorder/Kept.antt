-- ===== src/Outbox/Store/Reorder/Kept.antt =====
-- `reorderPrepared` keeps the invariant of the text journal (src/outbox/store.ts).
use threema_beeper.Prelude.{
  ℕ, ◌<◌, String, Bool, true, false, List, [], ◌∷◌, map, Option, str_eq_comm, eq_iff, exists,
  exists-true, exists_of_mem, select, ◌≡◌, refl, ◌⊎◌, inl, inr, sym, subst, ap, ◌∙◌, arith, All,
  All-both, All-imp, All-of, All-intro, All-select, All-selected, Memᴰ, Pairs-trichotomy,
  Bool-cases,
}
use threema_beeper.Outbox.Result.{ok}
use threema_beeper.Outbox.Tables.{Database, RequestRow}
use threema_beeper.Outbox.Slots
use threema_beeper.Outbox.Slots.{Position, Slot, Move, all_moves, renumber, in_order}
use threema_beeper.Outbox.Slots.Renumbering.{
  renumber_lem, in_order-Mem, in_order-All, is_keyed-Pairs, mem-map, map-All,
}
use threema_beeper.Outbox.Store.Invariant.{
  Inv, Before, IsRow, IsOwned, HasParts, owns, same_chat, is_past,
}
use threema_beeper.Outbox.Store.Reorder.{
  slot_of, is_open, slots, move_row, move_rows, key, reorder_prepared,
}

-- The slot of a PREPARED row.
abbrev Open : Database → Slot → Type 0
Open db s = (r : RequestRow) × Memᴰ r db.requests × (is_open r ≡ true) × (slot_of r ≡ s)

slots_of-Open :
    (db : Database) (rows : List RequestRow)
    → All (λ r. Memᴰ r db.requests × (is_open r ≡ true)) rows
    → All (Open db) (map slot_of rows)
slots_of-Open db [] h = tt
slots_of-Open db (r ∷ rows) h = ((r, h.0.0, h.0.1, refl), slots_of-Open db rows h.1)

slots-Open : (db : Database) → All (Open db) (slots db)
unfolding slots
slots-Open db = slots_of-Open db (select is_open db.requests) (
    All-both (λ (r : RequestRow). Memᴰ r db.requests) (λ r. is_open r ≡ true)
      (select is_open db.requests)
      (All-select (λ (r : RequestRow). Memᴰ r db.requests) is_open db.requests
        (All-intro (λ r. Memᴰ r db.requests) db.requests (λ r k. k)))
      (All-selected is_open db.requests))

-- A row stays where it is, or takes the place of a PREPARED row of its chat.
abbrev Moved : Database → RequestRow → ℕ → Type 0
Moved db o n =
    (q : RequestRow) × Memᴰ q db.requests
    × (is_open q ≡ true)
    × (q.sequence ≡ n)
    × (same_chat q o ≡ true)

moved_lem :
    (source : String → Option Position) (db : Database) (o : RequestRow)
    → Inv db
    → Memᴰ o db.requests
    → (renumber (all_moves source (slots db)) o.sequence ≡ o.sequence)
      ⊎ Moved db o (renumber (all_moves source (slots db)) o.sequence)
moved_lem source db o inv m =
    elim (renumber_lem (Open db) source (slots db) o.sequence (slots-Open db)) [
      | inl kept ↦ inl kept
      | inr (s, t, (r, k, open1, is), (q, l, open2, at), start, target, profile, chat) ↦
          let same : r ≡ o = same_row r k (ap (λ x. x.sequence) is ∙ start) in
          let p : q.profile ≡ o.profile =
            ap (λ x. x.profile) at
            ∙ profile
            ∙ sym (ap (λ x. x.profile) is)
            ∙ ap (λ x. x.profile) same in
          let c : q.chat ≡ o.chat =
            ap (λ x. x.chat) at ∙ chat ∙ sym (ap (λ x. x.chat) is) ∙ ap (λ x. x.chat) same in
          inr (
            q,
            l,
            open2,
            ap (λ x. x.sequence) at ∙ target,
            ground (arith, (eq_iff q.profile o.profile).1 p, (eq_iff q.chat o.chat).1 c),
          )
    ]
  where
    same_row : (r : RequestRow) → Memᴰ r db.requests → r.sequence ≡ o.sequence → r ≡ o
    same_row r k e = elim (Pairs-trichotomy Before db.requests inv.order k m) [
      | inl same ↦ same
      | inr (inl b) ↦ absurd (ground (arith, e, b.ordered))
      | inr (inr b) ↦ absurd (ground (arith, e, b.ordered))
    ]

-- A row of the repaired table is a row of the table, moved.
abbrev From : List Move → Database → RequestRow → Type 0
From ms db y = (o : RequestRow) × Memᴰ o db.requests × (move_row ms o ≡ y)

rows-From : (ms : List Move) (db : Database) → All (From ms db) (move_rows ms db).requests
unfolding move_rows
rows-From ms db = in_order-All key (From ms db) (map (move_row ms) db.requests) (
    map-All (move_row ms) db.requests db.requests
      (All-intro (λ o. Memᴰ o db.requests) db.requests (λ o m. m)))

row-Mem :
    (db : Database) (o : RequestRow) (ms : List Move)
    → Memᴰ o db.requests
    → Memᴰ (move_row ms o) (move_rows ms db).requests
unfolding move_rows
row-Mem db o ms m =
    in_order-Mem key (move_row ms o) (map (move_row ms) db.requests)
      (mem-map (move_row ms) db.requests o m)

module _ (source : String → Option Position) (db : Database) (inv : Inv db) where
  abbrev ms : List Move
  ms = all_moves source (slots db)

  old_Before :
      (a b : RequestRow)
      → Memᴰ a db.requests
      → Memᴰ b db.requests
      → a.sequence < b.sequence
      → Before a b
  old_Before a b ma mb less = elim (Pairs-trichotomy Before db.requests inv.order ma mb) [
    | inl same ↦ absurd (ground (arith, less, ap (λ (x : RequestRow). x.sequence) same))
    | inr (inl before) ↦ before
    | inr (inr after) ↦ absurd (ground (arith, less, after.ordered))
  ]

  -- The row with its new sequence.
  abbrev moved : RequestRow → RequestRow
  moved = move_row ms

  -- An attempted row still stands after the end of what is before it.
  moved_past :
      (a b : RequestRow)
      → Memᴰ a db.requests
      → Memᴰ b db.requests
      → (moved a).sequence < (moved b).sequence
      → same_chat a b ≡ true
      → is_open b ≡ false
      → is_past a.state ≡ true
  moved_past a b ma mb less chat left =
      let stays : (moved b).sequence ≡ b.sequence = ground (arith, left) in
      elim (Bool-cases (is_open a)) [
        | inr attempted ↦
            (old_Before a b ma mb (ground (arith, attempted, stays, less))).fifo chat left
        | inl prepared ↦ elim (moved_lem source db a inv ma) [
          | inl kept ↦
              (old_Before a b ma mb (ground (arith, prepared, kept, stays, less))).fifo chat left
          | inr (q, mq, open1, at, near) ↦ absurd (
              ground (
                arith,
                open1,
                (old_Before q b mq mb (ground (arith, prepared, at, stays, less))).fifo
                    (ground (arith, near, chat, eq_iff q.profile a.profile, eq_iff q.chat a.chat))
                    left,
              ))
        ]
      ]

  moved-Before :
      (a b : RequestRow)
      → Memᴰ a db.requests
      → Memᴰ b db.requests
      → (moved a).sequence < (moved b).sequence
      → Before (moved a) (moved b)
  moved-Before a b ma mb less = record {
    ordered = less;
    other_id = elim (Pairs-trichotomy Before db.requests inv.order ma mb) [
      | inl same ↦ absurd (ground (arith, less, ap (λ (x : RequestRow). (moved x).sequence) same))
      | inr (inl before) ↦ ground (arith, before.other_id)
      | inr (inr after) ↦ ground (arith, after.other_id, str_eq_comm a.id b.id)
    ];
    other_event = elim (Pairs-trichotomy Before db.requests inv.order ma mb) [
      | inl same ↦ absurd (ground (arith, less, ap (λ (x : RequestRow). (moved x).sequence) same))
      | inr (inl before) ↦ ground (arith, before.other_event)
      | inr (inr after) ↦
          ground
            (arith, after.other_event, str_eq_comm a.profile b.profile, str_eq_comm a.event b.event)
    ];
    fifo = λ chat left.
        let past = moved_past a b ma mb less (ground (arith, chat)) (ground (arith, left)) in
        ground (arith, past);
  }

  moved_below : (o : RequestRow) → Memᴰ o db.requests → (moved o).sequence < db.next_sequence
  moved_below o m =
      let below = (All-of (IsRow db.next_sequence) db.requests inv.rows m).below in
      elim (moved_lem source db o inv m) [
        | inl kept ↦ ground (arith, kept, below)
        | inr (q, mq, open1, at, near) ↦
            ground
              (arith, at, below, (All-of (IsRow db.next_sequence) db.requests inv.rows mq).below)
      ]

  moved-IsRow : (o : RequestRow) → Memᴰ o db.requests → IsRow db.next_sequence (moved o)
  moved-IsRow o m =
      let row = All-of (IsRow db.next_sequence) db.requests inv.rows m in
      record {
        below = moved_below o m;
        id_body = ground (arith, row.id_body);
        profile_body = ground (arith, row.profile_body);
        event_body = ground (arith, row.event_body);
        chat_body = ground (arith, row.chat_body);
        valid = ground (arith, row.valid);
      }

  moved-HasParts : (o : RequestRow) → Memᴰ o db.requests → HasParts db.parts (moved o)
  moved-HasParts o m =
      let h = All-of (HasParts db.parts) db.requests inv.allocated m in
      elim (Bool-cases (is_open o)) [
        | inl prepared ↦ rw prepared (record { ids = h.ids; complete = h.complete })
        | inr attempted ↦ rw attempted h
      ]

  From-Before :
      (x y : RequestRow) → From ms db x → From ms db y → x.sequence < y.sequence → Before x y
  From-Before x y (a, ma, ea) (b, mb, eb) less =
      subst (λ u. Before u y) ea
        (subst (Before (moved a)) eb (
          moved-Before a b ma mb (
            subst (λ (u : RequestRow). (moved a).sequence < u.sequence) (sym eb)
              (subst (λ (u : RequestRow). u.sequence < y.sequence) (sym ea) less))))

  move_rows-Inv : Slots.is_keyed key (move_rows ms db).requests ≡ true → Inv (move_rows ms db)
  move_rows-Inv keyed = record {
    rows =
        unfold move_rows in
        All-imp (From ms db) (IsRow db.next_sequence) (in_order key (map (move_row ms) db.requests))
          (λ y f. subst (IsRow db.next_sequence) f.2 (moved-IsRow f.0 f.1))
          (unfold move_rows in rows-From ms db);
    order =
        is_keyed-Pairs key (From ms db) Before (move_rows ms db).requests From-Before
          (rows-From ms db) keyed;
    owned =
        unfold move_rows in
        All-imp (IsOwned db.requests) (IsOwned (in_order key (map (move_row ms) db.requests)))
          db.parts
          (λ p e.
            let (o, m, own) = exists-true (owns p) db.requests e in
            exists_of_mem (owns p) (in_order key (map (move_row ms) db.requests))
              (unfold move_rows in row-Mem db o ms m) (ground (arith, own)))
          inv.owned;
    allocated =
        unfold move_rows in
        All-imp (From ms db) (HasParts db.parts) (in_order key (map (move_row ms) db.requests))
          (λ y f. subst (HasParts db.parts) f.2 (moved-HasParts f.0 f.1))
          (unfold move_rows in rows-From ms db);
  }

-- A call that does not throw makes the moves, and leaves the table keyed.
reorder_lem :
    (source : String → Option Position) (db db' : Database) (n : ℕ)
    → reorder_prepared source db ≡ ok (db', n)
    → (db' ≡ move_rows (all_moves source (slots db)) db)
      × (Slots.is_keyed key (move_rows (all_moves source (slots db)) db).requests ≡ true)
unfolding reorder_prepared
reorder_lem source db db' n h =
    elim (Bool-cases (Slots.is_keyed key (move_rows (all_moves source (slots db)) db).requests)) [
      | inl keyed ↦ (ground (arith, h, keyed), keyed)
      | inr clash ↦ absurd (ground (arith, h, clash))
    ]

pub reorder-Inv :
    (source : String → Option Position) (db db' : Database) (n : ℕ)
    → Inv db
    → reorder_prepared source db ≡ ok (db', n)
    → Inv db'
reorder-Inv source db db' n inv h =
    let (is, keyed) = reorder_lem source db db' n h in
    subst Inv (sym is) (move_rows-Inv source db inv keyed)

-- What holds of some row, whatever its sequence is, holds of some row after the repair.
pub reorder-exists :
    (source : String → Option Position) (db db' : Database) (n : ℕ) (test : RequestRow → Bool)
    → ((o : RequestRow) (k : ℕ) → test (record o { sequence = k }) ≡ test o)
    → reorder_prepared source db ≡ ok (db', n)
    → exists test db.requests ≡ true
    → exists test db'.requests ≡ true
reorder-exists source db db' n test same h e =
    let (o, m, hit) = exists-true test db.requests e in
    let moves = all_moves source (slots db) in
    subst (λ (d : Database). exists test d.requests ≡ true) (sym (reorder_lem source db db' n h).0)
      (exists_of_mem test (move_rows moves db).requests (row-Mem db o moves m)
        (ground (arith, same o (renumber moves o.sequence), hit)))
