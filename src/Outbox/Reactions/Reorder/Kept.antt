-- ===== src/Outbox/Reactions/Reorder/Kept.antt =====
-- `reorderPrepared` keeps the invariant of the reaction journal (src/outbox/reaction-journal.ts).
use threema_beeper.Prelude.{
  ℕ, ◌<◌, String, Bool, true, false, ◌&&◌, List, map, Option, str_eq_comm, eq_iff, exists,
  exists-true, exists_of_mem, ◌≡◌, inl, inr, sym, subst, ap, ◌∙◌, arith, All, All-imp, All-of,
  All-intro, Memᴰ, Pairs-trichotomy, Bool-cases,
}
use threema_beeper.Outbox.Result.{ok}
use threema_beeper.Outbox.Tables.{Database, ReactionRow}
use threema_beeper.Outbox.Slots
use threema_beeper.Outbox.Slots.{Position, Move, all_moves, renumber, in_order}
use threema_beeper.Outbox.Slots.Renumbering.{in_order-All, is_keyed-Pairs, map-All}
use threema_beeper.Outbox.Reactions.Invariant.{
  Inv, Own, Before, is_unsettled, is_attempted_part, same_chat,
}
use threema_beeper.Outbox.Reactions.Reorder.{
  is_attempted, last_attempt, slots, move_row, move_rows, key, reorder_prepared,
}
use threema_beeper.Outbox.Reactions.Reorder.Attempted.{
  last_attempt_le, moved_lem, no_moves, move_row-Mem, reorder_lem,
}

-- A row of the repaired table is a row of the table, moved.
abbrev From : List Move → Database → ReactionRow → Type 0
From ms db y = (o : ReactionRow) × Memᴰ o db.reactions × (move_row ms o ≡ y)

rows-From : (ms : List Move) (db : Database) → All (From ms db) (move_rows ms db).reactions
unfolding move_rows
rows-From ms db = in_order-All key (From ms db) (map (move_row ms) db.reactions) (
    map-All (move_row ms) db.reactions db.reactions
      (All-intro (λ o. Memᴰ o db.reactions) db.reactions (λ o m. m)))

same_last_attempt :
    (a b : ReactionRow) (rows : List ReactionRow)
    → same_chat a b ≡ true
    → last_attempt a.profile a.chat rows ≡ last_attempt b.profile b.chat rows
same_last_attempt a b rows chat =
    let p : a.profile ≡ b.profile = (eq_iff a.profile b.profile).0 (ground arith) in
    let c : a.chat ≡ b.chat = (eq_iff a.chat b.chat).0 (ground arith) in
    ap (λ x. last_attempt x a.chat rows) p ∙ ap (λ x. last_attempt b.profile x rows) c

module _ (source : String → Option Position) (db : Database) (inv : Inv db) where
  abbrev ms : List Move
  ms = all_moves source (slots db)

  old_Before :
      (a b : ReactionRow)
      → Memᴰ a db.reactions
      → Memᴰ b db.reactions
      → a.sequence < b.sequence
      → Before a b
  old_Before a b ma mb less = elim (Pairs-trichotomy Before db.reactions inv.order ma mb) [
    | inl same ↦ absurd (ground (arith, less, ap (λ (x : ReactionRow). x.sequence) same))
    | inr (inl before) ↦ before
    | inr (inr after) ↦ absurd (ground (arith, less, after.sequence))
  ]

  -- No attempted row has an unsettled row of its chat before it after the repair either.
  moved_fifo :
      (a b : ReactionRow)
      → Memᴰ a db.reactions
      → Memᴰ b db.reactions
      → renumber ms a.sequence < renumber ms b.sequence
      → (same_chat a b && exists is_unsettled a.parts && exists is_attempted_part b.parts) ≡ false
  moved_fifo a b ma mb less = elim (Bool-cases (same_chat a b)) [
    | inr apart ↦ ground (arith, apart)
    | inl chat ↦ elim (Bool-cases (is_attempted b)) [
      | inr untried ↦ ground (arith, untried)
      | inl tried ↦
          let stays = no_moves source db b inv mb tried in
          elim (moved_lem source db a inv ma) [
            | inl kept ↦
                (old_Before a b ma mb (
                  subst (λ n. n < b.sequence) kept
                    (subst (λ n. renumber ms a.sequence < n) stays less))).fifo
            | inr moved ↦ absurd (
                ground (
                  arith,
                  less,
                  stays,
                  moved.later,
                  same_last_attempt a b db.reactions chat,
                  last_attempt_le db.reactions b mb tried,
                ))
          ]
    ]
  ]

  moved-Before :
      (a b : ReactionRow)
      → Memᴰ a db.reactions
      → Memᴰ b db.reactions
      → renumber ms a.sequence < renumber ms b.sequence
      → Before (move_row ms a) (move_row ms b)
  moved-Before a b ma mb less = record {
    sequence = less;
    event = elim (Pairs-trichotomy Before db.reactions inv.order ma mb) [
      | inl same ↦
          absurd (ground (arith, less, ap (λ (x : ReactionRow). renumber ms x.sequence) same))
      | inr (inl before) ↦ before.event
      | inr (inr after) ↦
          ground (arith, after.event, str_eq_comm a.profile b.profile, str_eq_comm a.event b.event)
    ];
    fifo = moved_fifo a b ma mb less;
  }

  moved_below : (o : ReactionRow) → Memᴰ o db.reactions → renumber ms o.sequence < db.next_reaction
  moved_below o m = elim (moved_lem source db o inv m) [
    | inr moved ↦ moved.below
    | inl kept ↦
        subst (λ n. n < db.next_reaction) (sym kept)
          (All-of (λ (x : ReactionRow). x.sequence < db.next_reaction) db.reactions inv.next m)
  ]

  move_rows-Inv : Slots.is_keyed key (move_rows ms db).reactions ≡ true → Inv (move_rows ms db)
  move_rows-Inv keyed = record {
    order =
        is_keyed-Pairs key (From ms db) Before (move_rows ms db).reactions
          (λ x y f g less. From-Before x y f g less) (rows-From ms db) keyed;
    own =
        All-imp (From ms db) Own (move_rows ms db).reactions
          (λ y f.
            let own = All-of Own db.reactions inv.own f.1 in
            subst Own f.2 (record { profile = own.profile; event = own.event; parts = own.parts }))
          (rows-From ms db);
    next =
        unfold move_rows in
        All-imp (From ms db) (λ y. y.sequence < db.next_reaction)
          (in_order key (map (move_row ms) db.reactions))
          (λ y f.
            subst (λ (x : ReactionRow). x.sequence < db.next_reaction) f.2 (moved_below f.0 f.1))
          (unfold move_rows in rows-From ms db);
  }
    where
      From-Before :
          (x y : ReactionRow) → From ms db x → From ms db y → x.sequence < y.sequence → Before x y
      From-Before x y (a, ma, ea) (b, mb, eb) less =
          subst (λ u. Before u y) ea
            (subst (Before (move_row ms a)) eb (
              moved-Before a b ma mb (
                subst (λ (u : ReactionRow). renumber ms a.sequence < u.sequence) (sym eb)
                  (subst (λ (u : ReactionRow). u.sequence < y.sequence) (sym ea) less))))

-- The repair keeps the invariant.
pub reorder-Inv :
    (source : String → Option Position) (db db' : Database) (n : ℕ)
    → Inv db
    → reorder_prepared false source db ≡ ok (db', n)
    → Inv db'
reorder-Inv source db db' n inv h =
    let (is, keyed) = reorder_lem source db db' n h in
    subst Inv (sym is) (move_rows-Inv source db inv keyed)

-- What holds of some row, whatever its sequence is, holds of some row after the repair.
pub reorder-exists :
    (source : String → Option Position) (db db' : Database) (n : ℕ) (test : ReactionRow → Bool)
    → ((o : ReactionRow) (k : ℕ) → test (record o { sequence = k }) ≡ test o)
    → reorder_prepared false source db ≡ ok (db', n)
    → exists test db.reactions ≡ true
    → exists test db'.reactions ≡ true
reorder-exists source db db' n test same h e =
    let (o, m, hit) = exists-true test db.reactions e in
    let moves = all_moves source (slots db) in
    subst (λ (d : Database). exists test d.reactions ≡ true) (sym (reorder_lem source db db' n h).0)
      (exists_of_mem test (move_rows moves db).reactions (move_row-Mem db o moves m)
        (same o (renumber moves o.sequence) ∙ hit))

-- It leaves the retirements.
pub reorder-retirements :
    (source : String → Option Position) (db db' : Database) (n : ℕ)
    → reorder_prepared false source db ≡ ok (db', n)
    → db'.retirements ≡ db.retirements
unfolding move_rows
reorder-retirements source db db' n h =
    ap (λ (d : Database). d.retirements) (reorder_lem source db db' n h).0
