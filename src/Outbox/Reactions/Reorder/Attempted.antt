-- ===== src/Outbox/Reactions/Reorder/Attempted.antt =====
-- Where `reorderPrepared` moves a row, and that it leaves what was attempted
-- (src/outbox/reaction-journal.ts).
use threema_beeper.Prelude.{
  ℕ, ◌≤◌, ◌<◌, String, true, false, List, [], ◌∷◌, map, Option, eq_refl, select, ◌≡◌, refl, ◌⊎◌,
  inl, inr, sym, subst, ap, ◌∙◌, arith, All, All-both, All-of, All-intro, All-select, All-selected,
  Memᴰ, Pairs-trichotomy, Bool-cases,
}
use threema_beeper.Outbox.Result.{ok}
use threema_beeper.Outbox.Tables.{Database, ReactionRow}
use threema_beeper.Outbox.Slots
use threema_beeper.Outbox.Slots.{Position, Slot, Move, all_moves, renumber, in_order}
use threema_beeper.Outbox.Slots.Renumbering.{renumber_lem, in_order-Mem, mem-map}
use threema_beeper.Outbox.Reactions.Invariant.{Inv, Before}
use threema_beeper.Outbox.Reactions.Reorder.{
  is_attempted, last_attempt, is_tail, slot_of, slots, move_row, move_rows, key, reorder_prepared,
}

-- An attempted row is not after the last attempt of its chat.
pub last_attempt_le :
    (rows : List ReactionRow) (o : ReactionRow)
    → Memᴰ o rows
    → is_attempted o ≡ true
    → o.sequence ≤ last_attempt o.profile o.chat rows
unfolding last_attempt
last_attempt_le [] o m tried = elim m [ ]
last_attempt_le (r ∷ rows) o (Memᴰ.head e) tried =
    rw (← e) (ground (arith, tried, eq_refl o.profile, eq_refl o.chat))
last_attempt_le (r ∷ rows) o (Memᴰ.tail m) tried = ground (arith, last_attempt_le rows o m tried)

-- The slot of a row after the last attempt of its chat.
abbrev Tail : Database → Slot → Type 0
Tail db s =
    (r : ReactionRow) × Memᴰ r db.reactions × (is_tail db.reactions r ≡ true) × (slot_of r ≡ s)

slots_of-Tail :
    (db : Database) (rows : List ReactionRow)
    → All (λ r. Memᴰ r db.reactions × (is_tail db.reactions r ≡ true)) rows
    → All (Tail db) (map slot_of rows)
slots_of-Tail db [] h = tt
slots_of-Tail db (r ∷ rows) h = ((r, h.0.0, h.0.1, refl), slots_of-Tail db rows h.1)

slots-Tail : (db : Database) → All (Tail db) (slots db)
unfolding slots
slots-Tail db = slots_of-Tail db (select (is_tail db.reactions) db.reactions) (
    All-both (λ (r : ReactionRow). Memᴰ r db.reactions) (λ r. is_tail db.reactions r ≡ true)
      (select (is_tail db.reactions) db.reactions)
      (All-select (λ (r : ReactionRow). Memᴰ r db.reactions) (is_tail db.reactions) db.reactions
        (All-intro (λ r. Memᴰ r db.reactions) db.reactions (λ r k. k)))
      (All-selected (is_tail db.reactions) db.reactions))

-- The sequence is a key.
same_sequence :
    (db : Database) (r o : ReactionRow)
    → Inv db
    → Memᴰ r db.reactions
    → Memᴰ o db.reactions
    → r.sequence ≡ o.sequence
    → r ≡ o
same_sequence db r o inv k m e = elim (Pairs-trichotomy Before db.reactions inv.order k m) [
  | inl same ↦ same
  | inr (inl b) ↦ absurd (ground (arith, e, b.sequence))
  | inr (inr b) ↦ absurd (ground (arith, e, b.sequence))
]

-- A row stays where it is, or is after the last attempt of its chat, and stays there.
pub record Moved (db : Database) (o : ReactionRow) (n : ℕ) : Type 0 where
  pub tail : last_attempt o.profile o.chat db.reactions < o.sequence
  pub later : last_attempt o.profile o.chat db.reactions < n
  pub below : n < db.next_reaction

pub moved_lem :
    (source : String → Option Position) (db : Database) (o : ReactionRow)
    → Inv db
    → Memᴰ o db.reactions
    → (renumber (all_moves source (slots db)) o.sequence ≡ o.sequence)
      ⊎ Moved db o (renumber (all_moves source (slots db)) o.sequence)
moved_lem source db o inv m =
    elim (renumber_lem (Tail db) source (slots db) o.sequence (slots-Tail db)) [
      | inl kept ↦ inl kept
      | inr (s, t, (r, k, tail, is), (q, l, later, at), start, target, profile, chat) ↦
          let same : r ≡ o = same_sequence db r o inv k m (ap (λ x. x.sequence) is ∙ start) in
          let p : q.profile ≡ o.profile =
            ap (λ x. x.profile) at
            ∙ profile
            ∙ sym (ap (λ x. x.profile) is)
            ∙ ap (λ x. x.profile) same in
          let c : q.chat ≡ o.chat =
            ap (λ x. x.chat) at ∙ chat ∙ sym (ap (λ x. x.chat) is) ∙ ap (λ x. x.chat) same in
          let n : q.sequence ≡ renumber (all_moves source (slots db)) o.sequence =
            ap (λ x. x.sequence) at ∙ target in
          let before : last_attempt o.profile o.chat db.reactions < q.sequence =
            subst (λ x. last_attempt o.profile x db.reactions < q.sequence) c
              (subst (λ x. last_attempt x q.chat db.reactions < q.sequence) p
                (ground (arith, later))) in
          inr (record {
            tail =
                let t : is_tail db.reactions o ≡ true =
                  subst (λ (x : ReactionRow). is_tail db.reactions x ≡ true) same tail in
                ground (arith, t);
            later = subst (λ x. last_attempt o.profile o.chat db.reactions < x) n before;
            below =
                subst (λ x. x < db.next_reaction) n
                  (All-of (λ (x : ReactionRow). x.sequence < db.next_reaction) db.reactions inv.next
                    l);
          })
    ]

pub no_moves :
    (source : String → Option Position) (db : Database) (o : ReactionRow)
    → Inv db
    → Memᴰ o db.reactions
    → is_attempted o ≡ true
    → renumber (all_moves source (slots db)) o.sequence ≡ o.sequence
no_moves source db o inv m tried = elim (moved_lem source db o inv m) [
  | inl kept ↦ kept
  | inr moved ↦ absurd (ground (arith, moved.tail, last_attempt_le db.reactions o m tried))
]

-- Each row is there afterwards, at its new sequence.
pub move_row-Mem :
    (db : Database) (o : ReactionRow) (ms : List Move)
    → Memᴰ o db.reactions
    → Memᴰ (move_row ms o) (move_rows ms db).reactions
unfolding move_rows
move_row-Mem db o ms m =
    in_order-Mem key (move_row ms o) (map (move_row ms) db.reactions)
      (mem-map (move_row ms) db.reactions o m)

-- A call that does not throw makes the moves, and leaves the table keyed.
pub reorder_lem :
    (source : String → Option Position) (db db' : Database) (n : ℕ)
    → reorder_prepared false source db ≡ ok (db', n)
    → (db' ≡ move_rows (all_moves source (slots db)) db)
      × (Slots.is_keyed key (move_rows (all_moves source (slots db)) db).reactions ≡ true)
unfolding reorder_prepared
reorder_lem source db db' n h =
    elim (Bool-cases (Slots.is_keyed key (move_rows (all_moves source (slots db)) db).reactions)) [
      | inl keyed ↦ (ground (arith, h, keyed), keyed)
      | inr clash ↦ absurd (ground (arith, h, clash))
    ]

-- The repair keeps every row that was attempted as it is: its sequence and all its columns stay, in
-- a journal that keeps its invariant, whatever positions the source gives.
pub reorder_keeps_attempted :
    (source : String → Option Position) (db db' : Database) (n : ℕ) (o : ReactionRow)
    → Inv db
    → reorder_prepared false source db ≡ ok (db', n)
    → Memᴰ o db.reactions
    → is_attempted o ≡ true
    → Memᴰ o db'.reactions
reorder_keeps_attempted source db db' n o inv h m tried =
    let ms = all_moves source (slots db) in
    let same : move_row ms o ≡ o =
      ap (λ n. record o { sequence = n }) (no_moves source db o inv m tried) in
    subst (λ (d : Database). Memᴰ o d.reactions) (sym (reorder_lem source db db' n h).0)
      (subst (λ x. Memᴰ x (move_rows ms db).reactions) same (move_row-Mem db o ms m))
