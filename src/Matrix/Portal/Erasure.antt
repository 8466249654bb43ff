-- ===== src/Matrix/Portal/Erasure.antt =====
-- A deletion that finishes has left nothing of the message (src/matrix/portal-store.ts).
use threema_beeper.Prelude.{
  Bool, true, false, not, ◌&&◌, List, [], ◌∷◌, map, exists, select, update, ◌≡◌, refl, arith,
  Bool-cases, inl, inr,
}
use threema_beeper.Matrix.Portal.Tables.{MessageKey, key_eq, Store, ok, VersionRow, DeletionRow}
use threema_beeper.Text.Order.{str_le}
use threema_beeper.Matrix.Portal.Deliveries.{
  sort, insert_in_order, reaction_le, is_visible, is_empty, is_legacy, finish_deletion,
}

insert_in_order-ne {ℓ} :
    {A : Type ℓ} (le : A → A → Bool) (x : A) (xs : List A)
    → is_empty (insert_in_order le x xs) ≡ false
unfolding insert_in_order
insert_in_order-ne le x [] = refl
insert_in_order-ne le x (y ∷ ys) = ground arith

-- Only the empty selection is empty when it is sorted.
sorted_selection {ℓ} :
    {A : Type ℓ} (le : A → A → Bool) (p : A → Bool) (xs : List A)
    → is_empty (sort le (select p xs)) ≡ true
    → exists p xs ≡ false
unfolding sort
sorted_selection le p [] h = refl
sorted_selection le p (x ∷ xs) h = elim (Bool-cases (p x)) [
  | inl hit ↦ absurd (ground (arith, insert_in_order-ne le x (sort le (select p xs)), hit))
  | inr miss ↦ ground (arith, miss, sorted_selection le p xs)
]

sorted_events :
    (k : MessageKey) (rows : List VersionRow)
    → is_empty (sort str_le (map (λ v. v.event) (select (is_visible k) rows))) ≡ true
    → exists (is_visible k) rows ≡ false
unfolding sort
sorted_events k [] h = refl
sorted_events k (v ∷ rows) h = elim (Bool-cases (is_visible k v)) [
  | inl hit ↦ absurd (
      ground (
        arith,
        insert_in_order-ne str_le v.event
            (sort str_le (map (λ v. v.event) (select (is_visible k) rows))),
        hit,
      ))
  | inr miss ↦ ground (arith, miss, sorted_events k rows)
]

finish_deletion_lem :
    (s t : Store) (k : MessageKey)
    → finish_deletion s k ≡ ok t
    → ((is_legacy s k ≡ false)
        × (is_empty (sort str_le (map (λ v. v.event) (select (is_visible k) s.versions))) ≡ true))
      × (is_empty (sort reaction_le (select (λ r. key_eq r.key k) s.reactions)) ≡ true)
      × (t ≡ record s {
        deletions = update (λ d. key_eq d.key k) (λ d. record d { is_done = true }) s.deletions;
      })
unfolding finish_deletion
finish_deletion_lem s t k h = ((ground arith, ground arith), ground arith, ground arith)

all_done :
    (k : MessageKey) (rows : List DeletionRow)
    → exists
        (λ d. key_eq d.key k && not d.is_done)
        (update (λ d. key_eq d.key k) (λ d. record d { is_done = true }) rows)
      ≡ false
all_done k [] = refl
all_done k (d ∷ rows) = ground (arith, all_done k rows)

-- A deletion finishes only when the history of the message is known, each of its events is redacted
-- and no reaction to it is left; then it is not pending any more, and no other table has changed.
pub deletion_is_complete :
    (s t : Store) (k : MessageKey)
    → finish_deletion s k ≡ ok t
    → (is_legacy s k ≡ false)
      × (exists (is_visible k) s.versions ≡ false)
      × (exists (λ r. key_eq r.key k) s.reactions ≡ false)
      × (exists (λ d. key_eq d.key k && not d.is_done) t.deletions ≡ false)
      × (t ≡ record s { deletions = t.deletions })
deletion_is_complete s t k h =
    let ((known, events), others, is) = finish_deletion_lem s t k h in
    (
      known,
      sorted_events k s.versions events,
      sorted_selection reaction_le (λ r. key_eq r.key k) s.reactions others,
      ground (arith, is, all_done k s.deletions),
      ground (arith, is),
    )
