-- ===== src/Outbox/Slots/Renumbering.antt =====
-- What the moves of `reorderPrepared` do to a sequence (src/outbox/store.ts,
-- src/outbox/reaction-journal.ts).
use threema_beeper.Prelude.{
  ℕ, ◌<◌, String, true, false, ◌&&◌, List, [], ◌∷◌, Option, some, ltb, ◌==◌, str_eq, eq_iff,
  exists-false, ◌≡◌, refl, ◌⊎◌, inl, inr, sym, subst, ap, arith, All, All-append, All-imp, All-both,
  Pairs, Memᴰ, map, not, ◌∙◌, Bool-cases, Option-cases,
}
use threema_beeper.Outbox.Slots
use threema_beeper.Outbox.Slots.{
  Position, Slot, is_with, add_to_groups, groups_of, Placed, placed, is_before, sort, Move,
  moves_to, group_moves, moves, renumber, all_moves, insert_row, in_order, is_keyed,
}

module _ (P : Slot → Type 0) where
  -- A slot of the group of a chat.
  abbrev pub In : String → String → Slot → Type 0
  In profile chat s = P s × (s.profile ≡ profile) × (s.chat ≡ chat)

  abbrev IsGroup : List Slot → Type 0
  IsGroup g = (profile : String) × (chat : String) × All (In profile chat) g

  -- A move goes from the sequence of a slot to the sequence of a slot of the same chat.
  abbrev pub Exchange : ℕ → ℕ → Type 0
  Exchange start target =
      (s : Slot) × (t : Slot) × P s
      × P t
      × (s.sequence ≡ start)
      × (t.sequence ≡ target)
      × (t.profile ≡ s.profile)
      × (t.chat ≡ s.chat)

  add-IsGroup :
      (s : Slot) (groups : List (List Slot))
      → P s
      → All IsGroup groups
      → All IsGroup (add_to_groups s groups)
  unfolding add_to_groups
  add-IsGroup s [] h k = ((s.profile, s.chat, ((h, refl, refl), tt)), tt)
  add-IsGroup s ([] ∷ groups) h k = (k.0, add-IsGroup s groups h k.1)
  add-IsGroup s ((u ∷ g) ∷ groups) h k =
      elim (Bool-cases (str_eq u.profile s.profile && str_eq u.chat s.chat)) [
        | inr there ↦ rw (there, add_to_groups) (k.0, add-IsGroup s groups h k.1)
        | inl here ↦
            let (profile, chat, all) = k.0 in
            let p : s.profile ≡ profile =
              sym ((eq_iff u.profile s.profile).0 (ground arith)) ∙ all.0.1 in
            let c : s.chat ≡ chat = sym ((eq_iff u.chat s.chat).0 (ground arith)) ∙ all.0.2 in
            rw (here, add_to_groups)
              (
                (profile, chat, All-append (In profile chat) (u ∷ g) (s ∷ []) all ((h, p, c), tt)),
                k.1,
              )
      ]

  groups-IsGroup :
      (ss : List Slot) (groups : List (List Slot))
      → All P ss
      → All IsGroup groups
      → All IsGroup (groups_of ss groups)
  unfolding groups_of
  groups-IsGroup [] groups h k = k
  groups-IsGroup (s ∷ ss) groups h k =
      groups-IsGroup ss (add_to_groups s groups) h.1 (add-IsGroup s groups h.0 k)

  module _ (Q : Slot → Type 0) where
    placed-All :
        (source : String → Option Position) (group : List Slot) (ps : List Placed)
        → All Q group
        → placed source group ≡ some ps
        → All (λ p. Q p.slot) ps
    unfolding placed
    placed-All source [] ps h e =
        let same : [] ≡ ps = ground (arith, e) in subst (All (λ p. Q p.slot)) same tt
    placed-All source (s ∷ group) ps h e = elim (Option-cases (source s.event)) [
      | inl missing ↦ absurd (ground (arith, e, missing))
      | inr (p, known) ↦ elim (Option-cases (placed source group)) [
        | inl missing ↦ absurd (ground (arith, e, known, missing))
        | inr (rest, found) ↦
            let same : record { slot = s; position = p } ∷ rest ≡ ps =
              ground (arith, e, known, found) in
            subst (All (λ q. Q q.slot)) same (h.0, placed-All source group rest h.1 found)
      ]
    ]

    insert-All :
        (p : Placed) (ps : List Placed)
        → Q p.slot
        → All (λ q. Q q.slot) ps
        → All (λ q. Q q.slot) (Slots.insert p ps)
    unfolding Slots.insert
    insert-All p [] h k = (h, tt)
    insert-All p (q ∷ ps) h k = elim (Bool-cases (is_before p.position q.position)) [
      | inl first ↦ rw (first, Slots.insert) (h, k)
      | inr later ↦ rw (later, Slots.insert) (k.0, insert-All p ps h k.1)
    ]

    sort-All : (ps : List Placed) → All (λ q. Q q.slot) ps → All (λ q. Q q.slot) (sort ps)
    unfolding sort
    sort-All [] h = tt
    sort-All (p ∷ ps) h = insert-All p (sort ps) h.0 (sort-All ps h.1)

  moves_to-All :
      (profile chat : String) (ps : List Placed) (group : List Slot)
      → All (λ q. In profile chat q.slot) ps
      → All (In profile chat) group
      → All (λ m. Exchange m.start m.target) (moves_to ps group)
  unfolding moves_to
  moves_to-All profile chat [] group h k = tt
  moves_to-All profile chat (p ∷ ps) [] h k = tt
  moves_to-All profile chat (p ∷ ps) (s ∷ group) h k =
      elim (Bool-cases (p.slot.sequence == s.sequence)) [
        | inl same ↦ rw (same, moves_to) (moves_to-All profile chat ps group h.1 k.1)
        | inr moved ↦
            rw (moved, moves_to)
              (
                (p.slot, s, h.0.0, k.0.0, refl, refl, k.0.1 ∙ sym h.0.1, k.0.2 ∙ sym h.0.2),
                moves_to-All profile chat ps group h.1 k.1,
              )
      ]

  moves-All :
      (source : String → Option Position) (groups : List (List Slot))
      → All IsGroup groups
      → All (λ m. Exchange m.start m.target) (moves source groups)
  unfolding moves group_moves
  moves-All source [] h = tt
  moves-All source (g ∷ groups) h =
      let (profile, chat, all) = h.0 in
      All-append (λ m. Exchange m.start m.target) (group_moves source g) (moves source groups)
        (elim (Option-cases (placed source g)) [
          | inl missing ↦ rw (missing, group_moves) tt
          | inr (ps, found) ↦
              rw (found, group_moves)
                (moves_to-All profile chat (sort ps) g
                  (sort-All (In profile chat) ps
                    (placed-All (In profile chat) source g ps all found))
                  all)
        ])
        (moves-All source groups h.1)

  renumber-Exchange :
      (ms : List Move) (n : ℕ)
      → All (λ m. Exchange m.start m.target) ms
      → (renumber ms n ≡ n) ⊎ Exchange n (renumber ms n)
  unfolding renumber
  renumber-Exchange [] n h = inl refl
  renumber-Exchange (m ∷ ms) n h = elim (Bool-cases (m.start == n)) [
    | inr miss ↦ rw (miss, renumber) (renumber-Exchange ms n h.1)
    | inl hit ↦
        rw (hit, renumber) (inr (subst (λ k. Exchange k m.target) (ground (arith, hit)) h.0))
  ]

  -- A sequence stays, or is the one of a slot and becomes the one of a slot of the same chat.
  pub renumber_lem :
      (source : String → Option Position) (ss : List Slot) (n : ℕ)
      → All P ss
      → (renumber (all_moves source ss) n ≡ n) ⊎ Exchange n (renumber (all_moves source ss) n)
  unfolding all_moves
  renumber_lem source ss n h =
      renumber-Exchange (all_moves source ss) n
        (moves-All source (groups_of ss []) (groups-IsGroup ss [] h tt))

module _ {ℓ} {A : Type ℓ} (key : A → ℕ) where
  insert_row-Mem : (o : A) (rows : List A) → Memᴰ o (insert_row key o rows)
  unfolding insert_row
  insert_row-Mem o [] = Memᴰ.head refl
  insert_row-Mem o (r ∷ rows) = elim (Bool-cases (ltb (key o) (key r))) [
    | inl first ↦ rw (first, insert_row) (Memᴰ.head refl)
    | inr later ↦ rw (later, insert_row) (Memᴰ.tail (insert_row-Mem o rows))
  ]

  insert_row-keeps : (o r : A) (rows : List A) → Memᴰ o rows → Memᴰ o (insert_row key r rows)
  unfolding insert_row
  insert_row-keeps o r [] m = elim m [ ]
  insert_row-keeps o r (x ∷ rows) m = elim (Bool-cases (ltb (key r) (key x))) [
    | inl first ↦ rw (first, insert_row) (Memᴰ.tail m)
    | inr later ↦
        rw (later, insert_row)
          (elim m [
            | Memᴰ.head e ↦ Memᴰ.head e
            | Memᴰ.tail k ↦ Memᴰ.tail (insert_row-keeps o r rows k)
          ])
  ]

  pub in_order-Mem : (o : A) (rows : List A) → Memᴰ o rows → Memᴰ o (in_order key rows)
  unfolding in_order
  in_order-Mem o [] m = elim m [ ]
  in_order-Mem o (r ∷ rows) (Memᴰ.head e) =
      subst (λ x. Memᴰ o (insert_row key x (in_order key rows))) e
        (insert_row-Mem o (in_order key rows))
  in_order-Mem o (r ∷ rows) (Memᴰ.tail m) =
      insert_row-keeps o r (in_order key rows) (in_order-Mem o rows m)

  insert_row-All {κ} :
      (P : A → Type κ) (o : A) (rows : List A) → P o → All P rows → All P (insert_row key o rows)
  unfolding insert_row
  insert_row-All P o [] h k = (h, tt)
  insert_row-All P o (r ∷ rows) h k = elim (Bool-cases (ltb (key o) (key r))) [
    | inl first ↦ rw (first, insert_row) (h, k)
    | inr later ↦ rw (later, insert_row) (k.0, insert_row-All P o rows h k.1)
  ]

  pub in_order-All {κ} : (P : A → Type κ) (rows : List A) → All P rows → All P (in_order key rows)
  unfolding in_order
  in_order-All P [] h = tt
  in_order-All P (o ∷ rows) h = insert_row-All P o (in_order key rows) h.0 (in_order-All P rows h.1)

  -- Rows that stand in the order of their keys, one after the other.
  pub is_keyed-Pairs {κ} :
      (P : A → Type κ) (R : A → A → Type κ) (rows : List A)
      → ((a b : A) → P a → P b → key a < key b → R a b)
      → All P rows
      → is_keyed key rows ≡ true
      → Pairs R rows
  unfolding is_keyed
  is_keyed-Pairs P R [] f h k = tt
  is_keyed-Pairs P R (o ∷ rows) f h k = (
    All-imp (λ r. P r × (not (ltb (key o) (key r)) ≡ false)) (R o) rows
        (λ r q. f o r h.0 q.0 (ground (arith, q.1)))
        (All-both P (λ r. not (ltb (key o) (key r)) ≡ false) rows h.1
          (exists-false (λ r. not (ltb (key o) (key r))) rows (ground (arith, k)))),
    is_keyed-Pairs P R rows f h.1 (ground (arith, k)),
  )

pub mem-map {ℓ} :
    {A : Type ℓ} (f : A → A) (rows : List A) (o : A) → Memᴰ o rows → Memᴰ (f o) (map f rows)
mem-map f [] o m = elim m [ ]
mem-map f (r ∷ rows) o (Memᴰ.head e) = Memᴰ.head (ap f e)
mem-map f (r ∷ rows) o (Memᴰ.tail m) = Memᴰ.tail (mem-map f rows o m)

-- Each row of the map comes from a row.
pub map-All {ℓ} :
    {A : Type ℓ} (f : A → A) (all rows : List A)
    → All (λ o. Memᴰ o all) rows
    → All (λ y. (o : A) × Memᴰ o all × (f o ≡ y)) (map f rows)
map-All f all [] h = tt
map-All f all (r ∷ rows) h = ((r, h.0, refl), map-All f all rows h.1)
