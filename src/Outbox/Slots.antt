-- ===== src/Outbox/Slots.antt =====
-- The order that `reorderPrepared` of OutboxStore (src/outbox/store.ts) and of ReactionJournal
-- (src/outbox/reaction-journal.ts) give: the rows of a chat keep the sequences that they have, and
-- take them in source order. The table is then in the order of its key.
pub mod Renumbering
use threema_beeper.Prelude.{
  ℕ, String, Bool, true, false, not, ◌&&◌, ◌||◌, List, [], ◌∷◌, ◌++◌, map, Option, none, some, ltb,
  leb, ◌==◌, str_eq, exists, if◌then◌else◌,
}

pub record Position : Type 0 where
  pub transaction : ℕ
  pub event : ℕ

-- The columns of a row that the repair selects.
pub record Slot : Type 0 where
  pub sequence : ℕ
  pub profile : String
  pub chat : String
  pub event : String

abbrev pub is_with : Slot → List Slot → Bool
is_with s [] = false
is_with s (t ∷ group) = str_eq t.profile s.profile && str_eq t.chat s.chat

-- A slot joins the group of its chat, which keeps the place where it began.
unfoldable pub add_to_groups : Slot → List (List Slot) → List (List Slot)
add_to_groups s [] = (s ∷ []) ∷ []
add_to_groups s (g ∷ groups) =
    let rest = add_to_groups s groups in if is_with s g then (g ++ s ∷ []) ∷ groups else g ∷ rest

unfoldable pub groups_of : List Slot → List (List Slot) → List (List Slot)
unfolding add_to_groups
groups_of [] groups = groups
groups_of (s ∷ rest) groups = groups_of rest (add_to_groups s groups)

pub record Placed : Type 0 where
  pub slot : Slot
  pub position : Position

-- The positions of a group, where each is known.
unfoldable pub placed : (String → Option Position) → List Slot → Option (List Placed)
placed source [] = some []
placed source (s ∷ group) = elim (source s.event) [
  | none ↦ none
  | some p ↦ elim (placed source group) [
    | none ↦ none
    | some rest ↦ some (record { slot = s; position = p } ∷ rest)
  ]
]

-- `x.transaction - y.transaction || x.event - y.event` is at most 0.
abbrev pub is_before : Position → Position → Bool
is_before x y =
    ltb x.transaction y.transaction || (x.transaction == y.transaction && leb x.event y.event)

-- The sort is stable.
unfoldable pub insert : Placed → List Placed → List Placed
insert p [] = p ∷ []
insert p (q ∷ rest) =
    let later = insert p rest in if is_before p.position q.position then p ∷ q ∷ rest else q ∷ later

unfoldable pub sort : List Placed → List Placed
unfolding insert
sort [] = []
sort (p ∷ rest) = insert p (sort rest)

pub record Move : Type 0 where
  pub start : ℕ
  pub target : ℕ

-- The row at an index takes the sequence of the slot at that index.
unfoldable pub moves_to : List Placed → List Slot → List Move
moves_to [] group = []
moves_to (p ∷ sorted) [] = []
moves_to (p ∷ sorted) (s ∷ group) =
    let rest = moves_to sorted group in
    if p.slot.sequence == s.sequence
    then rest
    else record { start = p.slot.sequence; target = s.sequence } ∷ rest

unfoldable pub group_moves : (String → Option Position) → List Slot → List Move
unfolding placed sort moves_to
group_moves source group = elim (placed source group) [
  | none ↦ []
  | some ps ↦ moves_to (sort ps) group
]

unfoldable pub moves : (String → Option Position) → List (List Slot) → List Move
unfolding group_moves
moves source [] = []
moves source (g ∷ groups) = group_moves source g ++ moves source groups

unfoldable pub renumber : List Move → ℕ → ℕ
renumber [] n = n
renumber (m ∷ ms) n = let rest = renumber ms n in if m.start == n then m.target else rest

unfoldable pub all_moves : (String → Option Position) → List Slot → List Move
unfolding groups_of moves
all_moves source ss = moves source (groups_of ss [])

-- A table in the order of its key.
module _ {ℓ} {A : Type ℓ} (key : A → ℕ) where
  unfoldable pub insert_row : A → List A → List A
  insert_row o [] = o ∷ []
  insert_row o (r ∷ rows) =
      let rest = insert_row o rows in if ltb (key o) (key r) then o ∷ r ∷ rows else r ∷ rest

  unfoldable pub in_order : List A → List A
  unfolding insert_row
  in_order [] = []
  in_order (o ∷ rows) = insert_row o (in_order rows)

  -- No two rows of the table, which stands in order, have one key.
  unfoldable pub is_keyed : List A → Bool
  is_keyed [] = true
  is_keyed (o ∷ rows) = not (exists (λ r. not (ltb (key o) (key r))) rows) && is_keyed rows
