-- ===== src/Prelude/Sql.antt =====
-- The statements of SQLite that the source uses, over a table kept in primary key order:
-- SELECT, SELECT ... LIMIT 1, EXISTS, count(*) and UPDATE ... WHERE.
use Prim.Native.Nat.{ℕ, suc}
use mathlib.Core.Path.{◌≡◌, refl, sym, ap}
use mathlib.Core.Bool.{Bool, true, false, ◌||◌}
use mathlib.Core.List.{List, [], ◌∷◌, ◌++◌, map, Memᴰ}
use mathlib.Core.Option.{Option, none, some}
use mathlib.Core.Logic.{inl, inr}
use native.Mathlib.Omega.{arith}
use threema_beeper.Prelude.Tests.{if◌then◌else◌, Bool-cases}
use threema_beeper.Prelude.Lists.{All}

module _ {ℓ} {A : Type ℓ} where
  -- SELECT ... WHERE p.
  abbrev pub select : (A → Bool) → List A → List A
  select p [] = []
  select p (x ∷ xs) = let rest = select p xs in if p x then x ∷ rest else rest

  -- SELECT ... WHERE p LIMIT 1.
  abbrev pub select_one : (A → Bool) → List A → Option A
  select_one p [] = none
  select_one p (x ∷ xs) = if p x then some x else select_one p xs

  -- EXISTS (SELECT 1 ... WHERE p).
  abbrev pub exists : (A → Bool) → List A → Bool
  exists p [] = false
  exists p (x ∷ xs) = p x || exists p xs

  -- SELECT count(*) ... WHERE p, and the `changes` of an UPDATE ... WHERE p.
  abbrev pub count : (A → Bool) → List A → ℕ
  count p [] = 0
  count p (x ∷ xs) = let rest = count p xs in if p x then suc rest else rest

  abbrev pub update_row : (A → Bool) → (A → A) → A → A
  update_row p f x = if p x then f x else x

  -- UPDATE ... SET f WHERE p.
  abbrev pub update : (A → Bool) → (A → A) → List A → List A
  update p f = map (update_row p f)

  -- INSERT OR IGNORE: the row clashes with a row of the table in a primary key or an index.
  abbrev pub insert_or_ignore : (A → Bool) → A → List A → List A
  insert_or_ignore clash x xs = if exists clash xs then xs else xs ++ x ∷ []

  pub select_one-Mem :
      (p : A → Bool) (xs : List A) {x : A} → select_one p xs ≡ some x → Memᴰ x xs × (p x ≡ true)
  select_one-Mem p [] e = cc
  select_one-Mem p (y ∷ xs) e = elim (Bool-cases (p y)) [
    | inl hit ↦ (Memᴰ.head (sym (ground arith)), ground arith)
    | inr miss ↦ let (m, h) = select_one-Mem p xs (ground arith) in (Memᴰ.tail m, h)
  ]

  pub select_one-none :
      (p : A → Bool) (xs : List A) → select_one p xs ≡ none → All (λ x. p x ≡ false) xs
  select_one-none p [] e = tt
  select_one-none p (x ∷ xs) e = (ground arith, select_one-none p xs (ground arith))

  pub exists-false : (p : A → Bool) (xs : List A) → exists p xs ≡ false → All (λ x. p x ≡ false) xs
  exists-false p [] e = tt
  exists-false p (x ∷ xs) e = (ground arith, exists-false p xs (ground arith))

  pub exists-true :
      (p : A → Bool) (xs : List A) → exists p xs ≡ true → (x : A) × Memᴰ x xs × (p x ≡ true)
  exists-true p [] e = cc
  exists-true p (x ∷ xs) e = elim (Bool-cases (p x)) [
    | inl hit ↦ (x, Memᴰ.head refl, hit)
    | inr miss ↦ let (y, m, h) = exists-true p xs (ground arith) in (y, Memᴰ.tail m, h)
  ]

  pub exists_of_mem :
      (p : A → Bool) (xs : List A) {x : A} → Memᴰ x xs → p x ≡ true → exists p xs ≡ true
  exists_of_mem p [] m h = elim m [ ]
  exists_of_mem p (y ∷ xs) (Memᴰ.head e) h = rw (← e) (ground arith)
  exists_of_mem p (y ∷ xs) (Memᴰ.tail m) h = ground (arith, exists_of_mem p xs m h)

  -- An update that keeps the test keeps the row that passes it.
  pub exists-map :
      (p q : A → Bool) (f : A → A) (xs : List A)
      → ((x : A) → p x ≡ true → q (f x) ≡ true)
      → exists p xs ≡ true
      → exists q (map f xs) ≡ true
  exists-map p q f [] h e = cc
  exists-map p q f (x ∷ xs) h e = elim (Bool-cases (p x)) [
    | inl hit ↦ rw (h x hit) refl
    | inr miss ↦ ground (arith, exists-map p q f xs h (ground arith))
  ]

  pub exists-append_left :
      (p : A → Bool) (xs ys : List A) → exists p xs ≡ true → exists p (xs ++ ys) ≡ true
  exists-append_left p [] ys e = cc
  exists-append_left p (x ∷ xs) ys e = ground (arith, exists-append_left p xs ys)

  pub mem-update :
      (p : A → Bool) (f : A → A) (xs : List A) {x : A}
      → Memᴰ x xs
      → Memᴰ (update_row p f x) (update p f xs)
  mem-update p f [] m = elim m [ ]
  mem-update p f (y ∷ xs) (Memᴰ.head e) = Memᴰ.head (ap (update_row p f) e)
  mem-update p f (y ∷ xs) (Memᴰ.tail m) = Memᴰ.tail (mem-update p f xs m)

  pub exists-append_one :
      (p : A → Bool) (xs : List A) (y : A) → exists p (xs ++ y ∷ []) ≡ (exists p xs || p y)
  exists-append_one p [] y = ground arith
  exists-append_one p (x ∷ xs) y = ground (arith, exists-append_one p xs y)

  pub select_one-exists :
      (p : A → Bool) (xs : List A) → select_one p xs ≡ none → exists p xs ≡ false
  select_one-exists p [] e = refl
  select_one-exists p (x ∷ xs) e = ground (arith, select_one-exists p xs)

  -- A row is found where it was found before the update, updated.
  pub select_one-update :
      (p : A → Bool) (f : A → A) (xs : List A) {x : A}
      → ((y : A) → p (f y) ≡ p y)
      → select_one p xs ≡ some x
      → select_one p (update p f xs) ≡ some (f x)
  select_one-update p f [] keep e = cc
  select_one-update p f (y ∷ xs) {x = r} keep e = elim (Bool-cases (p y)) [
    | inl hit ↦ ground (arith, keep y)
    | inr miss ↦ ground (arith, select_one-update p f xs {x = r} keep (ground arith), keep y)
  ]

  -- So too where the update goes by another test.
  pub select_one-update_row :
      (p q : A → Bool) (f : A → A) (xs : List A) {x : A}
      → ((y : A) → p (f y) ≡ p y)
      → select_one p xs ≡ some x
      → select_one p (update q f xs) ≡ some (update_row q f x)
  select_one-update_row p q f [] keep e = cc
  select_one-update_row p q f (y ∷ xs) {x = r} keep e = elim (Bool-cases (p y)) [
    | inl hit ↦ elim (Bool-cases (q y)) [
      | inl changed ↦ ground (arith, keep y)
      | inr same ↦ ground arith
    ]
    | inr miss ↦ elim (Bool-cases (q y)) [
      | inl changed ↦
          ground (arith, select_one-update_row p q f xs {x = r} keep (ground arith), keep y)
      | inr same ↦ ground (arith, select_one-update_row p q f xs {x = r} keep (ground arith))
    ]
  ]

  -- An update of rows that the test does not take changes nothing for it.
  pub select_one-update_other :
      (p q : A → Bool) (f : A → A) (xs : List A)
      → ((y : A) → p (f y) ≡ p y)
      → ((y : A) → q y ≡ true → p y ≡ false)
      → select_one p (update q f xs) ≡ select_one p xs
  select_one-update_other p q f [] keep other = refl
  select_one-update_other p q f (y ∷ xs) keep other = elim (Bool-cases (q y)) [
    | inl hit ↦ ground (arith, select_one-update_other p q f xs keep other, keep y, other y hit)
    | inr miss ↦ ground (arith, select_one-update_other p q f xs keep other)
  ]

  pub select_one-append :
      (p : A → Bool) (xs : List A) (y : A)
      → select_one p xs ≡ none
      → p y ≡ true
      → select_one p (xs ++ y ∷ []) ≡ some y
  select_one-append p [] y e h = ground arith
  select_one-append p (x ∷ xs) y e h = ground (arith, select_one-append p xs y)

  pub select_one-append_miss :
      (p : A → Bool) (xs : List A) (y : A)
      → p y ≡ false
      → select_one p (xs ++ y ∷ []) ≡ select_one p xs
  select_one-append_miss p [] y h = ground arith
  select_one-append_miss p (x ∷ xs) y h = ground (arith, select_one-append_miss p xs y h)

  pub select_one-append_some :
      (p : A → Bool) (xs ys : List A) {x : A}
      → select_one p xs ≡ some x
      → select_one p (xs ++ ys) ≡ some x
  select_one-append_some p [] ys e = cc
  select_one-append_some p (y ∷ xs) ys {x = r} e =
      ground (arith, select_one-append_some p xs ys {x = r})
