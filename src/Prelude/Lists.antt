-- ===== src/Prelude/Lists.antt =====
-- Lists measured by native numbers, and the predicates on all elements and all ordered pairs.
use Prim.Native.Nat.{ℕ, zero, suc, ◌+◌, ◌≤◌}
use mathlib.Core.Path.{◌≡◌, refl, sym, ◌∙◌}
use mathlib.Core.Logic.{◌⊎◌, inl, inr}
use mathlib.Core.List.{List, [], ◌∷◌, ◌++◌, map, Memᴰ}
use mathlib.Core.Option.{Option, none, some}
use native.Mathlib.Omega.{arith}

module _ {ℓ} {A : Type ℓ} where
  abbrev pub length : List A → ℕ
  length [] = 0
  length (x ∷ xs) = suc (length xs)

  abbrev pub take : ℕ → List A → List A
  take zero xs = []
  take (suc n) [] = []
  take (suc n) (x ∷ xs) = x ∷ take n xs

  abbrev pub drop : ℕ → List A → List A
  drop zero xs = xs
  drop (suc n) [] = []
  drop (suc n) (x ∷ xs) = drop n xs

  abbrev pub get_elem? : List A → ℕ → Option A
  get_elem? [] i = none
  get_elem? (x ∷ xs) zero = some x
  get_elem? (x ∷ xs) (suc i) = get_elem? xs i

  pub length-append : (xs ys : List A) → length (xs ++ ys) ≡ length xs + length ys
  length-append [] ys = omega arith
  length-append (x ∷ xs) ys = omega (arith, length-append xs ys)

  pub length-drop-le : (n : ℕ) (xs : List A) → length (drop n xs) ≤ length xs
  length-drop-le zero xs = omega arith
  length-drop-le (suc n) [] = omega arith
  length-drop-le (suc n) (x ∷ xs) = omega (arith, length-drop-le n xs)

  abbrev pub All {κ} : (A → Type κ) → List A → Type κ
  All P [] = Unit
  All P (x ∷ xs) = P x × All P xs

  -- `R x y` for every `x` that stands before `y`.
  abbrev pub Pairs {κ} : (A → A → Type κ) → List A → Type κ
  Pairs R [] = Unit
  Pairs R (x ∷ xs) = All (R x) xs × Pairs R xs

  pub All-map {κ μ} :
      (P : A → Type κ) (Q : A → Type μ) (f : A → A) (xs : List A)
      → ((x : A) → P x → Q (f x))
      → All P xs
      → All Q (map f xs)
  All-map P Q f [] h a = tt
  All-map P Q f (x ∷ xs) h a = (h x a.0, All-map P Q f xs h a.1)

  pub All-imp {κ μ} :
      (P : A → Type κ) (Q : A → Type μ) (xs : List A) → ((x : A) → P x → Q x) → All P xs → All Q xs
  All-imp P Q [] h a = tt
  All-imp P Q (x ∷ xs) h a = (h x a.0, All-imp P Q xs h a.1)

  pub All-append {κ} : (P : A → Type κ) (xs ys : List A) → All P xs → All P ys → All P (xs ++ ys)
  All-append P [] ys a b = b
  All-append P (x ∷ xs) ys a b = (a.0, All-append P xs ys a.1 b)

  pub All-both {κ μ} :
      (P : A → Type κ) (Q : A → Type μ) (xs : List A)
      → All P xs
      → All Q xs
      → All (λ x. P x × Q x) xs
  All-both P Q [] a b = tt
  All-both P Q (x ∷ xs) a b = ((a.0, b.0), All-both P Q xs a.1 b.1)

  pub All-of {κ} : (P : A → Type κ) {x : A} (xs : List A) → All P xs → Memᴰ x xs → P x
  All-of P [] a m = elim m [ ]
  All-of P (y ∷ xs) a (Memᴰ.head e) = rw e a.0
  All-of P (y ∷ xs) a (Memᴰ.tail m) = All-of P xs a.1 m

  pub All-every {κ} : (P : A → Type κ) (xs : List A) → ((x : A) → P x) → All P xs
  All-every P [] h = tt
  All-every P (x ∷ xs) h = (h x, All-every P xs h)

  -- A map keeps the relation of pairs, where a fact about each element may be used.
  pub Pairs-map {κ μ ν} :
      (P : A → Type μ) (R : A → A → Type κ) (S : A → A → Type ν) (f : A → A) (xs : List A)
      → ((x y : A) → P x → P y → R x y → S (f x) (f y))
      → All P xs
      → Pairs R xs
      → Pairs S (map f xs)
  Pairs-map P R S f [] h a r = tt
  Pairs-map P R S f (x ∷ xs) h a r = (
    All-map (λ y. P y × R x y) (S (f x)) f xs (λ y b. h x y a.0 b.0 b.1)
        (All-both P (R x) xs a.1 r.0),
    Pairs-map P R S f xs h a.1 r.1,
  )

  -- The pairs of a list to which one element is added at the end.
  pub Pairs-append_one {κ} :
      (R : A → A → Type κ) (xs : List A) (y : A)
      → Pairs R xs
      → All (λ x. R x y) xs
      → Pairs R (xs ++ y ∷ [])
  Pairs-append_one R [] y r a = (tt, tt)
  Pairs-append_one R (x ∷ xs) y r a =
      (All-append (R x) xs (y ∷ []) r.0 (a.0, tt), Pairs-append_one R xs y r.1 a.1)

  pub All-intro {κ} : (P : A → Type κ) (xs : List A) → ((x : A) → Memᴰ x xs → P x) → All P xs
  All-intro P [] h = tt
  All-intro P (x ∷ xs) h = (h x (Memᴰ.head refl), All-intro P xs (λ y m. h y (Memᴰ.tail m)))

  -- A map keeps the relation of pairs, where the membership of each element may be used.
  pub Pairs-map_mem {κ ν} :
      (R : A → A → Type κ) (S : A → A → Type ν) (f : A → A) (xs : List A)
      → ((x y : A) → Memᴰ x xs → Memᴰ y xs → R x y → S (f x) (f y))
      → Pairs R xs
      → Pairs S (map f xs)
  Pairs-map_mem R S f xs h =
      Pairs-map (λ x. Memᴰ x xs) R S f xs h (All-intro (λ x. Memᴰ x xs) xs (λ x m. m))

  -- Two members are one, or one stands before the other.
  pub Pairs-trichotomy {κ} :
      (R : A → A → Type κ) {x y : A} (xs : List A)
      → Pairs R xs
      → Memᴰ x xs
      → Memᴰ y xs
      → (x ≡ y) ⊎ (R x y ⊎ R y x)
  Pairs-trichotomy R [] r m n = elim m [ ]
  Pairs-trichotomy R (z ∷ xs) r (Memᴰ.head e) (Memᴰ.head f) = inl (e ∙ sym f)
  Pairs-trichotomy R (z ∷ xs) r (Memᴰ.head e) (Memᴰ.tail n) =
      inr (inl (rw e (All-of (R z) xs r.0 n)))
  Pairs-trichotomy R (z ∷ xs) r (Memᴰ.tail m) (Memᴰ.head f) =
      inr (inr (rw f (All-of (R z) xs r.0 m)))
  Pairs-trichotomy R (z ∷ xs) r (Memᴰ.tail m) (Memᴰ.tail n) = Pairs-trichotomy R xs r.1 m n
