-- ===== src/Prelude/Sublists.antt =====
-- What `select` and `drop` keep of a list.
use Prim.Native.Nat.{ℕ, zero, suc, ◌-◌, ◌≤◌}
use native.Mathlib.Omega.{arith}
use mathlib.Core.Path.{◌≡◌}
use mathlib.Core.Logic.{inl, inr}
use mathlib.Core.Bool.{Bool, true}
use mathlib.Core.List.{List, [], ◌∷◌}
use threema_beeper.Prelude.Lists.{length, drop, All, Pairs}
use threema_beeper.Prelude.Sql.{select}
use threema_beeper.Prelude.Tests.{Bool-cases}

module _ {ℓ} {A : Type ℓ} where
  pub All-drop {κ} : (P : A → Type κ) (n : ℕ) (xs : List A) → All P xs → All P (drop n xs)
  All-drop P zero xs a = a
  All-drop P (suc n) [] a = tt
  All-drop P (suc n) (x ∷ xs) a = All-drop P n xs a.1

  pub All-select {κ} :
      (P : A → Type κ) (test : A → Bool) (xs : List A) → All P xs → All P (select test xs)
  All-select P test [] a = tt
  All-select P test (x ∷ xs) a = elim (Bool-cases (test x)) [
    | inl hit ↦ rw hit (a.0, All-select P test xs a.1)
    | inr miss ↦ rw miss (All-select P test xs a.1)
  ]

  pub All-selected : (test : A → Bool) (xs : List A) → All (λ x. test x ≡ true) (select test xs)
  All-selected test [] = tt
  All-selected test (x ∷ xs) = elim (Bool-cases (test x)) [
    | inl hit ↦ rw hit (hit, All-selected test xs)
    | inr miss ↦ rw miss (All-selected test xs)
  ]

  pub Pairs-drop {κ} : (R : A → A → Type κ) (n : ℕ) (xs : List A) → Pairs R xs → Pairs R (drop n xs)
  Pairs-drop R zero xs r = r
  Pairs-drop R (suc n) [] r = tt
  Pairs-drop R (suc n) (x ∷ xs) r = Pairs-drop R n xs r.1

  pub Pairs-select {κ} :
      (R : A → A → Type κ) (test : A → Bool) (xs : List A) → Pairs R xs → Pairs R (select test xs)
  Pairs-select R test [] r = tt
  Pairs-select R test (x ∷ xs) r = elim (Bool-cases (test x)) [
    | inl hit ↦ rw hit (All-select (R x) test xs r.0, Pairs-select R test xs r.1)
    | inr miss ↦ rw miss (Pairs-select R test xs r.1)
  ]

  pub length-drop : (n : ℕ) (xs : List A) → length (drop n xs) ≡ length xs - n
  length-drop zero xs = ground arith
  length-drop (suc n) [] = ground arith
  length-drop (suc n) (x ∷ xs) = ground (arith, length-drop n xs)

  pub length-select_le : (test : A → Bool) (xs : List A) → length (select test xs) ≤ length xs
  length-select_le test [] = omega arith
  length-select_le test (x ∷ xs) = ground (arith, length-select_le test xs)
