-- ===== src/Operations/Reconnect/Bounds.antt =====
-- The list of disconnects stays sorted, bounded and recent, so no observation of a valid state
-- throws while revisions are left (src/operations/reconnect-policy.ts).
use threema_beeper.Prelude.{
  ℕ, suc, ◌-◌, ◌≤◌, Bool, true, false, List, [], ◌∷◌, ◌++◌, Option, none, some, leb, length, select,
  if◌then◌else◌, ◌≡◌, refl, ap, inl, inr, arith, Bool-cases, All, All-imp, All-append, Pairs,
  Pairs-append_one, All-drop, All-select, Pairs-drop, Pairs-select, length-drop, length-select_le,
}
use threema_beeper.Outbox.Request.{max_safe}
use threema_beeper.Operations.Reconnect.{
  State, is_state, track, up, down, forget, is_rollback, expire, window, is_connected,
  is_disconnected, elapsed, are_disconnects, all_observed_by, last_three,
}

-- Sorted times, none after `now`.
abbrev pub Sorted : ℕ → List ℕ → Type 0
Sorted now ts = All (λ t. t ≤ now) ts × Pairs (λ t u. t ≤ u) ts

are_disconnects-Pairs : (ts : List ℕ) → are_disconnects ts ≡ true → Pairs (λ t u. t ≤ u) ts
unfolding are_disconnects
are_disconnects-Pairs [] h = tt
are_disconnects-Pairs (t ∷ []) h = (tt, tt)
are_disconnects-Pairs (t ∷ u ∷ ts) h =
    let rest = are_disconnects-Pairs (u ∷ ts) (ground arith) in
    ((ground arith, All-imp (λ v. u ≤ v) (λ v. t ≤ v) ts (λ v le. ground arith) rest.0), rest)

pub are_disconnects-of :
    (now : ℕ) (ts : List ℕ) → Sorted now ts → leb now max_safe ≡ true → are_disconnects ts ≡ true
unfolding are_disconnects
are_disconnects-of now [] s h = refl
are_disconnects-of now (t ∷ []) s h = ground arith
are_disconnects-of now (t ∷ u ∷ ts) s h =
    ground (arith, are_disconnects-of now (u ∷ ts) (s.0.1, s.1.1) h)

all_observed_by-All :
    (o now : ℕ) (ts : List ℕ) → all_observed_by (some o) ts ≡ true → o ≤ now → All (λ t. t ≤ now) ts
unfolding all_observed_by
all_observed_by-All o now [] h le = tt
all_observed_by-All o now (t ∷ ts) h le =
    (ground arith, all_observed_by-All o now ts (ground arith) le)

pub all_observed_by-of :
    (now : ℕ) (ts : List ℕ) → All (λ t. t ≤ now) ts → all_observed_by (some now) ts ≡ true
unfolding all_observed_by
all_observed_by-of now [] a = refl
all_observed_by-of now (t ∷ ts) a = ground (arith, all_observed_by-of now ts a.1)

length-append_one : (xs : List ℕ) (x : ℕ) → length (xs ++ x ∷ []) ≡ suc (length xs)
length-append_one [] x = refl
length-append_one (y ∷ xs) x = ap suc (length-append_one xs x)

last_three-length : (ts : List ℕ) → length (last_three ts) ≤ 3
unfolding last_three
last_three-length ts = ground (arith, length-drop (length ts - 3) ts)

Sorted-expire :
    (now : ℕ) (test : ℕ → Bool) (ts : List ℕ) → Sorted now ts → Sorted now (select test ts)
Sorted-expire now test ts s =
    (All-select (λ t. t ≤ now) test ts s.0, Pairs-select (λ t u. t ≤ u) test ts s.1)

Sorted-last_three : (now : ℕ) (ts : List ℕ) → Sorted now ts → Sorted now (last_three ts)
unfolding last_three
Sorted-last_three now ts s = (
  All-drop (λ t. t ≤ now) (length ts - 3) ts s.0,
  Pairs-drop (λ t u. t ≤ u) (length ts - 3) ts s.1,
)

Sorted-append : (now : ℕ) (ts : List ℕ) → Sorted now ts → Sorted now (ts ++ now ∷ [])
Sorted-append now ts s = (
  All-append (λ t. t ≤ now) ts (now ∷ []) s.0 (omega arith, tt),
  Pairs-append_one (λ t u. t ≤ u) ts now s.1 s.0,
)

-- The disconnects of a state that goes on at `now`.
abbrev pub Kept : ℕ → List ℕ → Type 0
Kept now ts = Sorted now ts × (length ts ≤ 3)

all_observed_by-rollback :
    (o : Option ℕ) (now : ℕ) (ts : List ℕ)
    → all_observed_by o ts ≡ true
    → is_rollback o now ≡ false
    → All (λ t. t ≤ now) ts
unfolding all_observed_by
all_observed_by-rollback none now [] h on = tt
all_observed_by-rollback none now (t ∷ ts) h on = cc
all_observed_by-rollback (some o) now ts h on = all_observed_by-All o now ts h (ground arith)

forget-Kept : (s : State) (now : ℕ) → is_state s ≡ true → Kept now (forget now s).disconnects
unfolding is_state forget
forget-Kept s now h = elim (Bool-cases (is_rollback s.observed_at now)) [
  | inl back ↦ rw back ((tt, tt), omega arith)
  | inr on ↦ rw on (
    (
      all_observed_by-rollback s.observed_at now s.disconnects (ground arith) on,
      are_disconnects-Pairs s.disconnects (ground arith),
    ),
    ground arith,
  )
]

expire-Kept : (s : State) (now : ℕ) → Kept now s.disconnects → Kept now (expire now s).disconnects
unfolding expire
expire-Kept s now k = (
  Sorted-expire now (λ t. leb (now - t) window) s.disconnects k.0,
  ground (arith, k.1, length-select_le (λ t. leb (now - t) window) s.disconnects),
)

up-Kept : (s : State) (now : ℕ) → Kept now s.disconnects → Kept now (up now s).disconnects
unfolding up
up-Kept s now k =
    elim (Bool-cases
      (elapsed now (if is_connected s.connected then s.stable_since else some now))) [
        | inl long ↦ rw long ((tt, tt), omega arith)
        | inr short ↦ rw short k
      ]

down-Kept : (s : State) (now : ℕ) → Kept now s.disconnects → Kept now (down now s).disconnects
unfolding down
down-Kept s now k = elim (Bool-cases (is_disconnected s.connected)) [
  | inl already ↦ rw already k
  | inr lost ↦
      let grown : Sorted now
          (if is_connected s.connected then s.disconnects ++ now ∷ [] else s.disconnects) =
        elim (Bool-cases (is_connected s.connected)) [
          | inl c ↦ rw c (Sorted-append now s.disconnects k.0)
          | inr c ↦ rw c k.0
        ] in
      rw lost (
        Sorted-last_three now
            (if is_connected s.connected then s.disconnects ++ now ∷ [] else s.disconnects) grown,
        last_three-length
            (if is_connected s.connected then s.disconnects ++ now ∷ [] else s.disconnects),
      )
]

pub track-Kept :
    (s : State) (connected : Bool) (now : ℕ)
    → is_state s ≡ true
    → Kept now (track connected now s).disconnects
unfolding track
track-Kept s true now h =
    up-Kept (expire now (forget now s)) now (expire-Kept (forget now s) now (forget-Kept s now h))
track-Kept s false now h =
    down-Kept (expire now (forget now s)) now (expire-Kept (forget now s) now (forget-Kept s now h))
