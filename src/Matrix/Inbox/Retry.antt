-- ===== src/Matrix/Inbox/Retry.antt =====
-- `pendingTransactions` of TransactionInbox (src/matrix/transaction-inbox.ts): which transactions
-- are tried next.
use threema_beeper.Prelude.{
  ℕ, zero, suc, ◌≤◌, Bool, true, false, not, ◌&&◌, ◌||◌, List, [], ◌∷◌, ltb, leb, ◌==◌, select,
  take, if◌then◌else◌, ◌≡◌, refl, ◌⊎◌, inl, inr, sym, subst, arith, All, All-imp, All-of, Pairs,
  Memᴰ, Bool-cases,
}
use threema_beeper.Matrix.Inbox.Tables.{
  Inbox, TransactionRow, invalid_limit, Checked, thrown, value,
}

abbrev pub is_pending : TransactionRow → Bool
is_pending t = not t.is_done

-- ORDER BY attempts, sequence.
abbrev pub is_before : TransactionRow → TransactionRow → Bool
is_before a b = ltb a.attempts b.attempts || (a.attempts == b.attempts && leb a.sequence b.sequence)

unfoldable pub insert : TransactionRow → List TransactionRow → List TransactionRow
insert t [] = t ∷ []
insert t (u ∷ rest) = let later = insert t rest in if is_before t u then t ∷ u ∷ rest else u ∷ later

unfoldable pub by_attempts : List TransactionRow → List TransactionRow
unfolding insert
by_attempts [] = []
by_attempts (t ∷ rest) = insert t (by_attempts rest)

unfoldable pub pending_transactions : Inbox → ℕ → Checked (List TransactionRow)
unfolding by_attempts
pending_transactions x limit =
    if leb 1 limit && leb limit 1000
    then value (take limit (by_attempts (select is_pending x.transactions)))
    else thrown invalid_limit

abbrev NoMore : TransactionRow → TransactionRow → Type 0
NoMore a b = a.attempts ≤ b.attempts

insert-All :
    (P : TransactionRow → Type 0) (t : TransactionRow) (ts : List TransactionRow)
    → P t
    → All P ts
    → All P (insert t ts)
unfolding insert
insert-All P t [] h k = (h, tt)
insert-All P t (u ∷ ts) h k = elim (Bool-cases (is_before t u)) [
  | inl first ↦ rw (first, insert) (h, k)
  | inr later ↦ rw (later, insert) (k.0, insert-All P t ts h k.1)
]

insert-Pairs :
    (t : TransactionRow) (ts : List TransactionRow) → Pairs NoMore ts → Pairs NoMore (insert t ts)
unfolding insert
insert-Pairs t [] h = (tt, tt)
insert-Pairs t (u ∷ ts) h = elim (Bool-cases (is_before t u)) [
  | inl first ↦
      rw (first, insert)
        (
          (
            ground (arith, first),
            All-imp (NoMore u) (NoMore t) ts (λ x k. ground (arith, first, k)) h.0,
          ),
          h,
        )
  | inr later ↦
      rw (later, insert)
        (insert-All (NoMore u) t ts (ground (arith, later)) h.0, insert-Pairs t ts h.1)
]

by_attempts-Pairs : (ts : List TransactionRow) → Pairs NoMore (by_attempts ts)
unfolding by_attempts
by_attempts-Pairs [] = tt
by_attempts-Pairs (t ∷ ts) = insert-Pairs t (by_attempts ts) (by_attempts-Pairs ts)

insert-Mem : (t : TransactionRow) (ts : List TransactionRow) → Memᴰ t (insert t ts)
unfolding insert
insert-Mem t [] = Memᴰ.head refl
insert-Mem t (u ∷ ts) = elim (Bool-cases (is_before t u)) [
  | inl first ↦ rw (first, insert) (Memᴰ.head refl)
  | inr later ↦ rw (later, insert) (Memᴰ.tail (insert-Mem t ts))
]

insert-keeps : (s t : TransactionRow) (ts : List TransactionRow) → Memᴰ s ts → Memᴰ s (insert t ts)
unfolding insert
insert-keeps s t [] m = elim m [ ]
insert-keeps s t (u ∷ ts) m = elim (Bool-cases (is_before t u)) [
  | inl first ↦ rw (first, insert) (Memᴰ.tail m)
  | inr later ↦
      rw (later, insert)
        (elim m [ Memᴰ.head e ↦ Memᴰ.head e | Memᴰ.tail k ↦ Memᴰ.tail (insert-keeps s t ts k) ])
]

by_attempts-Mem :
    (t : TransactionRow) (ts : List TransactionRow) → Memᴰ t ts → Memᴰ t (by_attempts ts)
unfolding by_attempts
by_attempts-Mem t [] m = elim m [ ]
by_attempts-Mem t (u ∷ ts) (Memᴰ.head e) =
    subst (λ x. Memᴰ t (insert x (by_attempts ts))) e (insert-Mem t (by_attempts ts))
by_attempts-Mem t (u ∷ ts) (Memᴰ.tail m) =
    insert-keeps t u (by_attempts ts) (by_attempts-Mem t ts m)

-- A row of a sorted list is in its beginning, or after each row of it.
in_page :
    (n : ℕ) (ts : List TransactionRow) (s t : TransactionRow)
    → Pairs NoMore ts
    → Memᴰ t ts
    → Memᴰ s (take n ts)
    → Memᴰ t (take n ts) ⊎ (s.attempts ≤ t.attempts)
in_page zero ts s t h m k = elim k [ ]
in_page (suc n) [] s t h m k = elim m [ ]
in_page (suc n) (u ∷ ts) s t h (Memᴰ.head e) k = inl (Memᴰ.head e)
in_page (suc n) (u ∷ ts) s t h (Memᴰ.tail m) (Memᴰ.head e) =
    inr
      (subst (λ (x : TransactionRow). x.attempts ≤ t.attempts) (sym e) (All-of (NoMore u) ts h.0 m))
in_page (suc n) (u ∷ ts) s t h (Memᴰ.tail m) (Memᴰ.tail k) = elim (in_page n ts s t h.1 m k) [
  | inl here ↦ inl (Memᴰ.tail here)
  | inr after ↦ inr after
]

select-Mem :
    (test : TransactionRow → Bool) (t : TransactionRow) (ts : List TransactionRow)
    → Memᴰ t ts
    → test t ≡ true
    → Memᴰ t (select test ts)
select-Mem test t [] m hit = elim m [ ]
select-Mem test t (u ∷ ts) (Memᴰ.head e) hit =
    let same : test u ≡ true = subst (λ x. test x ≡ true) e hit in rw same (Memᴰ.head e)
select-Mem test t (u ∷ ts) (Memᴰ.tail m) hit = elim (Bool-cases (test u)) [
  | inl taken ↦ rw taken (Memᴰ.tail (select-Mem test t ts m hit))
  | inr left ↦ rw left (select-Mem test t ts m hit)
]

-- The page of transactions to try holds the least attempted ones: a pending transaction that is not
-- on a page was attempted at least as often as each one that is.
pub least_attempted_first :
    (x : Inbox) (limit : ℕ) (page : List TransactionRow) (s t : TransactionRow)
    → pending_transactions x limit ≡ value page
    → Memᴰ s page
    → Memᴰ t x.transactions
    → t.is_done ≡ false
    → Memᴰ t page ⊎ (s.attempts ≤ t.attempts)
unfolding pending_transactions
least_attempted_first x limit page s t h k m waiting =
    let ts = by_attempts (select is_pending x.transactions) in
    let same : take limit ts ≡ page = ground (arith, h) in
    subst (λ p. Memᴰ t p ⊎ (s.attempts ≤ t.attempts)) same
      (in_page limit ts s t (by_attempts-Pairs (select is_pending x.transactions))
        (by_attempts-Mem t (select is_pending x.transactions)
          (select-Mem is_pending t x.transactions m (ground (arith, waiting))))
        (subst (λ p. Memᴰ s p) (sym same) k))
