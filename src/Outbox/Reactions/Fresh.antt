-- ===== src/Outbox/Reactions/Fresh.antt =====
-- What a stretch of work on the reaction journal does to the parts that are attempted
-- (src/outbox/reaction-journal.ts).
use threema_beeper.Prelude.{
  true, false, List, [], ◌∷◌, ◌++◌, ◌≡◌, inl, inr, arith, All, All-imp, All-append, Pairs,
  Bool-cases,
}
use threema_beeper.Outbox.Tables.{Database}
use threema_beeper.Outbox.Reactions.Invariant.{Inv}
use threema_beeper.Outbox.Reactions.History.{Call, Claimed, call, run}
use threema_beeper.Outbox.Reactions.Steps.{Step}
use threema_beeper.Outbox.Reactions.Calls.{call-Step}
use threema_beeper.Outbox.Reactions.Order.{Step-Inv}
use threema_beeper.Outbox.Reactions.Attempts.{is_attempted, same_claim, still_attempted}
use threema_beeper.Outbox.Reactions.Distinct.{one_claim, same_claim-attempted}

-- From `db` to `db'` the invariant is kept, nothing is taken back, and the parts of `taken` differ
-- and are first attempted in between.
pub record Fresh (db db' : Database) (taken : List Claimed) : Type 0 where
  pub inv : Inv db'
  pub still : (c : Claimed) → is_attempted db c ≡ true → is_attempted db' c ≡ true
  pub fresh : All (λ c. is_attempted db c ≡ false) taken
  pub tried : All (λ c. is_attempted db' c ≡ true) taken
  pub apart : Pairs (λ c d. same_claim c d ≡ false) taken

pub nothing-Fresh : (db : Database) → Inv db → Fresh db db []
nothing-Fresh db inv = record { inv = inv; still = λ c h. h; fresh = tt; tried = tt; apart = tt }

pub forget-Fresh : (db db' : Database) (taken : List Claimed) → Fresh db db' taken → Fresh db db' []
forget-Fresh db db' taken f = record {
  inv = f.inv;
  still = f.still;
  fresh = tt;
  tried = tt;
  apart = tt;
}

pub Step-Fresh :
    (db db' : Database) (taken : List Claimed) → Inv db → Step db db' taken → Fresh db db' taken
Step-Fresh db db' taken inv s = elim (one_claim db db' taken inv s) [
  | inl nothing ↦ rw nothing (forgotten)
  | inr (c, this, prepared, tried) ↦ rw this (record {
    inv = Step-Inv db db' taken s inv;
    still = λ d h. still_attempted db db' taken d s h;
    fresh = (prepared, tt);
    tried = (tried, tt);
    apart = (tt, tt);
  })
]
  where
    forgotten : Fresh db db' []
    forgotten = record {
      inv = Step-Inv db db' taken s inv;
      still = λ d h. still_attempted db db' taken d s h;
      fresh = tt;
      tried = tt;
      apart = tt;
    }

-- What is attempted before is not what is attempted first afterwards.
new_apart :
    (db : Database) (xs ys : List Claimed)
    → All (λ c. is_attempted db c ≡ true) xs
    → All (λ c. is_attempted db c ≡ false) ys
    → Pairs (λ c d. same_claim c d ≡ false) xs
    → Pairs (λ c d. same_claim c d ≡ false) ys
    → Pairs (λ c d. same_claim c d ≡ false) (xs ++ ys)
new_apart db [] ys tried fresh h k = k
new_apart db (x ∷ xs) ys tried fresh h k = (
  All-append (λ d. same_claim x d ≡ false) xs ys h.0
      (All-imp (λ d. is_attempted db d ≡ false) (λ d. same_claim x d ≡ false) ys
        (λ d e. elim (Bool-cases (same_claim x d)) [
          | inr differs ↦ differs
          | inl same ↦ absurd (ground (arith, e, same_claim-attempted db x d same tried.0))
        ])
        fresh),
  new_apart db xs ys tried.1 fresh h.1 k,
)

pub then-Fresh :
    (a b c : Database) (xs ys : List Claimed) → Fresh a b xs → Fresh b c ys → Fresh a c (xs ++ ys)
then-Fresh a b c xs ys f g = record {
  inv = g.inv;
  still = λ d h. g.still d (f.still d h);
  fresh =
      All-append (λ d. is_attempted a d ≡ false) xs ys f.fresh
        (All-imp (λ d. is_attempted b d ≡ false) (λ d. is_attempted a d ≡ false) ys
          (λ d e. elim (Bool-cases (is_attempted a d)) [
            | inr never ↦ never
            | inl before ↦ absurd (ground (arith, e, f.still d before))
          ])
          g.fresh);
  tried =
      All-append (λ d. is_attempted c d ≡ true) xs ys
        (All-imp (λ d. is_attempted b d ≡ true) (λ d. is_attempted c d ≡ true) xs
          (λ d e. g.still d e) f.tried)
        g.tried;
  apart = new_apart b xs ys f.tried g.fresh f.apart g.apart;
}

-- More work that takes nothing.
pub more-Fresh : (a b c : Database) (xs : List Claimed) → Fresh a b xs → Fresh b c [] → Fresh a c xs
more-Fresh a b c xs f g = record {
  inv = g.inv;
  still = λ d h. g.still d (f.still d h);
  fresh = f.fresh;
  tried =
      All-imp (λ d. is_attempted b d ≡ true) (λ d. is_attempted c d ≡ true) xs (λ d e. g.still d e)
        f.tried;
  apart = f.apart;
}

pub call-Fresh : (c : Call) (db : Database) → Inv db → Fresh db (call c db).0 (call c db).1
call-Fresh c db inv = Step-Fresh db (call c db).0 (call c db).1 inv (call-Step c db)

-- Calls of others, whatever they claim.
pub run-Fresh : (calls : List Call) (db : Database) → Inv db → Fresh db (run calls db).0 []
unfolding run
run-Fresh [] db inv = nothing-Fresh db inv
run-Fresh (c ∷ calls) db inv =
    let f = forget-Fresh _ _ _ (call-Fresh c db inv) in
    then-Fresh db (call c db).0 (run calls (call c db).0).0 [] [] f
      (run-Fresh calls (call c db).0 f.inv)
