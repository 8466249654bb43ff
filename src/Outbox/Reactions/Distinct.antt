-- ===== src/Outbox/Reactions/Distinct.antt =====
-- ReactionJournal hands a part out at most once (src/outbox/reaction-journal.ts).
use threema_beeper.Prelude.{
  true, false, List, [], ◌∷◌, eq_iff, ◌≡◌, ◌⊎◌, inl, inr, sym, subst, arith, All, All-imp, Pairs,
  Bool-cases,
}
use threema_beeper.Outbox.Tables.{Database}
use threema_beeper.Outbox.Reactions.Invariant.{Inv}
use threema_beeper.Outbox.Reactions.History.{Call, Claimed, call, run}
use threema_beeper.Outbox.Reactions.Steps.{
  Step, kept, planned, settled, claimed, retired, reordered, closed,
}
use threema_beeper.Outbox.Reactions.Calls.{call-Step}
use threema_beeper.Outbox.Reactions.Order.{Step-Inv}
use threema_beeper.Outbox.Reactions.Attempts.{
  is_attempted, claim_of, same_claim, still_attempted, was_prepared, is_taken,
}

-- A step returns nothing, or one part that was prepared before it and is attempted after it.
pub one_claim :
    (db db' : Database) (taken : List Claimed)
    → Inv db
    → Step db db' taken
    → (taken ≡ [])
      ⊎ ((c : Claimed) × (taken ≡ c ∷ [])
          × (is_attempted db c ≡ false)
          × (is_attempted db' c ≡ true))
one_claim db db' taken inv (kept nothing rows next others) = inl nothing
one_claim db db' taken inv (planned nothing o fresh is) = inl nothing
one_claim db db' taken inv (settled nothing rows test f s is) = inl nothing
one_claim db db' taken inv (claimed profile o p first is this) = inr (
  claim_of profile o p,
  this,
  was_prepared db inv profile o p first,
  subst (λ d. is_attempted d (claim_of profile o p) ≡ true) (sym is)
      (is_taken db inv profile o p first),
)
one_claim db db' taken inv (retired nothing profile event r found fits is) = inl nothing
one_claim db db' taken inv (reordered nothing source n done) = inl nothing
one_claim db db' taken inv (closed nothing profile event is) = inl nothing

pub same_claim-attempted :
    (db : Database) (c d : Claimed)
    → same_claim c d ≡ true
    → is_attempted db c ≡ true
    → is_attempted db d ≡ true
same_claim-attempted db c d same h =
    let profiles : c.profile ≡ d.profile = ground (arith, same, eq_iff c.profile d.profile) in
    let events : c.event ≡ d.event = ground (arith, same, eq_iff c.event d.event) in
    let parts : c.part ≡ d.part = ground (arith, same) in
    subst (λ n. is_attempted db (record { profile = d.profile; event = d.event; part = n }) ≡ true)
      parts
      (subst
        (λ e. is_attempted db (record { profile = d.profile; event = e; part = c.part }) ≡ true)
        events
        (subst
          (λ e. is_attempted db (record { profile = e; event = c.event; part = c.part }) ≡ true)
          profiles h))

-- Nothing that was attempted before is claimed.
claims_fresh :
    (calls : List Call) (db : Database)
    → Inv db
    → All (λ c. is_attempted db c ≡ false) (run calls db).1
unfolding run
claims_fresh [] db inv = tt
claims_fresh (c ∷ calls) db inv =
    let step = call-Step c db in
    let db1 = (call c db).0 in
    let later =
      All-imp (λ d. is_attempted db1 d ≡ false) (λ d. is_attempted db d ≡ false) (run calls db1).1
        (λ d e. elim (Bool-cases (is_attempted db d)) [
          | inr never ↦ never
          | inl before ↦
              absurd (ground (arith, e, still_attempted db db1 (call c db).1 d step before))
        ])
        (claims_fresh calls db1 (Step-Inv db db1 (call c db).1 step inv)) in
    elim (one_claim db db1 (call c db).1 inv step) [
      | inl nothing ↦ rw nothing later
      | inr (d, this, prepared, tried) ↦ rw this (prepared, later)
    ]

-- Whatever sequence of calls is made, in a journal that keeps its invariant to begin with, the
-- claims never return the same part of the same event of the same profile twice.
pub claims_differ :
    (calls : List Call) (db : Database)
    → Inv db
    → Pairs (λ c d. same_claim c d ≡ false) (run calls db).1
unfolding run
claims_differ [] db inv = tt
claims_differ (c ∷ calls) db inv =
    let step = call-Step c db in
    let db1 = (call c db).0 in
    let inv1 = Step-Inv db db1 (call c db).1 step inv in
    elim (one_claim db db1 (call c db).1 inv step) [
      | inl nothing ↦ rw nothing (claims_differ calls db1 inv1)
      | inr (d, this, prepared, tried) ↦ rw this (
        All-imp (λ x. is_attempted db1 x ≡ false) (λ x. same_claim d x ≡ false) (run calls db1).1
            (λ x e. elim (Bool-cases (same_claim d x)) [
              | inr apart ↦ apart
              | inl same ↦ absurd (ground (arith, e, same_claim-attempted db1 d x same tried))
            ])
            (claims_fresh calls db1 inv1),
        claims_differ calls db1 inv1,
      )
    ]
