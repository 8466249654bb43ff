-- ===== src/Outbox/Reactions/Calls.antt =====
-- Every call of ReactionJournal is one of the steps (src/outbox/reaction-journal.ts).
use threema_beeper.Prelude.{
  ℕ, String, Bool, true, false, List, [], Option, none, some, ◌==◌, ◌≡◌, refl, ◌⊎◌, inl, inr, ap,
  arith, Option-cases, Bool-cases,
}
use threema_beeper.Outbox.Result.{Result, ok, err}
use threema_beeper.Outbox.Tables.{
  Database, ReactionOperation, ReactionState, ReactionPart, ReactionRow,
}
use threema_beeper.Outbox.Reactions.Journal
use threema_beeper.Outbox.Reactions.Journal.{is_row, serialize}
use threema_beeper.Outbox.Reactions.Dispatch
use threema_beeper.Outbox.Reactions.Retirement
use threema_beeper.Outbox.Reactions.Reorder
use threema_beeper.Outbox.Slots.{Position}
use threema_beeper.Outbox.Reactions.Dispatch.{
  update_parts, set_state, is_interrupted, unsettled_echo, claimable, first_part, candidate,
  is_expected, agrees,
}
use threema_beeper.Outbox.Reactions.Claims.{first_part-IsFirst}
use threema_beeper.Outbox.Reactions.Plans.{prepare_lem, serialize_cases}
use threema_beeper.Outbox.Reactions.History.{
  Call, call, after_claim, after_observation, claimed_of, prepare, claim, finish,
  recover_interrupted, reject, acknowledge_failure, observe_desired_state, plan_retirement,
  finish_retirement, reorder_prepared, after_repair,
}
use threema_beeper.Outbox.Reactions.Steps.{
  Step, reordered, kept, planned, settled, claimed, Result-cases, after-Step, finish-Step,
  reject-Step, acknowledge-Step, plan-Step, retire-Step, recover-IsSettling, observe-IsSettling,
}

abbrev take : Database → ReactionRow → ReactionPart → Database
take db o p =
    update_parts (λ r. r.sequence == o.sequence) (claimable p.part)
      (set_state ReactionState.dispatching) db

-- A claim that does not throw leaves the table, or takes the first candidate.
claim_lem :
    (db db' : Database) (profile : String) (expected : Option (String × ℕ)) (excluded : List String)
    (taken : Option (ReactionOperation × ℕ))
    → Dispatch.claim db profile expected excluded ≡ ok (db', taken)
    → ((db' ≡ db) × (taken ≡ none))
      ⊎ ((o : ReactionRow) × (p : ReactionPart) × (first_part db profile excluded db.reactions
            ≡ some (o, p))
          × (db' ≡ take db o p)
          × (taken ≡ some (o.body, p.part)))
unfolding Dispatch.claim candidate
claim_lem db db' profile expected excluded taken h =
    elim (Option-cases (first_part db profile excluded db.reactions)) [
      | inl missing ↦ inl (ground (arith, missing), ground (arith, missing))
      | inr ((o, p), found) ↦ elim (serialize_cases o.body) [
        | inr (e, invalid) ↦ absurd (ground (arith, found, invalid))
        | inl valid ↦ elim (Bool-cases (is_expected expected o.body.event p.part)) [
          | inr other ↦
              inl (ground (arith, found, valid, other), ground (arith, found, valid, other))
          | inl this ↦
              inr (
                o,
                p,
                found,
                ground (arith, found, valid, this),
                ground (arith, found, valid, this),
              )
        ]
      ]
    ]

pub claim-Step :
    (db db' : Database) (profile : String) (expected : Option (String × ℕ)) (excluded : List String)
    (taken : Option (ReactionOperation × ℕ))
    → Dispatch.claim db profile expected excluded ≡ ok (db', taken)
    → Step db db' (claimed_of profile taken)
claim-Step db db' profile expected excluded taken h =
    elim (claim_lem db db' profile expected excluded taken h) [
      | inl (same, nothing) ↦
          kept (ap (claimed_of profile) nothing) (ap (λ x. x.reactions) same)
            (ap (λ x. x.next_reaction) same) (ap (λ x. x.retirements) same)
      | inr (o, p, found, changed, this) ↦
          claimed profile o p (first_part-IsFirst db profile excluded db.reactions o p found)
            changed (ap (claimed_of profile) this)
    ]

observe-Step :
    (db db' : Database) (profile event : String) (part : ℕ) (present seen : Bool)
    → Dispatch.observe_desired_state db profile event part present ≡ ok (db', seen)
    → Step db db' []
unfolding Dispatch.observe_desired_state
observe-Step db db' profile event part present seen h =
    elim (Result-cases (Journal.get db profile event)) [
      | inr (e, bad) ↦ absurd (ground (arith, bad))
      | inl (none, found) ↦ absurd (ground (arith, found))
      | inl (some r, found) ↦ elim (Bool-cases (agrees present r.operation.action)) [
        | inr differs ↦
            kept refl (ground (arith, found, differs)) (ground (arith, found, differs))
              (ground (arith, found, differs))
        | inl same ↦
            settled refl (is_row profile event) (unsettled_echo part) (set_state ReactionState.sent)
              (observe-IsSettling part) (ground (arith, found, same))
      ]
    ]

prepare-Step :
    (db db' : Database) (o : ReactionOperation) → Journal.prepare db o ≡ ok db' → Step db db' []
prepare-Step db db' o h = elim (prepare_lem db db' o h) [
  | inl same ↦
      kept refl (ap (λ x. x.reactions) same) (ap (λ x. x.next_reaction) same)
        (ap (λ x. x.retirements) same)
  | inr (fresh, is) ↦ planned refl o fresh is
]

after_claim-Step :
    (db : Database) (profile : String) (r : Result (Database × Option (ReactionOperation × ℕ)))
    → ((db' : Database) (taken : Option (ReactionOperation × ℕ))
        → r ≡ ok (db', taken)
        → Step db db' (claimed_of profile taken))
    → Step db (after_claim db profile r).0 (after_claim db profile r).1
after_claim-Step db profile (err e) f = kept refl refl refl refl
after_claim-Step db profile (ok (db', taken)) f = f db' taken refl

after_observation-Step :
    (db : Database) (r : Result (Database × Bool))
    → ((db' : Database) (seen : Bool) → r ≡ ok (db', seen) → Step db db' [])
    → Step db (after_observation db r).0 (after_observation db r).1
after_observation-Step db (err e) f = kept refl refl refl refl
after_observation-Step db (ok (db', seen)) f = f db' seen refl

after_repair-Step :
    (db : Database) (r : Result (Database × ℕ))
    → ((db' : Database) (n : ℕ) → r ≡ ok (db', n) → Step db db' [])
    → Step db (after_repair db r).0 (after_repair db r).1
after_repair-Step db (err e) f = kept refl refl refl refl
after_repair-Step db (ok (db', n)) f = f db' n refl

repair-Step :
    (db db' : Database) (in_transaction : Bool) (source : String → Option Position) (n : ℕ)
    → Reorder.reorder_prepared in_transaction source db ≡ ok (db', n)
    → Step db db' []
unfolding Reorder.reorder_prepared
repair-Step db db' true source n h = absurd (ground (arith, h))
repair-Step db db' false source n h = reordered refl source n h

pub call-Step : (c : Call) (db : Database) → Step db (call c db).0 (call c db).1
unfolding call Dispatch.recover_interrupted
call-Step (prepare o) db = after-Step db (Journal.prepare db o) (λ t h. prepare-Step db t o h)
call-Step (claim profile expected excluded) db =
    after_claim-Step db profile (Dispatch.claim db profile expected excluded)
      (λ t taken h. claim-Step db t profile expected excluded taken h)
call-Step (finish profile event part state) db =
    after-Step db (Dispatch.finish db profile event part state)
      (λ t h. finish-Step db t profile event part state h)
call-Step recover_interrupted db =
    settled refl (λ o. true) is_interrupted (set_state ReactionState.outcome_unknown)
      recover-IsSettling refl
call-Step (reject profile event part reason) db =
    after-Step db (Dispatch.reject db profile event part reason)
      (λ t h. reject-Step db t profile event part reason h)
call-Step (acknowledge_failure profile event part) db =
    after-Step db (Dispatch.acknowledge_failure db profile event part)
      (λ t h. acknowledge-Step db t profile event part h)
call-Step (observe_desired_state profile event part present) db =
    after_observation-Step db (Dispatch.observe_desired_state db profile event part present)
      (λ t seen h. observe-Step db t profile event part present seen h)
call-Step (reorder_prepared in_transaction source) db =
    after_repair-Step db (Reorder.reorder_prepared in_transaction source db)
      (λ t n h. repair-Step db t in_transaction source n h)
call-Step (plan_retirement profile event) db =
    after-Step db (Retirement.plan_retirement db profile event)
      (λ t h. plan-Step db t profile event h)
call-Step (finish_retirement profile event) db =
    after-Step db (Retirement.finish_retirement db profile event)
      (λ t h. retire-Step db t profile event h)
