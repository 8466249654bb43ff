-- ===== src/Outbox/Reactions/Steps.antt =====
-- What each call of ReactionJournal does to its table (src/outbox/reaction-journal.ts).
use threema_beeper.Prelude.{
  Option, ℕ, String, Bool, true, false, List, [], ◌∷◌, none, some, ◌==◌, select_one, update,
  insert_or_ignore, ◌≡◌, refl, ◌⊎◌, inl, inr, arith,
}
use threema_beeper.Outbox.Result.{Result, Error, ok, err}
use threema_beeper.Outbox.Tables.{
  Database, ReactionOperation, ReactionState, ReactionPart, ReactionRow,
}
use threema_beeper.Outbox.Reactions.Journal
use threema_beeper.Outbox.Reactions.Journal.{is_row, ReactionRecord}
use threema_beeper.Outbox.Reactions.Dispatch
use threema_beeper.Outbox.Reactions.Dispatch.{
  Completion, sent, outcome_unknown, update_parts, set_state, completed, in_flight, is_interrupted,
  fail, has_failure, notify, unsettled_echo, claimable, first_part, candidate,
}
use threema_beeper.Outbox.Reactions.Retirement
use threema_beeper.Outbox.Reactions.Reorder
use threema_beeper.Outbox.Slots.{Position}
use threema_beeper.Outbox.Reactions.Retirement.{is_plan, is_retired}
use threema_beeper.Outbox.Reactions.Invariant.{IsSettling}
use threema_beeper.Outbox.Reactions.Claims.{IsFirst}
use threema_beeper.Outbox.Reactions.History.{Claimed, after}

pub data Step (db db' : Database) (taken : List Claimed) : Type 0 where
  kept :
      taken ≡ []
      → db'.reactions ≡ db.reactions
      → db'.next_reaction ≡ db.next_reaction
      → db'.retirements ≡ db.retirements
      → Step db db' taken
  planned :
      taken ≡ []
      → (o : ReactionOperation) → select_one (is_row o.profile o.event) db.reactions ≡ none
      → db' ≡ Journal.insert db o
      → Step db db' taken
  settled :
      taken ≡ []
      → (rows : ReactionRow → Bool) (test : ReactionPart → Bool) (f : ReactionPart → ReactionPart)
      → IsSettling test f
      → db' ≡ update_parts rows test f db
      → Step db db' taken
  claimed :
      (profile : String) (o : ReactionRow) (p : ReactionPart)
      → IsFirst db profile o p db.reactions
      → db'
        ≡ update_parts
            (λ r. r.sequence == o.sequence)
            (claimable p.part)
            (set_state ReactionState.dispatching)
            db
      → taken ≡ record { profile = profile; event = o.body.event; part = p.part } ∷ []
      → Step db db' taken
  retired :
      taken ≡ []
      → (profile event : String) (r : ReactionRecord) → Journal.get db profile event ≡ ok (some r)
      → is_plan r ≡ true
      → db' ≡ record db {
        retirements =
            insert_or_ignore
              (is_retired profile event)
              (record { profile = profile; event = event; is_done = false })
              db.retirements;
      }
      → Step db db' taken
  reordered :
      taken ≡ []
      → (source : String → Option Position) (n : ℕ)
      → Reorder.reorder_prepared false source db ≡ ok (db', n)
      → Step db db' taken
  closed :
      taken ≡ []
      → (profile event : String)
      → db' ≡ record db {
        retirements =
            update (is_retired profile event) (λ r. record r { is_done = true }) db.retirements;
      }
      → Step db db' taken

finish-IsSettling :
    (part : ℕ) (c : Completion) → IsSettling (in_flight part) (set_state (completed c))
finish-IsSettling part sent = record {
  part = λ p. ground arith;
  attempted = λ p. ground arith;
  settled = λ p. ground arith;
  sent = λ p e. ground (arith, e);
}
finish-IsSettling part outcome_unknown = record {
  part = λ p. ground arith;
  attempted = λ p. ground arith;
  settled = λ p. ground arith;
  sent = λ p e. ground (arith, e);
}

pub recover-IsSettling : IsSettling is_interrupted (set_state ReactionState.outcome_unknown)
recover-IsSettling = record {
  part = λ p. ground arith;
  attempted = λ p. ground arith;
  settled = λ p. ground arith;
  sent = λ p e. ground (arith, e);
}

reject-IsSettling : (part : ℕ) (reason : String) → IsSettling (in_flight part) (fail reason)
reject-IsSettling part reason = record {
  part = λ p. ground arith;
  attempted = λ p. ground arith;
  settled = λ p. ground arith;
  sent = λ p e. ground (arith, e);
}

notify-IsSettling : (part : ℕ) → IsSettling (has_failure part) notify
notify-IsSettling part = record {
  part = λ p. ground arith;
  attempted = λ p. ground arith;
  settled = λ p. ground arith;
  sent = λ p e. ground (arith, e);
}

pub observe-IsSettling :
    (part : ℕ) → IsSettling (unsettled_echo part) (set_state ReactionState.sent)
observe-IsSettling part = record {
  part = λ p. ground arith;
  attempted = λ p. ground arith;
  settled = λ p. ground arith;
  sent = λ p e. ground (arith, e);
}

pub Result-cases {ℓ} :
    {T : Type ℓ} (r : Result T) → ((t : T) × (r ≡ ok t)) ⊎ ((e : Error) × (r ≡ err e))
Result-cases (ok t) = inl (t, refl)
Result-cases (err e) = inr (e, refl)

-- The step of a call that throws, or else does what `f` says.
pub after-Step :
    (db : Database) (r : Result Database)
    → ((t : Database) → r ≡ ok t → Step db t [])
    → Step db (after db r).0 (after db r).1
after-Step db (err e) f = kept refl refl refl refl
after-Step db (ok t) f = f t refl

pub finish-Step :
    (db t : Database) (profile event : String) (part : ℕ) (c : Completion)
    → Dispatch.finish db profile event part c ≡ ok t
    → Step db t []
unfolding Dispatch.finish
finish-Step db t profile event part c h =
    settled refl (is_row profile event) (in_flight part) (set_state (completed c))
      (finish-IsSettling part c) (ground arith)

pub reject-Step :
    (db t : Database) (profile event : String) (part : ℕ) (reason : String)
    → Dispatch.reject db profile event part reason ≡ ok t
    → Step db t []
unfolding Dispatch.reject
reject-Step db t profile event part reason h =
    settled refl (is_row profile event) (in_flight part) (fail reason)
      (reject-IsSettling part reason) (ground arith)

pub acknowledge-Step :
    (db t : Database) (profile event : String) (part : ℕ)
    → Dispatch.acknowledge_failure db profile event part ≡ ok t
    → Step db t []
unfolding Dispatch.acknowledge_failure
acknowledge-Step db t profile event part h =
    settled refl (is_row profile event) (has_failure part) notify (notify-IsSettling part)
      (ground arith)

pub plan-Step :
    (db t : Database) (profile event : String)
    → Retirement.plan_retirement db profile event ≡ ok t
    → Step db t []
unfolding Retirement.plan_retirement
plan-Step db t profile event h = elim (Result-cases (Journal.get db profile event)) [
  | inr (e, bad) ↦ absurd (ground (arith, bad))
  | inl (none, found) ↦ absurd (ground (arith, found))
  | inl (some r, found) ↦
      retired refl profile event r found (ground (arith, found)) (ground (arith, found))
]

pub retire-Step :
    (db t : Database) (profile event : String)
    → Retirement.finish_retirement db profile event ≡ ok t
    → Step db t []
unfolding Retirement.finish_retirement
retire-Step db t profile event h = closed refl profile event (ground arith)
