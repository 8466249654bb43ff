-- ===== src/Outbox/Reactions/Dispatch.antt =====
-- `next`, `claim`, `finish`, `reject` and what follows a dispatch, of ReactionJournal
-- (src/outbox/reaction-journal.ts).
use threema_beeper.Prelude.{
  ℕ, zero, suc, String, Bool, true, false, not, ◌&&◌, ◌||◌, List, [], ◌∷◌, Option, none, some, leb,
  ltb, ◌==◌, str_eq, exists, select_one, update, count, if◌then◌else◌, length,
}
use threema_beeper.Outbox.Result.{
  Result, ok, err, exclusion_limit, invalid_completion, invalid_rejection, not_dispatching,
  unknown_failure, invalid_observation, constraint, ◌>>◌, ◌>>=◌, require, refuse,
}
use threema_beeper.Outbox.Request.{max_safe}
use threema_beeper.Outbox.Tables.{
  Database, ReactionAction, apply, withdraw, ReactionOperation, ReactionState, ReactionPart,
  ReactionRow,
}
use threema_beeper.Outbox.Reactions.Journal.{
  is_row, serialize, get, is_settled, is_prepared, is_dispatching, is_unknown,
}

-- A part that stands before `p` of `o` in its chat and is not settled.
unfoldable pub is_blocked : Database → ReactionRow → ReactionPart → Bool
is_blocked db o p =
    exists
      (λ prior.
        (str_eq prior.profile o.profile && str_eq prior.chat o.chat)
        && exists
            (λ q.
              not (is_settled q.state)
              && (ltb prior.sequence o.sequence
                  || (prior.sequence == o.sequence && ltb q.part p.part)))
            prior.parts)
      db.reactions

abbrev pub is_candidate : Database → ReactionRow → ReactionPart → Bool
is_candidate db o p = is_prepared p.state && not (is_blocked db o p)

-- The first row of the join that `candidate` selects.
unfoldable pub first_part :
    Database → String → List String → List ReactionRow → Option (ReactionRow × ReactionPart)
first_part db profile excluded [] = none
first_part db profile excluded (o ∷ rows) =
    let rest = first_part db profile excluded rows in
    if str_eq o.profile profile && not (exists (str_eq o.chat) excluded)
    then elim (select_one (is_candidate db o) o.parts) [ some p ↦ some (o, p) | none ↦ rest ]
    else rest

unfoldable pub candidate :
    Database → String → List String → Result (Option (ReactionRow × ReactionPart))
unfolding first_part
candidate db profile excluded = do
  require (leb (length excluded) 1000) exclusion_limit
  ok (first_part db profile excluded db.reactions)

unfoldable pub next : Database → String → List String → Result (Option (ReactionOperation × ℕ))
unfolding candidate
next db profile excluded = do
  row ← candidate db profile excluded
  elim row [
    | none ↦ ok none
    | some (o, p) ↦ do operation ← serialize o.body; ok (some (operation, p.part))
  ]

-- UPDATE reaction_parts SET f WHERE operation is one of the rows AND test.
unfoldable pub update_parts :
    (ReactionRow → Bool)
    → (ReactionPart → Bool)
    → (ReactionPart → ReactionPart)
    → Database
    → Database
update_parts rows test f db = record db {
  reactions = update rows (λ o. record o { parts = update test f o.parts }) db.reactions;
}

-- The `changes` of that statement where it names a profile and an event.
unfoldable pub changes : (ReactionPart → Bool) → String → String → Database → ℕ
changes test profile event db = elim (select_one (is_row profile event) db.reactions) [
  | none ↦ 0
  | some o ↦ count test o.parts
]

abbrev pub set_state : ReactionState → ReactionPart → ReactionPart
set_state s p = record p { state = s }

abbrev pub claimable : ℕ → ReactionPart → Bool
claimable part p = p.part == part && is_prepared p.state

-- `expected && (expected.event !== event || expected.part !== part)`, negated.
abbrev pub is_expected : Option (String × ℕ) → String → ℕ → Bool
is_expected none event part = true
is_expected (some (e, n)) event part = str_eq e event && n == part

unfoldable pub claim :
    Database
    → String
    → Option (String × ℕ)
    → List String
    → Result (Database × Option (ReactionOperation × ℕ))
unfolding candidate update_parts
claim db profile expected excluded = do
  row ← candidate db profile excluded
  elim row [
    | none ↦ ok (db, none)
    | some (o, p) ↦ do
      operation ← serialize o.body
      if is_expected expected operation.event p.part
          then ok (
            update_parts (λ r. r.sequence == o.sequence) (claimable p.part)
                (set_state ReactionState.dispatching) db,
            some (operation, p.part),
          )
          else ok (db, none)
  ]

-- The states that `finish` takes.
pub data Completion : Type 0 where
  sent outcome_unknown : Completion

abbrev pub completed : Completion → ReactionState
completed sent = ReactionState.sent
completed outcome_unknown = ReactionState.outcome_unknown

abbrev pub in_flight : ℕ → ReactionPart → Bool
in_flight part p = p.part == part && is_dispatching p.state

unfoldable pub finish : Database → String → String → ℕ → Completion → Result Database
unfolding update_parts changes
finish db profile event part state = do
  require (leb part max_safe) invalid_completion
  require (changes (in_flight part) profile event db == 1) not_dispatching
  ok (update_parts (is_row profile event) (in_flight part) (set_state (completed state)) db)

abbrev pub is_interrupted : ReactionPart → Bool
is_interrupted p = is_dispatching p.state

unfoldable pub recover_interrupted : Database → Database
unfolding update_parts
recover_interrupted db =
    update_parts (λ o. true) is_interrupted (set_state ReactionState.outcome_unknown) db

abbrev pub is_code : String → Bool
is_code reason =
    exists (str_eq reason)
      ("reaction-invalid" ∷ "reaction-permission-denied" ∷ "reaction-not-found" ∷ [])

abbrev pub has_failure : ℕ → ReactionPart → Bool
has_failure part p = p.part == part && elim p.failure [ none ↦ false | some _ ↦ true ]

-- The state and the row of reaction_failures.
abbrev pub fail : String → ReactionPart → ReactionPart
fail reason p = record p {
  state = ReactionState.rejected;
  failure = some (record { reason = reason; notified = false });
}

unfoldable pub reject : Database → String → String → ℕ → String → Result Database
unfolding update_parts changes
reject db profile event part reason = do
  require (is_code reason) invalid_rejection
  require (changes (in_flight part) profile event db == 1) not_dispatching
  refuse (not (changes (has_failure part) profile event db == 0)) constraint
  ok (update_parts (is_row profile event) (in_flight part) (fail reason) db)

abbrev pub notify : ReactionPart → ReactionPart
notify p = elim p.failure [
  | none ↦ p
  | some f ↦ record p { failure = some (record f { notified = true }) }
]

unfoldable pub acknowledge_failure : Database → String → String → ℕ → Result Database
unfolding update_parts changes
acknowledge_failure db profile event part = do
  require (changes (has_failure part) profile event db == 1) unknown_failure
  ok (update_parts (is_row profile event) (has_failure part) notify db)

abbrev pub state_at : ℕ → List ReactionState → Option ReactionState
state_at n [] = none
state_at zero (s ∷ states) = some s
state_at (suc n) (s ∷ states) = state_at n states

abbrev pub is_state : (ReactionState → Bool) → Option ReactionState → Bool
is_state test none = false
is_state test (some s) = test s

abbrev pub is_apply : ReactionAction → Bool
is_apply apply = true
is_apply withdraw = false

abbrev pub agrees : Bool → ReactionAction → Bool
agrees true action = is_apply action
agrees false action = not (is_apply action)

abbrev pub unsettled_echo : ℕ → ReactionPart → Bool
unsettled_echo part p = p.part == part && is_unknown p.state

unfoldable pub observe_desired_state :
    Database → String → String → ℕ → Bool → Result (Database × Bool)
unfolding update_parts
observe_desired_state db profile event part present = do
  found ← get db profile event
  elim found [
    | none ↦ err invalid_observation
    | some r ↦ do
      require (is_state is_unknown (state_at part r.states)) invalid_observation
      if agrees present r.operation.action
          then ok (
            update_parts (is_row profile event) (unsettled_echo part) (set_state ReactionState.sent)
                db,
            true,
          )
          else ok (db, false)
  ]
