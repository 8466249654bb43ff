-- ===== src/Outbox/Mutations/Dispatch.antt =====
-- `peek`, `claim`, `finish` and what follows a dispatch, of MutationJournal
-- (src/outbox/mutation-journal.ts).
use threema_beeper.Prelude.{
  ℕ, String, Bool, true, false, not, ◌&&◌, ◌||◌, List, [], ◌∷◌, map, Option, none, some, leb, ltb,
  ◌==◌, str_eq, exists, select_one, update, if◌then◌else◌, select_one, count, length,
}
use threema_beeper.Outbox.Result.{
  Result, ok, exclusion_limit, invalid_completion, not_dispatching, not_pending_failure, ◌>>◌,
  ◌>>=◌, require,
}
use threema_beeper.Outbox.Request.{max_safe}
use threema_beeper.Outbox.Tables.{
  Database, MutationOperation, MutationState, MutationPart, MutationRow,
}
use threema_beeper.Outbox.Mutations.Plan.{serialize}
use threema_beeper.Outbox.Mutations.Journal.{
  is_row, is_settled, is_prepared, is_dispatching, is_unknown,
}

-- A part that stands before `p` of `o` in its chat and is not settled.
unfoldable pub is_blocked : Database → MutationRow → MutationPart → Bool
is_blocked db o p =
    exists
      (λ prior.
        (str_eq prior.profile o.profile && str_eq prior.chat o.chat)
        && exists
            (λ q.
              not (is_settled q.state)
              && (ltb prior.sequence o.sequence
                  || (prior.sequence == o.sequence && ltb q.part p.part)))
            prior.parts)
      db.mutations

-- The rows of the join, in the order of sequence and part: the first that `peek` may take.
unfoldable pub first_part :
    Database → String → List String → List MutationRow → Option (MutationRow × MutationPart)
first_part db profile excluded [] = none
first_part db profile excluded (o ∷ rows) =
    let rest = first_part db profile excluded rows in
    if str_eq o.profile profile && not (exists (str_eq o.chat) excluded)
    then elim (select_one (λ p. is_prepared p.state && not (is_blocked db o p)) o.parts) [
      | some p ↦ some (o, p)
      | none ↦ rest
    ]
    else rest

unfoldable pub peek : Database → String → List String → Result (Option (MutationOperation × ℕ))
unfolding first_part
peek db profile excluded = do
  require (leb (length excluded) 1000) exclusion_limit
  elim (first_part db profile excluded db.mutations) [
    | none ↦ ok none
    | some (o, p) ↦ do operation ← serialize o.body; ok (some (operation, p.part))
  ]

-- UPDATE mutation_parts SET f WHERE operation=(SELECT ... profile=? AND event=?) AND test.
unfoldable pub update_parts :
    (MutationPart → Bool) → (MutationPart → MutationPart) → String → String → Database → Database
update_parts test f profile event db = record db {
  mutations =
      update (is_row profile event) (λ o. record o { parts = update test f o.parts }) db.mutations;
}

-- The `changes` of that statement.
unfoldable pub changes : (MutationPart → Bool) → String → String → Database → ℕ
changes test profile event db = elim (select_one (is_row profile event) db.mutations) [
  | none ↦ 0
  | some o ↦ count test o.parts
]

abbrev pub set_state : MutationState → MutationPart → MutationPart
set_state s p = record p { state = s }

abbrev pub claimable : ℕ → MutationPart → Bool
claimable part p = p.part == part && is_prepared p.state

unfoldable pub claim : Database → String → String → ℕ → List String → Result (Database × Bool)
unfolding update_parts changes
claim db profile event part excluded = do
  next ← peek db profile excluded
  elim next [
    | none ↦ ok (db, false)
    | some (operation, p) ↦
        if str_eq operation.event event && p == part
        then ok (
          update_parts (claimable part) (set_state MutationState.dispatching) profile event db,
          changes (claimable part) profile event db == 1,
        )
        else ok (db, false)
  ]

-- The states that `finish` takes.
pub data Completion : Type 0 where
  applied outcome_unknown rejected : Completion

abbrev pub completed : Completion → MutationState
completed applied = MutationState.applied
completed outcome_unknown = MutationState.outcome_unknown
completed rejected = MutationState.rejected

unfoldable pub is_code : Option String → Bool
is_code none = false
is_code (some r) = exists (str_eq r) (
    "mutation-invalid" ∷ "mutation-permission-denied" ∷ "mutation-not-found"
    ∷ "mutation-unsupported" ∷ "edit-window-expired" ∷ "delete-window-expired" ∷ [])

unfoldable pub has_reason : Completion → Option String → Bool
has_reason rejected reason = is_code reason
has_reason _ none = true
has_reason _ (some _) = false

abbrev pub in_flight : ℕ → MutationPart → Bool
in_flight part p = p.part == part && is_dispatching p.state

-- Later parts of a rejected plan are never sent.
abbrev pub cancellable : ℕ → MutationPart → Bool
cancellable part p = ltb part p.part && is_prepared p.state

abbrev pub complete : Completion → Option String → MutationPart → MutationPart
complete s reason p = record p { state = completed s; reason = reason }

unfoldable pub cancel_later : Completion → ℕ → String → String → Database → Database
unfolding update_parts
cancel_later rejected part profile event db =
    update_parts (cancellable part) (set_state MutationState.cancelled) profile event db
cancel_later _ part profile event db = db

unfoldable pub finish :
    Database → String → String → ℕ → Completion → Option String → Result Database
unfolding update_parts changes cancel_later
finish db profile event part state reason = do
  require (leb part max_safe && has_reason state reason) invalid_completion
  require (changes (in_flight part) profile event db == 1) not_dispatching
  ok (
      cancel_later state part profile event
        (update_parts (in_flight part) (complete state reason) profile event db))

abbrev pub unsettled_echo : ℕ → MutationPart → Bool
unsettled_echo part p = p.part == part && is_unknown p.state

unfoldable pub observe_desired_state :
    Database → String → String → ℕ → Bool → Result (Database × Bool)
unfolding update_parts changes
observe_desired_state db profile event part agrees = do
  require (leb part max_safe) invalid_completion
  if agrees
      then ok (
        update_parts (unsettled_echo part) (set_state MutationState.applied) profile event db,
        changes (unsettled_echo part) profile event db == 1,
      )
      else ok (db, false)

abbrev pub interrupted : MutationPart → Bool
interrupted p = is_dispatching p.state

unfoldable pub recover_interrupted : Database → Database
recover_interrupted db = record db {
  mutations =
      map {A = MutationRow}
        (λ o. record o {
          parts = update interrupted (set_state MutationState.outcome_unknown) o.parts;
        })
        db.mutations;
}

abbrev pub is_rejected : MutationState → Bool
is_rejected MutationState.rejected = true
is_rejected _ = false

abbrev pub unnotified : ℕ → MutationPart → Bool
unnotified part p = p.part == part && is_rejected p.state && not p.notified

unfoldable pub acknowledge_failure : Database → String → String → ℕ → Result Database
unfolding update_parts changes
acknowledge_failure db profile event part = do
  require (changes (unnotified part) profile event db == 1) not_pending_failure
  ok (update_parts (unnotified part) (λ p. record p { notified = true }) profile event db)
