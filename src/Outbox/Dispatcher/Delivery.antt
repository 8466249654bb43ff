-- ===== src/Outbox/Dispatcher/Delivery.antt =====
-- The dispatcher of reactions hands a part to the backend at most once
-- (src/outbox/reaction-dispatcher.ts).
use threema_beeper.Prelude.{
  ℕ, zero, suc, String, true, false, ◌&&◌, List, [], ◌∷◌, Option, none, some, leb, ◌≡◌, refl, inl,
  inr, Pairs, Bool-cases,
}
use threema_beeper.Outbox.Result.{Result, ok, err}
use threema_beeper.Outbox.Tables.{Database, ReactionOperation}
use threema_beeper.Outbox.Reactions.Dispatch
use threema_beeper.Outbox.Reactions.Dispatch.{Completion, next, recover_interrupted, is_code}
use threema_beeper.Outbox.Reactions.References.{requires_remote_mutation}
use threema_beeper.Outbox.Reactions.Invariant.{Inv}
use threema_beeper.Outbox.Reactions.History.{Call, Claimed, call, run, claimed_of}
use threema_beeper.Outbox.Reactions.Steps.{Step, Result-cases, finish-Step, reject-Step}
use threema_beeper.Outbox.Reactions.Calls.{claim-Step}
use threema_beeper.Outbox.Reactions.Attempts.{same_claim}
use threema_beeper.Outbox.Reactions.Fresh.{
  Fresh, nothing-Fresh, forget-Fresh, Step-Fresh, then-Fresh, more-Fresh, call-Fresh, run-Fresh,
}
use threema_beeper.Outbox.Dispatcher.{
  Attempt, Reply, accepted, refused, lost, cut_off, Progress, Turn, again, stop, Pass, Event,
  request, pass, restart, other, continue_with, answer, dispatch, claim_and_dispatch, attempt, turn,
  pass_of, process, drain, serve,
}

-- The journal after a turn.
TurnFresh : Database → Turn → Type 0
TurnFresh db (again s handed) = Fresh db s.db handed
TurnFresh db (stop db' outcome handed) = Fresh db db' handed

module _ (start : Database) (c : List Claimed) where
  continue-Fresh :
      (db : Database) (r : Result Database) (f : Database → Progress)
      → Fresh start db c
      → ((t : Database) → (f t).db ≡ t)
      → ((t : Database) → r ≡ ok t → Step db t [])
      → TurnFresh start (continue_with db c r f)
  unfolding TurnFresh
  continue-Fresh db (err e) f h keep step = h
  continue-Fresh db (ok t) f h keep step =
      rw (keep t) (more-Fresh start db t c h (Step-Fresh db t [] h.inv (step t refl)))

answer-Fresh :
    (start db : Database) (s : Progress) (c : Claimed) (chat : String) (reply : Reply)
    → Fresh start db (c ∷ [])
    → TurnFresh start (answer s db c chat reply)
unfolding answer TurnFresh
answer-Fresh start db s c chat cut_off h = h
answer-Fresh start db s c chat accepted h =
    continue-Fresh start (c ∷ []) db (Dispatch.finish db c.profile c.event c.part Completion.sent) _
      h (λ t. refl) (λ t e. finish-Step db t c.profile c.event c.part Completion.sent e)
answer-Fresh start db s c chat lost h =
    continue-Fresh start (c ∷ []) db
      (Dispatch.finish db c.profile c.event c.part Completion.outcome_unknown) _ h (λ t. refl)
      (λ t e. finish-Step db t c.profile c.event c.part Completion.outcome_unknown e)
answer-Fresh start db s c chat (refused code) h = elim (Bool-cases (is_code code)) [
  | inl known ↦
      rw (known, answer)
        (continue-Fresh start (c ∷ []) db (Dispatch.reject db c.profile c.event c.part code) _ h
          (λ t. refl) (λ t e. reject-Step db t c.profile c.event c.part code e))
  | inr unknown ↦
      rw (unknown, answer)
        (continue-Fresh start (c ∷ []) db
          (Dispatch.finish db c.profile c.event c.part Completion.outcome_unknown) _ h (λ t. refl)
          (λ t e. finish-Step db t c.profile c.event c.part Completion.outcome_unknown e))
]

-- What follows a claim of the part.
dispatch-Fresh :
    (start db : Database) (profile : String) (a : Attempt) (s : Progress) (o : ReactionOperation)
    (part : ℕ)
    → Fresh start db (record { profile = profile; event = o.event; part = part } ∷ [])
    → TurnFresh start (dispatch profile a s db o part)
unfolding dispatch TurnFresh
dispatch-Fresh start db profile a s o part h =
    elim (Result-cases (requires_remote_mutation db profile o.event part)) [
      | inr (e, bad) ↦ rw (bad, dispatch) (forget-Fresh start db _ h)
      | inl (false, known) ↦
          rw (known, dispatch)
            (continue-Fresh start [] db (Dispatch.finish db profile o.event part Completion.sent) _
              (forget-Fresh start db _ h) (λ t. refl)
              (λ t e. finish-Step db t profile o.event part Completion.sent e))
      | inl (true, known) ↦
          rw (known, dispatch)
            (answer-Fresh start (run a.during_reply db).0 s _ o.chat
              (a.reply (request profile o part))
              (more-Fresh start db (run a.during_reply db).0 _ h
                (run-Fresh a.during_reply db h.inv)))
    ]

claim-Fresh :
    (start : Database) (profile : String) (a : Attempt) (s : Progress) (o : ReactionOperation)
    (part : ℕ)
    → Fresh start s.db []
    → TurnFresh start (claim_and_dispatch profile a s o part)
unfolding claim_and_dispatch TurnFresh
claim-Fresh start profile a s o part h =
    elim (Result-cases (Dispatch.claim s.db profile (some (o.event, part)) s.excluded)) [
      | inr (e, bad) ↦ rw (bad, claim_and_dispatch) h
      | inl ((db, taken), got) ↦
          let f = then-Fresh start s.db db [] (claimed_of profile taken) h (
            Step-Fresh s.db db (claimed_of profile taken) h.inv
              (claim-Step s.db db profile (some (o.event, part)) s.excluded taken got)) in
          rw (got, claim_and_dispatch) (taken_up db taken f)
    ]
  where
    taken_up :
        (db : Database) (taken : Option (ReactionOperation × ℕ))
        → Fresh start db (claimed_of profile taken)
        → TurnFresh start (elim taken [
          | none ↦ again (record s { db = db }) []
          | some t ↦ dispatch profile a s db t.0 t.1
        ])
    taken_up db none f = f
    taken_up db (some (operation, n)) f = dispatch-Fresh start db profile a s operation n f

turn-Fresh :
    (profile : String) (a : Attempt) (s : Progress) → Inv s.db → TurnFresh s.db (turn profile a s)
unfolding turn attempt TurnFresh
turn-Fresh profile a s inv = elim (Bool-cases a.ready) [
  | inr stopped ↦ rw (stopped, turn) (nothing-Fresh s.db inv)
  | inl on ↦
      rw (on, turn)
        (elim (Result-cases (next s.db profile s.excluded)) [
          | inr (e, bad) ↦ rw (bad, turn) (nothing-Fresh s.db inv)
          | inl (none, got) ↦ rw (got, turn) (nothing-Fresh s.db inv)
          | inl (some (o, part), got) ↦
              rw (got, turn, attempt)
                (elim (Bool-cases (a.authorize o)) [
                  | inr barred ↦ rw (barred, attempt) (run-Fresh a.during_check s.db inv)
                  | inl passed ↦
                      rw (passed, attempt)
                        (elim (Bool-cases a.still_ready) [
                          | inr stopped ↦ rw (stopped, attempt) (run-Fresh a.during_check s.db inv)
                          | inl still ↦
                              rw (still, attempt)
                                (claim-Fresh s.db profile a
                                  (record s { db = (run a.during_check s.db).0 }) o part
                                  (run-Fresh a.during_check s.db inv))
                        ])
                ])
        ])
]

pass-Fresh :
    (db : Database) (t : Turn) (f : Progress → Pass)
    → TurnFresh db t
    → ((s : Progress) → Inv s.db → Fresh s.db (f s).db (f s).handed)
    → Fresh db (pass_of t f).db (pass_of t f).handed
unfolding TurnFresh
pass-Fresh db (stop db' outcome handed) f h rest = h
pass-Fresh db (again s handed) f h rest =
    then-Fresh db s.db (f s).db handed (f s).handed h (rest s h.inv)

process-Fresh :
    (profile : String) (n : ℕ) (attempts : List Attempt) (s : Progress)
    → Inv s.db
    → Fresh s.db (process profile n attempts s).db (process profile n attempts s).handed
unfolding process
process-Fresh profile zero attempts s inv = nothing-Fresh s.db inv
process-Fresh profile (suc n) [] s inv = nothing-Fresh s.db inv
process-Fresh profile (suc n) (a ∷ attempts) s inv =
    pass-Fresh s.db (turn profile a s) (λ t. process profile n attempts t)
      (turn-Fresh profile a s inv) (λ t i. process-Fresh profile n attempts t i)

drain-Fresh :
    (profile : String) (limit : ℕ) (attempts : List Attempt) (db : Database)
    → Inv db
    → Fresh db (drain profile limit attempts db).db (drain profile limit attempts db).handed
unfolding drain
drain-Fresh profile limit attempts db inv = elim (Bool-cases (leb 1 limit && leb limit 1000)) [
  | inr wrong ↦ rw wrong (nothing-Fresh db inv)
  | inl right ↦ rw right (process-Fresh profile limit attempts _ inv)
]

recover-Fresh : (db : Database) → Inv db → Fresh db (recover_interrupted db) []
unfolding call
recover-Fresh db inv = call-Fresh Call.recover_interrupted db inv

serve-Fresh :
    (profile : String) (events : List Event) (db : Database)
    → Inv db
    → Fresh db (serve profile events db).0 (serve profile events db).1
unfolding serve
serve-Fresh profile [] db inv = nothing-Fresh db inv
serve-Fresh profile (restart ∷ events) db inv =
    let f = recover-Fresh db inv in
    then-Fresh db (recover_interrupted db) (serve profile events (recover_interrupted db)).0 [] _ f
      (serve-Fresh profile events (recover_interrupted db) f.inv)
serve-Fresh profile (other c ∷ events) db inv =
    let f = forget-Fresh _ _ _ (call-Fresh c db inv) in
    then-Fresh db (call c db).0 (serve profile events (call c db).0).0 [] _ f
      (serve-Fresh profile events (call c db).0 f.inv)
serve-Fresh profile (pass limit attempts ∷ events) db inv =
    let f = drain-Fresh profile limit attempts db inv in
    then-Fresh db (drain profile limit attempts db).db
      (serve profile events (drain profile limit attempts db).db).0 _ _ f
      (serve-Fresh profile events (drain profile limit attempts db).db f.inv)

-- Whatever the backend, the checks and the other users of the journal do while a pass waits, and
-- however often the process ends and restarts: no part of the same event and profile is handed to
-- the backend twice, in a journal that keeps its invariant to begin with.
pub handed_apart :
    (profile : String) (events : List Event) (db : Database)
    → Inv db
    → Pairs (λ c d. same_claim c d ≡ false) (serve profile events db).1
handed_apart profile events db inv = (serve-Fresh profile events db inv).apart
