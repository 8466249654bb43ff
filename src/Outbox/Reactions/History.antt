-- ===== src/Outbox/Reactions/History.antt =====
-- Sequences of calls of ReactionJournal (src/outbox/reaction-journal.ts), with the parts that its
-- claims return. A call that throws leaves the journal as it was.
use threema_beeper.Prelude.{ℕ, String, Bool, List, [], ◌∷◌, ◌++◌, Option, none, some}
use threema_beeper.Outbox.Result.{Result, ok, err}
use threema_beeper.Outbox.Tables.{Database, ReactionOperation}
use threema_beeper.Outbox.Reactions.Journal
use threema_beeper.Outbox.Reactions.Dispatch
use threema_beeper.Outbox.Reactions.Dispatch.{Completion}
use threema_beeper.Outbox.Reactions.Retirement
use threema_beeper.Outbox.Reactions.Reorder
use threema_beeper.Outbox.Slots.{Position}

pub data Call : Type 0 where
  prepare : ReactionOperation → Call
  claim : String → Option (String × ℕ) → List String → Call
  finish : String → String → ℕ → Completion → Call
  recover_interrupted : Call
  reject : String → String → ℕ → String → Call
  acknowledge_failure : String → String → ℕ → Call
  observe_desired_state : String → String → ℕ → Bool → Call
  plan_retirement finish_retirement : String → String → Call
  reorder_prepared : Bool → (String → Option Position) → Call

-- A part that `claim` returned.
pub record Claimed : Type 0 where
  pub profile : String
  pub event : String
  pub part : ℕ

abbrev pub claimed_of : String → Option (ReactionOperation × ℕ) → List Claimed
claimed_of profile none = []
claimed_of profile (some (operation, part)) =
    record { profile = profile; event = operation.event; part = part } ∷ []

abbrev pub after : Database → Result Database → Database × List Claimed
after db (err thrown) = (db, [])
after db (ok db') = (db', [])

abbrev pub after_claim :
    Database → String → Result (Database × Option (ReactionOperation × ℕ)) → Database × List Claimed
after_claim db profile (err thrown) = (db, [])
after_claim db profile (ok (db', taken)) = (db', claimed_of profile taken)

abbrev pub after_observation : Database → Result (Database × Bool) → Database × List Claimed
after_observation db (err thrown) = (db, [])
after_observation db (ok (db', settled)) = (db', [])

abbrev pub after_repair : Database → Result (Database × ℕ) → Database × List Claimed
after_repair db (err thrown) = (db, [])
after_repair db (ok (db', moved)) = (db', [])

unfoldable pub call : Call → Database → Database × List Claimed
call (prepare operation) db = after db (Journal.prepare db operation)
call (claim profile expected excluded) db =
    after_claim db profile (Dispatch.claim db profile expected excluded)
call (finish profile event part state) db = after db (Dispatch.finish db profile event part state)
call recover_interrupted db = (Dispatch.recover_interrupted db, [])
call (reject profile event part reason) db = after db (Dispatch.reject db profile event part reason)
call (acknowledge_failure profile event part) db =
    after db (Dispatch.acknowledge_failure db profile event part)
call (observe_desired_state profile event part present) db =
    after_observation db (Dispatch.observe_desired_state db profile event part present)
call (reorder_prepared in_transaction source) db =
    after_repair db (Reorder.reorder_prepared in_transaction source db)
call (plan_retirement profile event) db = after db (Retirement.plan_retirement db profile event)
call (finish_retirement profile event) db = after db (Retirement.finish_retirement db profile event)

unfoldable pub run : List Call → Database → Database × List Claimed
unfolding call
run [] db = (db, [])
run (c ∷ calls) db = let rest = run calls (call c db).0 in (rest.0, (call c db).1 ++ rest.1)
