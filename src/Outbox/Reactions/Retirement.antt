-- ===== src/Outbox/Reactions/Retirement.antt =====
-- Retirements of reactions whose message is gone, of ReactionJournal
-- (src/outbox/reaction-journal.ts).
use threema_beeper.Prelude.{
  ℕ, String, Bool, true, false, not, ◌&&◌, List, map, Option, none, some, leb, ltb, ◌==◌, str_eq,
  exists, select, select_one, update, count, take, insert_or_ignore,
}
use threema_beeper.Outbox.Result.{
  Result, ok, err, invalid_page, not_settled, pending_chat, unknown_retirement, ◌>>◌, ◌>>=◌,
  require, refuse,
}
use threema_beeper.Outbox.Request.{max_safe}
use threema_beeper.Outbox.Tables.{Database, RetirementRow}
use threema_beeper.Outbox.Reactions.Journal.{get, ReactionRecord, is_settled, is_sent}
use threema_beeper.Outbox.Reactions.Dispatch.{is_apply}

abbrev pub is_retired : String → String → RetirementRow → Bool
is_retired profile event r = str_eq r.profile profile && str_eq r.event event

-- `done` of the row.
unfoldable pub retirement : Database → String → String → Option Bool
retirement db profile event = elim (select_one (is_retired profile event) db.retirements) [
  | none ↦ none
  | some r ↦ some r.is_done
]

pub record Candidate : Type 0 where
  pub sequence : ℕ
  pub event : String

-- r.done IS NULL OR r.done=0.
abbrev pub is_open : Option Bool → Bool
is_open none = true
is_open (some is_done) = not is_done

unfoldable pub retirement_candidates : Database → String → ℕ → ℕ → Result (List Candidate)
unfolding retirement
retirement_candidates db profile after limit = do
  require (leb after max_safe && leb 1 limit && leb limit 1000) invalid_page
  ok (
      map (λ o. record { sequence = o.sequence; event = o.event })
        (take limit (
          select
            (λ o.
              str_eq o.profile profile
              && ltb after o.sequence
              && is_open (retirement db o.profile o.event))
            db.reactions)))

-- A part of the chat that is not settled.
unfoldable pub chat_pending : Database → String → String → Bool
chat_pending db profile chat =
    exists
      (λ o.
        (str_eq o.profile profile && str_eq o.chat chat)
        && exists (λ p. not (is_settled p.state)) o.parts)
      db.reactions

abbrev pub is_plan : ReactionRecord → Bool
is_plan r = is_apply r.operation.action && not (exists (λ s. not (is_sent s)) r.states)

unfoldable pub plan_retirement : Database → String → String → Result Database
unfolding chat_pending
plan_retirement db profile event = do
  found ← get db profile event
  elim found [
    | none ↦ err not_settled
    | some r ↦ do
      require (is_plan r) not_settled
      refuse (chat_pending db profile r.operation.chat) pending_chat
      ok (record db {
        retirements =
            insert_or_ignore (is_retired profile event)
              (record { profile = profile; event = event; is_done = false }) db.retirements;
      })
  ]

unfoldable pub finish_retirement : Database → String → String → Result Database
finish_retirement db profile event = do
  require (count (is_retired profile event) db.retirements == 1) unknown_retirement
  ok (record db {
    retirements =
        update (is_retired profile event) (λ r. record r { is_done = true }) db.retirements;
  })
