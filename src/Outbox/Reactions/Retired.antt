-- ===== src/Outbox/Reactions/Retired.antt =====
-- When ReactionJournal plans a retirement (src/outbox/reaction-journal.ts).
use threema_beeper.Prelude.{
  String, true, false, not, ◌&&◌, some, str_eq, exists, exists-false, ◌≡◌, arith, All-of, Memᴰ,
}
use threema_beeper.Outbox.Result.{ok}
use threema_beeper.Outbox.Tables.{Database, ReactionPart, ReactionRow}
use threema_beeper.Outbox.Reactions.Journal.{get, ReactionRecord, is_settled}
use threema_beeper.Outbox.Reactions.Retirement.{plan_retirement, chat_pending}

-- No part of a chat without pending work is unsettled.
chat_settled :
    (db : Database) (profile chat : String) (o : ReactionRow) (p : ReactionPart)
    → chat_pending db profile chat ≡ false
    → Memᴰ o db.reactions
    → Memᴰ p o.parts
    → (str_eq o.profile profile && str_eq o.chat chat) ≡ true
    → is_settled p.state ≡ true
unfolding chat_pending
chat_settled db profile chat o p h m n mine =
    let rows =
      All-of
        (λ (r : ReactionRow).
          ((str_eq r.profile profile && str_eq r.chat chat)
            && exists (λ x. not (is_settled x.state)) r.parts)
          ≡ false)
        db.reactions
        (exists-false
          (λ (r : ReactionRow).
            (str_eq r.profile profile && str_eq r.chat chat)
            && exists (λ x. not (is_settled x.state)) r.parts)
          db.reactions h)
        m in
    let part =
      All-of (λ (x : ReactionPart). not (is_settled x.state) ≡ false) o.parts
        (exists-false (λ (x : ReactionPart). not (is_settled x.state)) o.parts
          (ground (arith, rows, mine)))
        n in
    ground (arith, part)

-- A retirement is planned only while every part of its chat is SENT or REJECTED: of the operation
-- of the event, where the call does not throw, any part of any row of the profile and the chat.
pub retired_when_settled :
    (db db' : Database) (profile event : String) (r : ReactionRecord) (o : ReactionRow)
    (p : ReactionPart)
    → get db profile event ≡ ok (some r)
    → plan_retirement db profile event ≡ ok db'
    → Memᴰ o db.reactions
    → Memᴰ p o.parts
    → (str_eq o.profile profile && str_eq o.chat r.operation.chat) ≡ true
    → is_settled p.state ≡ true
unfolding plan_retirement
retired_when_settled db db' profile event r o p found h m n mine =
    chat_settled db profile r.operation.chat o p (ground (arith, found)) m n mine
