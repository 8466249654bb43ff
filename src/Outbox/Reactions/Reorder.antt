-- ===== src/Outbox/Reactions/Reorder.antt =====
-- `reorderPrepared` of ReactionJournal (src/outbox/reaction-journal.ts): the rows of a chat after
-- its last attempt take the source order. The two rounds of updates, through negative sequences, are
-- one renumbering here, which throws where it would give one sequence to two rows.
pub mod Attempted
pub mod Kept
use threema_beeper.Prelude.{
  ℕ, max, String, Bool, true, false, not, ◌&&◌, ◌||◌, List, [], ◌∷◌, map, Option, ltb, ◌==◌, str_eq,
  exists, select, length, if◌then◌else◌,
}
use threema_beeper.Outbox.Result.{Result, ok, constraint, nested_transaction, ◌>>◌, refuse, require}
use threema_beeper.Outbox.Slots.{Position, Slot, Move, all_moves, renumber, in_order, is_keyed}
use threema_beeper.Outbox.Tables.{Database, ReactionPart, ReactionRow}
use threema_beeper.Outbox.Reactions.Journal.{is_prepared}

abbrev pub is_attempted : ReactionRow → Bool
is_attempted o = exists (λ p. not (is_prepared p.state)) o.parts

-- COALESCE(MAX(o.sequence), 0) of the attempted rows of a chat.
unfoldable pub last_attempt : String → String → List ReactionRow → ℕ
last_attempt profile chat [] = 0
last_attempt profile chat (o ∷ rows) =
    let rest = last_attempt profile chat rows in
    if str_eq o.profile profile && str_eq o.chat chat && is_attempted o
    then max o.sequence rest
    else rest

abbrev pub is_tail : List ReactionRow → ReactionRow → Bool
is_tail rows o = ltb (last_attempt o.profile o.chat rows) o.sequence

abbrev pub slot_of : ReactionRow → Slot
slot_of o = record { sequence = o.sequence; profile = o.profile; chat = o.chat; event = o.event }

unfoldable pub slots : Database → List Slot
slots db = map slot_of (select (is_tail db.reactions) db.reactions)

abbrev pub move_row : List Move → ReactionRow → ReactionRow
move_row ms o = record o { sequence = renumber ms o.sequence }

abbrev pub key : ReactionRow → ℕ
key o = o.sequence

unfoldable pub move_rows : List Move → Database → Database
move_rows ms db = record db { reactions = in_order key (map (move_row ms) db.reactions) }

unfoldable pub reorder_prepared :
    Bool → (String → Option Position) → Database → Result (Database × ℕ)
unfolding slots move_rows
reorder_prepared in_transaction source db = do
  refuse in_transaction nested_transaction
  require (is_keyed key (move_rows (all_moves source (slots db)) db).reactions) constraint
  ok (move_rows (all_moves source (slots db)) db, length (all_moves source (slots db)))
