-- ===== src/Outbox/Store/Reorder.antt =====
-- `reorderPrepared` of OutboxStore (src/outbox/store.ts): the PREPARED rows of a chat take the
-- source order. A row is updated by its ID, which is a key as its sequence is; the two rounds of
-- updates, through negative sequences, are one renumbering, which throws where it would give one
-- sequence to two rows.
pub mod Kept
use threema_beeper.Prelude.{
  ℕ, String, Bool, true, false, List, map, Option, select, length, if◌then◌else◌,
}
use threema_beeper.Outbox.Result.{Result, ok, constraint, ◌>>◌, require}
use threema_beeper.Outbox.Tables.{Database, RequestRow}
use threema_beeper.Outbox.Slots.{Position, Slot, Move, all_moves, renumber, in_order, is_keyed}
use threema_beeper.Outbox.Store.Query.{is_prepared}

abbrev pub slot_of : RequestRow → Slot
slot_of r = record { sequence = r.sequence; profile = r.profile; chat = r.chat; event = r.event }

abbrev pub is_open : RequestRow → Bool
is_open r = is_prepared r.state

unfoldable pub slots : Database → List Slot
slots db = map slot_of (select is_open db.requests)

-- UPDATE ... SET sequence WHERE ... AND state='PREPARED'.
abbrev pub move_row : List Move → RequestRow → RequestRow
move_row ms r = if is_open r then record r { sequence = renumber ms r.sequence } else r

abbrev pub key : RequestRow → ℕ
key r = r.sequence

unfoldable pub move_rows : List Move → Database → Database
move_rows ms db = record db { requests = in_order key (map (move_row ms) db.requests) }

unfoldable pub reorder_prepared : (String → Option Position) → Database → Result (Database × ℕ)
unfolding slots move_rows
reorder_prepared source db = do
  require (is_keyed key (move_rows (all_moves source (slots db)) db).requests) constraint
  ok (move_rows (all_moves source (slots db)) db, length (all_moves source (slots db)))
