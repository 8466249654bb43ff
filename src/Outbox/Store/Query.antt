-- ===== src/Outbox/Store/Query.antt =====
-- Tests and reads of OutboxStore (src/outbox/store.ts). `ORDER BY` is the order of the table.
use threema_beeper.Prelude.{
  String, Bool, true, false, ◌&&◌, List, [], ◌∷◌, map, Option, none, some, str_eq, exists, select,
  select_one,
}
use threema_beeper.Outbox.Result.{Result, ok, err, constraint, ◌>>◌, ◌>>=◌}
use threema_beeper.Outbox.Request.{validate, validate_ids}
use threema_beeper.Outbox.Tables.{
  Database, OutboxRecord, OutboxState, prepared, dispatching, outcome_unknown, acked, RequestRow,
  PartRow, RejectionRow,
}

abbrev pub is_prepared : OutboxState → Bool
is_prepared prepared = true
is_prepared _ = false

abbrev pub is_dispatching : OutboxState → Bool
is_dispatching dispatching = true
is_dispatching _ = false

abbrev pub is_acked : OutboxState → Bool
is_acked acked = true
is_acked _ = false

-- state IN ('PREPARED','DISPATCHING','OUTCOME_UNKNOWN').
abbrev pub is_unsettled : OutboxState → Bool
is_unsettled prepared = true
is_unsettled dispatching = true
is_unsettled outcome_unknown = true
is_unsettled _ = false

-- WHERE id=?.
abbrev pub has_id : String → RequestRow → Bool
has_id id r = str_eq r.id id

-- WHERE profile=? AND event=?.
abbrev pub has_event : String → String → RequestRow → Bool
has_event profile event r = str_eq r.profile profile && str_eq r.event event

abbrev pub part_of : String → PartRow → Bool
part_of id p = str_eq p.request id

abbrev pub has_message : String → String → PartRow → Bool
has_message profile message p = str_eq p.profile profile && str_eq p.message message

unfoldable pub media_exists : Database → String → String → Bool
media_exists db profile event =
    exists (λ r. str_eq r.profile profile && str_eq r.event event) db.media

unfoldable pub reaction_exists : Database → String → String → Bool
reaction_exists db profile event =
    exists (λ r. str_eq r.profile profile && str_eq r.event event) db.reactions

abbrev pub is_some {ℓ} : {A : Type ℓ} → Option A → Bool
is_some none = false
is_some (some _) = true

unfoldable pub rejection : Database → String → String → Option RejectionRow
rejection db profile event =
    select_one (λ r. str_eq r.profile profile && str_eq r.event event) db.rejections

unfoldable pub ids_of : String → List PartRow → List String
ids_of id parts = map (λ p. p.message) (select (part_of id) parts)

abbrev pub checked_ids : List String → Result (List String)
checked_ids [] = ok []
checked_ids (x ∷ xs) = validate_ids (x ∷ xs) >> ok (x ∷ xs)

-- The record that `get` reads from a row.
unfoldable pub read_row : Database → String → RequestRow → Result OutboxRecord
unfolding ids_of
read_row db id row = do
  validate row.body
  ids ← checked_ids (ids_of id db.parts)
  ok (record {
    request = row.body;
    state = row.state;
    ids = ids;
    retry_at = row.retry_at;
    preflight_failures = row.preflight_failures;
  })

unfoldable pub get : Database → String → Result (Option OutboxRecord)
get db id = elim (select_one (has_id id) db.requests) [
  | none ↦ ok none
  | some row ↦ do record' ← read_row db id row; ok (some record')
]

-- `get(id)!`, where the row is there: a missing row would be a type error of the source.
unfoldable pub get_present : Database → String → Result OutboxRecord
get_present db id = do found ← get db id; elim found [ none ↦ err constraint | some r ↦ ok r ]
