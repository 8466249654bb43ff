-- ===== src/Outbox/Store/Parts.antt =====
-- Message IDs and echoes of OutboxStore (src/outbox/store.ts): `recordIds`, `sent`, `observe`
-- and the lookups.
use threema_beeper.Prelude.{
  ℕ, suc, String, Bool, true, false, not, ◌&&◌, ◌||◌, List, [], ◌∷◌, ◌++◌, Option, none, some,
  str_eq, strs_eq, exists, select_one, update, if◌then◌else◌,
}
use threema_beeper.Text.{is_message_id}
use threema_beeper.Outbox.Result.{
  Result, ok, err, invalid_echo, allocation_state_conflict, allocation_conflict, media_id_conflict,
  send_result_conflict, echo_conflict, constraint, ◌>>◌, ◌>>=◌, require, refuse,
}
use threema_beeper.Outbox.Request.{validate_ids}
use threema_beeper.Outbox.Tables.{Database, OutboxRecord, sent, acked, PartRow}
use threema_beeper.Outbox.Store.Query.{
  is_dispatching, is_acked, has_id, has_event, has_message, get, get_present,
}
use threema_beeper.Outbox.Store.Dispatch.{update_requests, set_state}

-- The loop of inserts into `parts`: the unique index on (profile, message) may refuse one.
unfoldable pub insert_parts :
    String → String → ℕ → List String → List PartRow → Result (List PartRow)
insert_parts id profile n [] parts = ok parts
insert_parts id profile n (m ∷ ms) parts = do
  refuse (exists (has_message profile m) parts) constraint
  insert_parts id profile (suc n) ms (
      parts
      ++ record { request = id; profile = profile; message = m; part = n; observed = false } ∷ [])

unfoldable pub clashes_with_media : Database → String → List String → Bool
clashes_with_media db profile ids = exists (λ m. exists (has_message profile m) db.media_parts) ids

-- The body of the transaction of `recordIds`, for the record that it reads.
unfoldable pub allocate : Database → String → List String → OutboxRecord → Result Database
unfolding insert_parts
allocate db id ids r = do
  require (is_dispatching r.state) allocation_state_conflict
  elim r.ids [
    | m ∷ ms ↦ if strs_eq r.ids ids then ok db else err allocation_conflict
    | [] ↦ do
      refuse (clashes_with_media db r.request.profile ids) media_id_conflict
      parts ← insert_parts id r.request.profile 0 ids db.parts
      ok (record db { parts = parts })
  ]

unfoldable pub record_ids : Database → String → List String → Result Database
unfolding allocate
record_ids db id ids = do
  validate_ids ids
  found ← get db id
  elim found [ none ↦ err allocation_state_conflict | some r ↦ allocate db id ids r ]

unfoldable pub accept_result : Database → String → List String → OutboxRecord → Result Database
unfolding update_requests
accept_result db id ids r = do
  require ((is_dispatching r.state || is_acked r.state) && strs_eq r.ids ids) send_result_conflict
  if is_acked r.state then ok db else ok (update_requests (has_id id) (set_state sent) db)

-- `sent(id, ids)`.
unfoldable pub record_sent : Database → String → List String → Result Database
unfolding accept_result
record_sent db id ids = do
  validate_ids ids
  found ← get db id
  elim found [ none ↦ err send_result_conflict | some r ↦ accept_result db id ids r ]

unfoldable pub for_message : Database → String → String → Result (Option OutboxRecord)
for_message db profile message = elim (select_one (has_message profile message) db.parts) [
  | none ↦ ok none
  | some p ↦ get db p.request
]

unfoldable pub for_event : Database → String → String → Result (Option OutboxRecord)
for_event db profile event = elim (select_one (has_event profile event) db.requests) [
  | none ↦ ok none
  | some r ↦ get db r.id
]

-- The parts after the echo of one message of a request.
unfoldable pub mark_observed : String → String → List PartRow → List PartRow
mark_observed id message =
    update (λ p. str_eq p.request id && str_eq p.message message)
      (λ p. record p { observed = true })

unfoldable pub is_pending : String → List PartRow → Bool
is_pending id = exists (λ p. str_eq p.request id && not p.observed)

-- The writes of `observe` for the request of the echoed part.
unfoldable pub apply_echo : Database → String → String → Database
unfolding mark_observed is_pending update_requests
apply_echo db id message =
    let marked = record db { parts = mark_observed id message db.parts } in
    if is_pending id marked.parts
    then marked
    else update_requests (has_id id) (set_state acked) marked

unfoldable pub observe :
    Database → String → String → String → Result (Database × Option OutboxRecord)
unfolding apply_echo
observe db profile chat_id message = do
  require (is_message_id message) invalid_echo
  elim (select_one (has_message profile message) db.parts) [
    | none ↦ ok (db, none)
    | some p ↦ do
      r ← get_present db p.request
      require (str_eq r.request.chat_id chat_id) echo_conflict
      found ← get (apply_echo db p.request message) p.request
      ok (apply_echo db p.request message, found)
  ]
