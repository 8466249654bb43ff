-- ===== src/Matrix/Portal/Rooms.antt =====
-- Portals and ghosts of PortalStore (src/matrix/portal-store.ts).
use threema_beeper.Prelude.{
  String, Bool, true, false, not, ◌&&◌, ◌||◌, Option, none, some, str_eq, exists, select,
  select_one, update, insert_or_ignore, if◌then◌else◌,
}
use threema_beeper.Text.{is_matrix_id}
use threema_beeper.Matrix.Portal.Tables.{
  MessageKey, PortalRow, GhostRow, EncryptedOperation, Store, Result, ok, mapping_conflict,
  room_mapped, invalid_replacement, mapping_changed, unfinished_delivery, has_history,
  encrypted_history, ghost_conflict, ghost_mapped, constraint, unless, throw_if,
}

abbrev pub is_chat : String → String → PortalRow → Bool
is_chat profile chat r = str_eq r.profile profile && str_eq r.chat chat

abbrev pub is_in_room : String → PortalRow → Bool
is_in_room room r = str_eq r.room room

abbrev pub room_of : Option PortalRow → Option String
room_of none = none
room_of (some r) = some r.room

unfoldable pub get : Store → String → String → Option String
get s profile chat = room_of (select_one (is_chat profile chat) s.portals)

-- `value === t`.
abbrev pub is_text : Option String → String → Bool
is_text none t = false
is_text (some s) t = str_eq s t

-- `old && old !== t`: an empty text is falsy.
abbrev pub differs : Option String → String → Bool
differs none t = false
differs (some s) t = not (str_eq s "") && not (str_eq s t)

unfoldable pub bind : Store → String → String → String → Result Store
unfolding get
bind s profile chat room =
    let s' = record s {
      portals =
          insert_or_ignore (λ r. is_chat profile chat r || is_in_room room r)
            (record { profile = profile; chat = chat; room = room }) s.portals;
    } in
    throw_if (differs (get s profile chat) room) mapping_conflict
      (unless (is_text (get s' profile chat) room) room_mapped (ok s'))

-- EXISTS an operation in the room that is not completed.
abbrev pub is_unfinished_in : String → EncryptedOperation → Bool
is_unfinished_in room o = str_eq o.room room && elim o.event [ none ↦ true | some _ ↦ false ]

abbrev pub is_key_of : String → String → MessageKey → Bool
is_key_of profile chat k = str_eq k.profile profile && str_eq k.chat chat

unfoldable pub replace_room : Store → String → String → String → String → Result Store
unfolding get
replace_room s profile chat expected replacement =
    let target = λ (r : PortalRow). is_chat profile chat r && is_in_room expected r in
    unless (is_matrix_id b'!' replacement) invalid_replacement (
      if is_text (get s profile chat) replacement
      then ok s
      else unless (is_text (get s profile chat) expected) mapping_changed (
          throw_if
            (exists (λ p. is_key_of profile chat p.key) s.projections
              || exists (is_unfinished_in expected) s.operations)
            unfinished_delivery
            (throw_if (exists (is_in_room replacement) s.portals) constraint (
              ok (record s {
                portals = update target (λ r. record r { room = replacement }) s.portals;
              })))))

-- EXISTS a row of the chat in one of the eight tables.
unfoldable pub is_used : Store → String → String → Bool
is_used s profile chat =
    exists (λ r. is_key_of profile chat r.key) s.mappings
    || exists (λ r. is_key_of profile chat r.key) s.projections
    || exists (λ r. is_key_of profile chat r.key) s.versions
    || exists (λ r. is_key_of profile chat r.key) s.histories
    || exists (λ r. is_key_of profile chat r.key) s.deletions
    || exists (λ r. is_key_of profile chat r.key) s.statuses
    || exists (λ r. is_key_of profile chat r.key) s.reactions
    || exists (λ r. str_eq r.profile profile && str_eq r.chat chat) s.receipts

unfoldable pub retire_empty_room : Store → String → String → String → Result Store
unfolding get
retire_empty_room s profile chat expected = elim (get s profile chat) [
  | none ↦ ok s
  | some current ↦ unless (str_eq current expected) mapping_changed (
      throw_if (is_used s profile chat) has_history (
        throw_if (exists (λ o. str_eq o.room expected) s.operations) encrypted_history (
          ok (record s {
            portals = select (λ r. not (is_chat profile chat r && is_in_room expected r)) s.portals;
          }))))
]

-- The profile and chat of a room.
unfoldable pub portal_for_room : Store → String → Option (String × String)
portal_for_room s room = elim (select_one (is_in_room room) s.portals) [
  | none ↦ none
  | some r ↦ some (r.profile, r.chat)
]

abbrev pub is_identity : String → String → GhostRow → Bool
is_identity profile identity g = str_eq g.profile profile && str_eq g.identity identity

abbrev pub is_user : String → GhostRow → Bool
is_user mxid g = str_eq g.mxid mxid

unfoldable pub ghost : Store → String → String → Option String
ghost s profile identity = elim (select_one (is_identity profile identity) s.ghosts) [
  | none ↦ none
  | some g ↦ some g.mxid
]

unfoldable pub bind_ghost : Store → String → String → String → Result Store
unfolding ghost
bind_ghost s profile identity mxid =
    let s' = record s {
      ghosts =
          insert_or_ignore (λ g. is_identity profile identity g || is_user mxid g)
            (record { profile = profile; identity = identity; mxid = mxid }) s.ghosts;
    } in
    throw_if (differs (ghost s profile identity) mxid) ghost_conflict
      (unless (is_text (ghost s' profile identity) mxid) ghost_mapped (ok s'))
