-- ===== src/Matrix/Portal/Uploads.antt =====
-- Media uploads and encrypted operations of PortalStore (src/matrix/portal-store.ts). Reading JSON
-- is a parameter: `spool_of` gives the spool ID of a prepared upload when it is a text, and
-- `wire_of` the session, the ciphertext and the canonical form of an encrypted content.
use threema_beeper.Prelude.{
  String, Bool, true, false, not, ◌&&◌, ◌||◌, List, [], ◌∷◌, ◌++◌, Option, none, some, ◌==◌, str_eq,
  exists, select, select_one, update, count, if◌then◌else◌,
}
use threema_beeper.Text.{units, matches, starts_with, times, is_alnum}
use threema_beeper.Matrix.Portal.Tables.{
  EncryptedOperation, UploadRow, Store, Result, ok, err, invalid_spool, upload_conflict,
  recovery_conflict, completion_conflict, operation_conflict, operation_completion_conflict, unless,
}
use threema_beeper.Matrix.Portal.Rooms.{is_text}
use threema_beeper.Matrix.Portal.Messages.{operation}

unfoldable pub media_upload : Store → String → Option UploadRow
media_upload s id = select_one (λ u. str_eq u.id id) s.uploads

-- /^attachment-[A-Za-z0-9]{6}$/
unfoldable pub is_spool : String → Bool
unfolding matches units starts_with
is_spool s =
    starts_with "attachment-" s && matches (times 11 (λ c. true) (times 6 is_alnum [])) (units s)

abbrev pub is_unfinished : UploadRow → Bool
is_unfinished u = elim u.result [ none ↦ true | some _ ↦ false ]

abbrev pub add_spool : String → List String → List String
add_spool spool found = if exists (str_eq spool) found then found else found ++ spool ∷ []

-- The loop of `pendingMediaSpools`, over the rows that are not finished.
unfoldable pub collect_spools :
    (String → Option String) → List UploadRow → List String → Result (List String)
unfolding is_spool
collect_spools spool_of [] found = ok found
collect_spools spool_of (u ∷ rows) found = elim (spool_of u.prepared) [
  | none ↦ err invalid_spool
  | some spool ↦
      let rest = collect_spools spool_of rows (add_spool spool found) in
      unless (is_spool spool) invalid_spool rest
]

unfoldable pub pending_media_spools : (String → Option String) → Store → Result (List String)
unfolding collect_spools
pending_media_spools spool_of s = collect_spools spool_of (select is_unfinished s.uploads) []

unfoldable pub prepare_media_upload : Store → String → String → String → Result Store
prepare_media_upload s id fingerprint prepared = elim (select_one (λ u. str_eq u.id id) s.uploads) [
  | none ↦ ok (record s {
    uploads =
        s.uploads
        ++ record { id = id; fingerprint = fingerprint; prepared = prepared; result = none } ∷ [];
  })
  | some old ↦
      unless (str_eq old.fingerprint fingerprint && str_eq old.prepared prepared) upload_conflict
        (ok s)
]

abbrev pub is_observed : String → String → String → UploadRow → Bool
is_observed id fingerprint previous u =
    str_eq u.id id
    && str_eq u.fingerprint fingerprint
    && str_eq u.prepared previous
    && is_unfinished u

unfoldable pub replace_media_upload : Store → String → String → String → String → Result Store
replace_media_upload s id fingerprint previous prepared =
    unless (count (is_observed id fingerprint previous) s.uploads == 1) recovery_conflict (
      ok (record s {
        uploads =
            update (is_observed id fingerprint previous) (λ u. record u { prepared = prepared })
              s.uploads;
      }))

-- `event === null || event === t`.
abbrev pub allows : Option String → String → Bool
allows none t = true
allows (some s) t = str_eq s t

unfoldable pub complete_media_upload : Store → String → String → Result Store
unfolding media_upload
complete_media_upload s id result = elim (media_upload s id) [
  | none ↦ err completion_conflict
  | some old ↦ unless (allows old.result result) completion_conflict (
      ok (record s {
        uploads = update (λ u. str_eq u.id id) (λ u. record u { result = some result }) s.uploads;
      }))
]

-- id GLOB 'status_*' and so on: the ID starts with one of the prefixes.
unfoldable pub is_non_message : String → Bool
unfolding starts_with
is_non_message id =
    starts_with "status_" id
    || starts_with "reaction_" id
    || starts_with "mutation_failure_" id
    || starts_with "unsupported_" id
    || starts_with "send_failure_" id

unfoldable pub own_non_message_event : Store → String → String → Bool
unfolding is_non_message
own_non_message_event s room event =
    exists (λ o. str_eq o.room room && is_text o.event event && is_non_message o.id) s.operations

-- The fields of an encrypted content that the store compares.
pub record Wire : Type 0 where
  pub algorithm : String
  pub session_id : String
  pub ciphertext : String
  pub canonical : String

abbrev pub is_sent_by : String → String → EncryptedOperation → Bool
is_sent_by sender room o = str_eq o.sender sender && str_eq o.room room

abbrev pub carries : (String → Option Wire) → Wire → EncryptedOperation → Bool
carries wire_of w o = elim (wire_of o.ciphertext) [
  | none ↦ false
  | some v ↦ str_eq v.session_id w.session_id && str_eq v.ciphertext w.ciphertext
]

abbrev pub is_same_content : (String → Option Wire) → Wire → Option EncryptedOperation → Bool
is_same_content wire_of w none = false
is_same_content wire_of w (some o) = elim (wire_of o.ciphertext) [
  | none ↦ false
  | some v ↦ str_eq v.canonical w.canonical
]

abbrev pub is_known : Store → String → String → Option String → Bool
is_known s sender room none = false
is_known s sender room (some event) =
    not (str_eq event "")
    && exists (λ o. is_text o.event event && is_sent_by sender room o) s.operations

unfoldable pub is_own_encrypted_event :
    (String → Option Wire) → Store → String → String → Wire → Option String → Bool
is_own_encrypted_event wire_of s sender room w event =
    str_eq w.algorithm "m.megolm.v1.aes-sha2"
    && not (str_eq w.ciphertext "")
    && not (str_eq w.session_id "")
    && (is_known s sender room event
        || is_same_content wire_of w
            (select_one (λ o. is_sent_by sender room o && carries wire_of w o) s.operations))

-- What `prepareOperation` is given: an operation without its event.
pub record Plan : Type 0 where
  pub id : String
  pub sender : String
  pub room : String
  pub digest : String
  pub ciphertext : String

unfoldable pub planned : Plan → EncryptedOperation
planned p = record {
  id = p.id;
  sender = p.sender;
  room = p.room;
  digest = p.digest;
  ciphertext = p.ciphertext;
  event = none;
}

unfoldable pub prepare_operation : Store → Plan → Result (Store × EncryptedOperation)
unfolding operation planned
prepare_operation s p = elim (operation s p.id) [
  | none ↦ ok (record s { operations = s.operations ++ planned p ∷ [] }, planned p)
  | some stored ↦
      unless
        (str_eq stored.sender p.sender
          && str_eq stored.room p.room
          && str_eq stored.digest p.digest)
        operation_conflict (ok (s, stored))
]

unfoldable pub complete_operation : Store → String → String → Result Store
unfolding operation
complete_operation s id event = elim (operation s id) [
  | none ↦ err operation_completion_conflict
  | some stored ↦ unless (allows stored.event event) operation_completion_conflict (
      ok (record s {
        operations =
            update (λ o. str_eq o.id id) (λ o. record o { event = some event; ciphertext = "" })
              s.operations;
      }))
]
