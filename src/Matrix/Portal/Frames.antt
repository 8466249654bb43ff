-- ===== src/Matrix/Portal/Frames.antt =====
-- Which tables a call of PortalStore leaves alone (src/matrix/portal-store.ts).
use threema_beeper.Prelude.{Bool, true, false, ◌≡◌, arith}
use threema_beeper.Matrix.Portal.Tables.{Store}
use threema_beeper.Matrix.Portal.Rooms
use threema_beeper.Matrix.Portal.Messages
use threema_beeper.Matrix.Portal.Deliveries
use threema_beeper.Matrix.Portal.Uploads
use threema_beeper.Matrix.Portal.History.{
  Call, call, after, bind, replace_room, retire_empty_room, bind_owner_echo, finish_projection,
  complete_operation, prepare_operation, save_receipt_position, prepare_media_upload,
  replace_media_upload, complete_media_upload,
}

abbrev pub changes_mappings : Call → Bool
changes_mappings (bind_owner_echo v) = true
changes_mappings (finish_projection id event) = true
changes_mappings _ = false

pub mappings-call :
    (c : Call) (s : Store) → changes_mappings c ≡ false → (after s (call c s)).mappings ≡ s.mappings
unfolding call Rooms.bind Rooms.replace_room Rooms.retire_empty_room Rooms.bind_ghost
    Messages.bind_read_target Messages.prepare_projection Deliveries.bind_reaction
    Deliveries.remove_reaction Deliveries.begin_deletion Deliveries.finish_deletion
    Deliveries.mark_version_redacted Deliveries.save_message_status Deliveries.save_receipt_position
    Uploads.prepare_media_upload Uploads.replace_media_upload Uploads.complete_media_upload
    Uploads.complete_operation Uploads.prepare_operation
mappings-call c s h = ground arith

abbrev pub changes_portals : Call → Bool
changes_portals (bind profile chat room) = true
changes_portals (replace_room profile chat expected replacement) = true
changes_portals (retire_empty_room profile chat expected) = true
changes_portals _ = false

pub portals-call :
    (c : Call) (s : Store) → changes_portals c ≡ false → (after s (call c s)).portals ≡ s.portals
unfolding call Rooms.bind_ghost Messages.bind_read_target Messages.bind_owner_echo
    Messages.insert_echo Messages.prepare_projection Messages.finish_projection Messages.deliver
    Deliveries.bind_reaction Deliveries.remove_reaction Deliveries.begin_deletion
    Deliveries.finish_deletion Deliveries.mark_version_redacted Deliveries.save_message_status
    Deliveries.save_receipt_position Uploads.prepare_media_upload Uploads.replace_media_upload
    Uploads.complete_media_upload Uploads.complete_operation Uploads.prepare_operation
portals-call c s h = ground arith

abbrev pub changes_uploads : Call → Bool
changes_uploads (prepare_media_upload id fingerprint prepared) = true
changes_uploads (replace_media_upload id fingerprint previous prepared) = true
changes_uploads (complete_media_upload id result) = true
changes_uploads _ = false

pub uploads-call :
    (c : Call) (s : Store) → changes_uploads c ≡ false → (after s (call c s)).uploads ≡ s.uploads
unfolding call Rooms.bind Rooms.replace_room Rooms.retire_empty_room Rooms.bind_ghost
    Messages.bind_read_target Messages.bind_owner_echo Messages.insert_echo
    Messages.prepare_projection Messages.finish_projection Messages.deliver Deliveries.bind_reaction
    Deliveries.remove_reaction Deliveries.begin_deletion Deliveries.finish_deletion
    Deliveries.mark_version_redacted Deliveries.save_message_status Deliveries.save_receipt_position
    Uploads.complete_operation Uploads.prepare_operation
uploads-call c s h = ground arith

abbrev pub changes_operations : Call → Bool
changes_operations (prepare_operation plan) = true
changes_operations (complete_operation id event) = true
changes_operations _ = false

pub operations-call :
    (c : Call) (s : Store)
    → changes_operations c ≡ false
    → (after s (call c s)).operations ≡ s.operations
unfolding call Rooms.bind Rooms.replace_room Rooms.retire_empty_room Rooms.bind_ghost
    Messages.bind_read_target Messages.bind_owner_echo Messages.insert_echo
    Messages.prepare_projection Messages.finish_projection Messages.deliver Deliveries.bind_reaction
    Deliveries.remove_reaction Deliveries.begin_deletion Deliveries.finish_deletion
    Deliveries.mark_version_redacted Deliveries.save_message_status Deliveries.save_receipt_position
    Uploads.prepare_media_upload Uploads.replace_media_upload Uploads.complete_media_upload
operations-call c s h = ground arith

abbrev pub changes_receipts : Call → Bool
changes_receipts (save_receipt_position profile chat reader ordinal message) = true
changes_receipts _ = false

pub receipts-call :
    (c : Call) (s : Store) → changes_receipts c ≡ false → (after s (call c s)).receipts ≡ s.receipts
unfolding call Deliveries.begin_deletion Deliveries.bind_reaction Deliveries.finish_deletion
    Deliveries.mark_version_redacted Deliveries.remove_reaction Deliveries.save_message_status
    Messages.bind_owner_echo Messages.bind_read_target Messages.deliver Messages.finish_projection
    Messages.insert_echo Messages.prepare_projection Rooms.bind Rooms.bind_ghost Rooms.replace_room
    Rooms.retire_empty_room Uploads.complete_media_upload Uploads.complete_operation
    Uploads.prepare_media_upload Uploads.prepare_operation Uploads.replace_media_upload
receipts-call c s h = ground arith
