-- ===== src/Matrix/Portal/History.antt =====
-- The operations of PortalStore as data, and what a sequence of calls leaves
-- (src/matrix/portal-store.ts). A call that throws leaves the store as it was.
use threema_beeper.Prelude.{ℕ, String, List, [], ◌∷◌}
use threema_beeper.Matrix.Portal.Tables.{
  MessageKey, MessageMapping, MessageProjection, Store, Result, ok, err,
}
use threema_beeper.Matrix.Portal.Rooms
use threema_beeper.Matrix.Portal.Messages
use threema_beeper.Matrix.Portal.Deliveries
use threema_beeper.Matrix.Portal.Uploads
use threema_beeper.Matrix.Portal.Uploads.{Plan}

pub data Call : Type 0 where
  bind : String → String → String → Call
  replace_room : String → String → String → String → Call
  retire_empty_room : String → String → String → Call
  bind_ghost : String → String → String → Call
  bind_read_target : MessageKey → String → Call
  bind_owner_echo : MessageMapping → Call
  prepare_projection : MessageProjection → Call
  finish_projection : String → String → Call
  bind_reaction remove_reaction : MessageKey → String → String → String → Call
  begin_deletion finish_deletion : MessageKey → Call
  mark_version_redacted save_message_status : MessageKey → String → Call
  save_receipt_position : String → String → String → ℕ → String → Call
  prepare_media_upload : String → String → String → Call
  replace_media_upload : String → String → String → String → Call
  complete_media_upload complete_operation : String → String → Call
  prepare_operation : Plan → Call

abbrev pub stored {ℓ} : {T : Type ℓ} → Result (Store × T) → Result Store
stored (err thrown) = err thrown
stored (ok (s, t)) = ok s

unfoldable pub call : Call → Store → Result Store
call (bind profile chat room) s = Rooms.bind s profile chat room
call (replace_room profile chat expected replacement) s =
    Rooms.replace_room s profile chat expected replacement
call (retire_empty_room profile chat expected) s = Rooms.retire_empty_room s profile chat expected
call (bind_ghost profile identity mxid) s = Rooms.bind_ghost s profile identity mxid
call (bind_read_target k event) s = Messages.bind_read_target s k event
call (bind_owner_echo value) s = Messages.bind_owner_echo s value
call (prepare_projection value) s = stored (Messages.prepare_projection s value)
call (finish_projection id event) s = Messages.finish_projection s id event
call (bind_reaction k identity emoji event) s = Deliveries.bind_reaction s k identity emoji event
call (remove_reaction k identity emoji event) s =
    ok (Deliveries.remove_reaction s k identity emoji event)
call (begin_deletion k) s = Deliveries.begin_deletion s k
call (finish_deletion k) s = Deliveries.finish_deletion s k
call (mark_version_redacted k event) s = ok (Deliveries.mark_version_redacted s k event)
call (save_message_status k body) s = ok (Deliveries.save_message_status s k body)
call (save_receipt_position profile chat reader ordinal message) s =
    ok (Deliveries.save_receipt_position s profile chat reader ordinal message)
call (prepare_media_upload id fingerprint prepared) s =
    Uploads.prepare_media_upload s id fingerprint prepared
call (replace_media_upload id fingerprint previous prepared) s =
    Uploads.replace_media_upload s id fingerprint previous prepared
call (complete_media_upload id result) s = Uploads.complete_media_upload s id result
call (complete_operation id event) s = Uploads.complete_operation s id event
call (prepare_operation plan) s = stored (Uploads.prepare_operation s plan)

abbrev pub after : Store → Result Store → Store
after s (err thrown) = s
after s (ok t) = t

unfoldable pub run : List Call → Store → Store
unfolding call
run [] s = s
run (c ∷ calls) s = run calls (after s (call c s))
