-- ===== src/Text/Tests.antt =====
-- The patterns at a few texts.
use threema_beeper.Prelude.{◌≡◌, refl, true, false}
use threema_beeper.Text.{is_message_id, is_chat_id, is_uuid7, is_event_id, is_server_id}

is_message_id_runs : is_message_id "m:0123456789abcdef" ≡ true
unfolding is_message_id
is_message_id_runs = refl

is_chat_id_runs : is_chat_id "g:*ABCDEFG:0123456789abcdef" ≡ true
unfolding is_chat_id
is_chat_id_runs = refl

is_uuid7_runs : is_uuid7 "01890a5d-ac96-774b-bcce-b302099a8057" ≡ true
unfolding is_uuid7
is_uuid7_runs = refl

is_event_id_runs : is_event_id "$a b" ≡ false
unfolding is_event_id
is_event_id_runs = refl

is_server_id_runs : is_server_id b'@' "@me:example.org" ≡ true
unfolding is_server_id
is_server_id_runs = refl

is_server_id_fails : is_server_id b'@' "@:example.org" ≡ false
unfolding is_server_id
is_server_id_fails = refl
