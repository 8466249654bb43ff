-- ===== src/Outbox/Request.antt =====
-- Validation of text requests and of allocated message IDs (src/outbox/store.ts).
use threema_beeper.Prelude.{
  ℕ, String, Bool, true, false, not, ◌&&◌, ◌||◌, List, [], ◌∷◌, Option, none, some, leb, ◌==◌,
  str_eq, exists, length,
}
use threema_beeper.Text.{
  utf16_length, byte_length, starts_with, is_profile, is_message_id, is_chat_id, is_uuid7,
}
use threema_beeper.Outbox.Result.{
  Result, invalid_request, invalid_event_identity, invalid_ids, ◌>>◌, require,
}
use threema_beeper.Outbox.Tables.{TextRequest}

-- Number.MAX_SAFE_INTEGER.
abbrev pub max_safe : ℕ
max_safe = 9007199254740991

unfoldable pub is_reply_target : Option String → Bool
is_reply_target none = true
is_reply_target (some m) = is_message_id m

-- The first condition of `validate`.
unfoldable pub is_request : TextRequest → Bool
is_request r =
    is_uuid7 r.request_id
    && is_profile r.profile
    && is_chat_id r.chat_id
    && not (utf16_length r.text == 0)
    && leb (byte_length r.text) 1048576
    && is_reply_target r.reply_to

unfoldable pub is_identity : String → String → Bool
is_identity prefix value =
    not (utf16_length value == 0) && leb (utf16_length value) 1024 && starts_with prefix value

-- The loop of `validate` over the four event identities.
unfoldable pub has_identities : TextRequest → Bool
has_identities r =
    is_identity "" r.transaction_id
    && is_identity "$" r.event_id
    && is_identity "!" r.room_id
    && is_identity "@" r.sender

unfoldable pub validate : TextRequest → Result (Unit {0})
validate r = do
  require (is_request r) invalid_request
  require (has_identities r) invalid_event_identity

-- `new Set(ids).size !== ids.length`.
unfoldable pub has_duplicates : List String → Bool
has_duplicates [] = false
has_duplicates (x ∷ xs) = exists (str_eq x) xs || has_duplicates xs

unfoldable pub all_message_ids : List String → Bool
all_message_ids [] = true
all_message_ids (x ∷ xs) = is_message_id x && all_message_ids xs

unfoldable pub are_ids : List String → Bool
are_ids ids =
    leb 1 (length ids) && leb (length ids) 1024 && not (has_duplicates ids) && all_message_ids ids

unfoldable pub validate_ids : List String → Result (Unit {0})
validate_ids ids = require (are_ids ids) invalid_ids
