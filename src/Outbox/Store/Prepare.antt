-- ===== src/Outbox/Store/Prepare.antt =====
-- `prepare` and `rejectEvent` of OutboxStore (src/outbox/store.ts). SHA-256 is a parameter.
use threema_beeper.Prelude.{
  ℕ, suc, String, Bool, false, not, ◌&&◌, ◌||◌, [], ◌∷◌, ◌++◌, Option, none, some, leb, ◌==◌,
  str_eq, exists, select_one, if◌then◌else◌,
}
use threema_beeper.Text.{utf16_length, starts_with, is_profile}
use threema_beeper.Outbox.Result.{
  Result, ok, err, invalid_rejection, mutation_event, media_event, reaction_event, rejected_event,
  accepted_event, rejection_conflict, request_conflict, ◌>>◌, ◌>>=◌, require, refuse,
}
use threema_beeper.Outbox.Request.{validate}
use threema_beeper.Outbox.Tables.{Database, TextRequest, OutboxRecord, prepared, RequestRow}
use threema_beeper.Outbox.Store.Query.{
  has_id, has_event, media_exists, reaction_exists, is_some, rejection, get_present,
}
use threema_beeper.Outbox.Mutations.Journal

abbrev is_reference : String → String → Bool
is_reference prefix s = starts_with prefix s && leb (utf16_length s) 1024

unfoldable pub is_rejection : String → String → String → String → Bool
is_rejection profile event room reason =
    is_profile profile
    && is_reference "$" event
    && is_reference "!" room
    && not (utf16_length reason == 0)
    && leb (utf16_length reason) 1024

unfoldable pub reject_event : Database → String → String → String → String → Result Database
unfolding rejection
reject_event db profile event room reason = do
  mutation ← Journal.get db profile event
  refuse (is_some mutation) mutation_event
  refuse (media_exists db profile event) media_event
  require (is_rejection profile event room reason) invalid_rejection
  refuse (reaction_exists db profile event) reaction_event
  refuse (exists (has_event profile event) db.requests) accepted_event
  elim (rejection db profile event) [
    | some old ↦
        if str_eq old.room room && str_eq old.reason reason then ok db else err rejection_conflict
    | none ↦ ok (record db {
      rejections =
          db.rejections
          ++ record { profile = profile; event = event; room = room; reason = reason } ∷ [];
    })
  ]

-- The array that is hashed for a request.
pub record Content : Type 0 where
  pub profile : String
  pub event_id : String
  pub room_id : String
  pub sender : String
  pub chat_id : String
  pub text : String
  pub reply_to : Option String

abbrev pub content : TextRequest → Content
content r = record {
  profile = r.profile;
  event_id = r.event_id;
  room_id = r.room_id;
  sender = r.sender;
  chat_id = r.chat_id;
  text = r.text;
  reply_to = r.reply_to;
}

-- The row of a new request.
unfoldable pub new_row : ℕ → ℕ → String → TextRequest → RequestRow
new_row sequence now digest r = record {
  sequence = sequence;
  id = r.request_id;
  profile = r.profile;
  event = r.event_id;
  digest = digest;
  body = r;
  created = now;
  chat = r.chat_id;
  retry_at = 0;
  preflight_failures = 0;
  state = prepared;
}

unfoldable pub insert : Database → ℕ → String → TextRequest → Database
unfolding new_row
insert db now digest r = record db {
  requests = db.requests ++ new_row db.next_sequence now digest r ∷ [];
  next_sequence = suc db.next_sequence;
}

abbrev has_other_digest : String → Option RequestRow → Bool
has_other_digest digest none = false
has_other_digest digest (some r) = not (str_eq r.digest digest)

abbrev are_distinct : Option RequestRow → Option RequestRow → Bool
are_distinct (some r) (some s) = not (str_eq r.id s.id)
are_distinct _ _ = false

-- What `prepare` does with the rows of the same ID and of the same event.
unfoldable pub settle_request :
    Database
    → ℕ
    → String
    → TextRequest
    → Option RequestRow
    → Option RequestRow
    → Result (Database × OutboxRecord)
unfolding insert
settle_request db now digest r by_id by_event =
    let db' = insert db now digest r in
    if has_other_digest digest by_id
      || has_other_digest digest by_event
      || are_distinct by_id by_event
    then err request_conflict
    else elim by_id [
      | some row ↦ do found ← get_present db row.id; ok (db, found)
      | none ↦ elim by_event [
        | some row ↦ do found ← get_present db row.id; ok (db, found)
        | none ↦ do found ← get_present db' r.request_id; ok (db', found)
      ]
    ]

unfoldable pub prepare :
    (Content → String) → Database → ℕ → TextRequest → Result (Database × OutboxRecord)
unfolding settle_request
prepare sha256 db now r = do
  validate r
  refuse (media_exists db r.profile r.event_id) media_event
  mutation ← Journal.get db r.profile r.event_id
  refuse (is_some mutation) mutation_event
  refuse (reaction_exists db r.profile r.event_id) reaction_event
  refuse (is_some (rejection db r.profile r.event_id)) rejected_event
  settle_request db now (sha256 (content r)) r (select_one (has_id r.request_id) db.requests)
      (select_one (has_event r.profile r.event_id) db.requests)
