-- ===== src/Outbox/Store/Recovery.antt =====
-- `pendingCounts`, `recoveryPage`, `recoveryItems` and `retryPrepared` of OutboxStore
-- (src/outbox/store.ts).
use threema_beeper.Prelude.{
  ℕ, ◌+◌, String, Bool, true, false, not, ◌&&◌, ◌||◌, List, [], ◌∷◌, map, leb, ltb, ◌==◌, str_eq,
  exists, select, count, update, take, length, if◌then◌else◌, ◌≡◌, refl, arith,
}
use threema_beeper.Outbox.Result.{Result, ok, invalid_page, ◌>>◌, require}
use threema_beeper.Outbox.Request.{max_safe}
use threema_beeper.Outbox.Tables.{
  Database, OutboxState, sent, outcome_unknown, RequestRow, MediaRow, MediaState,
}
use threema_beeper.Outbox.Store.Query.{is_prepared, is_dispatching, is_acked}

pub record PendingCounts : Type 0 where
  pub prepared : ℕ
  pub dispatching : ℕ
  pub awaiting_echo : ℕ
  pub uncertain : ℕ

abbrev pub is_sent : OutboxState → Bool
is_sent sent = true
is_sent _ = false

abbrev pub is_unknown : OutboxState → Bool
is_unknown outcome_unknown = true
is_unknown _ = false

-- The count of the group of a state.
unfoldable pub count_state : String → (OutboxState → Bool) → List RequestRow → ℕ
count_state profile test rows = count (λ r. str_eq r.profile profile && test r.state) rows

unfoldable pub pending_counts : Database → String → PendingCounts
unfolding count_state
pending_counts db profile = record {
  prepared = count_state profile is_prepared db.requests;
  dispatching = count_state profile is_dispatching db.requests;
  awaiting_echo = count_state profile is_sent db.requests;
  uncertain = count_state profile is_unknown db.requests;
}

pub data Kind : Type 0 where
  text attachment : Kind

-- The state of an item: the two tables have types of their own.
pub data ItemState : Type 0 where
  of_text : OutboxState → ItemState
  of_media : MediaState → ItemState

pub record RecoveryItem : Type 0 where
  pub sequence : ℕ
  pub id : String
  pub event : String
  pub room : String
  pub chat : String
  pub kind : Kind
  pub state : ItemState
  pub failures : ℕ

unfoldable pub text_item : RequestRow → RecoveryItem
text_item r = record {
  sequence = r.sequence;
  id = r.id;
  event = r.event;
  room = r.body.room_id;
  chat = r.chat;
  kind = text;
  state = of_text r.state;
  failures = r.preflight_failures;
}

abbrev is_unknown_media : MediaState → Bool
is_unknown_media MediaState.outcome_unknown = true
is_unknown_media _ = false

abbrev is_sent_media : MediaState → Bool
is_sent_media MediaState.sent = true
is_sent_media _ = false

abbrev is_prepared_media : MediaState → Bool
is_prepared_media MediaState.prepared = true
is_prepared_media _ = false

-- EXISTS a reply of this request whose outcome is unknown.
unfoldable pub has_unknown_reply : Database → MediaRow → Bool
has_unknown_reply db m =
    exists (λ q. str_eq q.profile m.profile && str_eq q.event m.event && is_unknown_media q.state)
      db.media_replies

unfoldable pub has_unobserved_part : Database → MediaRow → Bool
has_unobserved_part db m = exists (λ p. str_eq p.request m.id && not p.observed) db.media_parts

unfoldable pub media_item : Database → MediaRow → RecoveryItem
unfolding has_unknown_reply
media_item db m = record {
  sequence = m.sequence;
  id = m.id;
  event = m.event;
  room = m.room;
  chat = m.chat;
  kind = attachment;
  state = of_media (if has_unknown_reply db m then MediaState.outcome_unknown else m.state);
  failures = m.preflight_failures;
}

-- The items that the page selects, before LIMIT.
unfoldable pub recoverable : Database → String → Kind → ℕ → List RecoveryItem
unfolding text_item media_item has_unobserved_part
recoverable db profile text after = map text_item (
    select (λ r. str_eq r.profile profile && ltb after r.sequence && not (is_acked r.state))
      db.requests)
recoverable db profile attachment after = map (media_item db) (
    select
      (λ m.
        str_eq m.profile profile
        && ltb after m.sequence
        && (not (is_sent_media m.state) || has_unobserved_part db m || has_unknown_reply db m))
      db.media)

pub record Page : Type 0 where
  pub items : List RecoveryItem
  pub next : ℕ

unfoldable pub last_sequence : List RecoveryItem → ℕ
last_sequence [] = 0
last_sequence (i ∷ []) = i.sequence
last_sequence (i ∷ j ∷ rest) = last_sequence (j ∷ rest)

unfoldable pub recovery_page : Database → String → Kind → ℕ → ℕ → Result Page
unfolding recoverable last_sequence
recovery_page db profile kind after limit = do
  require (leb after max_safe && leb 1 limit && leb limit 1000) invalid_page
  ok (
      let items = take limit (recoverable db profile kind after) in
      record { items = items; next = if length items == limit then last_sequence items else 0 })

abbrev pub is_delayed : String → RequestRow → Bool
is_delayed profile r = str_eq r.profile profile && is_prepared r.state && ltb 0 r.retry_at

unfoldable pub is_delayed_media : Database → String → MediaRow → Bool
unfolding has_unknown_reply
is_delayed_media db profile m =
    str_eq m.profile profile
    && is_prepared_media m.state
    && ltb 0 m.retry_at
    && not (has_unknown_reply db m)

unfoldable pub retry_prepared : Database → String → Database × ℕ
unfolding is_delayed_media
retry_prepared db profile = (
  record db {
    requests = update (is_delayed profile) (λ r. record r { retry_at = 0 }) db.requests;
    media = update (is_delayed_media db profile) (λ m. record m { retry_at = 0 }) db.media;
  },
  count (is_delayed profile) db.requests + count (is_delayed_media db profile) db.media,
)

abbrev pub is_unacknowledged : String → RequestRow → Bool
is_unacknowledged profile r = str_eq r.profile profile && not (is_acked r.state)

-- The four pending counts add up to the requests of the profile that are not acknowledged.
pub pending_counts_total :
    (db : Database) (profile : String)
    → (pending_counts db profile).prepared
        + (pending_counts db profile).dispatching
        + (pending_counts db profile).awaiting_echo
        + (pending_counts db profile).uncertain
      ≡ count (is_unacknowledged profile) db.requests
unfolding pending_counts
pending_counts_total db profile = total db.requests
  where
    total :
        (rows : List RequestRow)
        → count_state profile is_prepared rows
            + count_state profile is_dispatching rows
            + count_state profile is_sent rows
            + count_state profile is_unknown rows
          ≡ count (is_unacknowledged profile) rows
    total [] = refl
    total (r ∷ rows) = ground (arith, total rows)

-- What a retry must not change of a row.
abbrev pub identity_of : RequestRow → String × ℕ × OutboxState
identity_of r = (r.id, r.sequence, r.state)

-- Retrying on demand leaves no delayed prepared request of the profile, and returns every request
-- with the ID, the sequence and the state that it had.
pub retry_prepared-requests :
    (db : Database) (profile : String)
    → (count (is_delayed profile) (retry_prepared db profile).0.requests ≡ 0)
      × (map identity_of (retry_prepared db profile).0.requests ≡ map identity_of db.requests)
unfolding retry_prepared
retry_prepared-requests db profile = (none_left db.requests, kept db.requests)
  where
    none_left :
        (rows : List RequestRow)
        → count
            (is_delayed profile)
            (update (is_delayed profile) (λ r. record r { retry_at = 0 }) rows)
          ≡ 0
    none_left [] = refl
    none_left (r ∷ rows) = ground (arith, none_left rows)

    kept :
        (rows : List RequestRow)
        → map identity_of (update (is_delayed profile) (λ r. record r { retry_at = 0 }) rows)
          ≡ map identity_of rows
    kept [] = refl
    kept (r ∷ rows) = ground (arith, kept rows)
