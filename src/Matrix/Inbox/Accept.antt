-- ===== src/Matrix/Inbox/Accept.antt =====
-- `accept`, `complete` and the other writes of TransactionInbox
-- (src/matrix/transaction-inbox.ts). A write that throws rolls back.
use threema_beeper.Prelude.{
  ℕ, suc, ◌+◌, String, Bool, true, false, not, ◌&&◌, List, [], ◌∷◌, ◌++◌, Option, none, some,
  str_eq, ◌==◌, leb, ltb, select, select_one, update, count, map, take, if◌then◌else◌,
}
use threema_beeper.Text.{byte_length, utf16_length, is_event_id}
use threema_beeper.Outbox.Request.{max_safe}
use threema_beeper.Matrix.Inbox.Tables.{
  Inbox, InboxEvent, TransactionRow, EventRow, invalid_identifier, conflict, invalid_limit,
  not_pending, unknown_transaction, invalid_redaction, event_conflict, unknown_event,
  management_conflict, invalid_notice, Checked, thrown, value, event_eq,
}

-- What `accept` returns.
pub data Receipt : Type 0 where
  accepted duplicate : Receipt

abbrev pub has_id : String → TransactionRow → Bool
has_id id t = str_eq t.id id

abbrev pub has_event_id : String → EventRow → Bool
has_event_id id e = str_eq e.event_id id

unfoldable pub transaction_row : ℕ → String → String → String → TransactionRow
transaction_row sequence id digest text = record {
  sequence = sequence;
  id = id;
  digest = digest;
  body = some text;
  is_done = false;
  attempts = 0;
}

-- `text` is the canonical text of the body.
unfoldable pub accept : (String → String) → Inbox → String → String → Checked (Inbox × Receipt)
unfolding transaction_row
accept sha256 x id text =
    if not (utf16_length id == 0) && leb (utf16_length id) 255
    then elim (select_one (has_id id) x.transactions) [
      | some old ↦ if str_eq old.digest (sha256 text) then value (x, duplicate) else thrown conflict
      | none ↦ value (
        record x {
          transactions =
              x.transactions ++ transaction_row x.next_transaction id (sha256 text) text ∷ [];
          next_transaction = suc x.next_transaction;
        },
        accepted,
      )
    ]
    else thrown invalid_identifier

-- The first pending transaction.
unfoldable pub next : Inbox → Option TransactionRow
next x = select_one (λ t. not t.is_done) x.transactions

abbrev pub attemptable : String → TransactionRow → Bool
attemptable id t = str_eq t.id id && not t.is_done

unfoldable pub record_attempt : Inbox → String → Checked Inbox
record_attempt x id =
    if count (attemptable id) x.transactions == 1
    then value (record x {
      transactions =
          update (attemptable id) (λ t. record t { attempts = t.attempts + 1 }) x.transactions;
    })
    else thrown not_pending

abbrev is_redaction : Option String → Bool
is_redaction none = true
is_redaction (some target) = is_event_id target

unfoldable pub event_row : ℕ → String → InboxEvent → EventRow
event_row sequence transaction e = record {
  sequence = sequence;
  event_id = e.event_id;
  body = e;
  transaction_id = some transaction;
  is_done = false;
}

-- One event of the loop of `complete`.
unfoldable pub store_event : String → InboxEvent → Inbox → Checked Inbox
unfolding event_row
store_event transaction e x =
    if is_redaction e.redacts
    then elim (select_one (has_event_id e.event_id) x.events) [
      | some old ↦ if event_eq old.body e then value x else thrown event_conflict
      | none ↦ value (record x {
        events = x.events ++ event_row x.next_event transaction e ∷ [];
        next_event = suc x.next_event;
      })
    ]
    else thrown invalid_redaction

unfoldable pub store_events : String → List InboxEvent → Inbox → Checked Inbox
store_events transaction [] x = value x
store_events transaction (e ∷ es) x = elim (store_event transaction e x) [
  | thrown t ↦ thrown t
  | value y ↦ store_events transaction es y
]

unfoldable pub finish : String → Inbox → Inbox
finish id x = record x {
  transactions = update (has_id id) (λ t. record t { is_done = true; body = none }) x.transactions;
}

unfoldable pub complete : Inbox → String → List InboxEvent → Checked Inbox
unfolding store_events finish
complete x id events = elim (select_one (has_id id) x.transactions) [
  | none ↦ thrown unknown_transaction
  | some t ↦ if t.is_done then value x else elim (store_events id events x) [
    | thrown error ↦ thrown error
    | value y ↦ value (finish id y)
  ]
]

unfoldable pub pending_events : Inbox → ℕ → Checked (List InboxEvent)
pending_events x limit =
    if leb 1 limit && leb limit 1000
    then value (map (λ e. e.body) (take limit (select (λ e. not e.is_done) x.events)))
    else thrown invalid_limit

pub record Delivery : Type 0 where
  pub sequence : ℕ
  pub event : InboxEvent
  pub transaction_id : Option String

unfoldable pub pending_delivery_page : Inbox → ℕ → ℕ → Checked (List Delivery)
pending_delivery_page x limit after =
    if leb 1 limit && leb limit 1000 && leb after max_safe
    then value (
        map
          (λ e. record { sequence = e.sequence; event = e.body; transaction_id = e.transaction_id })
          (take limit (select (λ e. not e.is_done && ltb after e.sequence) x.events)))
    else thrown invalid_limit

unfoldable pub event : Inbox → String → Option InboxEvent
event x id = elim (select_one (has_event_id id) x.events) [ none ↦ none | some r ↦ some r.body ]

unfoldable pub acknowledge_event : Inbox → String → Checked Inbox
acknowledge_event x id =
    if count (has_event_id id) x.events == 1
    then value
        (record x { events = update (has_event_id id) (λ e. record e { is_done = true }) x.events })
    else thrown unknown_event

unfoldable pub management_result : Inbox → String → Option String
management_result x id = elim (select_one (λ r. str_eq r.event_id id) x.results) [
  | none ↦ none
  | some r ↦ some r.body
]

-- The fields of the content of a notice; a field is `none` where it is not a string.
pub record Notice : Type 0 where
  pub msgtype : Option String
  pub body : Option String
  pub other_keys : List String

abbrev is_text : String → Option String → Bool
is_text expected none = false
is_text expected (some text) = str_eq text expected

abbrev has_no_keys : List String → Bool
has_no_keys [] = true
has_no_keys (_ ∷ _) = false

-- The transaction, for the body of a plain notice, which determines the canonical text. The foreign
-- key refuses a result of an event that is not stored.
unfoldable pub store_result : Inbox → String → String → Checked Inbox
store_result x id body = elim (select_one (λ r. str_eq r.event_id id) x.results) [
  | some old ↦ if str_eq old.body body then value x else thrown management_conflict
  | none ↦ elim (select_one (has_event_id id) x.events) [
    | none ↦ thrown unknown_event
    | some e ↦
        value (record x { results = x.results ++ record { event_id = id; body = body } ∷ [] })
  ]
]

unfoldable pub save_management_result : Inbox → String → Notice → Checked Inbox
unfolding store_result
save_management_result x id content = elim content.body [
  | none ↦ thrown invalid_notice
  | some body ↦
      if is_text "m.notice" content.msgtype
        && leb (byte_length body) 65536
        && has_no_keys content.other_keys
      then store_result x id body
      else thrown invalid_notice
]

pub record Counts : Type 0 where
  pub transactions : ℕ
  pub events : ℕ

unfoldable pub pending_counts : Inbox → Counts
pending_counts x = record {
  transactions = count (λ t. not t.is_done) x.transactions;
  events = count (λ e. not e.is_done) x.events;
}
