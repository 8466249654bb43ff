-- ===== src/Matrix/Inbox/Tables.antt =====
-- The tables of TransactionInbox (src/matrix/transaction-inbox.ts), in the order of their keys. A
-- JSON value is the canonical text that the source stores and compares.
use threema_beeper.Prelude.{
  ℕ, String, Bool, true, false, ◌&&◌, List, Option, none, some, str_eq, ◌==◌, ◌≡◌, refl, ◌⊎◌, inl,
  inr,
}

-- The fields of an event that `complete` keeps; `content` is the canonical text of the object.
pub record InboxEvent : Type 0 where
  pub encrypted : Bool
  pub event_id : String
  pub room_id : String
  pub sender : String
  pub type : String
  pub content : String
  pub state_key : Option String
  pub origin_server_ts : Option ℕ
  pub redacts : Option String

pub record TransactionRow : Type 0 where
  pub sequence : ℕ
  pub id : String
  pub digest : String
  -- The stored text, until the transaction is done.
  pub body : Option String
  pub is_done : Bool
  pub attempts : ℕ

pub record EventRow : Type 0 where
  pub sequence : ℕ
  pub event_id : String
  pub body : InboxEvent
  pub transaction_id : Option String
  pub is_done : Bool

pub record ResultRow : Type 0 where
  pub event_id : String
  pub body : String

pub record Inbox : Type 0 where
  pub transactions : List TransactionRow
  pub next_transaction : ℕ
  pub events : List EventRow
  pub next_event : ℕ
  pub results : List ResultRow

-- One constructor for each assertion and exception.
pub data Error : Type 0 where
  invalid_identifier conflict invalid_limit not_pending unknown_transaction : Error
  invalid_redaction event_conflict unknown_event management_conflict invalid_notice : Error

pub data Checked {ℓ} (T : Type ℓ) : Type ℓ where
  thrown : Error → Checked T
  value : T → Checked T

abbrev pub opt_str_eq : Option String → Option String → Bool
opt_str_eq none none = true
opt_str_eq (some s) (some t) = str_eq s t
opt_str_eq _ _ = false

abbrev pub opt_nat_eq : Option ℕ → Option ℕ → Bool
opt_nat_eq none none = true
opt_nat_eq (some m) (some n) = m == n
opt_nat_eq _ _ = false

abbrev pub bool_eq : Bool → Bool → Bool
bool_eq true true = true
bool_eq false false = true
bool_eq _ _ = false

-- Two normalised events have one canonical text.
unfoldable pub event_eq : InboxEvent → InboxEvent → Bool
event_eq a b =
    bool_eq a.encrypted b.encrypted
    && str_eq a.event_id b.event_id
    && str_eq a.room_id b.room_id
    && str_eq a.sender b.sender
    && str_eq a.type b.type
    && str_eq a.content b.content
    && opt_str_eq a.state_key b.state_key
    && opt_nat_eq a.origin_server_ts b.origin_server_ts
    && opt_str_eq a.redacts b.redacts

pub Checked-cases {ℓ} :
    {T : Type ℓ} (c : Checked T) → ((t : T) × (c ≡ value t)) ⊎ ((e : Error) × (c ≡ thrown e))
Checked-cases (value t) = inl (t, refl)
Checked-cases (thrown e) = inr (e, refl)
