-- ===== src/Matrix/Inbox/Order.antt =====
-- The source order of events (src/matrix/transaction-inbox.ts): `eventPrecedes`,
-- `sourcePosition` and `predecessorsPermit`. Which rooms a stored transaction text names
-- (`json_each` over its events) is a parameter: `none` where the text has no events array.
use threema_beeper.Prelude.{
  ℕ, String, Bool, true, false, not, ◌&&◌, ◌||◌, List, [], ◌∷◌, Option, none, some, str_eq, ◌==◌,
  ltb, exists, select_one,
}
use threema_beeper.Matrix.Inbox.Tables.{Inbox, InboxEvent, TransactionRow, EventRow}
use threema_beeper.Matrix.Inbox.Accept.{has_id, has_event_id}

-- The row of a transaction that an event names: the join on transaction_id.
unfoldable pub source_of : Inbox → EventRow → Option TransactionRow
source_of x e = elim e.transaction_id [
  | none ↦ none
  | some id ↦ select_one (has_id id) x.transactions
]

pub record Position : Type 0 where
  pub transaction : ℕ
  pub event : ℕ

unfoldable pub source_position : Inbox → String → Option Position
unfolding source_of
source_position x id = elim (select_one (has_event_id id) x.events) [
  | none ↦ none
  | some e ↦ elim (source_of x e) [
    | none ↦ none
    | some t ↦ some (record { transaction = t.sequence; event = e.sequence })
  ]
]

-- Arrival order, and the order of storage within a transaction.
unfoldable pub before : Position → Position → Bool
before p q =
    ltb p.transaction q.transaction || (p.transaction == q.transaction && ltb p.event q.event)

unfoldable pub compare_positions : Option Position → Option Position → Bool
unfolding before
compare_positions none q = false
compare_positions (some p) none = false
compare_positions (some p) (some q) = before p q

unfoldable pub event_precedes : Inbox → String → String → Bool
unfolding source_position compare_positions
event_precedes x first second =
    compare_positions (source_position x first) (source_position x second)

-- A pending transaction that arrived earlier and may hold an event of the room.
unfoldable pub may_hold : (String → Option (List String)) → String → ℕ → TransactionRow → Bool
may_hold rooms room arrival t = ltb t.sequence arrival && not t.is_done && elim t.body [
  | none ↦ true
  | some text ↦ elim (rooms text) [ none ↦ true | some named ↦ exists (str_eq room) named ]
]

-- An event of the room and the sender that comes before the position.
unfoldable pub is_predecessor : Inbox → InboxEvent → Position → EventRow → Bool
unfolding source_of before
is_predecessor x source p e =
    str_eq e.body.room_id source.room_id
    && str_eq e.body.sender source.sender
    && elim (source_of x e) [
      | none ↦ true
      | some t ↦ before (record { transaction = t.sequence; event = e.sequence }) p
    ]

unfoldable pub permitted : (InboxEvent → Bool) → (EventRow → Bool) → List EventRow → Bool
permitted permits test [] = true
permitted permits test (e ∷ es) = (not (test e) || permits e.body) && permitted permits test es

unfoldable pub predecessors_permit :
    (String → Option (List String)) → Inbox → String → (InboxEvent → Bool) → Bool
unfolding source_of may_hold is_predecessor permitted
predecessors_permit rooms x id permits = elim (select_one (has_event_id id) x.events) [
  | none ↦ false
  | some e ↦ elim (source_of x e) [
    | none ↦ false
    | some t ↦
        not (exists (may_hold rooms e.body.room_id t.sequence) x.transactions)
        && permitted permits
            (is_predecessor x e.body (record { transaction = t.sequence; event = e.sequence }))
            x.events
  ]
]
