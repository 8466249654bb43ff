-- ===== src/Matrix/Inbox/Predecessors.antt =====
-- What `eventPrecedes` and `predecessorsPermit` decide (src/matrix/transaction-inbox.ts).
use threema_beeper.Prelude.{
  ◌<◌, Option-cases, inl, inr, exists, String, Bool, true, false, List, [], ◌∷◌, Option, none, some,
  str_eq, exists-false, select_one, ◌≡◌, arith, All, All-of, Memᴰ,
}
use threema_beeper.Matrix.Inbox.Tables.{Inbox, InboxEvent, TransactionRow, EventRow}
use threema_beeper.Matrix.Inbox.Accept.{has_event_id}
use threema_beeper.Matrix.Inbox.Order.{
  source_of, before, may_hold, is_predecessor, permitted, predecessors_permit,
}

permitted-All :
    (permits : InboxEvent → Bool) (test : EventRow → Bool) (es : List EventRow)
    → permitted permits test es ≡ true
    → All (λ e. test e ≡ true → permits e.body ≡ true) es
unfolding permitted
permitted-All permits test [] h = tt
permitted-All permits test (e ∷ es) h =
    (λ hit. ground arith, permitted-All permits test es (ground arith))

-- The event `previous` comes before `current`, which arrived with `arrival`: it has no transaction
-- on record, its transaction arrived earlier, or it was stored earlier with the same one.
pub data IsPrior (x : Inbox) (current previous : EventRow) (arrival : TransactionRow) : Type 0 where
  legacy : source_of x previous ≡ none → IsPrior x current previous arrival
  arrived :
      (t : TransactionRow)
      → source_of x previous ≡ some t
      → t.sequence < arrival.sequence
      → IsPrior x current previous arrival
  stored :
      (t : TransactionRow)
      → source_of x previous ≡ some t
      → t.sequence ≡ arrival.sequence
      → previous.sequence < current.sequence
      → IsPrior x current previous arrival

prior-is_predecessor :
    (x : Inbox) (current previous : EventRow) (arrival : TransactionRow)
    → str_eq previous.body.room_id current.body.room_id ≡ true
    → str_eq previous.body.sender current.body.sender ≡ true
    → IsPrior x current previous arrival
    → is_predecessor x current.body
        (record { transaction = arrival.sequence; event = current.sequence })
        previous
      ≡ true
unfolding is_predecessor before
prior-is_predecessor x current previous arrival room sender (legacy none') =
    ground (arith, room, sender, none')
prior-is_predecessor x current previous arrival room sender (arrived t source earlier) =
    ground (arith, room, sender, source, earlier)
prior-is_predecessor x current previous arrival room sender (stored t source same earlier) =
    ground (arith, room, sender, source, same, earlier)

module _ (rooms : String → Option (List String)) (x : Inbox) (id : String)
    (permits : InboxEvent → Bool) (current : EventRow) (arrival : TransactionRow)
    (found : select_one (has_event_id id) x.events ≡ some current)
    (from : source_of x current ≡ some arrival)
    (h : predecessors_permit rooms x id permits ≡ true) where
  -- When the predecessors of an event permit, each transaction that arrived earlier and is still
  -- pending has a stored text with an events array, and no event of that array is of the room of
  -- the event.
  pub predecessors_permit_barrier :
      (t : TransactionRow)
      → Memᴰ t x.transactions
      → t.sequence < arrival.sequence
      → t.is_done ≡ false
      → (text : String) × (named : List String) × (t.body ≡ some text)
        × (rooms text ≡ some named)
        × (exists (str_eq current.body.room_id) named ≡ false)
  unfolding predecessors_permit may_hold
  predecessors_permit_barrier t m earlier waiting =
      let clear =
        All-of
          (λ (t : TransactionRow). may_hold rooms current.body.room_id arrival.sequence t ≡ false)
          x.transactions
          (exists-false (may_hold rooms current.body.room_id arrival.sequence) x.transactions
            (ground (arith, found, from)))
          m in
      elim (Option-cases t.body) [
        | inl gone ↦ absurd (ground (arith, clear, gone, earlier, waiting))
        | inr (text, body) ↦ elim (Option-cases (rooms text)) [
          | inl unlisted ↦ absurd (ground (arith, clear, body, unlisted, earlier, waiting))
          | inr (named, listed) ↦
              (text, named, body, listed, ground (arith, clear, body, listed, earlier, waiting))
        ]
      ]

  -- When the predecessors of an event permit, each stored event of its room and its sender that
  -- comes before it is permitted: one with no transaction on record, one whose transaction arrived
  -- earlier, and one stored earlier with the same transaction.
  pub predecessors_permit_sound :
      (previous : EventRow)
      → Memᴰ previous x.events
      → str_eq previous.body.room_id current.body.room_id ≡ true
      → str_eq previous.body.sender current.body.sender ≡ true
      → IsPrior x current previous arrival
      → permits previous.body ≡ true
  unfolding predecessors_permit
  predecessors_permit_sound previous m room sender prior =
      All-of
        (λ (e : EventRow).
          is_predecessor x current.body
              (record { transaction = arrival.sequence; event = current.sequence }) e
            ≡ true
          → permits e.body ≡ true)
        x.events
        (permitted-All permits
          (is_predecessor x current.body
            (record { transaction = arrival.sequence; event = current.sequence }))
          x.events (ground (arith, found, from)))
        m (prior-is_predecessor x current previous arrival room sender prior)
