-- ===== src/Matrix/Inbox/Once.antt =====
-- Each transaction is taken in once, and each of its events is stored once
-- (src/matrix/transaction-inbox.ts).
use threema_beeper.Prelude.{
  ℕ, String, Bool, true, false, List, [], ◌∷◌, ◌++◌, Option, none, some, str_eq, eq_iff, eq_refl,
  select_one, select_one-update, select_one-append, select_one-append_some, ◌≡◌, refl, sym, ap, ◌∙◌,
  ◌⊎◌, inl, inr, arith, All, Option-cases, subst,
}
use threema_beeper.Matrix.Inbox.Tables.{
  Inbox, InboxEvent, TransactionRow, Error, Checked-cases, thrown, value, event_eq, opt_str_eq,
  opt_nat_eq, bool_eq,
}
use threema_beeper.Matrix.Inbox.Accept.{
  Receipt, duplicate, has_id, has_event_id, transaction_row, accept, store_event, store_events,
  event_row, finish, complete, event,
}

-- A transaction that was accepted, or was known, is known from then on: delivering it again
-- reports a duplicate and changes nothing.
pub accept_again :
    (sha256 : String → String) (x y : Inbox) (id text : String) (r : Receipt)
    → accept sha256 x id text ≡ value (y, r)
    → accept sha256 y id text ≡ value (y, duplicate)
unfolding accept
accept_again sha256 x y id text r e = elim (Option-cases (select_one (has_id id) x.transactions)) [
  | inl fresh ↦ ground (
    arith,
    eq_refl id,
    eq_refl (sha256 text),
    select_one-append (has_id id) x.transactions
        (transaction_row x.next_transaction id (sha256 text) text) fresh,
  )
  | inr (old, found) ↦ ground arith
]

-- Another text under the ID of an accepted transaction is refused, where SHA-256 tells the two
-- texts apart.
pub accept_conflict :
    (sha256 : String → String) (x y : Inbox) (id text other : String) (r : Receipt)
    → accept sha256 x id text ≡ value (y, r)
    → str_eq (sha256 text) (sha256 other) ≡ false
    → accept sha256 y id other ≡ thrown Error.conflict
unfolding accept
accept_conflict sha256 x y id text other r e d =
    elim (Option-cases (select_one (has_id id) x.transactions)) [
      | inl fresh ↦ ground (
        arith,
        eq_refl id,
        select_one-append (has_id id) x.transactions
            (transaction_row x.next_transaction id (sha256 text) text) fresh,
      )
      | inr (old, found) ↦
          ground (arith, eq_iff old.digest (sha256 text), eq_iff old.digest (sha256 other))
    ]

opt_str_sound : (a b : Option String) → opt_str_eq a b ≡ true → a ≡ b
opt_str_sound none none h = refl
opt_str_sound none (some t) h = cc
opt_str_sound (some s) none h = cc
opt_str_sound (some s) (some t) h = ap some ((eq_iff s t).0 h)

opt_nat_sound : (a b : Option ℕ) → opt_nat_eq a b ≡ true → a ≡ b
opt_nat_sound a b h = ground arith

bool_sound : (a b : Bool) → bool_eq a b ≡ true → a ≡ b
bool_sound a b h = ground arith

event_sound : (a b : InboxEvent) → event_eq a b ≡ true → a ≡ b
unfolding event_eq
event_sound a b h = ground (
  arith,
  bool_sound a.encrypted b.encrypted,
  eq_iff a.event_id b.event_id,
  eq_iff a.room_id b.room_id,
  eq_iff a.sender b.sender,
  eq_iff a.type b.type,
  eq_iff a.content b.content,
  opt_str_sound a.state_key b.state_key,
  opt_nat_sound a.origin_server_ts b.origin_server_ts,
  opt_str_sound a.redacts b.redacts,
)

-- One event of the loop: it is stored, and what was stored before is kept.
store_event_lem :
    (id : String) (e : InboxEvent) (x y : Inbox)
    → store_event id e x ≡ value y
    → (event y e.event_id ≡ some e)
      × ((other : String) (b : InboxEvent) → event x other ≡ some b → event y other ≡ some b)
      × (y.transactions ≡ x.transactions)
unfolding store_event event
store_event_lem id e x y h = elim (Option-cases (select_one (has_event_id e.event_id) x.events)) [
  | inr (old, found) ↦
      let same : y ≡ x = ground arith in
      let equal : old.body ≡ e = event_sound old.body e (ground arith) in
      (
        ground (arith, same, found, equal),
        λ other b k. ground (arith, same, k),
        ground (arith, same),
      )
  | inl fresh ↦
      let grown : y.events ≡ x.events ++ event_row x.next_event id e ∷ [] = ground arith in
      (
        ground (
          arith,
          grown,
          eq_refl e.event_id,
          select_one-append (has_event_id e.event_id) x.events (event_row x.next_event id e) fresh,
        ),
        λ other b k. kept other b k grown,
        ground arith,
      )
]
  where
    kept :
        (other : String) (b : InboxEvent)
        → event x other ≡ some b
        → y.events ≡ x.events ++ event_row x.next_event id e ∷ []
        → event y other ≡ some b
    kept other b k grown = elim (Option-cases (select_one (has_event_id other) x.events)) [
      | inl missing ↦ absurd (ground arith)
      | inr (row, found) ↦ ground (
        arith,
        grown,
        k,
        select_one-append_some (has_event_id other) x.events (event_row x.next_event id e ∷ [])
            found,
      )
    ]

store_events_lem :
    (id : String) (es : List InboxEvent) (x y : Inbox)
    → store_events id es x ≡ value y
    → All (λ e. event y e.event_id ≡ some e) es
      × ((other : String) (b : InboxEvent) → event x other ≡ some b → event y other ≡ some b)
      × (y.transactions ≡ x.transactions)
unfolding store_events
store_events_lem id [] x y h =
    let same : y ≡ x = ground arith in
    (tt, λ other b k. ground (arith, same, k), ground (arith, same))
store_events_lem id (e ∷ es) x y h = elim (Checked-cases (store_event id e x)) [
  | inr (t, failed) ↦ absurd (ground arith)
  | inl (z, stored) ↦
      let (here, kept, rows) = store_event_lem id e x z stored in
      let (all, later, rows') = store_events_lem id es z y (ground arith) in
      ((later e.event_id e here, all), λ other b k. later other b (kept other b k), rows' ∙ rows)
]

finished : TransactionRow → TransactionRow
finished t = record t { is_done = true; body = none }

complete_done :
    (id : String) (es : List InboxEvent) (x y : Inbox) (t : TransactionRow)
    → select_one (has_id id) x.transactions ≡ some t
    → t.is_done ≡ false
    → complete x id es ≡ value y
    → (z : Inbox) × (store_events id es x ≡ value z) × (y ≡ finish id z)
unfolding complete
complete_done id es x y t found open' e = elim (Checked-cases (store_events id es x)) [
  | inl (z, stored) ↦ (z, stored, ground arith)
  | inr (k, failed) ↦ absurd (ground arith)
]

kept_event :
    (x y : Inbox) (other : String)
    → ((b : InboxEvent) → event x other ≡ some b → event y other ≡ some b)
    → (event x other ≡ none) ⊎ (event y other ≡ event x other)
kept_event x y other keep = elim (Option-cases (event x other)) [
  | inl missing ↦ inl missing
  | inr (b, found) ↦ inr (keep b found ∙ sym found)
]

-- Completing a pending transaction that does not throw stores every event of the list, keeps
-- whatever event any ID had before, and leaves the transaction done: completing it again, with any
-- events, changes nothing.
pub complete_once :
    (id other : String) (es later : List InboxEvent) (x y : Inbox) (t : TransactionRow)
    → select_one (has_id id) x.transactions ≡ some t
    → t.is_done ≡ false
    → complete x id es ≡ value y
    → All (λ e. event y e.event_id ≡ some e) es
      × ((event x other ≡ none) ⊎ (event y other ≡ event x other))
      × (complete y id later ≡ value y)
unfolding complete finish
complete_once id other es later x y t found open' e =
    let (z, stored, last) = complete_done id es x y t found open' e in
    let (all, kept, rows) = store_events_lem id es x z stored in
    let same_events : y.events ≡ z.events = ground (arith, last) in
    (
      subst
          (λ events.
            All (λ (e : InboxEvent). event (record y { events = events }) e.event_id ≡ some e) es)
          (sym same_events) (unfold event in all),
      kept_event x y other (λ b old. unfold event in ground (arith, kept other b old, same_events)),
      ground (
        arith,
        last,
        rows,
        select_one-update (has_id id)
            (λ (r : TransactionRow). record r { is_done = true; body = none }) z.transactions
            {x = t} (λ r. refl) (rw rows found),
      ),
    )
