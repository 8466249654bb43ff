-- ===== src/Matrix/Inbox/Tests.antt =====
-- A transaction with an event, and the theorems about TransactionInbox applied to it.
use threema_beeper.Prelude.{
  exists, arith, ◌≡◌, ◌⊎◌, ◌≤◌, refl, true, false, List, [], ◌∷◌, String, some, none, Memᴰ, All,
  str_eq, Bool, Option, ℕ,
}
use threema_beeper.Text.{utf16_length, is_event_id}
use threema_beeper.Matrix.Inbox.Tables.{
  Inbox, InboxEvent, TransactionRow, EventRow, Error, value, thrown, event_eq,
}
use threema_beeper.Matrix.Inbox.Accept.{
  accept, accepted, duplicate, transaction_row, complete, store_events, store_event, event_row,
  finish, event,
}
use threema_beeper.Matrix.Inbox.Order.{
  source_of, source_position, before, compare_positions, event_precedes, may_hold, is_predecessor,
  permitted, predecessors_permit,
}
use threema_beeper.Matrix.Inbox.Retry
use threema_beeper.Matrix.Inbox.Retry.{pending_transactions, least_attempted_first}
use threema_beeper.Matrix.Inbox.Once.{accept_again, accept_conflict, complete_once}
use threema_beeper.Matrix.Inbox.Predecessors.{
  stored, predecessors_permit_barrier, predecessors_permit_sound,
}

-- All that a run of the inbox computes with.
code : Unit {0}
unfolding accept transaction_row utf16_length is_event_id complete store_events store_event
    event_row finish event event_eq source_of source_position before compare_positions
    event_precedes may_hold is_predecessor permitted predecessors_permit
code = tt

abbrev blank : Inbox
blank = record {
  transactions = [];
  next_transaction = 1;
  events = [];
  next_event = 1;
  results = [];
}

-- The text stands for its own digest.
abbrev digest : String → String
digest text = text

abbrev waiting : TransactionRow
waiting = record {
  sequence = 1;
  id = "t1";
  digest = "{}";
  body = some "{}";
  is_done = false;
  attempts = 0;
}

abbrev taken : Inbox
taken = record blank { transactions = waiting ∷ []; next_transaction = 2 }

first_accept : accept digest blank "t1" "{}" ≡ value (taken, accepted)
unfolding code
first_accept = refl

accept_again_example : accept digest taken "t1" "{}" ≡ value (taken, duplicate)
accept_again_example = accept_again digest blank taken "t1" "{}" accepted first_accept

accept_conflict_example : accept digest taken "t1" "[]" ≡ thrown Error.conflict
accept_conflict_example =
    accept_conflict digest blank taken "t1" "{}" "[]" accepted first_accept refl

abbrev note : String → InboxEvent
note id = record {
  encrypted = false;
  event_id = id;
  room_id = "!r:example.org";
  sender = "@me:example.org";
  type = "m.room.message";
  content = "{}";
  state_key = none;
  origin_server_ts = some 7;
  redacts = none;
}

abbrev row : ℕ → String → EventRow
row n id = record {
  sequence = n;
  event_id = id;
  body = note id;
  transaction_id = some "t1";
  is_done = false;
}

-- The state before the transaction completes holds an event of another transaction.
abbrev held : Inbox
held = record taken { events = row 1 "$a" ∷ []; next_event = 2 }

abbrev done : Inbox
done = record held {
  transactions = record waiting { is_done = true; body = none } ∷ [];
  events = row 1 "$a" ∷ row 2 "$b" ∷ row 3 "$c" ∷ [];
  next_event = 4;
}

first_completion : complete held "t1" (note "$b" ∷ note "$c" ∷ []) ≡ value done
unfolding code
first_completion = refl

old_event : event held "$a" ≡ some (note "$a")
unfolding code
old_event = refl

complete_once_example :
    All (λ e. event done e.event_id ≡ some e) (note "$b" ∷ note "$c" ∷ [])
    × ((event held "$a" ≡ none) ⊎ (event done "$a" ≡ event held "$a"))
    × (complete done "t1" [] ≡ value done)
complete_once_example =
    complete_once "t1" "$a" (note "$b" ∷ note "$c" ∷ []) [] held done waiting refl refl
      first_completion

abbrev rooms : String → Option (List String)
rooms text = none

abbrev permits : InboxEvent → Bool
permits e = str_eq e.event_id "$a"

source_of_b : source_of done (row 2 "$b") ≡ some (record waiting { is_done = true; body = none })
unfolding code
source_of_b = refl

source_of_a : source_of done (row 1 "$a") ≡ some (record waiting { is_done = true; body = none })
unfolding code
source_of_a = refl

b_is_permitted : predecessors_permit rooms done "$b" permits ≡ true
unfolding code
b_is_permitted = refl

-- An earlier transaction that is pending names another room.
abbrev other_rooms : String → Option (List String)
other_rooms text = some ("!other:example.org" ∷ [])

abbrev late : TransactionRow
late = record waiting { sequence = 2; id = "t2"; body = none; is_done = true }

abbrev behind : Inbox
behind = record blank {
  transactions = waiting ∷ late ∷ [];
  next_transaction = 3;
  events = record (row 1 "$d") { transaction_id = some "t2" } ∷ [];
  next_event = 2;
}

source_of_d : source_of behind (record (row 1 "$d") { transaction_id = some "t2" }) ≡ some late
unfolding code
source_of_d = refl

d_is_permitted : predecessors_permit other_rooms behind "$d" permits ≡ true
unfolding code
d_is_permitted = refl

predecessors_permit_barrier_example :
    (text : String) × (named : List String) × (some "{}" ≡ some text)
    × (other_rooms text ≡ some named)
    × (exists (str_eq "!r:example.org") named ≡ false)
predecessors_permit_barrier_example =
    predecessors_permit_barrier other_rooms behind "$d" permits
      (record (row 1 "$d") { transaction_id = some "t2" }) late refl source_of_d d_is_permitted
      waiting (Memᴰ.head refl) (omega arith) refl

predecessors_permit_sound_example : permits (note "$a") ≡ true
predecessors_permit_sound_example =
    predecessors_permit_sound rooms done "$b" permits (row 2 "$b")
      (record waiting { is_done = true; body = none }) refl source_of_b b_is_permitted (row 1 "$a")
      (Memᴰ.head refl) refl refl
      (stored (record waiting { is_done = true; body = none }) source_of_a refl (omega arith))

-- The first transaction was tried twice, the second never.
abbrev tried : TransactionRow
tried = record waiting { attempts = 2 }

abbrev untried : TransactionRow
untried = record waiting { sequence = 2; id = "t2" }

abbrev retrying : Inbox
retrying = record blank { transactions = tried ∷ untried ∷ []; next_transaction = 3 }

first_page : pending_transactions retrying 1 ≡ value (untried ∷ [])
unfolding pending_transactions Retry.by_attempts Retry.insert
first_page = refl

least_attempted_first_example : Memᴰ tried (untried ∷ []) ⊎ (0 ≤ 2)
least_attempted_first_example =
    least_attempted_first retrying 1 (untried ∷ []) untried tried first_page (Memᴰ.head refl)
      (Memᴰ.head refl) refl
