-- ===== src/Outbox/Tests.antt =====
-- A journal with one request, runs of the code on it, and the theorems applied to it.
use threema_beeper.Prelude.{
  strs_eq, All, ◌⊎◌, ◌≡◌, refl, true, false, List, [], ◌∷◌, String, some, none, Memᴰ, arith, exists,
  str_eq, ◌+◌, count, map,
}
use threema_beeper.Text.{
  is_uuid7, is_profile, is_chat_id, is_message_id, utf16_length, byte_length, starts_with,
}
use threema_beeper.Outbox.Result.{ok}
use threema_beeper.Outbox.Request.{
  validate, validate_ids, are_ids, is_request, has_identities, is_identity, is_reply_target,
  has_duplicates, all_message_ids,
}
use threema_beeper.Outbox.Tables.{
  Database, TextRequest, OutboxRecord, RequestRow, prepared, dispatching, outcome_unknown,
  MutationOperation, Action,
}
use threema_beeper.Outbox.Store.Query.{
  get, read_row, ids_of, media_exists, reaction_exists, rejection, get_present,
}
use threema_beeper.Outbox.Store.Prepare.{
  Content, insert, prepare, reject_event, is_rejection, new_row,
}
use threema_beeper.Outbox.Store.Dispatch.{next_prepared, is_next, claim}
use threema_beeper.Text.{is_event_id, is_server_id}
use threema_beeper.Outbox.Store.Dispatch.{recover_requests}
use threema_beeper.Outbox.Store.Parts.{
  record_ids, record_sent, observe, clashes_with_media, is_pending, mark_observed,
}
use threema_beeper.Outbox.Store.Recovery.{
  pending_counts, is_unacknowledged, is_delayed, retry_prepared, identity_of, pending_counts_total,
  retry_prepared-requests,
}
use threema_beeper.Outbox.Store.Invariant.{Inv}
use threema_beeper.Outbox.Store.Insertion.{Inv-insert}
use threema_beeper.Outbox.Store.Selection.{next_prepared-total, record_of}
use threema_beeper.Outbox.Store.History.{
  Run, start, dispatch, other, recovers, prepares, reorders, Run-Inv,
}
use threema_beeper.Outbox.Store.Once.{
  is_attempted, dispatched_once, one_in_flight, attempted_never_dispatched,
}
use threema_beeper.Outbox.Mutations.Plan
use threema_beeper.Outbox.Mutations.Journal
use threema_beeper.Outbox.Classification.{
  journals, IsExclusive, prepare-IsExclusive, reject_event-IsExclusive, mutation-IsExclusive,
}
use threema_beeper.Outbox.Slots
use threema_beeper.Outbox.Store.Reorder
use threema_beeper.Outbox.Store.Reorder.{reorder_prepared}
use threema_beeper.Outbox.Worker.{Attempt, returned, pass, restart, serve}
use threema_beeper.Outbox.Worker.Delivery.{handed_once}

abbrev empty : Database
empty = record {
  requests = [];
  next_sequence = 1;
  parts = [];
  rejections = [];
  mutations = [];
  next_mutation = 1;
  reactions = [];
  next_reaction = 1;
  retirements = [];
  media = [];
  media_parts = [];
  media_replies = [];
}

abbrev hello : TextRequest
hello = record {
  request_id = "01890a5d-ac96-774b-bcce-b302099a8057";
  profile = "ABCDEFGH";
  transaction_id = "t1";
  event_id = "$e1";
  room_id = "!r:example.org";
  sender = "@me:example.org";
  chat_id = "c:HGFEDCBA";
  text = "hello";
  reply_to = none;
}

hello_valid : validate hello ≡ ok tt
unfolding validate is_request has_identities is_identity is_reply_target is_uuid7 is_profile
    is_chat_id utf16_length byte_length starts_with
hello_valid = refl

-- The text stands for its own digest.
abbrev digest : Content → String
digest c = c.text

one : Database
one = insert empty 5 "hello" hello

empty-Inv : Inv empty
empty-Inv = record { rows = tt; order = tt; owned = tt; allocated = tt }

one-Inv : Inv one
unfolding one
one-Inv = Inv-insert empty 5 "hello" hello empty-Inv hello_valid tt tt

-- All that a run of the journal computes with.
code : Unit {0}
unfolding one insert new_row serve next_prepared claim get get_present read_row ids_of validate
    is_request has_identities is_identity is_reply_target is_uuid7 is_profile is_chat_id
    is_message_id utf16_length byte_length starts_with validate_ids are_ids has_duplicates
    all_message_ids record_ids record_sent observe recover_requests prepare reject_event
    media_exists reaction_exists rejection is_rejection Journal.get Journal.prepare Plan.serialize
    Plan.has_shape Plan.has_targets Plan.all_commands Plan.is_command Plan.total_bytes
    Journal.is_classified_elsewhere is_event_id is_server_id clashes_with_media is_pending
    mark_observed strs_eq
code = tt

abbrev reply : List String
reply = "m:0123456789abcdef" ∷ []

abbrev ready : Attempt
ready = record {
  ready = true;
  still_ready = true;
  now = 10;
  now_failed = 10;
  now_claim = 10;
  check = λ r. true;
  allocations = λ r. reply ∷ [];
  reply = λ r. returned reply;
}

-- A pass hands the request over; a restart and another pass do not hand it over again.
handed_once_run :
    (serve 1000 (pass ready ∷ restart ∷ pass ready ∷ []) one []).1 ≡ hello.request_id ∷ []
unfolding code
handed_once_run = refl

handed_once_example :
    has_duplicates (serve 1000 (pass ready ∷ restart ∷ pass ready ∷ []) one []).1 ≡ false
handed_once_example = handed_once one 1000 (pass ready ∷ restart ∷ pass ready ∷ []) one-Inv

abbrev flying_row : RequestRow
flying_row = record {
  sequence = 1;
  id = hello.request_id;
  profile = hello.profile;
  event = hello.event_id;
  digest = "hello";
  body = hello;
  created = 5;
  chat = hello.chat_id;
  retry_at = 0;
  preflight_failures = 0;
  state = dispatching;
}

abbrev flying : Database
flying = record empty { requests = flying_row ∷ []; next_sequence = 2 }

abbrev flying_record : OutboxRecord
flying_record = record {
  request = hello;
  state = dispatching;
  ids = [];
  retry_at = 0;
  preflight_failures = 0;
}

first_dispatch : claim one none 10 ≡ ok (flying, some flying_record)
unfolding code
first_dispatch = refl

first_history : Run one (hello.request_id ∷ []) flying
first_history = dispatch start none 10 flying_record first_dispatch

dispatched_once_example : has_duplicates (hello.request_id ∷ []) ≡ false
dispatched_once_example = dispatched_once one one-Inv first_history

one_in_flight_example : flying_row ≡ flying_row
one_in_flight_example =
    one_in_flight one flying_row flying_row one-Inv first_history (Memᴰ.head refl) (Memᴰ.head refl)
      refl refl refl

next_prepared-total_example :
    ((next_prepared one 10 ≡ ok none) × All (λ r. is_next one 10 r ≡ false) one.requests)
    ⊎ ((row : RequestRow) × Memᴰ row one.requests
        × (is_next one 10 row ≡ true)
        × (next_prepared one 10 ≡ ok (some (record_of one row))))
next_prepared-total_example = next_prepared-total one 10 one-Inv (omega arith)

empty-IsExclusive : IsExclusive empty
unfolding IsExclusive journals media_exists reaction_exists
empty-IsExclusive profile event = omega arith

first_insertion : prepare digest empty 5 hello ≡ ok (one, record flying_record { state = prepared })
unfolding code
first_insertion = refl

prepare-IsExclusive_example : IsExclusive one
prepare-IsExclusive_example =
    prepare-IsExclusive digest empty 5 hello (one, record flying_record { state = prepared })
      empty-IsExclusive first_insertion

abbrev barred : Database
barred = record empty {
  rejections =
      record { profile = "ABCDEFGH"; event = "$e1"; room = "!r:example.org"; reason = "too long" }
      ∷ [];
}

reject_event-IsExclusive_example : IsExclusive barred
unfolding code
reject_event-IsExclusive_example =
    reject_event-IsExclusive empty "ABCDEFGH" "$e1" "!r:example.org" "too long" barred
      empty-IsExclusive refl

abbrev deletion : MutationOperation
deletion = record {
  profile = "ABCDEFGH";
  owner = "@me:example.org";
  room = "!r:example.org";
  chat = "c:HGFEDCBA";
  event = "$e2";
  target = "$e1";
  commands =
      record {
        profile = "ABCDEFGH";
        chat_id = "c:HGFEDCBA";
        message_id = "m:0123456789abcdef";
        action = Action.delete;
      }
      ∷ [];
}

abbrev planned : Database
unfolding Journal.insert
planned = Journal.insert empty deletion

planned_runs : Journal.prepare empty deletion ≡ ok planned
unfolding code
planned_runs = refl

mutation-IsExclusive_example : IsExclusive planned
mutation-IsExclusive_example =
    mutation-IsExclusive empty deletion planned empty-IsExclusive planned_runs

flying-Inv : Inv flying
flying-Inv = Run-Inv one one-Inv first_history

attempted : is_attempted flying hello.request_id ≡ true
unfolding is_attempted
attempted = refl

abbrev second : TextRequest
second = record hello {
  request_id = "01890a5d-ac96-774b-bcce-b302099a8058";
  event_id = "$e2";
  chat_id = "c:AAAAAAAA";
}

abbrev second_row : RequestRow
second_row = record flying_row {
  sequence = 2;
  id = second.request_id;
  event = "$e2";
  body = second;
  chat = "c:AAAAAAAA";
  state = prepared;
}

abbrev restarted : Database
restarted = record empty {
  requests = record flying_row { state = outcome_unknown } ∷ [];
  next_sequence = 2;
}

abbrev joined : Database
joined = record restarted {
  requests = record flying_row { state = outcome_unknown } ∷ second_row ∷ [];
  next_sequence = 3;
}

abbrev dispatched : Database
dispatched = record joined {
  requests =
      record flying_row { state = outcome_unknown }
      ∷ record second_row { state = dispatching }
      ∷ [];
}

abbrev second_record : OutboxRecord
second_record = record flying_record { request = second; state = prepared }

second_insertion : prepare digest restarted 5 second ≡ ok (joined, second_record)
unfolding code
second_insertion = refl

-- No position is known, so nothing moves.
second_repair : reorder_prepared (λ event. none) joined ≡ ok (joined, 0)
unfolding code reorder_prepared Reorder.move_rows Reorder.slots Slots.all_moves Slots.renumber
    Slots.in_order Slots.insert_row Slots.is_keyed Slots.groups_of Slots.add_to_groups Slots.moves
    Slots.group_moves Slots.placed
second_repair = refl

second_dispatch :
    claim joined none 10 ≡ ok (dispatched, some (record second_record { state = dispatching }))
unfolding code
second_dispatch = refl

-- After a restart, another request is handed over, and the one that was in flight is not.
attempted_never_dispatched_example :
    exists (str_eq hello.request_id) (second.request_id ∷ []) ≡ false
unfolding recover_requests
attempted_never_dispatched_example =
    attempted_never_dispatched flying hello.request_id flying-Inv attempted (
      dispatch
        (other
          (other (other start (recovers refl))
            (prepares digest 5 second (joined, second_record) second_insertion refl))
          (reorders (λ event. none) 0 second_repair))
        none 10 (record second_record { state = dispatching }) second_dispatch)

-- A request that waits for its next preflight.
abbrev delayed : Database
delayed = record empty {
  requests = record flying_row { state = prepared; retry_at = 90; preflight_failures = 2 } ∷ [];
  next_sequence = 2;
}

pending_counts_total_example :
    (pending_counts flying "ABCDEFGH").prepared
      + (pending_counts flying "ABCDEFGH").dispatching
      + (pending_counts flying "ABCDEFGH").awaiting_echo
      + (pending_counts flying "ABCDEFGH").uncertain
    ≡ count (is_unacknowledged "ABCDEFGH") flying.requests
pending_counts_total_example = pending_counts_total flying "ABCDEFGH"

retry_prepared-requests_example :
    (count (is_delayed "ABCDEFGH") (retry_prepared delayed "ABCDEFGH").0.requests ≡ 0)
    × (map identity_of (retry_prepared delayed "ABCDEFGH").0.requests
        ≡ map identity_of delayed.requests)
retry_prepared-requests_example = retry_prepared-requests delayed "ABCDEFGH"
