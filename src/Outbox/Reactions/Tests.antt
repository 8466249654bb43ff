-- ===== src/Outbox/Reactions/Tests.antt =====
-- Two reactions in one chat, and the theorems about ReactionJournal applied to them.
use threema_beeper.Prelude.{
  String, Option, str_eq, arith, if◌then◌else◌, ◌≡◌, refl, true, false, List, [], ◌∷◌, some, none,
  All, Pairs, Memᴰ,
}
use threema_beeper.Text.{
  is_profile, is_chat_id, is_message_id, is_event_id, is_server_id, utf16_length, byte_length,
  starts_with,
}
use threema_beeper.Outbox.Request.{has_duplicates}
use threema_beeper.Outbox.Result.{ok}
use threema_beeper.Outbox.Tables.{
  Database, ReactionAction, ReactionOperation, ReactionState, ReactionPart, ReactionRow,
}
use threema_beeper.Outbox.Store.Query
use threema_beeper.Outbox.Reactions.Journal
use threema_beeper.Outbox.Reactions.Journal.{ReactionRecord, get, is_settled}
use threema_beeper.Outbox.Reactions.Dispatch
use threema_beeper.Outbox.Reactions.Dispatch.{Completion}
use threema_beeper.Outbox.Reactions.Retirement
use threema_beeper.Outbox.Reactions.Invariant.{Inv, Own, Before}
use threema_beeper.Outbox.Reactions.History
use threema_beeper.Outbox.Reactions.History.{
  Call, run, prepare, claim, finish, plan_retirement, finish_retirement,
}
use threema_beeper.Outbox.Reactions.Order.{reactions_in_order}
use threema_beeper.Outbox.Reactions.Attempts.{same_claim}
use threema_beeper.Outbox.Reactions.Distinct.{claims_differ}
use threema_beeper.Outbox.Reactions.Retired.{retired_when_settled}
use threema_beeper.Outbox.Reactions.Reorder
use threema_beeper.Outbox.Reactions.Reorder.{reorder_prepared}
use threema_beeper.Outbox.Slots
use threema_beeper.Outbox.Slots.{Position}
use threema_beeper.Outbox.Reactions.Reorder.Attempted.{reorder_keeps_attempted}
use threema_beeper.Outbox.Reactions.Final.{is_final, retirements_are_final}

abbrev blank : Database
blank = record {
  requests = [];
  next_sequence = 1;
  parts = [];
  rejections = [];
  mutations = [];
  next_mutation = 1;
  reactions = [];
  next_reaction = 1;
  retirements = [];
  media = [];
  media_parts = [];
  media_replies = [];
}

abbrev thumb : ReactionOperation
thumb = record {
  profile = "ABCDEFGH";
  event = "$r1";
  room = "!r:example.org";
  owner = "@me:example.org";
  chat = "c:HGFEDCBA";
  target = "$e1";
  emoji = "+1";
  action = ReactionAction.apply;
  messages = "m:0123456789abcdef" ∷ [];
}

abbrev removal : ReactionOperation
removal = record thumb { event = "$r2"; target = "$r1"; action = ReactionAction.withdraw }

-- Both are planned, and the first is claimed.
abbrev start : List Call
start = prepare thumb ∷ prepare removal ∷ claim "ABCDEFGH" none [] ∷ claim "ABCDEFGH" none [] ∷ []

-- The first is finished, and the second is claimed.
abbrev both : List Call
both =
    prepare thumb
    ∷ prepare removal
    ∷ claim "ABCDEFGH" none []
    ∷ finish "ABCDEFGH" "$r1" 0 Completion.sent
    ∷ claim "ABCDEFGH" (some ("$r2", 0)) []
    ∷ []

abbrev part_in : ReactionState → ReactionPart
part_in s = record { part = 0; state = s; failure = none }

abbrev thumb_row : ReactionState → ReactionRow
thumb_row s = record {
  sequence = 1;
  profile = "ABCDEFGH";
  event = "$r1";
  chat = "c:HGFEDCBA";
  body = thumb;
  parts = part_in s ∷ [];
}

abbrev removal_row : ReactionState → ReactionRow
removal_row s = record {
  sequence = 2;
  profile = "ABCDEFGH";
  event = "$r2";
  chat = "c:HGFEDCBA";
  body = removal;
  parts = part_in s ∷ [];
}

blank-Inv : Inv blank
blank-Inv = record { order = tt; own = tt; next = tt }

both_rows :
    (run both blank).0.reactions
    ≡ thumb_row ReactionState.sent ∷ removal_row ReactionState.dispatching ∷ []
unfolding run History.call Journal.prepare Journal.serialize Journal.has_shape Journal.all_commands
    Journal.is_command Journal.insert Journal.new_parts Journal.is_classified Query.media_exists
    Dispatch.claim Dispatch.candidate Dispatch.first_part Dispatch.is_blocked Dispatch.update_parts
    Dispatch.finish Dispatch.changes is_profile is_chat_id is_message_id is_event_id is_server_id
    utf16_length byte_length starts_with has_duplicates
both_rows = refl

reactions_in_order_example : is_settled ReactionState.sent ≡ true
reactions_in_order_example =
    reactions_in_order both blank (thumb_row ReactionState.sent)
      (removal_row ReactionState.dispatching) (part_in ReactionState.sent)
      (part_in ReactionState.dispatching) blank-Inv (rw both_rows (Memᴰ.head refl)) (Memᴰ.head refl)
      (rw both_rows (Memᴰ.tail (Memᴰ.head refl))) (Memᴰ.head refl) refl refl refl

claims_differ_example : Pairs (λ c d. same_claim c d ≡ false) (run start blank).1
claims_differ_example = claims_differ start blank blank-Inv

-- The reaction is sent, and its message is gone.
abbrev sent_reaction : Database
sent_reaction = record blank { reactions = thumb_row ReactionState.sent ∷ []; next_reaction = 2 }

abbrev retiring : List Call
retiring = plan_retirement "ABCDEFGH" "$r1" ∷ finish_retirement "ABCDEFGH" "$r1" ∷ []

abbrev with_plan : Database
with_plan = record sent_reaction {
  retirements = record { profile = "ABCDEFGH"; event = "$r1"; is_done = false } ∷ [];
}

retirements_are_final_example :
    All (λ r. is_final (run retiring with_plan).0 r ≡ true) (run retiring with_plan).0.retirements
retirements_are_final_example = retirements_are_final retiring with_plan (refl, tt)

abbrev sent_record : ReactionRecord
sent_record = record { operation = thumb; states = ReactionState.sent ∷ [] }

sent_reaction-get : get sent_reaction "ABCDEFGH" "$r1" ≡ ok (some sent_record)
unfolding get Journal.serialize Journal.has_shape Journal.all_commands Journal.is_command is_profile
    is_chat_id is_message_id is_event_id is_server_id utf16_length byte_length starts_with
    has_duplicates
sent_reaction-get = refl

is_planned : Retirement.plan_retirement sent_reaction "ABCDEFGH" "$r1" ≡ ok with_plan
unfolding Retirement.plan_retirement Retirement.chat_pending get Journal.serialize Journal.has_shape
    Journal.all_commands Journal.is_command is_profile is_chat_id is_message_id is_event_id
    is_server_id utf16_length byte_length starts_with has_duplicates
is_planned = refl

retired_when_settled_example : is_settled ReactionState.sent ≡ true
retired_when_settled_example =
    retired_when_settled sent_reaction with_plan "ABCDEFGH" "$r1" sent_record
      (thumb_row ReactionState.sent) (part_in ReactionState.sent) sent_reaction-get is_planned
      (Memᴰ.head refl) (Memᴰ.head refl) refl

-- A third plan, which came in before the second.
abbrev early_row : ReactionRow
early_row = record (removal_row ReactionState.prepared) {
  sequence = 3;
  event = "$r3";
  body = record removal { event = "$r3" };
}

abbrev disordered : Database
disordered = record blank {
  reactions = thumb_row ReactionState.sent ∷ removal_row ReactionState.prepared ∷ early_row ∷ [];
  next_reaction = 4;
}

abbrev source : String → Option Position
source event = some (record { transaction = if str_eq event "$r3" then 1 else 2; event = 0 })

abbrev ordered : Database
ordered = record disordered {
  reactions =
      thumb_row ReactionState.sent
      ∷ record early_row { sequence = 2 }
      ∷ record (removal_row ReactionState.prepared) { sequence = 3 }
      ∷ [];
}

disordered-reorder : reorder_prepared false source disordered ≡ ok (ordered, 2)
unfolding reorder_prepared Reorder.move_rows Reorder.slots Reorder.last_attempt Slots.all_moves
    Slots.renumber Slots.in_order Slots.insert_row Slots.is_keyed Slots.groups_of
    Slots.add_to_groups Slots.moves Slots.group_moves Slots.placed Slots.sort Slots.insert
    Slots.moves_to
disordered-reorder = refl

disordered-Inv : Inv disordered
disordered-Inv = record {
  order = ((before12, (before13, tt)), ((before23, tt), (tt, tt)));
  own = (own1, (own2, (own3, tt)));
  next = (omega arith, (omega arith, (omega arith, tt)));
}
  where
    before12 : Before (thumb_row ReactionState.sent) (removal_row ReactionState.prepared)
    before12 = record { sequence = omega arith; event = refl; fifo = refl }

    before13 : Before (thumb_row ReactionState.sent) early_row
    before13 = record { sequence = omega arith; event = refl; fifo = refl }

    before23 : Before (removal_row ReactionState.prepared) early_row
    before23 = record { sequence = omega arith; event = refl; fifo = refl }

    own1 : Own (thumb_row ReactionState.sent)
    own1 = record { profile = refl; event = refl; parts = (tt, tt) }

    own2 : Own (removal_row ReactionState.prepared)
    own2 = record { profile = refl; event = refl; parts = (tt, tt) }

    own3 : Own early_row
    own3 = record { profile = refl; event = refl; parts = (tt, tt) }

reorder_keeps_attempted_example : Memᴰ (thumb_row ReactionState.sent) ordered.reactions
reorder_keeps_attempted_example =
    reorder_keeps_attempted source disordered ordered 2 (thumb_row ReactionState.sent)
      disordered-Inv disordered-reorder (Memᴰ.head refl) refl
