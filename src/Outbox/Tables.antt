-- ===== src/Outbox/Tables.antt =====
-- The tables of the outbox database (src/outbox/store.ts, mutation-journal.ts, reaction-journal.ts,
-- media-journal.ts). A JSON body is the record that it encodes; a table is the list of its rows in
-- the order of the primary key. Of the media tables the columns stand here that other code reads.
use threema_beeper.Prelude.{ℕ, String, Bool, List, Option}

pub record TextRequest : Type 0 where
  pub request_id : String
  pub profile : String
  pub transaction_id : String
  pub event_id : String
  pub room_id : String
  pub sender : String
  pub chat_id : String
  pub text : String
  pub reply_to : Option String

-- PREPARED, DISPATCHING, SENT, OUTCOME_UNKNOWN, ACKED.
pub data OutboxState : Type 0 where
  prepared dispatching sent outcome_unknown acked : OutboxState

pub record OutboxRecord : Type 0 where
  pub request : TextRequest
  pub state : OutboxState
  pub ids : List String
  pub retry_at : ℕ
  pub preflight_failures : ℕ

pub record RequestRow : Type 0 where
  pub sequence : ℕ
  pub id : String
  pub profile : String
  pub event : String
  pub digest : String
  pub body : TextRequest
  pub created : ℕ
  pub chat : String
  pub retry_at : ℕ
  pub preflight_failures : ℕ
  pub state : OutboxState

pub record PartRow : Type 0 where
  pub request : String
  pub profile : String
  pub message : String
  pub part : ℕ
  pub observed : Bool

pub record RejectionRow : Type 0 where
  pub profile : String
  pub event : String
  pub room : String
  pub reason : String

-- {action: 'edit', text} or {action: 'delete'}.
pub data Action : Type 0 where
  edit : String → Action
  delete : Action

pub record MutationRequest : Type 0 where
  pub profile : String
  pub chat_id : String
  pub message_id : String
  pub action : Action

pub record MutationOperation : Type 0 where
  pub profile : String
  pub owner : String
  pub room : String
  pub chat : String
  pub event : String
  pub target : String
  pub commands : List MutationRequest

pub data MutationState : Type 0 where
  prepared dispatching applied outcome_unknown rejected cancelled : MutationState

pub record MutationPart : Type 0 where
  pub part : ℕ
  pub state : MutationState
  pub reason : Option String
  -- A row of mutation_failure_notices names this part.
  pub notified : Bool

-- A row of mutation_operations with its rows of mutation_parts, in the order of `part`.
pub record MutationRow : Type 0 where
  pub sequence : ℕ
  pub profile : String
  pub event : String
  pub chat : String
  pub body : MutationOperation
  pub parts : List MutationPart

pub data ReactionAction : Type 0 where
  apply withdraw : ReactionAction

pub record ReactionOperation : Type 0 where
  pub profile : String
  pub event : String
  pub room : String
  pub owner : String
  pub chat : String
  pub target : String
  pub emoji : String
  pub action : ReactionAction
  pub messages : List String

pub data ReactionState : Type 0 where
  prepared dispatching sent outcome_unknown rejected : ReactionState

-- A row of reaction_failures.
pub record ReactionFailure : Type 0 where
  pub reason : String
  pub notified : Bool

pub record ReactionPart : Type 0 where
  pub part : ℕ
  pub state : ReactionState
  pub failure : Option ReactionFailure

-- A row of reaction_operations with its rows of reaction_parts, in the order of `part`.
pub record ReactionRow : Type 0 where
  pub sequence : ℕ
  pub profile : String
  pub event : String
  pub chat : String
  pub body : ReactionOperation
  pub parts : List ReactionPart

pub record RetirementRow : Type 0 where
  pub profile : String
  pub event : String
  pub is_done : Bool

pub data MediaState : Type 0 where
  prepared dispatching sent outcome_unknown : MediaState

pub record MediaRow : Type 0 where
  pub sequence : ℕ
  pub id : String
  pub profile : String
  pub event : String
  pub room : String
  pub chat : String
  pub state : MediaState
  pub retry_at : ℕ
  pub preflight_failures : ℕ

pub record MediaReply : Type 0 where
  pub profile : String
  pub event : String
  pub state : MediaState

pub record Database : Type 0 where
  pub requests : List RequestRow
  -- AUTOINCREMENT: the sequence of the next row of `requests`.
  pub next_sequence : ℕ
  pub parts : List PartRow
  pub rejections : List RejectionRow
  pub mutations : List MutationRow
  pub next_mutation : ℕ
  pub reactions : List ReactionRow
  pub next_reaction : ℕ
  pub retirements : List RetirementRow
  pub media : List MediaRow
  pub media_parts : List PartRow
  pub media_replies : List MediaReply

pub OutboxState-discrete : Discrete OutboxState
OutboxState-discrete = hlevel
