-- ===== src/Outbox/Reactions/References.antt =====
-- Which Matrix reactions to a message are still visible: `requiresRemoteMutation` and
-- `activeReferences` of ReactionJournal (src/outbox/reaction-journal.ts). A Set is the list of its
-- elements in the order of insertion.
use threema_beeper.Prelude.{
  ℕ, suc, zero, String, Bool, true, false, not, ◌&&◌, ◌||◌, List, [], ◌∷◌, ◌++◌, map, Option, none,
  some, leb, str_eq, exists, select, select_one, if◌then◌else◌,
}
use threema_beeper.Outbox.Result.{
  Result, ok, err, not_dispatching, incomplete_history, ◌>>◌, ◌>>=◌, require,
}
use threema_beeper.Outbox.Tables.{Database, apply, withdraw, ReactionOperation}
use threema_beeper.Outbox.Reactions.Journal.{get, is_row, is_dispatching, is_rejected}
use threema_beeper.Outbox.Reactions.Dispatch.{state_at, is_state}
use threema_beeper.Outbox.Reactions.Retirement.{retirement}

-- `messages.indexOf(message)`.
unfoldable pub index_of : String → List String → Option ℕ
index_of message [] = none
index_of message (m ∷ ms) =
    let rest = index_of message ms in
    if str_eq m message then some 0 else elim rest [ none ↦ none | some n ↦ some (suc n) ]

abbrev pub message_at : ℕ → List String → Option String
message_at n [] = none
message_at zero (m ∷ ms) = some m
message_at (suc n) (m ∷ ms) = message_at n ms

abbrev pub add : String → List String → List String
add e active = if exists (str_eq e) active then active else active ++ e ∷ []

abbrev pub delete : String → List String → List String
delete e active = select (λ x. not (str_eq x e)) active

abbrev pub is_some {ℓ} : {A : Type ℓ} → Option A → Bool
is_some none = false
is_some (some _) = true

-- The state of the part of an event for a message is REJECTED.
unfoldable pub is_part_rejected : Database → String → String → Option ℕ → Result Bool
is_part_rejected db profile event none = ok false
is_part_rejected db profile event (some n) = do
  found ← get db profile event
  elim found [ none ↦ ok false | some r ↦ ok (is_state is_rejected (state_at n r.states)) ]

-- Another owner, room or emoji, or not the message.
unfoldable pub is_unrelated : ReactionOperation → String → ReactionOperation → Bool
is_unrelated operation message previous =
    not (str_eq previous.owner operation.owner)
    || not (str_eq previous.room operation.room)
    || not (str_eq previous.emoji operation.emoji)
    || not (exists (λ m. str_eq m message) previous.messages)

unfoldable pub advance : ReactionOperation → List String → List String
advance o active = elim o.action [ apply ↦ add o.event active | withdraw ↦ delete o.target active ]

abbrev pub is_nonempty : List String → Bool
is_nonempty [] = false
is_nonempty (_ ∷ _) = true

abbrev pub differ : Bool → Bool → Bool
differ true b = not b
differ false b = b

-- The loop over the bodies of the chat, up to the operation itself.
unfoldable pub replay :
    Database
    → String
    → String
    → ReactionOperation
    → String
    → List ReactionOperation
    → List String
    → Result Bool
unfolding is_part_rejected is_unrelated advance
replay db profile event operation message [] active = err incomplete_history
replay db profile event operation message (previous ∷ rest) active =
    elim (is_some (retirement db profile previous.event)) [
      | true ↦ replay db profile event operation message rest active
      | false ↦
          elim (is_part_rejected db profile previous.event (index_of message previous.messages)) [
            | err thrown ↦ err thrown
            | ok true ↦ replay db profile event operation message rest active
            | ok false ↦ elim (is_unrelated operation message previous) [
              | true ↦ replay db profile event operation message rest active
              | false ↦ elim (str_eq previous.event event) [
                | true ↦ ok (differ (is_nonempty active) (is_nonempty (advance previous active)))
                | false ↦ replay db profile event operation message rest (advance previous active)
              ]
            ]
          ]
    ]

-- The bodies of the chat up to a sequence, in order.
unfoldable pub history : Database → String → String → ℕ → List ReactionOperation
history db profile chat last =
    map (λ o. o.body)
      (select (λ o. str_eq o.profile profile && str_eq o.chat chat && leb o.sequence last)
        db.reactions)

-- (SELECT sequence ...), which is NULL and so selects nothing where there is no row.
unfoldable pub history_to : Database → String → String → String → List ReactionOperation
unfolding history
history_to db profile chat event = elim (select_one (is_row profile event) db.reactions) [
  | none ↦ []
  | some row ↦ history db profile chat row.sequence
]

abbrev pub is_text_given : Option String → Bool
is_text_given none = false
is_text_given (some m) = not (str_eq m "")

abbrev pub or_empty : Option String → String
or_empty none = ""
or_empty (some m) = m

unfoldable pub requires_remote_mutation : Database → String → String → ℕ → Result Bool
unfolding replay history_to
requires_remote_mutation db profile event part = do
  found ← get db profile event
  elim found [
    | none ↦ err not_dispatching
    | some r ↦ do
      require
          (is_state is_dispatching (state_at part r.states)
            && is_text_given (message_at part r.operation.messages))
          not_dispatching
      replay db profile event r.operation (or_empty (message_at part r.operation.messages))
          (history_to db profile r.operation.chat event) []
  ]

-- A visible reaction: its emoji and its event.
pub record Reference : Type 0 where
  pub emoji : String
  pub event : String

abbrev pub put : Reference → List Reference → List Reference
put r active =
    if exists (λ x. str_eq x.event r.event) active
    then map (λ x. if str_eq x.event r.event then r else x) active
    else active ++ r ∷ []

abbrev pub drop_event : String → List Reference → List Reference
drop_event e active = select (λ x. not (str_eq x.event e)) active

unfoldable pub references :
    Database → String → String → List ReactionOperation → List Reference → Result (List Reference)
unfolding is_part_rejected
references db profile message [] active = ok active
references db profile message (o ∷ rest) active = elim (is_some (retirement db profile o.event)) [
  | true ↦ references db profile message rest active
  | false ↦ elim (index_of message o.messages) [
    | none ↦ references db profile message rest active
    | some n ↦ elim o.action [
      | withdraw ↦ references db profile message rest (drop_event o.target active)
      | apply ↦ elim (is_part_rejected db profile o.event (some n)) [
        | err thrown ↦ err thrown
        | ok true ↦ references db profile message rest active
        | ok false ↦
            references db profile message rest
              (put (record { emoji = o.emoji; event = o.event }) active)
      ]
    ]
  ]
]

pub record Group : Type 0 where
  pub emoji : String
  pub events : List String

unfoldable pub add_to_group : Reference → List Group → List Group
add_to_group r [] = record { emoji = r.emoji; events = r.event ∷ [] } ∷ []
add_to_group r (g ∷ groups) =
    let rest = add_to_group r groups in
    if str_eq g.emoji r.emoji
    then record g { events = g.events ++ r.event ∷ [] } ∷ groups
    else g ∷ rest

unfoldable pub by_emoji : List Reference → List Group → List Group
unfolding add_to_group
by_emoji [] groups = groups
by_emoji (r ∷ active) groups = by_emoji active (add_to_group r groups)

unfoldable pub active_references : Database → String → String → String → Result (List Group)
unfolding references by_emoji
active_references db profile chat message = do
  active ←
      references db profile message
        (map (λ o. o.body)
          (select (λ o. str_eq o.profile profile && str_eq o.chat chat) db.reactions))
        []
  ok (by_emoji active [])
