-- ===== src/Outbox/Mutations/Echoes.antt =====
-- What `matchesEditEcho` of MutationJournal decides (src/outbox/mutation-journal.ts).
use threema_beeper.Prelude.{
  exists, select_one-exists, eq_iff, ap, ◌∙◌, ◌⊎◌, All, String, true, false, ◌&&◌, List, [], ◌∷◌,
  ◌++◌, Option, none, some, str_eq, select_one, select_one-Mem, ◌≡◌, refl, arith, Memᴰ,
  Option-cases, inl, inr, subst,
}
use threema_beeper.Outbox.Result.{
  ok, require-eq-ok, invalid_operation, invalid_command, invalid_targets, >>=-eq-ok,
}
use threema_beeper.Outbox.Tables.{
  Database, MutationOperation, MutationRequest, Action, MutationState, MutationPart, MutationRow,
}
use threema_beeper.Outbox.Mutations.Plan.{serialize, has_shape, all_commands, has_targets}
use threema_beeper.Outbox.Mutations.Recovery.{
  is_attempted, EditEcho, concerns, latest, matches_edit_echo, is_edit_to, command_at,
  is_for_message,
}

-- What an echo finds: the row and the part, with the rows of the table before and after that row.
pub record Found (db : Database) (e : EditEcho) (o : MutationRow) (p : MutationPart) : Type 0 where
  pub earlier : List MutationRow
  pub later : List MutationRow
  pub table : db.mutations ≡ earlier ++ o ∷ later
  pub part : Memᴰ p o.parts
  pub profile : o.profile ≡ e.profile
  pub chat : o.chat ≡ e.chat
  pub target : o.body.target ≡ e.target
  pub owner : o.body.owner ≡ e.owner
  pub room : o.body.room ≡ e.room
  pub attempted :
      (p.state ≡ MutationState.dispatching)
      ⊎ (p.state ≡ MutationState.outcome_unknown)
      ⊎ (p.state ≡ MutationState.applied)
  -- No later row of the same profile, chat, target, owner and room has a part for the message of
  -- the echo that was attempted.
  pub latest :
      All
        (λ r.
          (str_eq r.profile e.profile
            && str_eq r.chat e.chat
            && str_eq r.body.target e.target
            && str_eq r.body.owner e.owner
            && str_eq r.body.room e.room
            && exists
                (λ q.
                  is_attempted q.state
                  && is_for_message e.message (command_at q.part r.body.commands))
                r.parts)
          ≡ false)
        later

none_concerned :
    (e : EditEcho) (o : MutationRow) (ps : List MutationPart)
    → exists (concerns e o) ps ≡ false
    → (str_eq o.profile e.profile
        && str_eq o.chat e.chat
        && str_eq o.body.target e.target
        && str_eq o.body.owner e.owner
        && str_eq o.body.room e.room
        && exists
            (λ q.
              is_attempted q.state && is_for_message e.message (command_at q.part o.body.commands))
            ps)
      ≡ false
unfolding concerns
none_concerned e o [] h = ground arith
none_concerned e o (p ∷ ps) h = ground (arith, none_concerned e o ps (ground (arith, h)), h)

abbrev None : EditEcho → List MutationRow → Type 0
None e rows =
    All
      (λ r.
        (str_eq r.profile e.profile
          && str_eq r.chat e.chat
          && str_eq r.body.target e.target
          && str_eq r.body.owner e.owner
          && str_eq r.body.room e.room
          && exists
              (λ q.
                is_attempted q.state
                && is_for_message e.message (command_at q.part r.body.commands))
              r.parts)
        ≡ false)
      rows

latest-none : (e : EditEcho) (rows : List MutationRow) → latest e rows ≡ none → None e rows
unfolding latest
latest-none e [] h = tt
latest-none e (o ∷ rows) h = elim (Option-cases (latest e rows)) [
  | inr (later, l) ↦ absurd (ground (arith, h, l))
  | inl never ↦ elim (Option-cases (select_one (concerns e o) o.parts)) [
    | inr (p, hit) ↦ absurd (ground (arith, h, never, hit))
    | inl missing ↦ (
      none_concerned e o o.parts (select_one-exists (concerns e o) o.parts missing),
      latest-none e rows never,
    )
  ]
]

latest_lem :
    (e : EditEcho) (rows : List MutationRow) (o : MutationRow) (p : MutationPart)
    → latest e rows ≡ some (o, p)
    → (earlier : List MutationRow) × (later : List MutationRow) × (rows ≡ earlier ++ o ∷ later)
      × Memᴰ p o.parts
      × (concerns e o p ≡ true)
      × None e later
unfolding latest
latest_lem e [] o p h = cc
latest_lem e (r ∷ rows) o p h = elim (Option-cases (latest e rows)) [
  | inr (last, l) ↦
      let same : last ≡ (o, p) = ground (arith, h, l) in
      let (earlier, later, table, m, c, rest) = latest_lem e rows o p (l ∙ ap some same) in
      (r ∷ earlier, later, ap (λ xs. r ∷ xs) table, m, c, rest)
  | inl never ↦ elim (Option-cases (select_one (concerns e r) r.parts)) [
    | inl missing ↦ absurd (ground (arith, h, never, missing))
    | inr (q, hit) ↦
        let same : (r, q) ≡ (o, p) = ground (arith, h, never, hit) in
        let (m, c) = select_one-Mem (concerns e r) r.parts hit in
        subst
          (λ (f : MutationRow × MutationPart).
            (earlier : List MutationRow) × (later : List MutationRow) × (r ∷ rows
              ≡ earlier ++ f.0 ∷ later)
            × Memᴰ f.1 f.0.parts
            × (concerns e f.0 f.1 ≡ true)
            × None e later)
          same ([], rows, refl, m, c, latest-none e rows never)
  ]
]

attempted_states :
    (s : MutationState)
    → is_attempted s ≡ true
    → (s ≡ MutationState.dispatching)
      ⊎ (s ≡ MutationState.outcome_unknown)
      ⊎ (s ≡ MutationState.applied)
attempted_states MutationState.dispatching h = inl refl
attempted_states MutationState.outcome_unknown h = inr (inl refl)
attempted_states MutationState.applied h = inr (inr refl)
attempted_states MutationState.prepared h = absurd (ground (arith, h))
attempted_states MutationState.rejected h = absurd (ground (arith, h))
attempted_states MutationState.cancelled h = absurd (ground (arith, h))

-- The command of the part is an edit of the message to the text.
edit_command :
    (message text : String) (c : Option MutationRequest)
    → is_for_message message c ≡ true
    → is_edit_to text c ≡ true
    → (m : MutationRequest) × (c ≡ some m)
      × (m.message_id ≡ message)
      × (m.action ≡ Action.edit text)
unfolding is_for_message is_edit_to
edit_command message text none h k = absurd (ground (arith, h))
edit_command message text (some c) h k =
    (c, refl, (eq_iff c.message_id message).0 h, edit_action c.action k)
  where
    edit_action :
        (a : Action)
        → elim a [ Action.edit t ↦ str_eq t text | Action.delete ↦ false ] ≡ true
        → a ≡ Action.edit text
    edit_action (Action.edit t) k = ap Action.edit ((eq_iff t text).0 k)
    edit_action Action.delete k = absurd (ground (arith, k))

serialize_same : (o operation : MutationOperation) → serialize o ≡ ok operation → operation ≡ o
unfolding serialize
serialize_same o operation h =
    let (shape, h1) = require-eq-ok (has_shape o) invalid_operation _ h in
    let (commands, h2) = require-eq-ok (all_commands o.commands) invalid_command _ h1 in
    let (targets, h3) = require-eq-ok (has_targets o) invalid_targets _ h2 in ground (arith, h3)

-- An echo that matches is of the last row for its profile, chat, target, owner and room in which a
-- part for its message was attempted, that is, is DISPATCHING, OUTCOME_UNKNOWN or APPLIED; and the
-- command of that part is an edit of that message to the text of the echo.
pub matches_edit_echo_sound :
    (db : Database) (e : EditEcho) (text : String)
    → matches_edit_echo db e text ≡ ok true
    → (o : MutationRow) × (p : MutationPart) × (c : MutationRequest) × Found db e o p
      × (command_at p.part o.body.commands ≡ some c)
      × (c.message_id ≡ e.message)
      × (c.action ≡ Action.edit text)
unfolding matches_edit_echo
matches_edit_echo_sound db e text h = elim (Option-cases (latest e db.mutations)) [
  | inl never ↦ absurd (ground (arith, h, never))
  | inr ((o, p), l) ↦
      let (earlier, later, table, m, c, rest) = latest_lem e db.mutations o p l in
      let (operation, s, t) =
        >>=-eq-ok (serialize o.body)
          (λ operation. ok (is_edit_to text (command_at p.part operation.commands))) {t = true}
          (ground (arith, h, l)) in
      let same = serialize_same o.body operation s in
      let edit : is_edit_to text (command_at p.part o.body.commands) ≡ true =
        subst (λ x. is_edit_to text (command_at p.part x.commands) ≡ true) same
          (ground (arith, t)) in
      let (command, is, message, action) =
        edit_command e.message text (command_at p.part o.body.commands)
          (unfold concerns in ground (arith, c)) edit in
      (
        o,
        p,
        command,
        record {
          earlier = earlier;
          later = later;
          table = table;
          part = m;
          profile = (eq_iff o.profile e.profile).0 (unfold concerns in ground (arith, c));
          chat = (eq_iff o.chat e.chat).0 (unfold concerns in ground (arith, c));
          target = (eq_iff o.body.target e.target).0 (unfold concerns in ground (arith, c));
          owner = (eq_iff o.body.owner e.owner).0 (unfold concerns in ground (arith, c));
          room = (eq_iff o.body.room e.room).0 (unfold concerns in ground (arith, c));
          attempted = attempted_states p.state (unfold concerns in ground (arith, c));
          latest = rest;
        },
        is,
        message,
        action,
      )
]
