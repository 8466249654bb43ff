-- ===== src/Matrix/Portal/Messages.antt =====
-- Message mappings, projections and read targets of PortalStore (src/matrix/portal-store.ts).
use threema_beeper.Prelude.{
  String, Bool, true, false, not, ◌&&◌, ◌||◌, List, [], ◌∷◌, ◌++◌, Option, none, some, str_eq,
  exists, select, select_one, update, insert_or_ignore, if◌then◌else◌,
}
use threema_beeper.Matrix.Portal.Tables.{
  MessageKey, key_eq, EncryptedOperation, MessageMapping, MessageProjection, VersionRow,
  ReadTargetRow, Store, Result, ok, err, target_unmapped, target_conflict, echo_portal_conflict,
  echo_mapping_conflict, echo_pending, unfinished_projection, projection_conflict, not_delivered,
  message_conflict, constraint, unless, throw_if,
}
use threema_beeper.Matrix.Portal.Rooms.{get, is_text}

abbrev pub is_some {ℓ} : {A : Type ℓ} → Option A → Bool
is_some none = false
is_some (some _) = true

abbrev pub is_version : String → String → String → VersionRow → Bool
is_version profile chat event v =
    str_eq v.key.profile profile && str_eq v.key.chat chat && str_eq v.event event

unfoldable pub message_for_event : Store → String → String → String → Option String
message_for_event s profile chat event =
    elim (select_one (is_version profile chat event) s.versions) [
      | none ↦ none
      | some v ↦ some v.key.message
    ]

abbrev pub is_mapping_of : MessageKey → MessageMapping → Bool
is_mapping_of k m = key_eq m.key k

unfoldable pub message_mapping : Store → MessageKey → Option MessageMapping
message_mapping s k = select_one (is_mapping_of k) s.mappings

abbrev pub is_target : String → String → String → ReadTargetRow → Bool
is_target profile chat event t =
    str_eq t.profile profile && str_eq t.chat chat && str_eq t.event event

unfoldable pub read_target : Store → String → String → String → Option String
read_target s profile chat event = elim (select_one (is_target profile chat event) s.read_targets) [
  | none ↦ none
  | some t ↦ some t.message
]

unfoldable pub bind_read_target : Store → MessageKey → String → Result Store
unfolding message_mapping read_target
bind_read_target s k event =
    let s' = record s {
      read_targets =
          insert_or_ignore (is_target k.profile k.chat event)
            (record { profile = k.profile; chat = k.chat; event = event; message = k.message })
            s.read_targets;
    } in
    unless (is_some (message_mapping s k)) target_unmapped
      (unless (is_text (read_target s' k.profile k.chat event) k.message) target_conflict (ok s'))

-- INSERT OR IGNORE of an event of a message.
unfoldable pub add_version : MessageKey → String → List VersionRow → List VersionRow
add_version k event rows =
    insert_or_ignore (λ v. key_eq v.key k && str_eq v.event event)
      (record { key = k; event = event; redacted = false }) rows

-- The inserts of an echo that is new.
unfoldable pub insert_echo : Store → MessageMapping → Store
unfolding add_version
insert_echo s value = record s {
  mappings = s.mappings ++ value ∷ [];
  histories =
      insert_or_ignore (λ h. key_eq h.key value.key) (record { key = value.key; complete = true })
        s.histories;
  versions = add_version value.key value.root s.versions;
}

unfoldable pub bind_owner_echo : Store → MessageMapping → Result Store
unfolding message_mapping insert_echo get
bind_owner_echo s value =
    unless (is_text (get s value.key.profile value.key.chat) value.room) echo_portal_conflict
      (elim (message_mapping s value.key) [
        | some old ↦
            unless
              (str_eq old.root value.root
                && str_eq old.room value.room
                && str_eq old.sender value.sender)
              echo_mapping_conflict (ok s)
        | none ↦
            throw_if (exists (λ p. key_eq p.key value.key) s.projections) echo_pending
              (ok (insert_echo s value))
      ])

unfoldable pub projection : Store → String → Option MessageProjection
projection s id = select_one (λ p. str_eq p.id id) s.projections

-- INSERT OR IGNORE: the ID is the primary key, and the message has a unique index.
unfoldable pub prepare_projection : Store → MessageProjection → Result (Store × MessageProjection)
unfolding projection
prepare_projection s value =
    let s' = record s {
      projections =
          insert_or_ignore (λ p. str_eq p.id value.id || key_eq p.key value.key) value
            s.projections;
    } in
    elim (projection s' value.id) [
      | none ↦ err unfinished_projection
      | some stored ↦
          unless (str_eq stored.fingerprint value.fingerprint) projection_conflict (ok (s', stored))
    ]

unfoldable pub operation : Store → String → Option EncryptedOperation
operation s id = select_one (λ o. str_eq o.id id) s.operations

-- `operation(id)?.event === event`.
unfoldable pub is_delivered : Store → String → String → Bool
unfolding operation
is_delivered s id event = elim (operation s id) [ none ↦ false | some o ↦ is_text o.event event ]

-- `plan.root ?? event`.
abbrev pub root_of : MessageProjection → String → String
root_of p event = elim p.root [ none ↦ event | some root ↦ root ]

-- INSERT ... ON CONFLICT DO UPDATE SET latest, digest.
unfoldable pub upsert_mapping :
    MessageProjection → String → Option MessageMapping → List MessageMapping → List MessageMapping
upsert_mapping plan event (some _) rows =
    update (is_mapping_of plan.key) (λ m. record m { latest = event; digest = plan.digest }) rows
upsert_mapping plan event none rows =
    rows
    ++ record {
      key = plan.key;
      room = plan.room;
      sender = plan.sender;
      root = root_of plan event;
      latest = event;
      digest = plan.digest;
    }
      ∷ []

-- A plan may not move a mapped message to another root, room or sender. A plan without a root
-- differs from every stored root.
unfoldable pub contradicts : MessageProjection → Option MessageMapping → Bool
contradicts plan none = false
contradicts plan (some old) =
    not (is_text plan.root old.root)
    || not (str_eq old.room plan.room)
    || not (str_eq old.sender plan.sender)

-- The writes of `finishProjection`.
unfoldable pub deliver : Store → String → String → MessageProjection → Store
unfolding upsert_mapping add_version message_mapping
deliver s id event plan =
    let old = message_mapping s plan.key in
    record s {
      mappings = upsert_mapping plan event old s.mappings;
      histories =
          if is_some old
          then s.histories
          else s.histories ++ record { key = plan.key; complete = true } ∷ [];
      versions = add_version plan.key event s.versions;
      projections = select (λ p. not (str_eq p.id id)) s.projections;
    }

unfoldable pub finish_projection : Store → String → String → Result Store
unfolding projection is_delivered contradicts deliver message_mapping
finish_projection s id event = elim (projection s id) [
  | none ↦ err not_delivered
  | some plan ↦ unless (is_delivered s id event) not_delivered (
      throw_if (contradicts plan (message_mapping s plan.key)) message_conflict (
        throw_if
          (not (is_some (message_mapping s plan.key))
            && exists (λ h. key_eq h.key plan.key) s.histories)
          constraint (ok (deliver s id event plan))))
]
