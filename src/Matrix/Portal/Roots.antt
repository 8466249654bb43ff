-- ===== src/Matrix/Portal/Roots.antt =====
-- The Matrix root of a message, its room and its sender never change
-- (src/matrix/portal-store.ts).
use threema_beeper.Prelude.{
  String, Bool, true, false, List, [], ◌∷◌, ◌++◌, some, exists, select_one, select_one-update_row,
  select_one-append_some, update, update_row, ◌≡◌, refl, ap, ◌∙◌, ◌⊎◌, inl, inr, Option-cases,
  Bool-cases, arith,
}
use threema_beeper.Matrix.Portal.Tables.{
  MessageKey, key_eq, MessageMapping, MessageProjection, Store, Result, ok, err,
}
use threema_beeper.Matrix.Portal.Rooms
use threema_beeper.Matrix.Portal.Messages
use threema_beeper.Matrix.Portal.Messages.{message_mapping, is_mapping_of, upsert_mapping}
use threema_beeper.Matrix.Portal.Frames.{mappings-call}
use threema_beeper.Matrix.Portal.History.{
  Call, call, after, run, bind_owner_echo, finish_projection,
}

-- The message is still mapped, to the same root, room and sender.
pub record IsKept (m : MessageMapping) (k : MessageKey) (s : Store) : Type 0 where
  pub now : MessageMapping
  pub found : message_mapping s k ≡ some now
  pub root : now.root ≡ m.root
  pub room : now.room ≡ m.room
  pub sender : now.sender ≡ m.sender

kept :
    (s t : Store) (k : MessageKey) (m : MessageMapping)
    → IsKept m k s
    → t.mappings ≡ s.mappings
    → IsKept m k t
unfolding message_mapping
kept s t k m h same = record {
  now = h.now;
  found = ap (λ rows. select_one (is_mapping_of k) rows) same ∙ h.found;
  root = h.root;
  room = h.room;
  sender = h.sender;
}

appended :
    (s t : Store) (k : MessageKey) (m value : MessageMapping)
    → IsKept m k s
    → t.mappings ≡ s.mappings ++ value ∷ []
    → IsKept m k t
unfolding message_mapping
appended s t k m value h grown = record {
  now = h.now;
  found =
      ap (λ rows. select_one (is_mapping_of k) rows) grown
      ∙ select_one-append_some (is_mapping_of k) s.mappings (value ∷ []) h.found;
  root = h.root;
  room = h.room;
  sender = h.sender;
}

updated :
    (s t : Store) (k : MessageKey) (m : MessageMapping) (q : MessageMapping → Bool)
    (event digest : String)
    → IsKept m k s
    → t.mappings ≡ update q (λ m. record m { latest = event; digest = digest }) s.mappings
    → IsKept m k t
unfolding message_mapping
updated s t k m q event digest h changed =
    let f : MessageMapping → MessageMapping = λ m. record m { latest = event; digest = digest } in
    record {
      now = update_row q f h.now;
      found =
          ap (λ rows. select_one (is_mapping_of k) rows) changed
          ∙ select_one-update_row (is_mapping_of k) q f s.mappings (λ y. refl) h.found;
      root = ground (arith, h.root);
      room = ground (arith, h.room);
      sender = ground (arith, h.sender);
    }

-- What a call does to the mappings: nothing, one more row, or another latest event.
Change : Store → Store → Type 0
Change s t =
    (t.mappings ≡ s.mappings)
    ⊎ ((value : MessageMapping) × (t.mappings ≡ s.mappings ++ value ∷ []))
    ⊎ ((q : MessageMapping → Bool) × (event : String) × (digest : String) × (t.mappings
          ≡ update q (λ m. record m { latest = event; digest = digest }) s.mappings))

echo-Change : (s : Store) (v : MessageMapping) → Change s (after s (Messages.bind_owner_echo s v))
unfolding Change Messages.bind_owner_echo
echo-Change s v = elim (Bool-cases (Rooms.is_text (Rooms.get s v.key.profile v.key.chat) v.room)) [
  | inr wrong ↦ rw wrong (inl refl)
  | inl here ↦ elim (Option-cases (message_mapping s v.key)) [
    | inr (old, e) ↦ inl (ground (arith, e, here))
    | inl fresh ↦ elim (Bool-cases (exists (λ p. key_eq p.key v.key) s.projections)) [
      | inl pending ↦ inl (ground (arith, fresh, here, pending))
      | inr clear ↦ inr (inl (v, ground (arith, fresh, here, clear)))
    ]
  ]
]

-- A projection that finishes was stored and delivered, and agrees with the mapping.
pub finish_projection_lem :
    (s t : Store) (id event : String)
    → Messages.finish_projection s id event ≡ ok t
    → (plan : MessageProjection) × (Messages.projection s id ≡ some plan)
      × (Messages.is_delivered s id event ≡ true)
      × (Messages.contradicts plan (message_mapping s plan.key) ≡ false)
      × (t ≡ Messages.deliver s id event plan)
unfolding Messages.finish_projection
finish_projection_lem s t id event h = elim (Option-cases (Messages.projection s id)) [
  | inl missing ↦ absurd (ground (arith, missing))
  | inr (plan, e) ↦ (plan, e, ground (arith, e), ground (arith, e), ground (arith, e))
]

Result-cases : (r : Result Store) → ((t : Store) × (r ≡ ok t)) ⊎ ((s : Store) → after s r ≡ s)
Result-cases (ok t) = inl (t, refl)
Result-cases (err e) = inr (λ s. refl)

deliver-Change :
    (s : Store) (id event : String) (plan : MessageProjection)
    → Change s (Messages.deliver s id event plan)
unfolding Change Messages.deliver upsert_mapping
deliver-Change s id event plan = elim (Option-cases (message_mapping s plan.key)) [
  | inl fresh ↦ inr (
      inl (
        record {
          key = plan.key;
          room = plan.room;
          sender = plan.sender;
          root = Messages.root_of plan event;
          latest = event;
          digest = plan.digest;
        },
        rw fresh refl,
      ))
  | inr (old, e) ↦ inr (inr (is_mapping_of plan.key, event, plan.digest, rw e refl))
]

finish-Change :
    (s : Store) (id event : String) → Change s (after s (Messages.finish_projection s id event))
unfolding Change
finish-Change s id event = elim (Result-cases (Messages.finish_projection s id event)) [
  | inr same ↦ inl (ap (λ (t : Store). t.mappings) (same s))
  | inl (t, e) ↦
      let (plan, found, sent, agrees, is) = finish_projection_lem s t id event e in
      rw e (rw is (deliver-Change s id event plan))
]

call-Change : (c : Call) (s : Store) → Change s (after s (call c s))
unfolding call Change
call-Change (bind_owner_echo v) s = echo-Change s v
call-Change (finish_projection id event) s = finish-Change s id event
call-Change c s = inl (mappings-call c s refl)

Change-IsKept :
    (s t : Store) (k : MessageKey) (m : MessageMapping) → Change s t → IsKept m k s → IsKept m k t
unfolding Change
Change-IsKept s t k m (inl same) h = kept s t k m h same
Change-IsKept s t k m (inr (inl (v, grown))) h = appended s t k m v h grown
Change-IsKept s t k m (inr (inr (q, event, digest, changed))) h =
    updated s t k m q event digest h changed

run-IsKept :
    (calls : List Call) (s : Store) (k : MessageKey) (m : MessageMapping)
    → IsKept m k s
    → IsKept m k (run calls s)
unfolding run
run-IsKept [] s k m h = h
run-IsKept (c ∷ calls) s k m h =
    run-IsKept calls (after s (call c s)) k m
      (Change-IsKept s (after s (call c s)) k m (call-Change c s) h)

-- A mapped message stays mapped, to the root event, the room and the sender that it has, whatever
-- calls follow and whether or not they throw.
pub mapping_is_permanent :
    (calls : List Call) (s : Store) (k : MessageKey) (m : MessageMapping)
    → message_mapping s k ≡ some m
    → (now : MessageMapping) × (message_mapping (run calls s) k ≡ some now)
      × (now.root ≡ m.root)
      × (now.room ≡ m.room)
      × (now.sender ≡ m.sender)
mapping_is_permanent calls s k m h =
    let last : IsKept m k (run calls s) =
      run-IsKept calls s k m
        (record { now = m; found = h; root = refl; room = refl; sender = refl }) in
    (last.now, last.found, last.root, last.room, last.sender)
