-- ===== src/Matrix/Portal/Retries.antt =====
-- An encrypted operation keeps its ciphertext until it is completed, and its event from then on
-- (src/matrix/portal-store.ts).
use threema_beeper.Prelude.{
  String, true, List, [], ◌∷◌, some, str_eq, eq_iff, eq_refl, select_one, select_one-Mem,
  select_one-update_row, select_one-append, select_one-append_some, ◌≡◌, refl, ap, sym, subst, ◌∙◌,
  ◌⊎◌, inl, inr, Option-cases, Bool-cases, arith,
}
use threema_beeper.Matrix.Portal.Tables.{Store, Error, Result, ok, err, EncryptedOperation}
use threema_beeper.Matrix.Portal.Messages.{operation}
use threema_beeper.Matrix.Portal.Uploads
use threema_beeper.Matrix.Portal.Uploads.{Plan, planned, allows}
use threema_beeper.Matrix.Portal.Frames.{operations-call}
use threema_beeper.Matrix.Portal.History.{
  stored, Call, call, after, run, complete_operation, prepare_operation,
}

-- The operation is as it was, or is completed with an event that the earlier state allows.
pub record Follows (o now : EncryptedOperation) : Type 0 where
  pub sender : now.sender ≡ o.sender
  pub room : now.room ≡ o.room
  pub digest : now.digest ≡ o.digest
  pub progress : (now ≡ o) ⊎ ((e : String) × (now.event ≡ some e) × (allows o.event e ≡ true))

Follows-refl : (o : EncryptedOperation) → Follows o o
Follows-refl o = record { sender = refl; room = refl; digest = refl; progress = inl refl }

Follows-trans : (a b c : EncryptedOperation) → Follows a b → Follows b c → Follows a c
Follows-trans a b c h k = record {
  sender = k.sender ∙ h.sender;
  room = k.room ∙ h.room;
  digest = k.digest ∙ h.digest;
  progress = both h.progress k.progress;
}
  where
    both :
        (b ≡ a) ⊎ ((e : String) × (b.event ≡ some e) × (allows a.event e ≡ true))
        → (c ≡ b) ⊎ ((e : String) × (c.event ≡ some e) × (allows b.event e ≡ true))
        → (c ≡ a) ⊎ ((e : String) × (c.event ≡ some e) × (allows a.event e ≡ true))
    both (inl p) (inl q) = inl (q ∙ p)
    both (inl p) (inr (e, q, r)) = inr (e, q, ground (arith, p, r))
    both (inr (e, p, a)) (inl q) = inr (e, ground (arith, p, q), a)
    both (inr (e, p, a)) (inr (f, q, r)) = inr (f, q, ground (arith, p, a, r, eq_iff e f))

abbrev Kept : Store → String → EncryptedOperation → Type 0
Kept t id o = (now : EncryptedOperation) × (operation t id ≡ some now) × Follows o now

prepare-Kept :
    (s : Store) (id : String) (o : EncryptedOperation) (p : Plan) (t : Store)
    (stored : EncryptedOperation)
    → operation s id ≡ some o
    → Uploads.prepare_operation s p ≡ ok (t, stored)
    → operation t id ≡ some o
unfolding operation Uploads.prepare_operation
prepare-Kept s id o p t stored found h = elim (Option-cases (operation s p.id)) [
  | inl fresh ↦
      let kept =
        select_one-append_some (λ (v : EncryptedOperation). str_eq v.id id) s.operations
          (planned p ∷ []) found in
      ground (arith, fresh, kept, h)
  | inr (old, e) ↦ ground (arith, found, e, h)
]

finish : String → EncryptedOperation → EncryptedOperation
finish event o = record o { event = some event; ciphertext = "" }

complete-Kept :
    (s : Store) (id : String) (o : EncryptedOperation) (i event : String)
    → operation s id ≡ some o
    → Kept (after s (Uploads.complete_operation s i event)) id o
unfolding operation Uploads.complete_operation finish
complete-Kept s id o i event found =
    let same =
      select_one-update_row (λ (v : EncryptedOperation). str_eq v.id id)
        (λ (v : EncryptedOperation). str_eq v.id i) (finish event) s.operations {x = o} (λ v. refl)
        found in
    let is_it =
      (select_one-Mem (λ (v : EncryptedOperation). str_eq v.id id) s.operations found).1 in
    elim (Bool-cases (str_eq o.id i)) [
      | inr miss ↦ (o, ground (arith, same, found, miss), Follows-refl o)
      | inl hit ↦
          let e : id ≡ i = sym ((eq_iff o.id id).0 is_it) ∙ (eq_iff o.id i).0 hit in
          let found' : operation s i ≡ some o = subst (λ j. operation s j ≡ some o) e found in
          elim (Bool-cases (allows o.event event)) [
            | inr refused ↦ (o, ground (arith, found, found', refused), Follows-refl o)
            | inl allowed ↦ (
              finish event o,
              ground (arith, same, found', hit, allowed),
              record {
                sender = refl;
                room = refl;
                digest = refl;
                progress = inr (event, refl, allowed);
              },
            )
          ]
    ]

Result-cases {ℓ} :
    {T : Type ℓ} (r : Result T) → ((t : T) × (r ≡ ok t)) ⊎ ((e : Error) × (r ≡ err e))
Result-cases (ok t) = inl (t, refl)
Result-cases (err e) = inr (e, refl)

stored-Kept :
    (s : Store) (id : String) (o : EncryptedOperation) (p : Plan)
    → operation s id ≡ some o
    → Kept (after s (stored (Uploads.prepare_operation s p))) id o
unfolding operation
stored-Kept s id o p found = elim (Result-cases (Uploads.prepare_operation s p)) [
  | inl ((t, x), e) ↦ (o, ground (arith, e, prepare-Kept s id o p t x found e), Follows-refl o)
  | inr (thrown, e) ↦ (o, ground (arith, e, found), Follows-refl o)
]

call-Kept :
    (c : Call) (s : Store) (id : String) (o : EncryptedOperation)
    → operation s id ≡ some o
    → Kept (after s (call c s)) id o
unfolding operation call
call-Kept (complete_operation i event) s id o found = complete-Kept s id o i event found
call-Kept (prepare_operation plan) s id o found = stored-Kept s id o plan found
call-Kept c s id o found = (
  o,
  ap (λ rows. select_one (λ (v : EncryptedOperation). str_eq v.id id) rows)
        (operations-call c s refl)
      ∙ found,
  Follows-refl o,
)

run-Kept :
    (calls : List Call) (s : Store) (id : String) (o : EncryptedOperation)
    → operation s id ≡ some o
    → Kept (run calls s) id o
unfolding run
run-Kept [] s id o found = (o, found, Follows-refl o)
run-Kept (c ∷ calls) s id o found =
    let (now, here, step) = call-Kept c s id o found in
    let (last, there, rest) = run-Kept calls (after s (call c s)) id now here in
    (last, there, Follows-trans o now last step rest)

prepare_operation_stores :
    (s t : Store) (p : Plan) (given : EncryptedOperation)
    → Uploads.prepare_operation s p ≡ ok (t, given)
    → operation t p.id ≡ some given
unfolding Uploads.prepare_operation operation
prepare_operation_stores s t p given h = elim (Option-cases (operation s p.id)) [
  | inl fresh ↦
      let found =
        select_one-append (λ (v : EncryptedOperation). str_eq v.id p.id) s.operations (planned p)
          fresh (eq_refl p.id) in
      ground (arith, fresh, found, h)
  | inr (old, e) ↦ ground (arith, e, h)
]

-- However many calls lie between two preparations of an operation, and whatever the second one
-- offers, it is given the operation of the first, with its sender, its room and its digest: as it
-- was, or completed with an event that the first state allows.
pub retry_resends :
    (calls : List Call) (s t u : Store) (first second : Plan) (given again : EncryptedOperation)
    → first.id ≡ second.id
    → Uploads.prepare_operation s first ≡ ok (t, given)
    → Uploads.prepare_operation (run calls t) second ≡ ok (u, again)
    → Follows given again
retry_resends calls s t u first second given again same h k =
    let (now, found, kept) =
      run-Kept calls t first.id given (prepare_operation_stores s t first given h) in
    let here = prepare-Kept (run calls t) first.id now second u again found k in
    let there = prepare_operation_stores (run calls t) u second again k in
    let e : again ≡ now = ground (arith, here, there, same) in
    subst (λ o. Follows given o) (sym e) kept
