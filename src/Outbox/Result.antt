-- ===== src/Outbox/Result.antt =====
-- Outcomes of a journal operation: a value, or the error that the source throws. Each transaction
-- of the source rolls back when it throws, so `err` leaves the database as it was.
use threema_beeper.Prelude.{◌≡◌, refl, Bool, true, false}

-- One constructor for each `throw new Error(...)` of the outbox journals.
pub data Error : Type 0 where
  invalid_request invalid_event_identity invalid_ids invalid_time invalid_retry_deadline : Error
  invalid_rejection invalid_echo invalid_page : Error
  mutation_event media_event reaction_event rejected_event accepted_event : Error
  rejection_conflict request_conflict allocation_state_conflict allocation_conflict : Error
  media_id_conflict send_result_conflict echo_conflict : Error
  invalid_operation invalid_targets invalid_command already_classified plan_conflict
        incomplete_journal :
      Error
  exclusion_limit invalid_completion not_dispatching not_pending_failure : Error
  reaction_conflict invalid_cursor incomplete_history unknown_failure invalid_observation : Error
  not_settled pending_chat unknown_retirement nested_transaction : Error
  -- A UNIQUE or PRIMARY KEY constraint that SQLite enforces.
  constraint : Error

pub data Result {ℓ} (T : Type ℓ) : Type ℓ where
  err : Error → Result T
  ok : T → Result T

-- `if (!test) throw e`.
abbrev pub require : Bool → Error → Result (Unit {0})
require true e = ok tt
require false e = err e

-- `if (test) throw e`.
abbrev pub refuse : Bool → Error → Result (Unit {0})
refuse true e = err e
refuse false e = ok tt

-- A statement after one that may throw.
infixl 5 ◌>>=◌
abbrev pub ◌>>=◌ {ℓ κ} : {S : Type ℓ} {T : Type κ} → Result S → (S → Result T) → Result T
◌>>=◌ (err thrown) rest = err thrown
◌>>=◌ (ok value) rest = rest value

infixl 5 ◌>>◌
abbrev pub ◌>>◌ {ℓ} : {T : Type ℓ} → Result (Unit {0}) → Result T → Result T
◌>>◌ check rest = ◌>>=◌ check (λ done. rest)

-- What a sequence that does not throw says of its first statement and of the rest.
pub >>=-eq-ok {ℓ κ} :
    {S : Type ℓ} {T : Type κ} (first : Result S) (rest : S → Result T) {t : T}
    → (first >>= rest) ≡ ok t
    → (s : S) × (first ≡ ok s) × (rest s ≡ ok t)
>>=-eq-ok (err thrown) rest done = cc
>>=-eq-ok (ok value) rest done = (value, refl, done)

pub require-eq-ok {ℓ} :
    {B : Type ℓ} (t : Bool) (e : Error) (k : Result B) {b : B}
    → (require t e >> k) ≡ ok b
    → (t ≡ true) × (k ≡ ok b)
require-eq-ok true e k h = (refl, h)
require-eq-ok false e k h = cc

pub refuse-eq-ok {ℓ} :
    {B : Type ℓ} (t : Bool) (e : Error) (k : Result B) {b : B}
    → (refuse t e >> k) ≡ ok b
    → (t ≡ false) × (k ≡ ok b)
refuse-eq-ok false e k h = (refl, h)
refuse-eq-ok true e k h = cc
