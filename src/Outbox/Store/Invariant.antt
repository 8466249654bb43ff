-- ===== src/Outbox/Store/Invariant.antt =====
-- The invariant of the text journal (src/outbox/store.ts): what holds of its tables between two
-- operations.
use threema_beeper.Prelude.{
  ℕ, ◌≡◌, refl, ◌<◌, ◌⊎◌, inl, inr, Bool, true, false, not, ◌&&◌, List, [], ◌∷◌, Memᴰ, some, arith,
  str_eq, str_eq_comm, eq_refl, exists, select_one, All, All-of, Pairs, Pairs-trichotomy,
}
use threema_beeper.Outbox.Result.{ok}
use threema_beeper.Outbox.Request.{validate, are_ids}
use threema_beeper.Outbox.Tables.{Database, OutboxState, prepared, dispatching, RequestRow, PartRow}
use threema_beeper.Outbox.Store.Query.{is_prepared, is_acked, has_id, ids_of}
use threema_beeper.Outbox.Store.Parts.{is_pending}

-- The dispatch of a row in this state is over.
abbrev pub is_past : OutboxState → Bool
is_past prepared = false
is_past dispatching = false
is_past _ = true

abbrev pub same_chat : RequestRow → RequestRow → Bool
same_chat x y = str_eq x.profile y.profile && str_eq x.chat y.chat

-- What holds of a row and one that was inserted later.
pub record Before (x y : RequestRow) : Type 0 where
  pub ordered : x.sequence < y.sequence
  pub other_id : str_eq x.id y.id ≡ false
  pub other_event : (str_eq x.profile y.profile && str_eq x.event y.event) ≡ false
  -- A row is dispatched only after the dispatch of the earlier rows of its chat is over.
  pub fifo : same_chat x y ≡ true → is_prepared y.state ≡ false → is_past x.state ≡ true

-- The columns agree with a valid body.
pub record IsRow (next : ℕ) (r : RequestRow) : Type 0 where
  pub below : r.sequence < next
  pub id_body : r.id ≡ r.body.request_id
  pub profile_body : r.profile ≡ r.body.profile
  pub event_body : r.event ≡ r.body.event_id
  pub chat_body : r.chat ≡ r.body.chat_id
  pub valid : validate r.body ≡ ok tt

abbrev pub owns : PartRow → RequestRow → Bool
owns p r = str_eq r.id p.request && not (is_prepared r.state)

abbrev pub IsOwned : List RequestRow → PartRow → Type 0
IsOwned rows p = exists (owns p) rows ≡ true

-- No part of the request, or a valid allocation; all of it observed once the request is ACKED.
pub record HasParts (parts : List PartRow) (r : RequestRow) : Type 0 where
  pub ids : (ids_of r.id parts ≡ []) ⊎ (are_ids (ids_of r.id parts) ≡ true)
  pub complete : is_acked r.state ≡ true → is_pending r.id parts ≡ false

pub record Inv (db : Database) : Type 0 where
  pub rows : All (IsRow db.next_sequence) db.requests
  pub order : Pairs Before db.requests
  pub owned : All (IsOwned db.requests) db.parts
  pub allocated : All (HasParts db.parts) db.requests

-- A member of the table is found by its ID.
pub select_one-has_id :
    (r : RequestRow) (rows : List RequestRow)
    → Pairs Before rows
    → Memᴰ r rows
    → select_one (has_id r.id) rows ≡ some r
select_one-has_id r [] b m = elim m [ ]
select_one-has_id r (x ∷ rows) b (Memᴰ.head e) = rw e (rw (eq_refl x.id) refl)
select_one-has_id r (x ∷ rows) b (Memᴰ.tail m) =
    rw ((All-of (Before x) rows b.0 m).other_id) (select_one-has_id r rows b.1 m)

-- The ID is a key.
pub eq_of_same_id :
    (x y : RequestRow) (rows : List RequestRow)
    → Pairs Before rows
    → Memᴰ x rows
    → Memᴰ y rows
    → str_eq x.id y.id ≡ true
    → x ≡ y
eq_of_same_id x y rows b m n e = elim (Pairs-trichotomy Before rows b m n) [
  | inl same ↦ same
  | inr (inl before) ↦ absurd (ground (arith, before.other_id))
  | inr (inr after) ↦ absurd (ground (arith, after.other_id, str_eq_comm x.id y.id))
]
