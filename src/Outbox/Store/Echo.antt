-- ===== src/Outbox/Store/Echo.antt =====
-- `observe` keeps the invariant (src/outbox/store.ts).
use threema_beeper.Prelude.{
  ◌≡◌, refl, ap, ◌∙◌, inl, inr, String, true, false, ◌&&◌, List, [], ◌∷◌, Memᴰ, Option, some, none,
  arith, str_eq, eq_iff, select_one, All-of, All-map, All-imp, All-every, Bool-cases, Option-cases,
  exists-true, select_one-Mem,
}
use threema_beeper.Outbox.Result.{
  ok, >>=-eq-ok, require-eq-ok, require, ◌>>=◌, ◌>>◌, invalid_echo, echo_conflict,
}
use threema_beeper.Outbox.Tables.{Database, OutboxRecord, RequestRow, PartRow, acked}
use threema_beeper.Text.{is_message_id}
use threema_beeper.Outbox.Store.Query.{has_id, has_message, ids_of, get, get_present}
use threema_beeper.Outbox.Store.Parts.{mark_observed, is_pending, apply_echo, observe}
use threema_beeper.Outbox.Store.Invariant.{IsOwned, HasParts, Inv, owns}
use threema_beeper.Outbox.Store.Updates.{Inv-update, order-update}
use threema_beeper.Outbox.Store.Selection.{get-Mem}
use threema_beeper.Outbox.Store.Recording.{attempted_by_id}

abbrev observed_part : PartRow → PartRow
observed_part p = record p { observed = true }

ids_of-mark_observed :
    (id other message : String) (parts : List PartRow)
    → ids_of other (mark_observed id message parts) ≡ ids_of other parts
unfolding ids_of mark_observed
ids_of-mark_observed id other message [] = refl
ids_of-mark_observed id other message (p ∷ parts) =
    ground (arith, ids_of-mark_observed id other message parts)

is_pending-mark_observed :
    (id other message : String) (parts : List PartRow)
    → is_pending other parts ≡ false
    → is_pending other (mark_observed id message parts) ≡ false
unfolding is_pending mark_observed
is_pending-mark_observed id other message [] e = refl
is_pending-mark_observed id other message (p ∷ parts) e =
    ground (arith, is_pending-mark_observed id other message parts)

Inv-mark_observed :
    (db : Database) (id message : String)
    → Inv db
    → Inv (record db { parts = mark_observed id message db.parts })
unfolding mark_observed
Inv-mark_observed db id message h = record {
  rows = h.rows;
  order = h.order;
  owned =
      All-map (IsOwned db.requests) (IsOwned db.requests) _ db.parts
        (λ p e. elim (Bool-cases (str_eq p.request id && str_eq p.message message)) [
          | inl hit ↦ rw hit e
          | inr miss ↦ rw miss e
        ])
        h.owned;
  allocated =
      All-imp (HasParts db.parts) (HasParts (mark_observed id message db.parts)) db.requests
        (λ r hp. record {
          ids = rw (ids_of-mark_observed id r.id message db.parts) hp.ids;
          complete = λ e. is_pending-mark_observed id r.id message db.parts (hp.complete e);
        })
        h.allocated;
}

-- The writes of `observe` keep the invariant, for a part of the table.
pub Inv-apply_echo :
    (db : Database) (p : PartRow)
    → Inv db
    → Memᴰ p db.parts
    → Inv (apply_echo db p.request p.message)
unfolding apply_echo
Inv-apply_echo db p h m =
    elim (Bool-cases (is_pending p.request (mark_observed p.request p.message db.parts))) [
      | inl more ↦ rw more marked
      | inr last ↦
          let (row, mr, owner) =
            exists-true (owns p) db.requests (All-of (IsOwned db.requests) db.parts h.owned m) in
          let same : row.id ≡ p.request = ground (arith, owner, eq_iff row.id p.request) in
          rw last (
            Inv-update (has_id p.request) acked
              (record db { parts = mark_observed p.request p.message db.parts }) refl
              (order-update (has_id p.request) acked db.requests
                (attempted_by_id db row p.request h mr same (ground (arith, owner))) refl h.order)
              (All-every _ db.requests (λ r t f. ground (arith, last, eq_iff r.id p.request)))
              marked)
    ]
  where
    marked : Inv (record db { parts = mark_observed p.request p.message db.parts })
    marked = Inv-mark_observed db p.request p.message h

-- `observe` that does not throw: no part has the message, or its echo is applied.
pub data Observed (db : Database) (profile chat message : String)
    (o : Database × Option OutboxRecord) : Type 0 where
  absent :
      select_one (has_message profile message) db.parts ≡ none
      → o ≡ (db, none)
      → Observed db profile chat message o
  echoed :
      (p : PartRow) (row : RequestRow)
      → Memᴰ p db.parts
      → (p.profile ≡ profile) × (p.message ≡ message)
      → Memᴰ row db.requests
      → (row.id ≡ p.request) × (row.body.chat_id ≡ chat)
      → o.0 ≡ apply_echo db p.request p.message
      → Observed db profile chat message o

pub observe-Observed :
    (db : Database) (profile chat message : String) (o : Database × Option OutboxRecord)
    → Inv db
    → observe db profile chat message ≡ ok o
    → Observed db profile chat message o
unfolding observe get_present
observe-Observed db profile chat message o h e =
    let (valid, e1) = require-eq-ok (is_message_id message) invalid_echo _ e in
    elim (Option-cases (select_one (has_message profile message) db.parts)) [
      | inl none' ↦ absent none' (ground arith)
      | inr (p, found) ↦ hit p found (ground arith)
    ]
  where
    hit :
        (p : PartRow)
        → select_one (has_message profile message) db.parts ≡ some p
        → (get_present db p.request >>= λ r.
            require (str_eq r.request.chat_id chat) echo_conflict
            >> (get (apply_echo db p.request message) p.request >>= λ f.
                ok (apply_echo db p.request message, f)))
          ≡ ok o
        → Observed db profile chat message o
    hit p found k =
        let (mp, t) = select_one-Mem (has_message profile message) db.parts found in
        let (r, er, k1) = >>=-eq-ok (get_present db p.request) _ k in
        let (chat_ok, k2) = require-eq-ok (str_eq r.request.chat_id chat) echo_conflict _ k1 in
        let (f, ef, k3) = >>=-eq-ok (get (apply_echo db p.request message) p.request) _ k2 in
        let (g, eg, k4) = >>=-eq-ok (get db p.request) _ er in
        let is_message : p.message ≡ message = ground (arith, eq_iff p.message message) in
        let is_profile' : p.profile ≡ profile = ground (arith, eq_iff p.profile profile) in
        elim (Option-cases g) [
          | inl missing ↦ absurd (ground arith)
          | inr (r', got) ↦
              let (row, mr, same, is_r) = get-Mem db p.request r' h (eg ∙ ap ok got) in
              echoed p row mp (is_profile', is_message) mr
                (same, ground (arith, eq_iff r.request.chat_id chat)) (ground arith)
        ]

pub observe-Inv :
    (db : Database) (profile chat message : String) (o : Database × Option OutboxRecord)
    → Inv db
    → observe db profile chat message ≡ ok o
    → Inv o.0
observe-Inv db profile chat message o h e = keep (observe-Observed db profile chat message o h e)
  where
    keep : Observed db profile chat message o → Inv o.0
    keep (absent none' unchanged) = rw unchanged h
    keep (echoed p row mp key mr same written) = rw written (Inv-apply_echo db p h mp)
