-- ===== src/Outbox/Store/Claim.antt =====
-- `claim` keeps the invariant and dispatches in order (src/outbox/store.ts).
use threema_beeper.Prelude.{
  ℕ, ◌≡◌, refl, ap, subst, ◌∙◌, ◌<◌, inl, inr, String, true, false, ◌&&◌, List, Memᴰ, Option, some,
  none, arith, str_eq, eq_refl, ltb, All-of, All-every, Pairs-map_mem, Bool-cases, Option-cases,
  update, update_row, mem-update, exists-false,
}
use threema_beeper.Outbox.Result.{ok, >>=-eq-ok}
use threema_beeper.Outbox.Tables.{Database, OutboxRecord, RequestRow, PartRow, dispatching}
use threema_beeper.Outbox.Store.Query.{is_prepared, is_unsettled, has_id, get}
use threema_beeper.Outbox.Store.Dispatch.{
  is_next, next_prepared, claim, is_expected, update_requests, set_state,
}
use threema_beeper.Outbox.Store.Invariant.{Before, IsRow, Inv, same_chat, eq_of_same_id}
use threema_beeper.Outbox.Store.Updates.{Inv-update}
use threema_beeper.Outbox.Store.Selection.{next_prepared-Found, record_of, get_lem}

-- The earlier rows of its chat do not hold a selected row back.
abbrev pub Clear : RequestRow → RequestRow → Type 0
Clear row x = same_chat x row ≡ true → x.sequence < row.sequence → is_unsettled x.state ≡ false

pub next-Clear :
    (db : Database) (now : ℕ) (row x : RequestRow)
    → is_next db now row ≡ true
    → Memᴰ x db.requests
    → Clear row x
unfolding is_next
next-Clear db now row x next m chat before = ground (
  arith,
  All-of
      (λ (e : RequestRow).
        ((str_eq e.profile row.profile && str_eq e.chat row.chat)
          && ltb e.sequence row.sequence
          && is_unsettled e.state)
        ≡ false)
      db.requests (exists-false _ db.requests (ground arith)) m,
)

-- A selected row may be dispatched: it is the only one that changes, and none before it is open.
Before-claim :
    (row x y : RequestRow)
    → is_prepared row.state ≡ true
    → Clear row x
    → (has_id row.id x ≡ true → x ≡ row)
    → (has_id row.id y ≡ true → y ≡ row)
    → Before x y
    → Before
        (update_row (has_id row.id) (set_state dispatching) x)
        (update_row (has_id row.id) (set_state dispatching) y)
Before-claim row x y ready clear ex ey b = ground (arith, eq_refl row.id)

pub Inv-dispatch :
    (db : Database) (now : ℕ) (row : RequestRow)
    → Inv db
    → Memᴰ row db.requests
    → is_next db now row ≡ true
    → Inv (update_requests (has_id row.id) (set_state dispatching) db)
unfolding is_next
Inv-dispatch db now row h m next =
    Inv-update (has_id row.id) dispatching db refl
      (Pairs-map_mem Before Before (update_row (has_id row.id) (set_state dispatching)) db.requests
        (λ x y mx my b.
          Before-claim row x y (ground arith) (next-Clear db now row x next mx)
            (λ e. eq_of_same_id x row db.requests h.order mx m e)
            (λ e. eq_of_same_id y row db.requests h.order my m e) b)
        h.order)
      (All-every _ db.requests (λ r e f. absurd (cc))) h

-- The row as it stands after it was claimed.
abbrev pub claimed : RequestRow → RequestRow
claimed row = record row { state = dispatching }

dispatch-Mem :
    (db : Database) (row : RequestRow)
    → Memᴰ row db.requests
    → Memᴰ (claimed row) (update_requests (has_id row.id) (set_state dispatching) db).requests
unfolding update_requests
dispatch-Mem db row m =
    subst (λ r. Memᴰ r (update (has_id row.id) (set_state dispatching) db.requests)) hit
      (mem-update (has_id row.id) (set_state dispatching) db.requests m)
  where
    hit : update_row (has_id row.id) (set_state dispatching) row ≡ claimed row
    hit = rw (eq_refl row.id) refl

-- A claim that does not throw changes nothing, or dispatches the row that is next.
pub data Claimed (db : Database) (now : ℕ) (o : Database × Option OutboxRecord) : Type 0 where
  idle : o ≡ (db, none) → Claimed db now o
  taken :
      (row : RequestRow)
      → Memᴰ row db.requests
      → is_next db now row ≡ true
      → o ≡ (
        update_requests (has_id row.id) (set_state dispatching) db,
        some (record (record_of db row) { state = dispatching }),
      )
      → Claimed db now o

dispatch-get :
    (db : Database) (now : ℕ) (row : RequestRow)
    → Inv db
    → Memᴰ row db.requests
    → is_next db now row ≡ true
    → get (update_requests (has_id row.id) (set_state dispatching) db) row.id
      ≡ ok (some (record (record_of db row) { state = dispatching }))
dispatch-get db now row h m next =
    subst
      (λ (parts : List PartRow).
        get (update_requests (has_id row.id) (set_state dispatching) db) row.id
        ≡ ok (some (record (record_of (record db { parts = parts }) row) { state = dispatching })))
      same_parts
      (get_lem (update_requests (has_id row.id) (set_state dispatching) db) (claimed row)
        (Inv-dispatch db now row h m next) (dispatch-Mem db row m))
  where
    same_parts : (update_requests (has_id row.id) (set_state dispatching) db).parts ≡ db.parts
    same_parts = unfold update_requests in refl

pub claim-Claimed :
    (db : Database) (expected : Option String) (now : ℕ) (o : Database × Option OutboxRecord)
    → Inv db
    → claim db expected now ≡ ok o
    → Claimed db now o
unfolding claim
claim-Claimed db expected now o h e =
    let (next, en, ek) = >>=-eq-ok (next_prepared db now) _ e in
    elim (Option-cases next) [
      | inl none' ↦ idle (ground arith)
      | inr (r, is_some') ↦
          let f = next_prepared-Found db now r h (en ∙ ap ok is_some') in
          let row = f.row in
          let got = dispatch-get db now row h f.member f.next in
          let id_body = (All-of (IsRow db.next_sequence) db.requests h.rows f.member).id_body in
          elim (Bool-cases (is_expected expected row.id)) [
            | inl yes' ↦ taken row f.member f.next (ground (arith, got, id_body, f.is_record))
            | inr no' ↦ idle (ground (arith, id_body, f.is_record))
          ]
    ]
