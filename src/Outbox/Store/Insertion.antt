-- ===== src/Outbox/Store/Insertion.antt =====
-- `prepare` keeps the invariant (src/outbox/store.ts): it inserts a row that no other row or part
-- names, or changes nothing.
use threema_beeper.Prelude.{
  ℕ, suc, ◌≡◌, refl, inl, String, false, List, [], ◌∷◌, ◌++◌, Option, some, none, arith, eq_iff,
  select_one, select_one-none, All, All-of, All-imp, All-append, All-intro, Pairs-append_one,
  exists-append_left, exists-true,
}
use threema_beeper.Outbox.Result.{
  ok, >>=-eq-ok, refuse-eq-ok, media_event, mutation_event, reaction_event, rejected_event,
}
use threema_beeper.Outbox.Request.{validate}
use threema_beeper.Outbox.Mutations.Journal
use threema_beeper.Outbox.Tables.{Database, OutboxRecord, RequestRow, PartRow, TextRequest}
use threema_beeper.Outbox.Store.Query.{
  has_id, has_event, part_of, ids_of, is_some, media_exists, reaction_exists, rejection,
}
use threema_beeper.Outbox.Store.Prepare.{Content, content, new_row, insert, settle_request, prepare}
use threema_beeper.Outbox.Store.Parts.{is_pending}
use threema_beeper.Outbox.Store.Invariant.{Before, IsRow, IsOwned, HasParts, Inv, owns}

pub ids_of-none :
    (id : String) (parts : List PartRow)
    → All (λ p. part_of id p ≡ false) parts
    → (ids_of id parts ≡ []) × (is_pending id parts ≡ false)
unfolding ids_of is_pending
ids_of-none id [] a = (refl, refl)
ids_of-none id (p ∷ parts) a = ground (arith, ids_of-none id parts a.1, a.0)

module _ (db : Database) (now : ℕ) (digest : String) (r : TextRequest) where
  abbrev row : RequestRow
  row = new_row db.next_sequence now digest r

  -- A part names a stored request, so it does not name a new one.
  unnamed :
      Inv db
      → All (λ x. has_id r.request_id x ≡ false) db.requests
      → All (λ p. part_of r.request_id p ≡ false) db.parts
  unnamed h fresh =
      All-imp (IsOwned db.requests) (λ p. part_of r.request_id p ≡ false) db.parts
        (λ p e.
          let (x, m, owner) = exists-true (owns p) db.requests e in
          ground (
            arith,
            owner,
            All-of (λ (x : RequestRow). has_id r.request_id x ≡ false) db.requests fresh m,
            eq_iff x.id p.request,
            eq_iff p.request r.request_id,
            eq_iff x.id r.request_id,
          ))
        h.owned

  pub Inv-insert :
      Inv db
      → validate r ≡ ok tt
      → All (λ x. has_id r.request_id x ≡ false) db.requests
      → All (λ x. has_event r.profile r.event_id x ≡ false) db.requests
      → Inv (insert db now digest r)
  unfolding insert new_row
  Inv-insert h valid fresh_id fresh_event = record {
    rows =
        All-append (IsRow (suc db.next_sequence)) db.requests (row ∷ [])
          (All-imp (IsRow db.next_sequence) (IsRow (suc db.next_sequence)) db.requests
            (λ x e. ground arith) h.rows)
          (ground arith, tt);
    order = Pairs-append_one Before db.requests row h.order (
        All-intro (λ x. Before x row) db.requests
          (λ x m. ground (
            arith,
            All-of (IsRow db.next_sequence) db.requests h.rows m,
            All-of (λ (x : RequestRow). has_id r.request_id x ≡ false) db.requests fresh_id m,
            All-of (λ (x : RequestRow). has_event r.profile r.event_id x ≡ false) db.requests
                fresh_event m,
          )));
    owned =
        All-imp (IsOwned db.requests) (IsOwned (db.requests ++ row ∷ [])) db.parts
          (λ p e. exists-append_left (owns p) db.requests (row ∷ []) e) h.owned;
    allocated = All-append (HasParts db.parts) db.requests (row ∷ []) h.allocated (
      record {
        ids = inl (ids_of-none r.request_id db.parts (unnamed h fresh_id)).0;
        complete = λ e. absurd (cc);
      },
      tt,
    );
  }

-- The outcomes of `prepare` that do not throw.
pub data Prepared (db : Database) (now : ℕ) (digest : String) (r : TextRequest) (db' : Database)
    : Type 0 where
  known : db' ≡ db → Prepared db now digest r db'
  inserted :
      select_one (has_id r.request_id) db.requests ≡ none
      → select_one (has_event r.profile r.event_id) db.requests ≡ none
      → db' ≡ insert db now digest r
      → Prepared db now digest r db'

pub settle-Prepared :
    (db : Database) (now : ℕ) (digest : String) (r : TextRequest) (a b : Option RequestRow)
    (o : Database × OutboxRecord)
    → select_one (has_id r.request_id) db.requests ≡ a
    → select_one (has_event r.profile r.event_id) db.requests ≡ b
    → settle_request db now digest r a b ≡ ok o
    → Prepared db now digest r o.0
unfolding settle_request
settle-Prepared db now digest r (some x) b o ea eb e = known (ground arith)
settle-Prepared db now digest r none (some y) o ea eb e = known (ground arith)
settle-Prepared db now digest r none none o ea eb e = inserted ea eb (ground arith)

pub prepare-Prepared :
    (sha256 : Content → String) (db : Database) (now : ℕ) (r : TextRequest)
    (o : Database × OutboxRecord)
    → prepare sha256 db now r ≡ ok o
    → (validate r ≡ ok tt) × Prepared db now (sha256 (content r)) r o.0
unfolding prepare
prepare-Prepared sha256 db now r o e =
    let (v, valid, e1) = >>=-eq-ok (validate r) _ e in
    let (no_media, e2) = refuse-eq-ok (media_exists db r.profile r.event_id) media_event _ e1 in
    let (m, em, e3) = >>=-eq-ok (Journal.get db r.profile r.event_id) _ e2 in
    let (no_mutation, e4) = refuse-eq-ok (is_some m) mutation_event _ e3 in
    let (no_reaction, e5) =
      refuse-eq-ok (reaction_exists db r.profile r.event_id) reaction_event _ e4 in
    let (no_rejection, e6) =
      refuse-eq-ok (is_some (rejection db r.profile r.event_id)) rejected_event _ e5 in
    (valid, settle-Prepared db now (sha256 (content r)) r _ _ o refl refl e6)

pub prepare-Inv :
    (sha256 : Content → String) (db : Database) (now : ℕ) (r : TextRequest)
    (o : Database × OutboxRecord)
    → Inv db
    → prepare sha256 db now r ≡ ok o
    → Inv o.0
prepare-Inv sha256 db now r o h e =
    let (valid, p) = prepare-Prepared sha256 db now r o e in keep valid p
  where
    keep : validate r ≡ ok tt → Prepared db now (sha256 (content r)) r o.0 → Inv o.0
    keep valid (known same) = rw same h
    keep valid (inserted no_id no_event grown) = rw grown (
        Inv-insert db now (sha256 (content r)) r h valid
          (select_one-none (has_id r.request_id) db.requests no_id)
          (select_one-none (has_event r.profile r.event_id) db.requests no_event))
