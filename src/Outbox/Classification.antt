-- ===== src/Outbox/Classification.antt =====
-- An event of a profile belongs to one journal (src/outbox/store.ts, mutation-journal.ts): it is a
-- text request, a media request, a reaction, a mutation or a rejection, and never two of these.
use threema_beeper.Prelude.{
  ℕ, ◌+◌, ◌≤◌, ◌≡◌, refl, subst, inl, inr, String, Bool, true, false, ◌&&◌, [], ◌∷◌, ◌++◌, Option,
  some, none, arith, str_eq, eq_iff, exists, exists-append_one, select_one, select_one-exists,
  Bool-cases, Option-cases, and_split,
}
use threema_beeper.Outbox.Result.{
  ok, >>=-eq-ok, require-eq-ok, refuse-eq-ok, mutation_event, media_event, reaction_event,
  accepted_event, rejected_event, invalid_rejection, already_classified,
}
use threema_beeper.Outbox.Request.{validate}
use threema_beeper.Outbox.Tables.{
  Database, OutboxRecord, TextRequest, MutationOperation, MutationRow, RequestRow, RejectionRow,
}
use threema_beeper.Outbox.Mutations.Plan.{serialize}
use threema_beeper.Outbox.Mutations.Journal
use threema_beeper.Outbox.Store.Query.{has_event, is_some, media_exists, reaction_exists, rejection}
use threema_beeper.Outbox.Store.Prepare.{
  Content, content, prepare, insert, new_row, reject_event, is_rejection,
}
use threema_beeper.Outbox.Store.Insertion.{Prepared, known, inserted, settle-Prepared}

abbrev one : Bool → ℕ
one true = 1
one false = 0

-- In how many of the five journals the event stands.
unfoldable pub journals : Database → String → String → ℕ
journals db profile event =
    one (exists (has_event profile event) db.requests)
    + one (media_exists db profile event)
    + one (reaction_exists db profile event)
    + one (exists (λ r. str_eq r.profile profile && str_eq r.event event) db.rejections)
    + one (exists (Journal.is_row profile event) db.mutations)

unfoldable pub IsExclusive : Database → Type 0
IsExclusive db = (profile event : String) → journals db profile event ≤ 1

-- `mutations.get` that finds nothing means that there is no row.
get-none :
    (db : Database) (profile event : String) (m : Option Journal.MutationRecord)
    → Journal.get db profile event ≡ ok m
    → is_some m ≡ false
    → exists (Journal.is_row profile event) db.mutations ≡ false
unfolding Journal.get
get-none db profile event m e f =
    elim (Option-cases (select_one (Journal.is_row profile event) db.mutations)) [
      | inl empty ↦ select_one-exists (Journal.is_row profile event) db.mutations empty
      | inr (row, found) ↦ absurd (filled row found)
    ]
  where
    filled :
        (row : MutationRow) → select_one (Journal.is_row profile event) db.mutations ≡ some row → ⊥
    filled row found = ground arith

-- A bound at the event that was inserted and one at every other event bound them all.
at_every_event :
    (db : Database) (p e : String)
    → journals db p e ≤ 1
    → ((profile event : String)
        → (str_eq p profile && str_eq e event) ≡ false
        → journals db profile event ≤ 1)
    → IsExclusive db
unfolding IsExclusive
at_every_event db p e same differs profile event =
    elim (Bool-cases (str_eq p profile && str_eq e event)) [
      | inr other ↦ differs profile event other
      | inl hit ↦
          let (hp, he) = and_split (str_eq p profile) (str_eq e event) hit in
          subst (λ q. journals db q event ≤ 1) ((eq_iff p profile).0 hp)
            (subst (λ q. journals db p q ≤ 1) ((eq_iff e event).0 he) same)
    ]

insert-IsExclusive :
    (db : Database) (now : ℕ) (digest : String) (r : TextRequest)
    → IsExclusive db
    → media_exists db r.profile r.event_id ≡ false
    → reaction_exists db r.profile r.event_id ≡ false
    → exists (λ x. str_eq x.profile r.profile && str_eq x.event r.event_id) db.rejections ≡ false
    → exists (Journal.is_row r.profile r.event_id) db.mutations ≡ false
    → IsExclusive (insert db now digest r)
unfolding IsExclusive journals insert media_exists reaction_exists
insert-IsExclusive db now digest r h media reaction rejected mutation =
    at_every_event (insert db now digest r) r.profile r.event_id
      (ground (arith, exists-append_one (has_event r.profile r.event_id) db.requests row))
      (λ profile event other.
        ground
          (arith, h profile event, exists-append_one (has_event profile event) db.requests row))
  where
    row : RequestRow
    row = new_row db.next_sequence now digest r

-- A request that is accepted as text is in no other journal, so the journals stay disjoint.
pub prepare-IsExclusive :
    (sha256 : Content → String) (db : Database) (now : ℕ) (r : TextRequest)
    (o : Database × OutboxRecord)
    → IsExclusive db
    → prepare sha256 db now r ≡ ok o
    → IsExclusive o.0
unfolding prepare rejection
prepare-IsExclusive sha256 db now r o h e =
    let (v, valid, e1) = >>=-eq-ok (validate r) _ e in
    let (no_media, e2) = refuse-eq-ok (media_exists db r.profile r.event_id) media_event _ e1 in
    let (m, em, e3) = >>=-eq-ok (Journal.get db r.profile r.event_id) _ e2 in
    let (no_mutation, e4) = refuse-eq-ok (is_some m) mutation_event _ e3 in
    let (no_reaction, e5) =
      refuse-eq-ok (reaction_exists db r.profile r.event_id) reaction_event _ e4 in
    let (no_rejection, e6) =
      refuse-eq-ok (is_some (rejection db r.profile r.event_id)) rejected_event _ e5 in
    keep no_media (get-none db r.profile r.event_id m em no_mutation) no_reaction
      (select_one-exists _ db.rejections (ground arith))
      (settle-Prepared db now (sha256 (content r)) r _ _ o refl refl e6)
  where
    keep :
        media_exists db r.profile r.event_id ≡ false
        → exists (Journal.is_row r.profile r.event_id) db.mutations ≡ false
        → reaction_exists db r.profile r.event_id ≡ false
        → exists (λ x. str_eq x.profile r.profile && str_eq x.event r.event_id) db.rejections
          ≡ false
        → Prepared db now (sha256 (content r)) r o.0
        → IsExclusive o.0
    keep media mutation reaction rejected (known same) = rw same h
    keep media mutation reaction rejected (inserted no_id no_event grown) =
        rw grown
          (insert-IsExclusive db now (sha256 (content r)) r h media reaction rejected mutation)

abbrev rejection_row : String → String → String → String → RejectionRow
rejection_row profile event room reason = record {
  profile = profile;
  event = event;
  room = room;
  reason = reason;
}

-- An event that is rejected is in no other journal either.
pub reject_event-IsExclusive :
    (db : Database) (profile event room reason : String) (db' : Database)
    → IsExclusive db
    → reject_event db profile event room reason ≡ ok db'
    → IsExclusive db'
unfolding reject_event rejection
reject_event-IsExclusive db p e room reason db' h k =
    let (m, em, k1) = >>=-eq-ok (Journal.get db p e) _ k in
    let (no_mutation, k2) = refuse-eq-ok (is_some m) mutation_event _ k1 in
    let (no_media, k3) = refuse-eq-ok (media_exists db p e) media_event _ k2 in
    let (valid, k4) = require-eq-ok (is_rejection p e room reason) invalid_rejection _ k3 in
    let (no_reaction, k5) = refuse-eq-ok (reaction_exists db p e) reaction_event _ k4 in
    let (no_request, k6) = refuse-eq-ok (exists (has_event p e) db.requests) accepted_event _ k5 in
    elim (Option-cases (select_one (λ r. str_eq r.profile p && str_eq r.event e) db.rejections)) [
      | inr (old, found) ↦ let same : db' ≡ db = ground arith in rw same h
      | inl fresh ↦
          let grown : db'
              ≡ record db { rejections = db.rejections ++ rejection_row p e room reason ∷ [] } =
            ground arith in
          rw grown (
            unfold IsExclusive journals media_exists reaction_exists in
            at_every_event
              (record db { rejections = db.rejections ++ rejection_row p e room reason ∷ [] }) p e
              (ground (
                arith,
                no_media,
                no_reaction,
                no_request,
                get-none db p e m em no_mutation,
                select_one-exists (λ r. str_eq r.profile p && str_eq r.event e) db.rejections fresh,
                exists-append_one (λ r. str_eq r.profile p && str_eq r.event e) db.rejections
                    (rejection_row p e room reason),
              ))
              (λ profile event other. ground (
                arith,
                h profile event,
                exists-append_one (λ r. str_eq r.profile profile && str_eq r.event event)
                    db.rejections (rejection_row p e room reason),
              )))
    ]

serialize_body : (o body : MutationOperation) → serialize o ≡ ok body → body ≡ o
unfolding serialize
serialize_body o body e = ground arith

-- A planned mutation is in no other journal either.
pub mutation-IsExclusive :
    (db : Database) (o : MutationOperation) (db' : Database)
    → IsExclusive db
    → Journal.prepare db o ≡ ok db'
    → IsExclusive db'
unfolding Journal.prepare
mutation-IsExclusive db o db' h k =
    let (body, eb, k1) = >>=-eq-ok (serialize o) _ k in
    let (elsewhere, k2) =
      refuse-eq-ok (Journal.is_classified_elsewhere db o.profile o.event) already_classified _ k1 in
    elim (Option-cases (select_one (Journal.is_row o.profile o.event) db.mutations)) [
      | inr (old, found) ↦ let same : db' ≡ db = ground arith in rw same h
      | inl fresh ↦
          let grown : db' ≡ Journal.insert db body = ground arith in
          let plan : body ≡ o = serialize_body o body eb in rw (grown, plan) (added elsewhere fresh)
    ]
  where
    row : MutationRow
    row = record {
      sequence = db.next_mutation;
      profile = o.profile;
      event = o.event;
      chat = o.chat;
      body = o;
      parts = Journal.new_parts 0 o.commands;
    }

    added :
        Journal.is_classified_elsewhere db o.profile o.event ≡ false
        → select_one (Journal.is_row o.profile o.event) db.mutations ≡ none
        → IsExclusive (Journal.insert db o)
    added elsewhere fresh =
        unfold IsExclusive journals media_exists reaction_exists Journal.insert
          Journal.is_classified_elsewhere in
        at_every_event (Journal.insert db o) o.profile o.event
          (ground (
            arith,
            elsewhere,
            select_one-exists (Journal.is_row o.profile o.event) db.mutations fresh,
            exists-append_one (Journal.is_row o.profile o.event) db.mutations row,
          ))
          (λ profile event other. ground (
            arith,
            h profile event,
            exists-append_one (Journal.is_row profile event) db.mutations row,
          ))
