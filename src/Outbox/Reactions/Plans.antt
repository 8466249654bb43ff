-- ===== src/Outbox/Reactions/Plans.antt =====
-- A new plan keeps the invariant of the reaction journal (src/outbox/reaction-journal.ts).
use threema_beeper.Prelude.{
  ℕ, suc, ◌<◌, ◌≤◌, String, false, List, [], ◌∷◌, none, exists, select_one, select_one-none, ◌≡◌,
  refl, ◌⊎◌, subst, sym, arith, All, All-imp, All-append, All-both, Pairs, Pairs-append_one,
  Option-cases, Bool-cases, inl, inr,
}
use threema_beeper.Outbox.Result.{Error, invalid_operation, invalid_command, ok, err}
use threema_beeper.Outbox.Tables.{
  Database, ReactionOperation, ReactionState, ReactionPart, ReactionRow,
}
use threema_beeper.Outbox.Reactions.Journal.{
  has_shape, all_commands, is_row, serialize, new_parts, insert, prepare,
}
use threema_beeper.Outbox.Reactions.Invariant.{Inv, Own, Before, PartBefore, is_attempted_part}

-- New parts are numbered on from `n`, and none is attempted.
New : ℕ → ReactionPart → Type 0
New n p = (n ≤ p.part) × (is_attempted_part p ≡ false)

new_parts-New : (n : ℕ) (ms : List String) → All (New n) (new_parts n ms)
unfolding new_parts New
new_parts-New n [] = tt
new_parts-New n (m ∷ ms) = (
  (omega arith, refl),
  All-imp (New (suc n)) (New n) (new_parts (suc n) ms) (λ p h. (omega (arith, h.0), h.1))
      (new_parts-New (suc n) ms),
)

new_parts-Pairs : (n : ℕ) (ms : List String) → Pairs PartBefore (new_parts n ms)
unfolding new_parts New
new_parts-Pairs n [] = tt
new_parts-Pairs n (m ∷ ms) = (
  All-imp (New (suc n))
      (PartBefore (record { part = n; state = ReactionState.prepared; failure = none }))
      (new_parts (suc n) ms)
      (λ p h. record { part = omega (arith, h.0); fifo = ground (arith, h.1) })
      (new_parts-New (suc n) ms),
  new_parts-Pairs (suc n) ms,
)

none_attempted : (n : ℕ) (ms : List String) → exists is_attempted_part (new_parts n ms) ≡ false
unfolding new_parts
none_attempted n [] = refl
none_attempted n (m ∷ ms) = none_attempted (suc n) ms

pub serialize_cases :
    (o : ReactionOperation) → (serialize o ≡ ok o) ⊎ ((e : Error) × (serialize o ≡ err e))
unfolding serialize
serialize_cases o = elim (Bool-cases (has_shape o)) [
  | inr wrong ↦ inr (invalid_operation, ground (arith, wrong))
  | inl right ↦ elim (Bool-cases (all_commands o o.messages)) [
    | inr wrong ↦ inr (invalid_command, ground (arith, right, wrong))
    | inl commands ↦ inl (ground (arith, right, commands))
  ]
]

-- A call that does not throw leaves the journal, or adds the plan of an event that has none.
pub prepare_lem :
    (db db' : Database) (o : ReactionOperation)
    → prepare db o ≡ ok db'
    → (db' ≡ db)
      ⊎ ((select_one (is_row o.profile o.event) db.reactions ≡ none) × (db' ≡ insert db o))
unfolding prepare
prepare_lem db db' o h = elim (serialize_cases o) [
  | inr (e, invalid) ↦ absurd (ground (arith, invalid))
  | inl valid ↦ elim (Option-cases (select_one (is_row o.profile o.event) db.reactions)) [
    | inl fresh ↦ inr (fresh, ground (arith, valid, fresh))
    | inr (old, found) ↦ inl (ground (arith, valid, found))
  ]
]

pub insert-Inv :
    (db : Database) (o : ReactionOperation)
    → Inv db
    → select_one (is_row o.profile o.event) db.reactions ≡ none
    → Inv (insert db o)
unfolding insert
insert-Inv db o h fresh =
    let new : ReactionRow = record {
      sequence = db.next_reaction;
      profile = o.profile;
      event = o.event;
      chat = o.chat;
      body = o;
      parts = new_parts 0 o.messages;
    } in
    record {
      order = Pairs-append_one Before db.reactions new h.order (
          All-imp
            (λ (a : ReactionRow).
              (a.sequence < db.next_reaction) × (is_row o.profile o.event a ≡ false))
            (λ a. Before a new) db.reactions
            (λ a k. record {
              sequence = k.0;
              event = k.1;
              fifo = ground (arith, none_attempted 0 o.messages);
            })
            (All-both (λ (a : ReactionRow). a.sequence < db.next_reaction)
              (λ a. is_row o.profile o.event a ≡ false) db.reactions h.next
              (select_one-none (is_row o.profile o.event) db.reactions fresh)));
      own =
          All-append Own db.reactions (new ∷ []) h.own
            (record { profile = refl; event = refl; parts = new_parts-Pairs 0 o.messages }, tt);
      next =
          All-append (λ a. a.sequence < suc db.next_reaction) db.reactions (new ∷ [])
            (All-imp (λ (a : ReactionRow). a.sequence < db.next_reaction)
              (λ a. a.sequence < suc db.next_reaction) db.reactions (λ a k. omega (arith, k))
              h.next)
            (omega arith, tt);
    }

pub prepare-Inv :
    (db db' : Database) (o : ReactionOperation) → Inv db → prepare db o ≡ ok db' → Inv db'
prepare-Inv db db' o h e = elim (prepare_lem db db' o e) [
  | inl same ↦ subst Inv (sym same) h
  | inr (fresh, is) ↦ subst Inv (sym is) (insert-Inv db o h fresh)
]
