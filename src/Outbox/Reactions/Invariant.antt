-- ===== src/Outbox/Reactions/Invariant.antt =====
-- The invariant of the reaction journal (src/outbox/reaction-journal.ts): rows and parts stand in
-- order, and a part is attempted only after every earlier part of its chat is settled.
use threema_beeper.Prelude.{
  ◌<◌, Bool, true, false, not, ◌&&◌, List, [], ◌∷◌, str_eq, exists, update, update_row, ◌≡◌, refl,
  arith, All, All-map, Pairs, Pairs-map_mem, Bool-cases, inl, inr,
}
use threema_beeper.Outbox.Tables.{Database, ReactionPart, ReactionRow}
use threema_beeper.Outbox.Reactions.Journal.{is_row, is_settled, is_sent, is_prepared}
use threema_beeper.Outbox.Reactions.Dispatch.{update_parts}

abbrev pub is_unsettled : ReactionPart → Bool
is_unsettled p = not (is_settled p.state)

abbrev pub is_attempted_part : ReactionPart → Bool
is_attempted_part p = not (is_prepared p.state)

abbrev pub same_chat : ReactionRow → ReactionRow → Bool
same_chat a b = str_eq a.profile b.profile && str_eq a.chat b.chat

-- Of two parts of one row: the later one is not attempted before the earlier one is settled.
pub record PartBefore (p q : ReactionPart) : Type 0 where
  pub part : p.part < q.part
  pub fifo : (is_unsettled p && is_attempted_part q) ≡ false

-- Of two rows, in the order of the table.
pub record Before (a b : ReactionRow) : Type 0 where
  pub sequence : a.sequence < b.sequence
  pub event : is_row b.profile b.event a ≡ false
  pub fifo :
      (same_chat a b && exists is_unsettled a.parts && exists is_attempted_part b.parts) ≡ false

pub record Own (o : ReactionRow) : Type 0 where
  pub profile : o.body.profile ≡ o.profile
  pub event : o.body.event ≡ o.event
  pub parts : Pairs PartBefore o.parts

pub record Inv (db : Database) : Type 0 where
  pub order : Pairs Before db.reactions
  pub own : All Own db.reactions
  pub next : All (λ o. o.sequence < db.next_reaction) db.reactions

-- An update of parts that neither attempts a prepared part nor unsettles a settled one.
pub record IsSettling (test : ReactionPart → Bool) (f : ReactionPart → ReactionPart) : Type 0 where
  pub part : (p : ReactionPart) → (update_row test f p).part ≡ p.part
  pub attempted : (p : ReactionPart) → is_attempted_part (update_row test f p) ≡ is_attempted_part p
  pub settled :
      (p : ReactionPart) → (is_unsettled (update_row test f p) && is_settled p.state) ≡ false
  pub sent :
      (p : ReactionPart) → is_sent p.state ≡ true → is_sent (update_row test f p).state ≡ true

pub exists-update_same :
    (p test : ReactionPart → Bool) (f : ReactionPart → ReactionPart) (xs : List ReactionPart)
    → ((x : ReactionPart) → p (update_row test f x) ≡ p x)
    → exists p (update test f xs) ≡ exists p xs
exists-update_same p test f [] h = refl
exists-update_same p test f (x ∷ xs) h = ground (arith, h x, exists-update_same p test f xs h)

exists-update_less :
    (test : ReactionPart → Bool) (f : ReactionPart → ReactionPart) (xs : List ReactionPart)
    → ((x : ReactionPart) → (is_unsettled (update_row test f x) && is_settled x.state) ≡ false)
    → (exists is_unsettled (update test f xs) && not (exists is_unsettled xs)) ≡ false
exists-update_less test f [] h = refl
exists-update_less test f (x ∷ xs) h = ground (arith, h x, exists-update_less test f xs h)

module _ (test : ReactionPart → Bool) (f : ReactionPart → ReactionPart) (s : IsSettling test f)
    (rows : ReactionRow → Bool) where
  abbrev change : ReactionRow → ReactionRow
  change = update_row rows (λ (o : ReactionRow). record o { parts = update test f o.parts })

  change-Own : (o : ReactionRow) → Own o → Own (change o)
  change-Own o h = elim (Bool-cases (rows o)) [
    | inr miss ↦ rw miss h
    | inl hit ↦ rw hit (record {
      profile = h.profile;
      event = h.event;
      parts =
          Pairs-map_mem PartBefore PartBefore (update_row test f) o.parts
            (λ p q mp mq k. record {
              part = ground (arith, s.part p, s.part q, k.part);
              fifo = ground (arith, s.attempted q, s.settled p, k.fifo);
            })
            h.parts;
    })
  ]

  change-Before : (a b : ReactionRow) → Before a b → Before (change a) (change b)
  change-Before a b h = record {
    sequence = ground (arith, h.sequence);
    event = ground (arith, h.event);
    fifo = ground (
      arith,
      h.fifo,
      exists-update_same is_attempted_part test f b.parts s.attempted,
      exists-update_less test f a.parts s.settled,
    );
  }

  pub update_parts-Inv : (db : Database) → Inv db → Inv (update_parts rows test f db)
  unfolding update_parts
  update_parts-Inv db h = record {
    order =
        Pairs-map_mem Before Before change db.reactions (λ a b ma mb k. change-Before a b k)
          h.order;
    own = All-map Own Own change db.reactions (λ o k. change-Own o k) h.own;
    next =
        All-map (λ o. o.sequence < db.next_reaction) (λ o. o.sequence < db.next_reaction) change
          db.reactions (λ o k. ground (arith, k)) h.next;
  }
