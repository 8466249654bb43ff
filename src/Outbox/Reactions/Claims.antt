-- ===== src/Outbox/Reactions/Claims.antt =====
-- Claims and insertions keep the invariant of the reaction journal (src/outbox/reaction-journal.ts).
use threema_beeper.Prelude.{
  ◌<◌, String, true, false, not, ◌&&◌, ◌||◌, List, [], ◌∷◌, map, some, str_eq, eq_refl, ltb, ◌==◌,
  exists, exists-false, select_one, select_one-Mem, update_row, ◌≡◌, refl, subst, arith, All,
  All-both, All-map, All-of, All-intro, Pairs-map_mem, Pairs-trichotomy, Memᴰ, Bool-cases,
  Option-cases, inl, inr,
}
use threema_beeper.Outbox.Tables.{Database, ReactionState, ReactionPart, ReactionRow}
use threema_beeper.Outbox.Reactions.Journal.{is_settled, is_prepared}
use threema_beeper.Outbox.Reactions.Dispatch.{
  update_parts, is_blocked, is_candidate, first_part, claimable, set_state,
}
use threema_beeper.Outbox.Reactions.Invariant.{
  Inv, Own, Before, PartBefore, is_unsettled, is_attempted_part, same_chat, exists-update_same,
}

-- What the first candidate is.
pub record IsFirst (db : Database) (profile : String) (o : ReactionRow) (p : ReactionPart)
    (rows : List ReactionRow) : Type 0 where
  pub row : Memᴰ o rows
  pub part : Memᴰ p o.parts
  pub mine : str_eq o.profile profile ≡ true
  pub prepared : is_prepared p.state ≡ true
  pub free : is_blocked db o p ≡ false

pub first_part-IsFirst :
    (db : Database) (profile : String) (excluded : List String) (rows : List ReactionRow)
    (o : ReactionRow) (p : ReactionPart)
    → first_part db profile excluded rows ≡ some (o, p)
    → IsFirst db profile o p rows
unfolding first_part
first_part-IsFirst db profile excluded [] o p h = cc
first_part-IsFirst db profile excluded (r ∷ rows) o p h =
    elim (Bool-cases (str_eq r.profile profile && not (exists (str_eq r.chat) excluded))) [
      | inr out ↦ later (first_part-IsFirst db profile excluded rows o p (ground (arith, out)))
      | inl here ↦ elim (Option-cases (select_one (is_candidate db r) r.parts)) [
        | inl missing ↦
            later (first_part-IsFirst db profile excluded rows o p (ground (arith, here, missing)))
        | inr (q, e) ↦
            let (m, fits) = select_one-Mem (is_candidate db r) r.parts e in
            let same : (r, q) ≡ (o, p) = ground (arith, here, e) in
            subst (λ (x : ReactionRow × ReactionPart). IsFirst db profile x.0 x.1 (r ∷ rows)) same
              (record {
                row = Memᴰ.head refl;
                part = m;
                mine = ground (arith, here);
                prepared = ground (arith, fits);
                free = ground (arith, fits);
              })
      ]
    ]
  where
    later : IsFirst db profile o p rows → IsFirst db profile o p (r ∷ rows)
    later f = record {
      row = Memᴰ.tail f.row;
      part = f.part;
      mine = f.mine;
      prepared = f.prepared;
      free = f.free;
    }

-- Nothing before a part that is not blocked is unsettled.
unblocked :
    (db : Database) (o : ReactionRow) (p : ReactionPart) (prior : ReactionRow) (q : ReactionPart)
    → is_blocked db o p ≡ false
    → Memᴰ prior db.reactions
    → Memᴰ q prior.parts
    → same_chat prior o ≡ true
    → (ltb prior.sequence o.sequence || (prior.sequence == o.sequence && ltb q.part p.part)) ≡ true
    → is_unsettled q ≡ false
unfolding is_blocked
unblocked db o p prior q free m n chat before =
    let rows =
      All-of
        (λ (r : ReactionRow).
          ((str_eq r.profile o.profile && str_eq r.chat o.chat)
            && exists
                (λ x.
                  not (is_settled x.state)
                  && (ltb r.sequence o.sequence || (r.sequence == o.sequence && ltb x.part p.part)))
                r.parts)
          ≡ false)
        db.reactions
        (exists-false
          (λ (r : ReactionRow).
            (str_eq r.profile o.profile && str_eq r.chat o.chat)
            && exists
                (λ x.
                  not (is_settled x.state)
                  && (ltb r.sequence o.sequence || (r.sequence == o.sequence && ltb x.part p.part)))
                r.parts)
          db.reactions free)
        m in
    let parts =
      All-of
        (λ (x : ReactionPart).
          (not (is_settled x.state)
            && (ltb prior.sequence o.sequence
                || (prior.sequence == o.sequence && ltb x.part p.part)))
          ≡ false)
        prior.parts
        (exists-false
          (λ (x : ReactionPart).
            not (is_settled x.state)
            && (ltb prior.sequence o.sequence
                || (prior.sequence == o.sequence && ltb x.part p.part)))
          prior.parts (ground (arith, rows, chat)))
        n in
    ground (arith, parts, before)

all_settled :
    (xs : List ReactionPart) → All (λ x. is_unsettled x ≡ false) xs → exists is_unsettled xs ≡ false
all_settled [] h = refl
all_settled (x ∷ xs) h = ground (arith, h.0, all_settled xs h.1)

module _ (db : Database) (inv : Inv db) (o : ReactionRow) (p : ReactionPart)
    (m : Memᴰ o db.reactions) (prepared : is_prepared p.state ≡ true)
    (free : is_blocked db o p ≡ false) where
  abbrev take_part : ReactionPart → ReactionPart
  take_part = update_row (claimable p.part) (set_state ReactionState.dispatching)

  abbrev take_row : ReactionRow → ReactionRow
  take_row =
      update_row (λ (r : ReactionRow). r.sequence == o.sequence)
        (λ r. record r { parts = map take_part r.parts })

  unsettled_still : (x : ReactionPart) → is_unsettled (take_part x) ≡ is_unsettled x
  unsettled_still x = ground arith

  take_sequence : (a : ReactionRow) → (take_row a).sequence ≡ a.sequence
  take_sequence a = ground arith

  -- A row of this sequence is the row.
  only_row : (a : ReactionRow) → Memᴰ a db.reactions → a.sequence == o.sequence ≡ true → a ≡ o
  only_row a n e = elim (Pairs-trichotomy Before db.reactions inv.order n m) [
    | inl same ↦ same
    | inr (inl b) ↦ absurd (ground (arith, b.sequence))
    | inr (inr b) ↦ absurd (ground (arith, b.sequence))
  ]

  take-PartBefore :
      (a : ReactionRow) (q r : ReactionPart)
      → a ≡ o
      → Memᴰ q a.parts
      → PartBefore q r
      → PartBefore (take_part q) (take_part r)
  take-PartBefore a q r same n b = record {
    part = ground (arith, b.part);
    fifo = ground (
      arith,
      b.part,
      b.fifo,
      unblocked db o p o q free m (subst (λ (x : ReactionRow). Memᴰ q x.parts) same n)
          (ground (arith, eq_refl o.profile, eq_refl o.chat)),
    );
  }

  take-Own : (a : ReactionRow) → Memᴰ a db.reactions → Own a → Own (take_row a)
  take-Own a n h = elim (Bool-cases (a.sequence == o.sequence)) [
    | inr miss ↦ rw miss h
    | inl hit ↦ rw hit (record {
      profile = h.profile;
      event = h.event;
      parts =
          Pairs-map_mem PartBefore PartBefore take_part a.parts
            (λ q r mq mr b. take-PartBefore a q r (only_row a n hit) mq b) h.parts;
    })
  ]

  -- The rows before it in its chat are settled.
  settled_row :
      (a : ReactionRow)
      → Memᴰ a db.reactions
      → same_chat a o ≡ true
      → ltb a.sequence o.sequence ≡ true
      → exists is_unsettled a.parts ≡ false
  settled_row a n chat before = all_settled a.parts (
      All-intro (λ x. is_unsettled x ≡ false) a.parts
        (λ x mx. unblocked db o p a x free n mx chat (ground (arith, before))))

  take-Before :
      (a b : ReactionRow)
      → Memᴰ a db.reactions
      → Memᴰ b db.reactions
      → Before a b
      → Before (take_row a) (take_row b)
  take-Before a b na nb h = record {
    sequence = ground (arith, h.sequence);
    event = ground (arith, h.event);
    fifo = elim (Bool-cases (b.sequence == o.sequence)) [
      | inr other ↦ ground (
        arith,
        h.fifo,
        other,
        exists-update_same is_unsettled (claimable p.part) (set_state ReactionState.dispatching)
            a.parts unsettled_still,
      )
      | inl this ↦ fifo_here this
    ];
  }
    where
      fifo_here :
          b.sequence == o.sequence ≡ true
          → (same_chat (take_row a) (take_row b)
              && exists is_unsettled (take_row a).parts
              && exists is_attempted_part (take_row b).parts)
            ≡ false
      fifo_here this =
          let same = only_row b nb this in
          elim (Bool-cases (same_chat a b)) [
            | inr apart ↦ ground (arith, apart)
            | inl chat ↦ ground (
              arith,
              h.sequence,
              settled_row a na (subst (λ x. same_chat a x ≡ true) same chat)
                  (ground (arith, h.sequence, this)),
            )
          ]

  pub take-Inv : Inv (
      update_parts
        (λ (r : ReactionRow). r.sequence == o.sequence)
        (claimable p.part)
        (set_state ReactionState.dispatching)
        db)
  unfolding update_parts
  take-Inv = record {
    order = Pairs-map_mem Before Before take_row db.reactions take-Before inv.order;
    own =
        All-map (λ (a : ReactionRow). Memᴰ a db.reactions × Own a) Own take_row db.reactions
          (λ a h. take-Own a h.0 h.1)
          (All-both (λ a. Memᴰ a db.reactions) Own db.reactions
            (All-intro (λ a. Memᴰ a db.reactions) db.reactions (λ a n. n)) inv.own);
    next =
        All-map (λ a. a.sequence < db.next_reaction) (λ a. a.sequence < db.next_reaction) take_row
          db.reactions (λ a k. ground (arith, k)) inv.next;
  }
