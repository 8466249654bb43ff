-- ===== src/Outbox/Reactions/Attempts.antt =====
-- What the claims of ReactionJournal return over a sequence of calls
-- (src/outbox/reaction-journal.ts).
use threema_beeper.Prelude.{
  refl, ℕ, String, Bool, true, false, ◌&&◌, List, str_eq, eq_iff, eq_refl, ◌==◌, exists,
  exists-true, exists_of_mem, exists-map, exists-append_left, mem-update, update, update_row, ◌≡◌,
  inl, inr, sym, subst, ap, arith, All-of, Pairs-trichotomy, Memᴰ, Bool-cases,
}
use threema_beeper.Outbox.Tables.{Database, ReactionState, ReactionPart, ReactionRow}
use threema_beeper.Outbox.Reactions.Journal.{is_row, is_prepared, insert}
use threema_beeper.Outbox.Reactions.Dispatch.{update_parts, claimable, set_state}
use threema_beeper.Outbox.Reactions.Invariant.{Inv, Own, Before, PartBefore, is_attempted_part}
use threema_beeper.Outbox.Reactions.Reorder.Kept.{reorder-exists}
use threema_beeper.Outbox.Reactions.Claims.{IsFirst}
use threema_beeper.Outbox.Reactions.History.{Claimed}
use threema_beeper.Outbox.Reactions.Steps.{
  Step, kept, planned, settled, claimed, retired, reordered, closed,
}

abbrev pub is_numbered : ℕ → ReactionPart → Bool
is_numbered n p = p.part == n && is_attempted_part p

abbrev pub is_attempted_row : Claimed → ReactionRow → Bool
is_attempted_row c o = is_row c.profile c.event o && exists (is_numbered c.part) o.parts

-- The part is in the table and past PREPARED.
abbrev pub is_attempted : Database → Claimed → Bool
is_attempted db c = exists (is_attempted_row c) db.reactions

abbrev pub same_claim : Claimed → Claimed → Bool
same_claim c d = str_eq c.profile d.profile && str_eq c.event d.event && c.part == d.part

-- An update that keeps the numbers of parts, and what is attempted.
update-attempted :
    (rows : ReactionRow → Bool) (test : ReactionPart → Bool) (f : ReactionPart → ReactionPart)
    (db : Database) (c : Claimed)
    → ((p : ReactionPart)
        → is_numbered c.part p ≡ true
        → is_numbered c.part (update_row test f p) ≡ true)
    → is_attempted db c ≡ true
    → is_attempted (update_parts rows test f db) c ≡ true
unfolding update_parts
update-attempted rows test f db c keep h =
    exists-map (is_attempted_row c) (is_attempted_row c)
      (update_row rows (λ (o : ReactionRow). record o { parts = update test f o.parts }))
      db.reactions
      (λ o e. elim (Bool-cases (rows o)) [
        | inr miss ↦ ground (arith, e, miss)
        | inl hit ↦ ground (
          arith,
          e,
          hit,
          exists-map (is_numbered c.part) (is_numbered c.part) (update_row test f) o.parts keep,
        )
      ])
      h

-- What was attempted before a step is attempted after it.
pub still_attempted :
    (db db' : Database) (taken : List Claimed) (c : Claimed)
    → Step db db' taken
    → is_attempted db c ≡ true
    → is_attempted db' c ≡ true
unfolding insert
still_attempted db db' taken c (kept nothing rows next others) h =
    subst (λ r. exists (is_attempted_row c) r ≡ true) (sym rows) h
still_attempted db db' taken c (planned nothing o fresh is) h =
    subst (λ d. is_attempted d c ≡ true) (sym is)
      (exists-append_left (is_attempted_row c) db.reactions _ h)
still_attempted db db' taken c (settled nothing rows test f s is) h =
    subst (λ d. is_attempted d c ≡ true) (sym is)
      (update-attempted rows test f db c (λ p e. ground (arith, e, s.part p, s.attempted p)) h)
still_attempted db db' taken c (claimed profile o p first is this) h =
    subst (λ d. is_attempted d c ≡ true) (sym is)
      (update-attempted _ (claimable p.part) (set_state ReactionState.dispatching) db c
        (λ q e. ground (arith, e)) h)
still_attempted db db' taken c (retired nothing profile event r found fits is) h =
    subst (λ d. is_attempted d c ≡ true) (sym is) h
still_attempted db db' taken c (reordered nothing source n done) h =
    reorder-exists source db db' n (is_attempted_row c) (λ o k. refl) done h
still_attempted db db' taken c (closed nothing profile event is) h =
    subst (λ d. is_attempted d c ≡ true) (sym is) h

abbrev pub claim_of : String → ReactionRow → ReactionPart → Claimed
claim_of profile o p = record { profile = profile; event = o.body.event; part = p.part }

module _ (db : Database) (inv : Inv db) (profile : String) (o : ReactionRow) (p : ReactionPart)
    (first : IsFirst db profile o p db.reactions) where
  is_own : is_row profile o.body.event o ≡ true
  is_own =
      let own = All-of Own db.reactions inv.own first.row in
      ground (arith, first.mine, own.event, eq_refl o.event)

  only_part : (q : ReactionPart) → Memᴰ q o.parts → is_numbered p.part q ≡ false
  only_part q m =
      elim (Pairs-trichotomy PartBefore o.parts (All-of Own db.reactions inv.own first.row).parts m
        first.part) [
          | inl same ↦
              ground (arith, ap (λ (x : ReactionPart). is_prepared x.state) same, first.prepared)
          | inr (inl b) ↦ ground (arith, b.part)
          | inr (inr b) ↦ ground (arith, b.part)
        ]

  only_row : (a : ReactionRow) → Memᴰ a db.reactions → is_row profile o.body.event a ≡ true → a ≡ o
  only_row a m e =
      let own = All-of Own db.reactions inv.own first.row in
      elim (Pairs-trichotomy Before db.reactions inv.order m first.row) [
        | inl same ↦ same
        | inr (inl b) ↦
            absurd (ground (arith, b.event, e, own.event, eq_iff o.profile profile, first.mine))
        | inr (inr b) ↦ absurd (
            ground (
              arith,
              b.event,
              e,
              own.event,
              eq_iff o.profile profile,
              first.mine,
              eq_iff a.profile profile,
              eq_iff a.event o.body.event,
              eq_refl a.profile,
              eq_refl a.event,
            ))
      ]

  -- The part that a claim takes was not attempted before.
  pub was_prepared : is_attempted db (claim_of profile o p) ≡ false
  was_prepared = elim (Bool-cases (is_attempted db (claim_of profile o p))) [
    | inr never ↦ never
    | inl before ↦
        let (a, ma, ea) =
          exists-true (is_attempted_row (claim_of profile o p)) db.reactions before in
        let (q, mq, tried) = exists-true (is_numbered p.part) a.parts (ground (arith, ea)) in
        let same = only_row a ma (ground (arith, ea)) in
        absurd
          (ground (arith, tried, only_part q (subst (λ (x : ReactionRow). Memᴰ q x.parts) same mq)))
  ]

  -- It is attempted afterwards.
  pub is_taken :
      is_attempted
        (update_parts
          (λ r. r.sequence == o.sequence)
          (claimable p.part)
          (set_state ReactionState.dispatching)
          db)
        (claim_of profile o p)
      ≡ true
  unfolding update_parts
  is_taken =
      exists_of_mem (is_attempted_row (claim_of profile o p)) _
        (mem-update (λ r. r.sequence == o.sequence)
          (λ r. record r {
            parts = update (claimable p.part) (set_state ReactionState.dispatching) r.parts;
          })
          db.reactions first.row)
        (ground (
          arith,
          is_own,
          first.prepared,
          exists_of_mem (is_numbered p.part)
              (update (claimable p.part) (set_state ReactionState.dispatching) o.parts)
              (mem-update (claimable p.part) (set_state ReactionState.dispatching) o.parts
                first.part),
        ))
