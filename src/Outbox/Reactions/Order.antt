-- ===== src/Outbox/Reactions/Order.antt =====
-- The order in which the parts of a chat are attempted, over every sequence of calls of
-- ReactionJournal (src/outbox/reaction-journal.ts).
use threema_beeper.Prelude.{
  ◌<◌, Bool, true, ◌&&◌, ◌||◌, List, [], ◌∷◌, ltb, ◌==◌, exists_of_mem, ◌≡◌, inl, inr, sym, subst,
  ap, arith, All, All-of, Pairs, Pairs-trichotomy, Memᴰ, Bool-cases,
}
use threema_beeper.Outbox.Tables.{Database, ReactionPart, ReactionRow}
use threema_beeper.Outbox.Reactions.Journal.{is_settled}
use threema_beeper.Outbox.Reactions.Invariant.{
  Inv, Own, Before, PartBefore, is_unsettled, is_attempted_part, same_chat, update_parts-Inv,
}
use threema_beeper.Outbox.Reactions.Claims.{take-Inv}
use threema_beeper.Outbox.Reactions.Reorder.Kept.{reorder-Inv}
use threema_beeper.Outbox.Reactions.Plans.{insert-Inv}
use threema_beeper.Outbox.Reactions.History.{Call, Claimed, call, run}
use threema_beeper.Outbox.Reactions.Steps.{
  Step, kept, planned, settled, claimed, retired, reordered, closed,
}
use threema_beeper.Outbox.Reactions.Calls.{call-Step}

pub Step-Inv : (db db' : Database) (taken : List Claimed) → Step db db' taken → Inv db → Inv db'
Step-Inv db db' taken (kept nothing rows next others) h = record {
  order = subst (Pairs Before) (sym rows) h.order;
  own = subst (All Own) (sym rows) h.own;
  next =
      subst (λ n. All (λ o. o.sequence < n) db'.reactions) (sym next)
        (subst (All (λ o. o.sequence < db.next_reaction)) (sym rows) h.next);
}
Step-Inv db db' taken (planned nothing o fresh is) h = subst Inv (sym is) (insert-Inv db o h fresh)
Step-Inv db db' taken (settled nothing rows test f s is) h =
    subst Inv (sym is) (update_parts-Inv test f s rows db h)
Step-Inv db db' taken (claimed profile o p first is this) h =
    subst Inv (sym is) (take-Inv db h o p first.row first.prepared first.free)
Step-Inv db db' taken (retired nothing profile event r found fits is) h =
    subst Inv (sym is) (record { order = h.order; own = h.own; next = h.next })
Step-Inv db db' taken (reordered nothing source n done) h = reorder-Inv source db db' n h done
Step-Inv db db' taken (closed nothing profile event is) h =
    subst Inv (sym is) (record { order = h.order; own = h.own; next = h.next })

pub run-Inv : (calls : List Call) (db : Database) → Inv db → Inv (run calls db).0
unfolding run
run-Inv [] db h = h
run-Inv (c ∷ calls) db h =
    run-Inv calls (call c db).0 (Step-Inv db (call c db).0 (call c db).1 (call-Step c db) h)

-- ORDER BY sequence, part: the part `p` of `a` stands before the part `q` of `b`.
abbrev pub is_earlier : ReactionRow → ReactionPart → ReactionRow → ReactionPart → Bool
is_earlier a p b q = ltb a.sequence b.sequence || (a.sequence == b.sequence && ltb p.part q.part)

-- The order of the parts in a journal that keeps the invariant.
settled_before :
    (db : Database) (a b : ReactionRow) (p q : ReactionPart)
    → Inv db
    → Memᴰ a db.reactions
    → Memᴰ p a.parts
    → Memᴰ b db.reactions
    → Memᴰ q b.parts
    → same_chat a b ≡ true
    → is_earlier a p b q ≡ true
    → is_attempted_part q ≡ true
    → is_settled p.state ≡ true
settled_before db a b p q h ma mp mb mq chat before tried =
    elim (Pairs-trichotomy Before db.reactions h.order ma mb) [
      | inr (inl ab) ↦ ground (
        arith,
        ab.fifo,
        ab.sequence,
        exists_of_mem is_attempted_part b.parts mq tried,
        Bool-cases (is_settled p.state),
        λ (e : is_unsettled p ≡ true). exists_of_mem is_unsettled a.parts mp e,
      )
      | inr (inr ba) ↦ absurd (ground (arith, ba.sequence))
      | inl same ↦
          elim (Pairs-trichotomy PartBefore a.parts (All-of Own db.reactions h.own ma).parts mp
            (subst (λ (x : ReactionRow). Memᴰ q x.parts) (sym same) mq)) [
              | inl one ↦ absurd (
                  ground (
                    arith,
                    ap (λ (x : ReactionRow). x.sequence) same,
                    ap (λ (x : ReactionPart). x.part) one,
                  ))
              | inr (inl pq) ↦ ground (arith, pq.fifo)
              | inr (inr qp) ↦
                  absurd (ground (arith, ap (λ (x : ReactionRow). x.sequence) same, qp.part))
            ]
    ]

-- Whatever sequence of calls is made, in a journal that keeps its invariant to begin with: of two
-- parts of one chat, with the earlier one in a row of lower sequence or with a lower number in the
-- same row, the later one is still PREPARED unless the earlier one is SENT or REJECTED.
pub reactions_in_order :
    (calls : List Call) (db : Database) (a b : ReactionRow) (p q : ReactionPart)
    → Inv db
    → Memᴰ a (run calls db).0.reactions
    → Memᴰ p a.parts
    → Memᴰ b (run calls db).0.reactions
    → Memᴰ q b.parts
    → same_chat a b ≡ true
    → is_earlier a p b q ≡ true
    → is_attempted_part q ≡ true
    → is_settled p.state ≡ true
reactions_in_order calls db a b p q h ma mp mb mq chat before tried =
    settled_before (run calls db).0 a b p q (run-Inv calls db h) ma mp mb mq chat before tried
