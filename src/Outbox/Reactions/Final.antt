-- ===== src/Outbox/Reactions/Final.antt =====
-- The operations whose retirement ReactionJournal has planned, over every sequence of calls
-- (src/outbox/reaction-journal.ts).
use threema_beeper.Prelude.{
  String, Bool, true, false, not, ◌&&◌, List, [], ◌∷◌, map, some, exists, exists-append_left,
  exists-map, exists_of_mem, update, update_row, All-imp, All-append, All-map, select_one,
  select_one-Mem, insert_or_ignore, ◌≡◌, refl, inl, inr, sym, subst, ap, arith, All, Bool-cases,
  Option-cases,
}
use threema_beeper.Outbox.Result.{ok}
use threema_beeper.Outbox.Tables.{Database, ReactionState, ReactionPart, ReactionRow, RetirementRow}
use threema_beeper.Outbox.Reactions.Journal.{is_row, get, ReactionRecord, is_sent, insert}
use threema_beeper.Outbox.Reactions.Dispatch.{is_apply}
use threema_beeper.Outbox.Reactions.Retirement.{is_plan, is_retired}
use threema_beeper.Outbox.Reactions.Dispatch.{update_parts, claimable, set_state}
use threema_beeper.Outbox.Reactions.Plans.{serialize_cases}
use threema_beeper.Outbox.Reactions.Reorder.Kept.{reorder-exists, reorder-retirements}
use threema_beeper.Outbox.Reactions.History.{Call, Claimed, call, run}
use threema_beeper.Outbox.Reactions.Steps.{
  Step, kept, planned, settled, claimed, retired, reordered, closed,
}
use threema_beeper.Outbox.Reactions.Calls.{call-Step}

-- The plan of the retirement's event is to apply a reaction, and each of its parts is SENT.
abbrev pub is_final : Database → RetirementRow → Bool
is_final db r =
    exists
      (λ o.
        is_row r.profile r.event o
        && is_apply o.body.action
        && not (exists (λ p. not (is_sent p.state)) o.parts))
      db.reactions

still_sent :
    (test : ReactionPart → Bool) (f : ReactionPart → ReactionPart) (ps : List ReactionPart)
    → ((p : ReactionPart) → is_sent p.state ≡ true → is_sent (update_row test f p).state ≡ true)
    → exists (λ p. not (is_sent p.state)) ps ≡ false
    → exists (λ p. not (is_sent p.state)) (update test f ps) ≡ false
still_sent test f [] keep h = refl
still_sent test f (p ∷ ps) keep h = elim (Bool-cases (is_sent p.state)) [
  | inr missed ↦ absurd (ground (arith, h, missed))
  | inl it ↦ ground (arith, keep p it, still_sent test f ps keep (ground (arith, h)))
]

update-is_final :
    (rows : ReactionRow → Bool) (test : ReactionPart → Bool) (f : ReactionPart → ReactionPart)
    (db : Database) (r : RetirementRow)
    → ((p : ReactionPart) → is_sent p.state ≡ true → is_sent (update_row test f p).state ≡ true)
    → is_final db r ≡ true
    → is_final (update_parts rows test f db) r ≡ true
unfolding update_parts
update-is_final rows test f db r keep h =
    exists-map _ _
      (update_row rows (λ (o : ReactionRow). record o { parts = update test f o.parts }))
      db.reactions
      (λ o e. elim (Bool-cases (rows o)) [
        | inr miss ↦ ground (arith, e, miss)
        | inl hit ↦ ground (arith, e, hit, still_sent test f o.parts keep (ground (arith, e)))
      ])
      h

Step-is_final :
    (db db' : Database) (taken : List Claimed) (r : RetirementRow)
    → Step db db' taken
    → is_final db r ≡ true
    → is_final db' r ≡ true
unfolding insert
Step-is_final db db' taken r (kept nothing rows next others) h =
    subst
      (λ rs.
        exists
          (λ o.
            is_row r.profile r.event o
            && is_apply o.body.action
            && not (exists (λ p. not (is_sent p.state)) o.parts))
          rs
        ≡ true)
      (sym rows) h
Step-is_final db db' taken r (planned nothing o fresh is) h =
    subst (λ d. is_final d r ≡ true) (sym is) (exists-append_left _ db.reactions _ h)
Step-is_final db db' taken r (settled nothing rows test f s is) h =
    subst (λ d. is_final d r ≡ true) (sym is) (update-is_final rows test f db r s.sent h)
Step-is_final db db' taken r (claimed profile o p first is this) h =
    subst (λ d. is_final d r ≡ true) (sym is)
      (update-is_final _ (claimable p.part) (set_state ReactionState.dispatching) db r
        (λ q e. ground (arith, e)) h)
Step-is_final db db' taken r (retired nothing profile event found has fits is) h =
    subst (λ d. is_final d r ≡ true) (sym is) h
Step-is_final db db' taken r (reordered nothing source n done) h =
    reorder-exists source db db' n _ (λ o k. refl) done h
Step-is_final db db' taken r (closed nothing profile event is) h =
    subst (λ d. is_final d r ≡ true) (sym is) h

all_sent :
    (ps : List ReactionPart)
    → exists (λ s. not (is_sent s)) (map (λ (p : ReactionPart). p.state) ps) ≡ false
    → exists (λ p. not (is_sent p.state)) ps ≡ false
all_sent [] h = refl
all_sent (p ∷ ps) h = ground (arith, h, all_sent ps)

-- The row that a plan finds is final.
plan-is_final :
    (db : Database) (profile event : String) (r : ReactionRecord)
    → get db profile event ≡ ok (some r)
    → is_plan r ≡ true
    → is_final db (record { profile = profile; event = event; is_done = false }) ≡ true
unfolding get
plan-is_final db profile event r found fits =
    elim (Option-cases (select_one (is_row profile event) db.reactions)) [
      | inl missing ↦ absurd (ground (arith, found, missing))
      | inr (o, here) ↦
          let (m, mine) = select_one-Mem (is_row profile event) db.reactions here in
          elim (serialize_cases o.body) [
            | inr (e, invalid) ↦ absurd (ground (arith, found, here, invalid))
            | inl valid ↦
                let same : record {
                  operation = o.body;
                  states = map (λ (p : ReactionPart). p.state) o.parts;
                }
                    ≡ r =
                  ground (arith, found, here, valid) in
                let fits' = subst (λ (x : ReactionRecord). is_plan x ≡ true) (sym same) fits in
                exists_of_mem _ db.reactions m
                  (ground (arith, mine, fits', all_sent o.parts (ground (arith, fits'))))
          ]
    ]

-- A planned retirement, or one that is carried out, is of a final row.
insert-final :
    (db db' : Database) (clash : RetirementRow → Bool) (new : RetirementRow)
    (xs : List RetirementRow)
    → is_final db' new ≡ true
    → All (λ r. is_final db' r ≡ true) xs
    → All (λ r. is_final db' r ≡ true) (insert_or_ignore clash new xs)
insert-final db db' clash new xs it h = elim (Bool-cases (exists clash xs)) [
  | inl there ↦ rw there h
  | inr absent ↦ rw absent (All-append (λ r. is_final db' r ≡ true) xs (new ∷ []) h (it, tt))
]

Step-final :
    (db db' : Database) (taken : List Claimed)
    → Step db db' taken
    → All (λ r. is_final db r ≡ true) db.retirements
    → All (λ r. is_final db' r ≡ true) db'.retirements
unfolding insert update_parts
Step-final db db' taken s h =
    let kept_rows =
      All-imp (λ r. is_final db r ≡ true) (λ r. is_final db' r ≡ true) db.retirements
        (λ r k. Step-is_final db db' taken r s k) h in
    rows s kept_rows
  where
    rows :
        Step db db' taken
        → All (λ r. is_final db' r ≡ true) db.retirements
        → All (λ r. is_final db' r ≡ true) db'.retirements
    rows (kept nothing same next others) k = subst (All (λ r. is_final db' r ≡ true)) (sym others) k
    rows (planned nothing o fresh is) k =
        subst (All (λ r. is_final db' r ≡ true)) (sym (ap (λ d. d.retirements) is)) k
    rows (settled nothing test part f settles is) k =
        subst (All (λ r. is_final db' r ≡ true)) (sym (ap (λ d. d.retirements) is)) k
    rows (claimed profile o p first is this) k =
        subst (All (λ r. is_final db' r ≡ true)) (sym (ap (λ d. d.retirements) is)) k
    rows (retired nothing profile event r found fits is) k =
        subst (All (λ r. is_final db' r ≡ true)) (sym (ap (λ d. d.retirements) is)) (
          insert-final db db' (is_retired profile event)
            (record { profile = profile; event = event; is_done = false }) db.retirements
            (Step-is_final db db' taken
              (record { profile = profile; event = event; is_done = false }) s
              (plan-is_final db profile event r found fits))
            k)
    rows (reordered nothing source n done) k =
        subst (All (λ r. is_final db' r ≡ true)) (sym (reorder-retirements source db db' n done)) k
    rows (closed nothing profile event is) k =
        subst (All (λ r. is_final db' r ≡ true)) (sym (ap (λ d. d.retirements) is)) (
          All-map (λ r. is_final db' r ≡ true) (λ r. is_final db' r ≡ true)
            (update_row (is_retired profile event)
              (λ (r : RetirementRow). record r { is_done = true }))
            db.retirements
            (λ r e. elim (Bool-cases (is_retired profile event r)) [
              | inl hit ↦ rw hit e
              | inr miss ↦ rw miss e
            ])
            k)

-- Whatever sequence of calls is made, in a journal where it holds to begin with: every row of
-- reaction_retirements is of an event whose plan is to apply a reaction and whose parts are all
-- SENT.
pub retirements_are_final :
    (calls : List Call) (db : Database)
    → All (λ r. is_final db r ≡ true) db.retirements
    → All (λ r. is_final (run calls db).0 r ≡ true) (run calls db).0.retirements
unfolding run
retirements_are_final [] db h = h
retirements_are_final (c ∷ calls) db h =
    retirements_are_final calls (call c db).0
      (Step-final db (call c db).0 (call c db).1 (call-Step c db) h)
