-- ===== src/Outbox/Recovery/Settlement.antt =====
-- What a pass of ReactionRecovery does to the journal (src/outbox/reaction-recovery.ts).
use threema_beeper.Prelude.{
  ℕ, String, Bool, true, false, ◌&&◌, List, [], ◌∷◌, ◌++◌, some, leb, ◌≡◌, refl, inl, inr, sym, ap,
  ◌∙◌, arith, All, All-append, All-intro, All-imp, Memᴰ, Bool-cases, Option-cases,
}
use threema_beeper.Outbox.Tables.{Database, ReactionOperation}
use threema_beeper.Outbox.Reactions.Dispatch
use threema_beeper.Outbox.Reactions.Recovery.{Cursor, Uncertain, uncertain}
use threema_beeper.Outbox.Reactions.History.{Call, call, run, observe_desired_state}
use threema_beeper.Outbox.Reactions.Steps.{Result-cases}
use threema_beeper.Outbox.Dispatcher.{request}
use threema_beeper.Outbox.Recovery.{
  Answer, Progress, Pass, Turn, again, broken, settle, ask, turn, pass_of, settle_page, begin,
  first_cursor, is_past_end, from_cursor, process, drain,
}

-- A call of others while an answer is awaited, or the observation of an authorized part with the
-- state that the backend gave.
pub data Allowed (answers : List Answer) (c : Call) : Type 0 where
  others : (a : Answer) → Memᴰ a answers → Memᴰ c a.during_check → Allowed answers c
  others_later : (a : Answer) → Memᴰ a answers → Memᴰ c a.during_state → Allowed answers c
  observed :
      (a : Answer) (o : ReactionOperation) (part : ℕ) (present : Bool)
      → Memᴰ a answers
      → a.authorize o ≡ true
      → a.state (request o.profile o part) ≡ some present
      → c ≡ observe_desired_state o.profile o.event part present
      → Allowed answers c

-- The journal `db'` is what a list of allowed calls makes of `db`.
pub record Settles (answers : List Answer) (db db' : Database) : Type 0 where
  pub calls : List Call
  pub allowed : All (Allowed answers) calls
  pub result : db' ≡ (run calls db).0

run-append : (xs ys : List Call) (db : Database) → (run (xs ++ ys) db).0 ≡ (run ys (run xs db).0).0
unfolding run
run-append [] ys db = refl
run-append (x ∷ xs) ys db = run-append xs ys (call x db).0

none-Settles : (answers : List Answer) (db : Database) → Settles answers db db
unfolding run
none-Settles answers db = record { calls = []; allowed = tt; result = refl }

then-Settles :
    (answers : List Answer) (a b c : Database)
    → Settles answers a b
    → Settles answers b c
    → Settles answers a c
then-Settles answers a b c f g = record {
  calls = f.calls ++ g.calls;
  allowed = All-append (Allowed answers) f.calls g.calls f.allowed g.allowed;
  result = g.result ∙ ap (λ d. (run g.calls d).0) f.result ∙ sym (run-append f.calls g.calls a);
}

more_answers :
    (b : Answer) (answers : List Answer) (c : Call) → Allowed answers c → Allowed (b ∷ answers) c
more_answers b answers c (others a m n) = others a (Memᴰ.tail m) n
more_answers b answers c (others_later a m n) = others_later a (Memᴰ.tail m) n
more_answers b answers c (observed a o part present m authorized state is) =
    observed a o part present (Memᴰ.tail m) authorized state is

tail-Settles :
    (b : Answer) (answers : List Answer) (db db' : Database)
    → Settles answers db db'
    → Settles (b ∷ answers) db db'
tail-Settles b answers db db' f = record {
  calls = f.calls;
  allowed =
      All-imp (Allowed answers) (Allowed (b ∷ answers)) f.calls (λ c h. more_answers b answers c h)
        f.allowed;
  result = f.result;
}

abbrev progress : Turn → Progress
progress (again s) = s
progress (broken s) = s

module _ (answers : List Answer) (a : Answer) (given : Memᴰ a answers) where
  -- An observation, whether or not it throws, is a call.
  settle-Settles :
      (s : Progress) (u : Uncertain) (present : Bool)
      → a.authorize u.operation ≡ true
      → a.state (request u.operation.profile u.operation u.part) ≡ some present
      → Settles answers s.db (progress (settle s u present)).db
  unfolding settle run call
  settle-Settles s u present authorized state = record {
    calls = observe_desired_state u.operation.profile u.operation.event u.part present ∷ [];
    allowed = (observed a u.operation u.part present given authorized state refl, tt);
    result =
        elim (Result-cases (
          Dispatch.observe_desired_state s.db u.operation.profile u.operation.event u.part
            present)) [
              | inr (e, bad) ↦ ground (arith, bad)
              | inl ((db, true), got) ↦ ground (arith, got)
              | inl ((db, false), got) ↦ ground (arith, got)
            ];
  }

  ask-Settles :
      (s : Progress) (u : Uncertain)
      → a.authorize u.operation ≡ true
      → Settles answers s.db (progress (ask a s u)).db
  unfolding ask
  ask-Settles s u authorized =
      let mid : Database = (run a.during_state s.db).0 in
      let f : Settles answers s.db mid = record {
        calls = a.during_state;
        allowed = All-intro (Allowed answers) a.during_state (λ c m. others_later a given m);
        result = refl;
      } in
      elim (Bool-cases a.ready_to_ask) [
        | inr stopped ↦ rw (stopped, ask) (none-Settles answers s.db)
        | inl on ↦
            rw (on, ask)
              (elim (Option-cases (a.state (request u.operation.profile u.operation u.part))) [
                | inl missing ↦ rw (missing, ask) f
                | inr (present, state) ↦
                    rw (state, ask)
                      (elim (Bool-cases a.ready_to_settle) [
                        | inr stopped ↦ rw (stopped, ask) f
                        | inl still ↦
                            rw (still, ask)
                              (then-Settles answers s.db mid _ f
                                (settle-Settles (record s { db = mid }) u present authorized state))
                      ])
              ])
      ]

  turn-Settles : (s : Progress) (u : Uncertain) → Settles answers s.db (progress (turn a s u)).db
  unfolding turn
  turn-Settles s u =
      let mid : Database = (run a.during_check s.db).0 in
      let f : Settles answers s.db mid = record {
        calls = a.during_check;
        allowed = All-intro (Allowed answers) a.during_check (λ c m. others a given m);
        result = refl;
      } in
      elim (Bool-cases a.ready) [
        | inr stopped ↦ rw (stopped, turn) (none-Settles answers s.db)
        | inl on ↦
            rw (on, turn)
              (elim (Bool-cases (a.authorize u.operation)) [
                | inr barred ↦ rw (barred, turn) f
                | inl passed ↦
                    rw (passed, turn)
                      (then-Settles answers s.db mid _ f (
                        ask-Settles
                          (record s {
                            db = mid;
                            cursor = record { sequence = u.sequence; part = some u.part };
                          })
                          u passed))
              ])
      ]

pass-Settles :
    (answers : List Answer) (db : Database) (t : Turn) (f : Progress → Pass)
    → Settles answers db (progress t).db
    → ((s : Progress) → Settles answers s.db (f s).db)
    → Settles answers db (pass_of t f).db
pass-Settles answers db (again s) f h rest = then-Settles answers db s.db (f s).db h (rest s)
pass-Settles answers db (broken s) f h rest = h

page-Settles :
    (answers : List Answer) (page : List Uncertain) (s : Progress)
    → Settles answers s.db (settle_page answers page s).db
unfolding settle_page
page-Settles answers [] s = none-Settles answers s.db
page-Settles [] (u ∷ page) s = none-Settles [] s.db
page-Settles (a ∷ answers) (u ∷ page) s =
    pass-Settles (a ∷ answers) s.db (turn a s u) (λ t. settle_page answers page t)
      (turn-Settles (a ∷ answers) a (Memᴰ.head refl) s u)
      (λ t. tail-Settles a answers t.db _ (page-Settles answers page t))

from_cursor-Settles :
    (profile : String) (limit : ℕ) (answers : List Answer) (db : Database) (cursor : Cursor)
    → Settles answers db (from_cursor profile limit answers db cursor).db
unfolding from_cursor
from_cursor-Settles profile limit answers db cursor =
    elim (Result-cases (uncertain db profile limit cursor)) [
      | inr (e, bad) ↦ rw (bad, from_cursor) (none-Settles answers db)
      | inl (page, got) ↦ rw (got, from_cursor) (page-Settles answers page (begin db cursor))
    ]

-- Whatever the environment answers, a recovery pass changes the journal only by calls that others
-- make while it waits, and by observations, each of an authorized operation and of a part whose
-- state the backend has just reported, with that report; and what it leaves is what these calls,
-- one after the other, make of the journal.
pub recovery_only_observes :
    (profile : String) (limit : ℕ) (ready : Bool) (answers : List Answer) (db : Database)
    (cursor : Cursor)
    → Settles answers db (drain profile limit ready answers db cursor).db
unfolding drain process
recovery_only_observes profile limit ready answers db cursor =
    elim (Bool-cases (leb 1 limit && leb limit 1000)) [
      | inr wrong ↦ rw (wrong, drain) (none-Settles answers db)
      | inl right ↦
          rw (right, drain)
            (elim (Bool-cases ready) [
              | inr stopped ↦ rw (stopped, process) (none-Settles answers db)
              | inl on ↦
                  rw (on, process)
                    (elim (Result-cases (uncertain db profile limit cursor)) [
                      | inr (e, bad) ↦ rw (bad, process) (none-Settles answers db)
                      | inl (page, got) ↦
                          rw (got, process)
                            (elim (Bool-cases (is_past_end page cursor)) [
                              | inl over ↦
                                  rw (over, process)
                                    (from_cursor-Settles profile limit answers db first_cursor)
                              | inr within ↦
                                  rw (within, process) (page-Settles answers page (begin db cursor))
                            ])
                    ])
            ])
    ]
