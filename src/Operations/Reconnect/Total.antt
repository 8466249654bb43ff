-- ===== src/Operations/Reconnect/Total.antt =====
-- No observation of a connection throws while revisions are left
-- (src/operations/reconnect-policy.ts).
use threema_beeper.Prelude.{
  ℕ, suc, ◌+◌, ◌≤◌, ◌<◌, Bool, true, false, ◌&&◌, List, [], ◌∷◌, some, leb, ltb, ◌==◌, length, ◌≡◌,
  refl, ◌⊎◌, inl, inr, arith, Bool-cases, All, map,
}
use threema_beeper.Outbox.Request.{max_safe}
use threema_beeper.Operations.Reconnect.{
  State, state, observe, alert, close, parse, is_state, watch, raises, track, up, down, forget,
  expire, is_timestamp, observed_by, opt, is_consistent,
}
use threema_beeper.Operations.Reconnect.Bounds.{
  Kept, track-Kept, are_disconnects-of, all_observed_by-of,
}

-- The state that the observation leaves, but for the alert.
unfoldable closed : Bool → ℕ → State → State
closed connected now s = record s { connected = some connected; observed_at = some now }

-- What an observation leaves of the other fields is consistent.
abbrev Fits : Bool → ℕ → State → Type 0
Fits connected now t =
    (opt is_timestamp t.disconnected_at ≡ true)
    × (opt is_timestamp t.stable_since ≡ true)
    × (is_consistent (some connected)
          (record t { connected = some connected; observed_at = some now })
        ≡ true)
    × (opt (observed_by (some now)) t.disconnected_at ≡ true)
    × (opt (observed_by (some now)) t.stable_since ≡ true)

track-Fits :
    (s : State) (connected : Bool) (now : ℕ)
    → is_state s ≡ true
    → leb now max_safe ≡ true
    → Fits connected now (track connected now s)
unfolding track up down forget expire is_state
track-Fits s true now h k = (ground arith, ground arith, ground arith, ground arith, ground arith)
track-Fits s false now h k = (ground arith, ground arith, ground arith, ground arith, ground arith)

track_alert :
    (s : State) (connected : Bool) (now : ℕ)
    → ((track connected now s).revision ≡ s.revision)
      × (((track connected now s).active ≡ false) ⊎ ((track connected now s).active ≡ s.active))
unfolding track up down forget expire
track_alert s connected now = ground arith

closed-is_state :
    (t : State) (connected : Bool) (now : ℕ)
    → Kept now t.disconnects
    → Fits connected now t
    → leb now max_safe ≡ true
    → leb t.revision max_safe ≡ true
    → (t.active && t.revision == 0) ≡ false
    → is_state (closed connected now t) ≡ true
unfolding closed is_state
closed-is_state t connected now k f n r a = ground (
  arith,
  k.1,
  are_disconnects-of now t.disconnects k.0 n,
  all_observed_by-of now t.disconnects k.0.0,
  f.0,
  f.1,
  f.2,
  f.3,
  f.4,
)

alert-state :
    (t : State) (connected : Bool) (now : ℕ)
    → Kept now t.disconnects
    → Fits connected now t
    → leb now max_safe ≡ true
    → ltb t.revision max_safe ≡ true
    → (t.active && t.revision == 0) ≡ false
    → (u : State) × (alert connected now t ≡ state u)
      × (is_state u ≡ true)
      × (u.revision ≤ suc t.revision)
unfolding alert close parse
alert-state t connected now k f n r a = elim (Bool-cases (raises connected now t)) [
  | inl raised ↦
      let raised' : State = record t { revision = suc t.revision; active = true } in
      let valid =
        closed-is_state raised' connected now k (f.0, f.1, ground (arith, f.2), f.3, f.4) n
          (ground arith) (ground arith) in
      (
        closed connected now raised',
        unfold closed in ground (arith, valid),
        valid,
        unfold closed in ground arith,
      )
  | inr quiet ↦
      let valid = closed-is_state t connected now k f n (ground arith) a in
      (
        closed connected now t,
        unfold closed in ground (arith, valid),
        valid,
        unfold closed in ground arith,
      )
]

-- An observation of a valid state at a valid time does not throw while a revision is left: it
-- gives a valid state, and raises the revision by one at most.
pub observe-total :
    (s : State) (connected : Bool) (now : ℕ)
    → is_state s ≡ true
    → leb now max_safe ≡ true
    → s.revision < max_safe
    → (t : State) × (observe (some s) connected now ≡ state t)
      × (is_state t ≡ true)
      × (t.revision ≤ suc s.revision)
unfolding observe parse
observe-total s connected now h n r =
    let (rev, act) = track_alert s connected now in
    let (u, e, valid, le) =
      alert-state (track connected now s) connected now (track-Kept s connected now h)
        (track-Fits s connected now h n) n (ground arith) (unfold is_state in ground (arith)) in
    (u, ground (arith, e), valid, ground arith)

-- Connections observed one after the other, each with its time.
abbrev pub times : List (Bool × ℕ) → List ℕ
times seen = map (λ o. o.1) seen

-- Every observation of a list, however its clock jumps, goes through from a valid state while
-- revisions are left for all of them, and the state at the end is valid.
pub watch-total :
    (s : State) (seen : List (Bool × ℕ))
    → is_state s ≡ true
    → All (λ now. leb now max_safe ≡ true) (times seen)
    → s.revision + length seen ≤ max_safe
    → (t : State) × (watch s seen ≡ state t)
      × (is_state t ≡ true)
      × (t.revision ≤ s.revision + length seen)
unfolding watch
watch-total s [] h a r = (s, refl, h, omega arith)
watch-total s ((connected, now) ∷ seen) h a r =
    let (t, e, valid, le) = observe-total s connected now h a.0 (omega arith) in
    let (u, e', valid', le') = watch-total t seen valid a.1 (omega arith) in
    (u, ground (arith, e, e'), valid', omega arith)
