-- ===== src/Operations/Reconnect/Alerts.antt =====
-- When `observeReconnect` raises an alert, and when it clears one
-- (src/operations/reconnect-policy.ts).
use threema_beeper.Prelude.{
  ℕ, suc, ◌+◌, ◌-◌, ◌≤◌, Bool, true, false, ◌||◌, List, [], ◌∷◌, ◌++◌, some, leb, length,
  if◌then◌else◌, ◌≡◌, ◌⊎◌, inl, inr, arith, Bool-cases, Option-cases, All, All-append, All-drop,
  All-selected,
}
use threema_beeper.Operations.Reconnect.{
  State, state, observe, alert, close, parse, is_prolonged, track, up, down, forget, expire, window,
  is_connected, is_disconnected, last_three, elapsed,
}

-- An observation raises the revision by one when it makes an inactive alert active, and keeps it
-- otherwise.
pub observe-revision :
    (s t : State) (connected : Bool) (now : ℕ)
    → observe (some s) connected now ≡ state t
    → ((s.active ≡ false) × (t.active ≡ true) × (t.revision ≡ suc s.revision))
      ⊎ ((t.revision ≡ s.revision) × ((t.active ≡ false) ⊎ (s.active ≡ true)))
unfolding observe
observe-revision s t connected now e = ground arith

-- An observation clears an active alert only when the connection is up, was up at the observation
-- before, and has been stable for ten minutes.
pub observe_clears :
    (s t : State) (connected : Bool) (now : ℕ)
    → observe (some s) connected now ≡ state t
    → s.active ≡ true
    → t.active ≡ false
    → (since : ℕ) × (connected ≡ true)
      × (s.connected ≡ some true)
      × (s.stable_since ≡ some since)
      × (since + window ≤ now)
unfolding observe
observe_clears s t connected now e a b = elim (Option-cases s.stable_since) [
  | inl none_since ↦ absurd (ground arith)
  | inr (since, at) ↦ (since, ground arith, ground arith, at, ground arith)
]

unfoldable Recent : ℕ → List ℕ → Type 0
Recent now ts = All (λ d. leb (now - d) window ≡ true) ts

expire-Recent : (s : State) (now : ℕ) → Recent now (expire now s).disconnects
unfolding expire Recent
expire-Recent s now = All-selected (λ d. leb (now - d) window) s.disconnects

up-Recent : (s : State) (now : ℕ) → Recent now s.disconnects → Recent now (up now s).disconnects
unfolding up Recent
up-Recent s now k =
    elim (Bool-cases
      (elapsed now (if is_connected s.connected then s.stable_since else some now))) [
        | inl long ↦ rw long tt
        | inr short ↦ rw short k
      ]

down-Recent : (s : State) (now : ℕ) → Recent now s.disconnects → Recent now (down now s).disconnects
unfolding down last_three Recent
down-Recent s now k = elim (Bool-cases (is_disconnected s.connected)) [
  | inl already ↦ rw already k
  | inr lost ↦ elim (Bool-cases (is_connected s.connected)) [
    | inl c ↦ rw lost (
        rw c (
          All-drop (λ d. leb (now - d) window ≡ true) (length (s.disconnects ++ now ∷ []) - 3)
            (s.disconnects ++ now ∷ [])
            (All-append (λ d. leb (now - d) window ≡ true) s.disconnects (now ∷ []) k
              (ground arith, tt))))
    | inr c ↦ rw lost (
        rw c
          (All-drop (λ d. leb (now - d) window ≡ true) (length s.disconnects - 3) s.disconnects k))
  ]
]

track-Recent :
    (s : State) (connected : Bool) (now : ℕ) → Recent now (track connected now s).disconnects
unfolding track
track-Recent s true now =
    up-Recent (expire now (forget now s)) now (expire-Recent (forget now s) now)
track-Recent s false now =
    down-Recent (expire now (forget now s)) now (expire-Recent (forget now s) now)

observe-disconnects :
    (s t : State) (connected : Bool) (now : ℕ)
    → observe (some s) connected now ≡ state t
    → (t.disconnects ≡ (track connected now s).disconnects)
      × (t.disconnected_at ≡ (track connected now s).disconnected_at)
unfolding observe parse alert close
observe-disconnects s t connected now e = (ground arith, ground arith)

observe_reason :
    (s t : State) (connected : Bool) (now : ℕ)
    → observe (some s) connected now ≡ state t
    → s.active ≡ false
    → t.active ≡ true
    → (is_prolonged connected now t || leb 3 (length t.disconnects)) ≡ true
unfolding observe
observe_reason s t connected now e a b = ground arith

-- An observation raises an alert only for a connection that has been down for ten minutes, or when
-- three disconnects, each in the last ten minutes, are on record.
pub observe_raises :
    (s t : State) (connected : Bool) (now : ℕ)
    → observe (some s) connected now ≡ state t
    → s.active ≡ false
    → t.active ≡ true
    → ((since : ℕ) × (connected ≡ false)
        × (t.disconnected_at ≡ some since)
        × (since + window ≤ now))
      ⊎ ((3 ≤ length t.disconnects) × All (λ d. leb (now - d) window ≡ true) t.disconnects)
unfolding observe
observe_raises s t connected now e a b =
    let (same, at) = observe-disconnects s t connected now e in
    let recent : All (λ d. leb (now - d) window ≡ true) t.disconnects =
      rw same (unfold Recent in track-Recent s connected now) in
    let reason = observe_reason s t connected now e a b in
    elim (Bool-cases (leb 3 (length t.disconnects))) [
      | inl many ↦ inr (ground arith, recent)
      | inr few ↦ elim (Option-cases t.disconnected_at) [
        | inl never ↦ absurd (ground (arith, reason))
        | inr (since, down') ↦ inl (since, ground (arith, reason), down', ground (arith, reason))
      ]
    ]
