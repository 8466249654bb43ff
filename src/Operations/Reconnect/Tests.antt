-- ===== src/Operations/Reconnect/Tests.antt =====
-- Connection histories, and the theorems about the reconnect policy applied to them.
use threema_beeper.Prelude.{
  ℕ, suc, ◌+◌, ◌-◌, ◌≤◌, ◌≡◌, refl, ◌⊎◌, Bool, true, false, List, [], ◌∷◌, some, none, All, leb,
  length, arith,
}
use threema_beeper.Operations.Reconnect.{
  State, state, observe, watch, window, initial, is_state, track, forget, expire, up, down,
  last_three, alert, raises, close, parse, are_disconnects, all_observed_by,
}
use threema_beeper.Operations.Reconnect.Alerts.{observe-revision, observe_clears, observe_raises}
use threema_beeper.Operations.Reconnect.Total.{observe-total, watch-total}

-- All that the policy computes with.
code : Unit {0}
unfolding observe watch initial is_state track forget expire up down last_three alert raises close
    parse are_disconnects all_observed_by
code = tt

-- A connection that is up after two disconnects.
abbrev shaky : State
shaky = record {
  connected = some true;
  observed_at = some 5000;
  disconnected_at = none;
  stable_since = some 5000;
  disconnects = 2000 ∷ 4000 ∷ [];
  active = false;
  revision = 0;
}

abbrev alarmed : State
alarmed = record {
  connected = some false;
  observed_at = some 6000;
  disconnected_at = some 6000;
  stable_since = none;
  disconnects = 2000 ∷ 4000 ∷ 6000 ∷ [];
  active = true;
  revision = 1;
}

third_disconnect : observe (some shaky) false 6000 ≡ state alarmed
unfolding code
third_disconnect = refl

observe-revision_example :
    ((shaky.active ≡ false) × (alarmed.active ≡ true) × (alarmed.revision ≡ suc shaky.revision))
    ⊎ ((alarmed.revision ≡ shaky.revision) × ((alarmed.active ≡ false) ⊎ (shaky.active ≡ true)))
observe-revision_example = observe-revision shaky alarmed false 6000 third_disconnect

observe_raises_example :
    ((since : ℕ) × (false ≡ false)
      × (alarmed.disconnected_at ≡ some since)
      × (since + window ≤ 6000))
    ⊎ ((3 ≤ length alarmed.disconnects)
        × All (λ d. leb (6000 - d) window ≡ true) alarmed.disconnects)
observe_raises_example = observe_raises shaky alarmed false 6000 third_disconnect refl refl

-- The connection is up again, and ten minutes later the alert is cleared.
abbrev recovering : State
recovering = record {
  connected = some true;
  observed_at = some 7000;
  disconnected_at = none;
  stable_since = some 7000;
  disconnects = 6000 ∷ [];
  active = true;
  revision = 1;
}

abbrev recovered : State
recovered = record recovering { observed_at = some 607000; disconnects = []; active = false }

all_clear : observe (some recovering) true 607000 ≡ state recovered
unfolding code
all_clear = refl

observe_clears_example :
    (since : ℕ) × (true ≡ true)
    × (recovering.connected ≡ some true)
    × (recovering.stable_since ≡ some since)
    × (since + window ≤ 607000)
observe_clears_example = observe_clears recovering recovered true 607000 all_clear refl refl

shaky_valid : is_state shaky ≡ true
unfolding code
shaky_valid = refl

observe-total_example :
    (t : State) × (observe (some shaky) false 6000 ≡ state t)
    × (is_state t ≡ true)
    × (t.revision ≤ suc shaky.revision)
observe-total_example = observe-total shaky false 6000 shaky_valid refl (omega arith)

-- The clock goes back between the two observations.
abbrev history : List (Bool × ℕ)
history = (false, 6000) ∷ (true, 100) ∷ []

watch-total_example :
    (t : State) × (watch shaky history ≡ state t)
    × (is_state t ≡ true)
    × (t.revision ≤ shaky.revision + length history)
watch-total_example = watch-total shaky history shaky_valid (refl, (refl, tt)) (omega arith)
