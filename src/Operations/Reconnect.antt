-- ===== src/Operations/Reconnect.antt =====
-- The reconnect policy (src/operations/reconnect-policy.ts): which connection histories raise an
-- alert. The state is a parsed `ReconnectState`; times are milliseconds.
pub mod Alerts
pub mod Bounds
pub mod Total
mod Tests
use threema_beeper.Prelude.{
  ℕ, suc, ◌+◌, ◌-◌, Bool, true, false, not, ◌&&◌, ◌||◌, List, [], ◌∷◌, ◌++◌, Option, none, some,
  leb, ltb, ◌==◌, length, drop, select, if◌then◌else◌,
}
use threema_beeper.Outbox.Request.{max_safe}

pub record State : Type 0 where
  pub connected : Option Bool
  pub observed_at : Option ℕ
  pub disconnected_at : Option ℕ
  pub stable_since : Option ℕ
  pub disconnects : List ℕ
  pub active : Bool
  pub revision : ℕ

abbrev pub window : ℕ
window = 600000

abbrev pub threshold : ℕ
threshold = 3

abbrev pub is_timestamp : ℕ → Bool
is_timestamp t = leb t max_safe

unfoldable pub are_disconnects : List ℕ → Bool
are_disconnects [] = true
are_disconnects (t ∷ []) = is_timestamp t
are_disconnects (t ∷ u ∷ ts) = (is_timestamp t && leb t u) && are_disconnects (u ∷ ts)

abbrev pub opt : (ℕ → Bool) → Option ℕ → Bool
opt test none = true
opt test (some t) = test t

abbrev pub is_none {ℓ} : {A : Type ℓ} → Option A → Bool
is_none none = true
is_none (some _) = false

-- `t === undefined || !(observedAt === undefined || t > observedAt)`.
abbrev pub observed_by : Option ℕ → ℕ → Bool
observed_by none t = false
observed_by (some o) t = leb t o

unfoldable pub all_observed_by : Option ℕ → List ℕ → Bool
all_observed_by o [] = true
all_observed_by o (t ∷ ts) = observed_by o t && all_observed_by o ts

-- The fields that go with the connection.
abbrev pub is_consistent : Option Bool → State → Bool
is_consistent none s = true
is_consistent (some true) s =
    is_none s.disconnected_at && not (is_none s.observed_at) && not (is_none s.stable_since)
is_consistent (some false) s =
    is_none s.stable_since && not (is_none s.observed_at) && not (is_none s.disconnected_at)

-- The conditions of `parseReconnectState`.
unfoldable pub is_state : State → Bool
unfolding are_disconnects all_observed_by
is_state s =
    is_timestamp s.revision
    && leb (length s.disconnects) threshold
    && are_disconnects s.disconnects
    && opt is_timestamp s.observed_at
    && opt is_timestamp s.disconnected_at
    && opt is_timestamp s.stable_since
    && is_consistent s.connected s
    && all_observed_by s.observed_at s.disconnects
    && opt (observed_by s.observed_at) s.disconnected_at
    && opt (observed_by s.observed_at) s.stable_since
    && not (s.active && s.revision == 0)

pub data Failure : Type 0 where
  invalid_state invalid_observation exhausted : Failure

pub data Observed : Type 0 where
  thrown : Failure → Observed
  state : State → Observed

unfoldable pub parse : State → Observed
parse s = if is_state s then state s else thrown invalid_state

unfoldable pub initial : State
initial = record {
  connected = none;
  observed_at = none;
  disconnected_at = none;
  stable_since = none;
  disconnects = [];
  active = false;
  revision = 0;
}

abbrev pub is_rollback : Option ℕ → ℕ → Bool
is_rollback none now = false
is_rollback (some o) now = ltb now o

-- A clock that went back forgets what it measured.
unfoldable pub forget : ℕ → State → State
forget now s =
    if is_rollback s.observed_at now
    then record s {
      disconnects = [];
      stable_since = none;
      disconnected_at = none;
      connected = none;
    }
    else s

unfoldable pub expire : ℕ → State → State
expire now s = record s { disconnects = select (λ t. leb (now - t) window) s.disconnects }

abbrev pub is_connected : Option Bool → Bool
is_connected (some true) = true
is_connected _ = false

abbrev pub is_disconnected : Option Bool → Bool
is_disconnected (some false) = true
is_disconnected _ = false

abbrev pub elapsed : ℕ → Option ℕ → Bool
elapsed now none = false
elapsed now (some t) = leb window (now - t)

unfoldable pub up : ℕ → State → State
up now s =
    let since = if is_connected s.connected then s.stable_since else some now in
    let t = record s { stable_since = since; disconnected_at = none } in
    if elapsed now since then record t { active = false; disconnects = [] } else t

-- `disconnects.slice(-reconnectThreshold)`.
unfoldable pub last_three : List ℕ → List ℕ
last_three ts = drop (length ts - threshold) ts

unfoldable pub down : ℕ → State → State
unfolding last_three
down now s = if is_disconnected s.connected then record s { stable_since = none } else record s {
  stable_since = none;
  disconnected_at = some now;
  disconnects =
      last_three (if is_connected s.connected then s.disconnects ++ now ∷ [] else s.disconnects);
}

abbrev pub is_prolonged : Bool → ℕ → State → Bool
is_prolonged connected now s = not connected && elapsed now s.disconnected_at

unfoldable pub raises : Bool → ℕ → State → Bool
raises connected now s =
    not s.active && (is_prolonged connected now s || leb threshold (length s.disconnects))

-- The last assignments, after an alert was raised or not.
unfoldable pub close : Bool → ℕ → State → Observed
unfolding parse
close connected now s = parse (record s { connected = some connected; observed_at = some now })

unfoldable pub alert : Bool → ℕ → State → Observed
unfolding raises close
alert connected now s =
    if raises connected now s
    then (if s.revision == max_safe
        then thrown exhausted
        else close connected now (record s { revision = suc s.revision; active = true }))
    else close connected now s

-- The state after the clock, the window and the direction of the observation.
unfoldable pub track : Bool → ℕ → State → State
unfolding forget expire up down
track connected now s =
    let t = expire now (forget now s) in if connected then up now t else down now t

unfoldable pub observe : Option State → Bool → ℕ → Observed
unfolding track alert parse initial
observe previous connected now =
    if is_timestamp now
    then elim previous [
      | none ↦ alert connected now (track connected now initial)
      | some s ↦ elim (parse s) [
        | thrown f ↦ thrown f
        | state t ↦ alert connected now (track connected now t)
      ]
    ]
    else thrown invalid_observation

-- Observations one after the other, as ReconnectNotices makes them.
unfoldable pub watch : State → List (Bool × ℕ) → Observed
unfolding observe
watch s [] = state s
watch s ((connected, now) ∷ seen) = elim (observe (some s) connected now) [
  | thrown f ↦ thrown f
  | state t ↦ watch t seen
]
