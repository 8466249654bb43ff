-- ===== src/Outbox/Guard.antt =====
-- DispatchGuard.check (src/outbox/dispatch-guard.ts): the fresh room state that a dispatch wants.
-- The room of the portal is read before and after the homeserver answers.
mod Tests
use threema_beeper.Prelude.{
  ℕ, String, Bool, true, false, not, ◌&&◌, ◌||◌, List, [], ◌∷◌, Option, none, some, str_eq, eq_iff,
  select, if◌then◌else◌, ◌≡◌, refl, ap, ◌⊎◌, inl, inr, arith, Memᴰ, Bool-cases, Option-cases,
  and_split,
}

-- The fields of a state event that the guard reads; `none` where one is absent or no string.
pub record StateEvent : Type 0 where
  pub type : Option String
  pub state_key : Option String
  pub sender : Option String
  pub algorithm : Option String
  pub creator : Option String
  pub network : Option String
  pub channel : Option String
  pub membership : Option String

pub record Options : Type 0 where
  pub owner : String
  pub profile : String
  pub bot : String

-- The fields of the request that the guard reads.
pub record Request : Type 0 where
  pub profile : String
  pub sender : String
  pub chat_id : String
  pub room_id : String

pub data Verdict : Type 0 where
  identity_conflict invalid_state incomplete_state unauthorized : Verdict
  passed : Verdict

abbrev pub is_text : Option String → String → Bool
is_text none t = false
is_text (some s) t = str_eq s t

abbrev pub mapped : Options → Request → Option String → Bool
mapped o r room = str_eq r.profile o.profile && str_eq r.sender o.owner && is_text room r.room_id

abbrev pub has_key : String → String → StateEvent → Bool
has_key type key e = is_text e.type type && is_text e.state_key key

-- The only element of a list.
abbrev pub only : List StateEvent → Option StateEvent
only [] = none
only (e ∷ []) = some e
only (e ∷ f ∷ rest) = none

unfoldable pub exactly_one : List StateEvent → String → String → Option StateEvent
exactly_one state type key = only (select (has_key type key) state)

unfoldable pub authorizes :
    Options → Request → Option String → StateEvent → StateEvent → StateEvent → Bool
authorizes o r after encryption marker member =
    mapped o r after
    && is_text encryption.algorithm "m.megolm.v1.aes-sha2"
    && is_text marker.sender o.bot
    && is_text marker.creator o.owner
    && is_text marker.network o.profile
    && is_text marker.channel r.chat_id
    && is_text member.membership "join"

-- `before` and `after` are the room of the portal at the two readings; `state` is the homeserver's
-- answer, `none` when it is no array.
unfoldable pub check :
    Options → Request → Option String → Option (List StateEvent) → Option String → Verdict
unfolding exactly_one authorizes
check o r before state after =
    if mapped o r before
    then elim state [
      | none ↦ invalid_state
      | some events ↦ elim (exactly_one events "m.room.encryption" "") [
        | none ↦ incomplete_state
        | some encryption ↦ elim (exactly_one events "m.bridge" "threema://bridge") [
          | none ↦ incomplete_state
          | some marker ↦ elim (exactly_one events "m.room.member" o.owner) [
            | none ↦ incomplete_state
            | some member ↦
                if authorizes o r after encryption marker member then passed else unauthorized
          ]
        ]
      ]
    ]
    else identity_conflict

only-eq : (es : List StateEvent) (e : StateEvent) → only es ≡ some e → es ≡ e ∷ []
only-eq [] e h = cc
only-eq (f ∷ []) e h = ground arith
only-eq (f ∷ g ∷ es) e h = cc

is_text-eq : (t : Option String) (s : String) → is_text t s ≡ true → t ≡ some s
is_text-eq none s h = cc
is_text-eq (some t) s h = ap some ((eq_iff t s).0 h)

authorizes_lem :
    (o : Options) (r : Request) (after : Option String) (encryption marker member : StateEvent)
    → authorizes o r after encryption marker member ≡ true
    → ((mapped o r after ≡ true) × (is_text marker.sender o.bot ≡ true))
      × ((is_text marker.creator o.owner ≡ true) × (is_text marker.network o.profile ≡ true))
      × ((is_text marker.channel r.chat_id ≡ true) × (is_text member.membership "join" ≡ true))
unfolding authorizes
authorizes_lem o r after encryption marker member h =
    let (h1, join) = and_split _ _ h in
    let (h2, channel) = and_split _ _ h1 in
    let (h3, network) = and_split _ _ h2 in
    let (h4, creator) = and_split _ _ h3 in
    let (h5, bot) = and_split _ _ h4 in
    let (map, algorithm) = and_split _ _ h5 in ((map, bot), (creator, network), (channel, join))

-- The three events of a passed check.
check-events :
    (o : Options) (r : Request) (before after : Option String) (events : List StateEvent)
    → check o r before (some events) after ≡ passed
    → (encryption marker member : StateEvent) × (exactly_one events "m.bridge" "threema://bridge"
        ≡ some marker)
      × (exactly_one events "m.room.member" o.owner ≡ some member)
      × (authorizes o r after encryption marker member ≡ true)
unfolding check
check-events o r before after events h =
    elim (Option-cases (exactly_one events "m.bridge" "threema://bridge")) [
      | inl missing ↦ absurd (ground arith)
      | inr (marker, m) ↦ elim (Option-cases (exactly_one events "m.room.member" o.owner)) [
        | inl missing ↦ absurd (ground arith)
        | inr (member, k) ↦ elim (Option-cases (exactly_one events "m.room.encryption" "")) [
          | inl missing ↦ absurd (ground arith)
          | inr (encryption, n) ↦ (encryption, marker, member, m, k, ground arith)
        ]
      ]
    ]

exactly_one-eq :
    (events : List StateEvent) (type key : String) (e : StateEvent)
    → exactly_one events type key ≡ some e
    → select (has_key type key) events ≡ e ∷ []
unfolding exactly_one
exactly_one-eq events type key e h = only-eq (select (has_key type key) events) e h

mapped_lem :
    (o : Options) (r : Request) (room : Option String)
    → mapped o r room ≡ true
    → (room ≡ some r.room_id) × (r.profile ≡ o.profile) × (r.sender ≡ o.owner)
mapped_lem o r room h = (
  is_text-eq room r.room_id (ground arith),
  (eq_iff r.profile o.profile).0 (ground arith),
  (eq_iff r.sender o.owner).0 (ground arith),
)

-- A dispatch that passes the guard goes to the room that the portal maps to the chat of the request
-- after the homeserver answered; that room's state has one bridge marker, which the bot sent for
-- this owner, profile and chat, and one membership of the owner, which is a join.
pub check_sound :
    (o : Options) (r : Request) (before after : Option String) (events : List StateEvent)
    → check o r before (some events) after ≡ passed
    → (after ≡ some r.room_id)
      × (r.profile ≡ o.profile)
      × (r.sender ≡ o.owner)
      × ((marker : StateEvent) × (select (has_key "m.bridge" "threema://bridge") events
            ≡ marker ∷ [])
          × (marker.sender ≡ some o.bot)
          × (marker.creator ≡ some o.owner)
          × (marker.network ≡ some o.profile)
          × (marker.channel ≡ some r.chat_id))
      × ((member : StateEvent) × (select (has_key "m.room.member" o.owner) events ≡ member ∷ [])
          × (member.membership ≡ some "join"))
check_sound o r before after events h =
    let (encryption, marker, member, m, k, all) = check-events o r before after events h in
    let ((map, bot), (creator, network), (channel, join)) =
      authorizes_lem o r after encryption marker member all in
    let (room, profile, sender) = mapped_lem o r after map in
    (
      room,
      profile,
      sender,
      (
        marker,
        exactly_one-eq events "m.bridge" "threema://bridge" marker m,
        is_text-eq marker.sender o.bot bot,
        is_text-eq marker.creator o.owner creator,
        is_text-eq marker.network o.profile network,
        is_text-eq marker.channel r.chat_id channel,
      ),
      (
        member,
        exactly_one-eq events "m.room.member" o.owner member k,
        is_text-eq member.membership "join" join,
      ),
    )
