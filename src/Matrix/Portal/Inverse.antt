-- ===== src/Matrix/Portal/Inverse.antt =====
-- The room of a chat and the chat of a room are inverse to one another
-- (src/matrix/portal-store.ts).
use threema_beeper.Prelude.{
  String, Bool, true, false, ◌&&◌, List, [], ◌∷◌, ◌++◌, Option, none, some, str_eq, eq_iff,
  select_one, select_one-Mem, select_one-none, select_one-append_miss, and_split, if◌then◌else◌,
  ◌≡◌, refl, ap, sym, subst, ◌∙◌, ◌↔◌, inl, inr, Option-cases, Bool-cases, arith, All-of, Pairs,
  Pairs-trichotomy, Memᴰ,
}
use threema_beeper.Matrix.Portal.Tables.{Store, ok, PortalRow}
use threema_beeper.Matrix.Portal.Rooms
use threema_beeper.Matrix.Portal.Rooms.{
  get, portal_for_room, room_of, is_chat, is_in_room, is_text, differs,
}
use threema_beeper.Matrix.Portal.History.{Call, after, run}
use threema_beeper.Matrix.Portal.Bijection.{bind-portals, Apart, IsBijective, run-IsBijective}

-- The only row that a test finds, where no two rows apart pass it.
unique :
    (p : PortalRow → Bool) (rows : List PortalRow) (r q : PortalRow)
    → Pairs Apart rows
    → select_one p rows ≡ some q
    → Memᴰ r rows
    → p r ≡ true
    → ((a b : PortalRow) → p a ≡ true → p b ≡ true → Apart a b → r ≡ q)
    → r ≡ q
unique p rows r q h found m hit clash =
    let (n, hit') = select_one-Mem p rows found in
    elim (Pairs-trichotomy Apart rows h m n) [
      | inl same ↦ same
      | inr (inl before) ↦ clash r q hit hit' before
      | inr (inr before) ↦ clash q r hit' hit before
    ]

get_lem :
    (s : Store) (profile chat room : String)
    → get s profile chat ≡ some room
    → (r : PortalRow) × (select_one (is_chat profile chat) s.portals ≡ some r) × (r.room ≡ room)
unfolding get
get_lem s profile chat room h = elim (Option-cases (select_one (is_chat profile chat) s.portals)) [
  | inl missing ↦ absurd (ground (arith, missing))
  | inr (r, e) ↦ (r, e, ground (arith, e))
]

portal_for_room_lem :
    (s : Store) (room profile chat : String)
    → portal_for_room s room ≡ some (profile, chat)
    → (r : PortalRow) × (select_one (is_in_room room) s.portals ≡ some r)
      × (r.profile ≡ profile)
      × (r.chat ≡ chat)
unfolding portal_for_room
portal_for_room_lem s room profile chat h =
    elim (Option-cases (select_one (is_in_room room) s.portals)) [
      | inl missing ↦ absurd (ground (arith, missing))
      | inr (r, e) ↦ (r, e, ground (arith, e), ground (arith, e))
    ]

found_some :
    (p : PortalRow → Bool) (rows : List PortalRow) (r : PortalRow)
    → Memᴰ r rows
    → p r ≡ true
    → (q : PortalRow) × (select_one p rows ≡ some q)
found_some p rows r m hit = elim (Option-cases (select_one p rows)) [
  | inr (q, e) ↦ (q, e)
  | inl missing ↦
      absurd (ground (arith, All-of (λ r. p r ≡ false) rows (select_one-none p rows missing) m))
]

is_text-eq : (o : Option String) (t : String) → is_text o t ≡ true → o ≡ some t
is_text-eq none t h = cc
is_text-eq (some s) t h = ap some ((eq_iff s t).0 h)

forward :
    (s : Store) (profile chat room : String)
    → IsBijective s
    → get s profile chat ≡ some room
    → portal_for_room s room ≡ some (profile, chat)
unfolding portal_for_room
forward s profile chat room h e =
    let (r, found, here) = get_lem s profile chat room e in
    let (m, hit) = select_one-Mem (is_chat profile chat) s.portals found in
    let in_room : is_in_room room r ≡ true = (eq_iff r.room room).1 here in
    let (q, found') = found_some (is_in_room room) s.portals r m in_room in
    let same = unique (is_in_room room) s.portals r q h found' m in_room (λ a b ha hb apart.
      absurd (ground (arith, eq_iff a.room room, eq_iff b.room room, eq_iff a.room b.room))) in
    ground (arith, found', same, hit, eq_iff r.profile profile, eq_iff r.chat chat)

backward :
    (s : Store) (profile chat room : String)
    → IsBijective s
    → portal_for_room s room ≡ some (profile, chat)
    → get s profile chat ≡ some room
unfolding get
backward s profile chat room h e =
    let (r, found, same_profile, same_chat) = portal_for_room_lem s room profile chat e in
    let (m, hit) = select_one-Mem (is_in_room room) s.portals found in
    let in_chat : is_chat profile chat r ≡ true =
      ground (arith, (eq_iff r.profile profile).1 same_profile, (eq_iff r.chat chat).1 same_chat) in
    let (q, found') = found_some (is_chat profile chat) s.portals r m in_chat in
    let same = unique (is_chat profile chat) s.portals r q h found' m in_chat (λ a b ha hb apart.
      absurd (
        ground (
          arith,
          eq_iff a.profile profile,
          eq_iff b.profile profile,
          eq_iff a.profile b.profile,
          eq_iff a.chat chat,
          eq_iff b.chat chat,
          eq_iff a.chat b.chat,
        ))) in
    ground (arith, found', same, hit, eq_iff r.room room)

-- After any calls on a store whose portals are a bijection, a chat has a room exactly when the
-- room has that chat.
pub portals_are_inverse :
    (calls : List Call) (s : Store) (profile chat room : String)
    → IsBijective s
    → (get (run calls s) profile chat ≡ some room)
      ↔ (portal_for_room (run calls s) room ≡ some (profile, chat))
portals_are_inverse calls s profile chat room h =
    let h' = run-IsBijective calls s h in
    (forward (run calls s) profile chat room h', backward (run calls s) profile chat room h')

bind_lem :
    (s t : Store) (profile chat room : String)
    → Rooms.bind s profile chat room ≡ ok t
    → is_text (get t profile chat) room ≡ true
unfolding get Rooms.bind
bind_lem s t profile chat room h = ground arith

bind-rows :
    (s t : Store) (profile chat room p c : String)
    → Rooms.bind s profile chat room ≡ ok t
    → (str_eq profile p && str_eq chat c) ≡ false
    → get t p c ≡ get s p c
unfolding get
bind-rows s t profile chat room p c h other =
    let new : PortalRow = record { profile = profile; chat = chat; room = room } in
    let same : after s (Rooms.bind s profile chat room) ≡ t = rw h refl in
    elim (bind-portals s profile chat room) [
      | inl e ↦
          let e' : t.portals ≡ s.portals = ap (λ (x : Store). x.portals) (sym same) ∙ e in
          ap (λ rows. room_of (select_one (is_chat p c) rows)) e'
      | inr (fresh, e) ↦
          let e' : t.portals ≡ s.portals ++ new ∷ [] =
            ap (λ (x : Store). x.portals) (sym same) ∙ e in
          ap (λ rows. room_of (select_one (is_chat p c) rows)) e'
          ∙ ap room_of (select_one-append_miss (is_chat p c) s.portals new other)
    ]

-- Binding a chat to a room, where it does not throw, makes that room the room of the chat, and
-- leaves the room of every other chat as it was.
pub get-bind :
    (s t : Store) (profile chat room p c : String)
    → Rooms.bind s profile chat room ≡ ok t
    → get t p c ≡ (if str_eq profile p && str_eq chat c then some room else get s p c)
get-bind s t profile chat room p c h = elim (Bool-cases (str_eq profile p && str_eq chat c)) [
  | inr other ↦ rw other (bind-rows s t profile chat room p c h other)
  | inl same ↦
      let bound = bind_lem s t profile chat room h in
      let (e, f) = and_split (str_eq profile p) (str_eq chat c) same in
      let e' : profile ≡ p = (eq_iff profile p).0 e in
      let f' : chat ≡ c = (eq_iff chat c).0 f in
      rw same (
        subst (λ x. get t x c ≡ some room) e'
          (subst (λ x. get t profile x ≡ some room) f'
            (is_text-eq (get t profile chat) room bound)))
]
