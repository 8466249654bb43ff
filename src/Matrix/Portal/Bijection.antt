-- ===== src/Matrix/Portal/Bijection.antt =====
-- Portals are a bijection between chats and rooms (src/matrix/portal-store.ts).
use threema_beeper.Prelude.{
  String, Bool, false, not, ◌&&◌, ◌||◌, List, [], ◌∷◌, ◌++◌, eq_iff, str_eq_comm, exists,
  exists-false, select, update, update_row, ◌≡◌, refl, sym, subst, ◌⊎◌, inl, inr, Bool-cases, arith,
  All-imp, Pairs, Pairs-append_one, Pairs-map, Pairs-select,
}
use threema_beeper.Matrix.Portal.Tables.{Store, PortalRow}
use threema_beeper.Matrix.Portal.Rooms
use threema_beeper.Matrix.Portal.Rooms.{
  get, portal_for_room, room_of, is_chat, is_in_room, is_text, differs,
}
use threema_beeper.Matrix.Portal.Frames.{portals-call}
use threema_beeper.Matrix.Portal.History.{
  Call, call, after, run, bind, replace_room, retire_empty_room,
}

-- Two rows have neither one chat nor one room.
abbrev pub Apart : PortalRow → PortalRow → Type 0
Apart a b = (is_chat b.profile b.chat a ≡ false) × (is_in_room b.room a ≡ false)

abbrev pub IsBijective : Store → Type 0
IsBijective s = Pairs Apart s.portals

pub bind-portals :
    (s : Store) (profile chat room : String)
    → ((after s (Rooms.bind s profile chat room)).portals ≡ s.portals)
      ⊎ ((exists (λ r. is_chat profile chat r || is_in_room room r) s.portals ≡ false)
          × ((after s (Rooms.bind s profile chat room)).portals
              ≡ s.portals ++ record { profile = profile; chat = chat; room = room } ∷ []))
unfolding Rooms.bind
bind-portals s profile chat room =
    elim (Bool-cases (exists (λ r. is_chat profile chat r || is_in_room room r) s.portals)) [
      | inl clash ↦ inl (ground (arith, clash))
      | inr fresh ↦ ground (arith, fresh)
    ]

bind-IsBijective :
    (s : Store) (profile chat room : String)
    → IsBijective s
    → IsBijective (after s (Rooms.bind s profile chat room))
bind-IsBijective s profile chat room h = elim (bind-portals s profile chat room) [
  | inl same ↦ subst (λ rows. Pairs Apart rows) (sym same) h
  | inr (fresh, grown) ↦
      let new : PortalRow = record { profile = profile; chat = chat; room = room } in
      subst (λ rows. Pairs Apart rows) (sym grown)
        (Pairs-append_one Apart s.portals new h (
          All-imp (λ r. (is_chat profile chat r || is_in_room room r) ≡ false) (λ r. Apart r new)
            s.portals (λ r e. (ground arith, ground arith))
            (exists-false (λ r. is_chat profile chat r || is_in_room room r) s.portals fresh)))
]

abbrev moves : String → String → String → PortalRow → Bool
moves profile chat expected r = is_chat profile chat r && is_in_room expected r

abbrev move : String → PortalRow → PortalRow
move room r = record r { room = room }

replace-portals :
    (s : Store) (profile chat expected room : String)
    → ((after s (Rooms.replace_room s profile chat expected room)).portals ≡ s.portals)
      ⊎ ((exists (is_in_room room) s.portals ≡ false)
          × ((after s (Rooms.replace_room s profile chat expected room)).portals
              ≡ update (moves profile chat expected) (move room) s.portals))
unfolding Rooms.replace_room
replace-portals s profile chat expected room = ground arith

-- Of two rows apart, at most one moves, to a room that no row has.
move-Apart :
    (profile chat expected room : String) (a b : PortalRow)
    → is_in_room room a ≡ false
    → is_in_room room b ≡ false
    → Apart a b
    → Apart
        (update_row (moves profile chat expected) (move room) a)
        (update_row (moves profile chat expected) (move room) b)
move-Apart profile chat expected room a b fa fb h = ground (
  arith,
  eq_iff a.profile profile,
  eq_iff a.chat chat,
  eq_iff b.profile profile,
  eq_iff b.chat chat,
  eq_iff a.profile b.profile,
  eq_iff a.chat b.chat,
  str_eq_comm room b.room,
)

replace-IsBijective :
    (s : Store) (profile chat expected room : String)
    → IsBijective s
    → IsBijective (after s (Rooms.replace_room s profile chat expected room))
replace-IsBijective s profile chat expected room h =
    elim (replace-portals s profile chat expected room) [
      | inl same ↦ subst (λ rows. Pairs Apart rows) (sym same) h
      | inr (free, moved) ↦
          subst (λ rows. Pairs Apart rows) (sym moved)
            (Pairs-map (λ r. is_in_room room r ≡ false) Apart Apart
              (update_row (moves profile chat expected) (move room)) s.portals
              (λ a b fa fb k. move-Apart profile chat expected room a b fa fb k)
              (exists-false (is_in_room room) s.portals free) h)
    ]

retire-portals :
    (s : Store) (profile chat expected : String)
    → ((after s (Rooms.retire_empty_room s profile chat expected)).portals ≡ s.portals)
      ⊎ ((after s (Rooms.retire_empty_room s profile chat expected)).portals
          ≡ select (λ r. not (moves profile chat expected r)) s.portals)
unfolding Rooms.retire_empty_room
retire-portals s profile chat expected = ground arith

retire-IsBijective :
    (s : Store) (profile chat expected : String)
    → IsBijective s
    → IsBijective (after s (Rooms.retire_empty_room s profile chat expected))
retire-IsBijective s profile chat expected h = elim (retire-portals s profile chat expected) [
  | inl same ↦ subst (λ rows. Pairs Apart rows) (sym same) h
  | inr rest ↦
      subst (λ rows. Pairs Apart rows) (sym rest)
        (Pairs-select Apart (λ r. not (moves profile chat expected r)) s.portals h)
]

call-IsBijective : (c : Call) (s : Store) → IsBijective s → IsBijective (after s (call c s))
unfolding call
call-IsBijective (bind profile chat room) s h = bind-IsBijective s profile chat room h
call-IsBijective (replace_room profile chat expected replacement) s h =
    replace-IsBijective s profile chat expected replacement h
call-IsBijective (retire_empty_room profile chat expected) s h =
    retire-IsBijective s profile chat expected h
call-IsBijective c s h = subst (λ rows. Pairs Apart rows) (sym (portals-call c s refl)) h

pub run-IsBijective : (calls : List Call) (s : Store) → IsBijective s → IsBijective (run calls s)
unfolding run
run-IsBijective [] s h = h
run-IsBijective (c ∷ calls) s h =
    run-IsBijective calls (after s (call c s)) (call-IsBijective c s h)
