-- ===== src/Matrix/Portal/Receipts.antt =====
-- The receipt position of a reader only goes forward (src/matrix/portal-store.ts).
use threema_beeper.Prelude.{
  ℕ, String, true, false, ◌&&◌, List, [], ◌∷◌, Option, none, some, str_eq, eq_iff, eq_refl,
  exists_of_mem, select_one, select_one-exists, select_one-Mem, select_one-update_row,
  select_one-append, select_one-append_miss, select_one-update_other, and_split, if◌then◌else◌, ◌≡◌,
  refl, ap, sym, subst, ◌∙◌, inl, inr, Option-cases, Bool-cases, arith,
}
use threema_beeper.Text.Order.{str_le_refl, str_le_total, str_le_trans}
use threema_beeper.Matrix.Portal.Tables.{Store, ReceiptRow}
use threema_beeper.Matrix.Portal.Deliveries
use threema_beeper.Matrix.Portal.Deliveries.{receipt_position, covers, is_position}
use threema_beeper.Matrix.Portal.Frames.{receipts-call}
use threema_beeper.Matrix.Portal.History.{Call, call, after, run, save_receipt_position}

covers_refl : (o : ℕ) (m : String) → covers (some (o, m)) o m ≡ true
covers_refl o m = ground (arith, str_le_refl m)

covers_trans :
    (a b c : ℕ) (k m n : String)
    → covers (some (a, k)) b m ≡ true
    → covers (some (b, m)) c n ≡ true
    → covers (some (a, k)) c n ≡ true
covers_trans a b c k m n h j = ground (arith, str_le_trans n m k)

covers_total :
    (a b : ℕ) (k m : String) → covers (some (a, k)) b m ≡ false → covers (some (b, m)) a k ≡ true
covers_total a b k m h = ground (arith, str_le_total m k)

position_lem :
    (s : Store) (profile chat reader : String) (o : ℕ) (m : String)
    → receipt_position s profile chat reader ≡ some (o, m)
    → (r : ReceiptRow) × (select_one (is_position profile chat reader) s.receipts ≡ some r)
      × (r.ordinal ≡ o)
      × (r.message ≡ m)
unfolding receipt_position
position_lem s profile chat reader o m h =
    elim (Option-cases (select_one (is_position profile chat reader) s.receipts)) [
      | inl missing ↦ absurd (ground (arith, missing))
      | inr (r, e) ↦ (r, e, ground (arith, e), ground (arith, e))
    ]

-- Saving makes the reader's position the later one of the old and the new.
pub save_receipt_position_lem :
    (s : Store) (profile chat reader : String) (ordinal : ℕ) (message : String)
    → receipt_position
        (Deliveries.save_receipt_position s profile chat reader ordinal message)
        profile
        chat
        reader
      ≡ (if covers (receipt_position s profile chat reader) ordinal message
          then receipt_position s profile chat reader
          else some (ordinal, message))
unfolding Deliveries.save_receipt_position receipt_position
save_receipt_position_lem s profile chat reader ordinal message =
    let test = is_position profile chat reader in
    let set : ReceiptRow → ReceiptRow = λ r. record r { ordinal = ordinal; message = message } in
    elim (Option-cases (select_one test s.receipts)) [
      | inl missing ↦
          let new : ReceiptRow = record {
            profile = profile;
            chat = chat;
            reader = reader;
            ordinal = ordinal;
            message = message;
          } in
          ground (
            arith,
            missing,
            select_one-exists test s.receipts missing,
            select_one-append test s.receipts new missing
                (ground (arith, eq_refl profile, eq_refl chat, eq_refl reader)),
          )
      | inr (r, e) ↦
          let (m, hit) = select_one-Mem test s.receipts e in
          ground (
            arith,
            e,
            hit,
            exists_of_mem test s.receipts m hit,
            select_one-update_row test test set s.receipts {x = r} (λ y. refl) e,
          )
    ]

abbrev Reaches : Store → String → String → String → ℕ → String → Type 0
Reaches s profile chat reader o m =
    (last : ℕ) × (seen : String) × (receipt_position s profile chat reader ≡ some (last, seen))
    × (covers (some (last, seen)) o m ≡ true)

-- A save for one reader leaves the position of every other.
other_reader :
    (s : Store) (p c r profile chat reader : String) (ordinal : ℕ) (message : String)
    → (str_eq profile p && str_eq chat c && str_eq reader r) ≡ false
    → receipt_position
        (Deliveries.save_receipt_position s profile chat reader ordinal message)
        p
        c
        r
      ≡ receipt_position s p c r
unfolding Deliveries.save_receipt_position receipt_position
other_reader s p c r profile chat reader ordinal message other =
    let new : ReceiptRow = record {
      profile = profile;
      chat = chat;
      reader = reader;
      ordinal = ordinal;
      message = message;
    } in
    let set : ReceiptRow → ReceiptRow = λ x. record x { ordinal = ordinal; message = message } in
    ground (
      arith,
      select_one-append_miss (is_position p c r) s.receipts new other,
      select_one-update_other (is_position p c r) (is_position profile chat reader) set s.receipts
          (λ x. refl)
          (λ x hit. ground (
            arith,
            eq_iff x.profile profile,
            eq_iff x.chat chat,
            eq_iff x.reader reader,
            eq_iff x.profile p,
            eq_iff x.chat c,
            eq_iff x.reader r,
            eq_refl profile,
            eq_refl chat,
            eq_refl reader,
            hit,
          )),
    )

save_here :
    (s : Store) (profile chat reader : String) (ordinal o : ℕ) (message m : String)
    → receipt_position s profile chat reader ≡ some (o, m)
    → Reaches
        (Deliveries.save_receipt_position s profile chat reader ordinal message)
        profile
        chat
        reader
        o
        m
save_here s profile chat reader ordinal o message m found =
    let saved = save_receipt_position_lem s profile chat reader ordinal message in
    elim (Bool-cases (covers (some (o, m)) ordinal message)) [
      | inl old ↦ (o, m, ground (arith, saved, found, old), covers_refl o m)
      | inr new ↦ (
        ordinal,
        message,
        ground (arith, saved, found, new),
        covers_total o ordinal m message new,
      )
    ]

save-Reaches :
    (s : Store) (p c r profile chat reader : String) (ordinal o : ℕ) (message m : String)
    → receipt_position s p c r ≡ some (o, m)
    → Reaches (Deliveries.save_receipt_position s profile chat reader ordinal message) p c r o m
save-Reaches s p c r profile chat reader ordinal o message m found =
    elim (Bool-cases (str_eq profile p && str_eq chat c && str_eq reader r)) [
      | inl same ↦
          let (first, e3) = and_split _ _ same in
          let (e1, e2) = and_split _ _ first in
          let moved : receipt_position s profile chat reader ≡ some (o, m) =
            subst (λ x. receipt_position s x chat reader ≡ some (o, m))
              (sym ((eq_iff profile p).0 e1))
              (subst (λ x. receipt_position s p x reader ≡ some (o, m)) (sym ((eq_iff chat c).0 e2))
                (subst (λ x. receipt_position s p c x ≡ some (o, m)) (sym ((eq_iff reader r).0 e3))
                  found)) in
          let t : Store = Deliveries.save_receipt_position s profile chat reader ordinal message in
          subst (λ x. Reaches t x c r o m) ((eq_iff profile p).0 e1)
            (subst (λ x. Reaches t profile x r o m) ((eq_iff chat c).0 e2)
              (subst (λ x. Reaches t profile chat x o m) ((eq_iff reader r).0 e3)
                (save_here s profile chat reader ordinal o message m moved)))
      | inr other ↦ (
        o,
        m,
        other_reader s p c r profile chat reader ordinal message other ∙ found,
        covers_refl o m,
      )
    ]

call-Reaches :
    (calls : Call) (s : Store) (p c r : String) (o : ℕ) (m : String)
    → receipt_position s p c r ≡ some (o, m)
    → Reaches (after s (call calls s)) p c r o m
unfolding call receipt_position
call-Reaches (save_receipt_position profile chat reader ordinal message) s p c r o m found =
    save-Reaches s p c r profile chat reader ordinal o message m found
call-Reaches calls s p c r o m found = (
  o,
  m,
  ap
        (λ rows. elim (select_one (is_position p c r) rows) as (λ _. Option (ℕ × String)) [
          | none ↦ none
          | some x ↦ some (x.ordinal, x.message)
        ])
        (receipts-call calls s refl)
      ∙ found,
  covers_refl o m,
)

-- The position of a reader stays or goes forward, in the order of ordinals and then of message IDs,
-- whatever calls follow.
pub receipts_go_forward :
    (calls : List Call) (s : Store) (profile chat reader : String) (ordinal : ℕ) (message : String)
    → receipt_position s profile chat reader ≡ some (ordinal, message)
    → (last : ℕ) × (seen : String) × (receipt_position (run calls s) profile chat reader
        ≡ some (last, seen))
      × (covers (some (last, seen)) ordinal message ≡ true)
unfolding run
receipts_go_forward [] s profile chat reader ordinal message found =
    (ordinal, message, found, covers_refl ordinal message)
receipts_go_forward (c ∷ calls) s profile chat reader ordinal message found =
    let (o, m, here, first) = call-Reaches c s profile chat reader ordinal message found in
    let (last, seen, there, rest) =
      receipts_go_forward calls (after s (call c s)) profile chat reader o m here in
    (last, seen, there, covers_trans last o ordinal seen m message rest first)
