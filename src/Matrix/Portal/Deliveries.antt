-- ===== src/Matrix/Portal/Deliveries.antt =====
-- Reactions, deletions, statuses and receipts of PortalStore (src/matrix/portal-store.ts).
use threema_beeper.Prelude.{
  ℕ, String, Bool, true, false, not, ◌&&◌, ◌||◌, List, [], ◌∷◌, ◌++◌, map, Option, none, some, ltb,
  ◌==◌, str_eq, exists, select, select_one, update, insert_or_ignore, if◌then◌else◌,
}
use threema_beeper.Text.Order.{str_le}
use threema_beeper.Matrix.Portal.Tables.{
  MessageKey, key_eq, ReactionRow, VersionRow, ReceiptRow, Store, Result, ok, err,
  reaction_conflict, projection_pending, legacy_message, deletion_incomplete, unless, throw_if,
}
use threema_beeper.Matrix.Portal.Messages.{message_mapping, is_some}

module _ {ℓ} {A : Type ℓ} (le : A → A → Bool) where
  unfoldable pub insert_in_order : A → List A → List A
  insert_in_order x [] = x ∷ []
  insert_in_order x (y ∷ ys) =
      let rest = insert_in_order x ys in if le x y then x ∷ y ∷ ys else y ∷ rest

  unfoldable pub sort : List A → List A
  unfolding insert_in_order
  sort [] = []
  sort (x ∷ xs) = insert_in_order x (sort xs)

abbrev pub reaction_le : ReactionRow → ReactionRow → Bool
reaction_le a b =
    if str_eq a.identity b.identity then str_le a.emoji b.emoji else str_le a.identity b.identity

unfoldable pub reactions : Store → MessageKey → List ReactionRow
unfolding sort
reactions s k = sort reaction_le (select (λ r. key_eq r.key k) s.reactions)

abbrev pub is_reaction : MessageKey → String → String → ReactionRow → Bool
is_reaction k identity emoji r =
    key_eq r.key k && str_eq r.identity identity && str_eq r.emoji emoji

abbrev pub has_event : Option ReactionRow → String → Bool
has_event none event = false
has_event (some r) event = str_eq r.event event

unfoldable pub bind_reaction : Store → MessageKey → String → String → String → Result Store
bind_reaction s k identity emoji event =
    let rows =
      insert_or_ignore (is_reaction k identity emoji)
        (record { key = k; identity = identity; emoji = emoji; event = event }) s.reactions in
    unless (has_event (select_one (is_reaction k identity emoji) rows) event) reaction_conflict
      (ok (record s { reactions = rows }))

unfoldable pub remove_reaction : Store → MessageKey → String → String → String → Store
remove_reaction s k identity emoji event = record s {
  reactions =
      select (λ r. not (is_reaction k identity emoji r && str_eq r.event event)) s.reactions;
}

unfoldable pub deletion : Store → MessageKey → Option Bool
deletion s k = elim (select_one (λ d. key_eq d.key k) s.deletions) [
  | none ↦ none
  | some d ↦ some d.is_done
]

unfoldable pub begin_deletion : Store → MessageKey → Result Store
begin_deletion s k = throw_if (exists (λ p. key_eq p.key k) s.projections) projection_pending (
    ok (record s {
      deletions =
          insert_or_ignore (λ d. key_eq d.key k) (record { key = k; is_done = false }) s.deletions;
    }))

-- A mapped message whose history is not known to be complete.
unfoldable pub is_legacy : Store → MessageKey → Bool
unfolding message_mapping
is_legacy s k =
    is_some (message_mapping s k)
    && not
        (elim (select_one (λ h. key_eq h.key k) s.histories) [ none ↦ false | some h ↦ h.complete ])

abbrev pub is_visible : MessageKey → VersionRow → Bool
is_visible k v = key_eq v.key k && not v.redacted

unfoldable pub versions_for_deletion : Store → MessageKey → Result (List String)
unfolding is_legacy sort
versions_for_deletion s k =
    throw_if (is_legacy s k) legacy_message
      (ok (sort str_le (map (λ v. v.event) (select (is_visible k) s.versions))))

unfoldable pub mark_version_redacted : Store → MessageKey → String → Store
mark_version_redacted s k event = record s {
  versions =
      update (λ v. key_eq v.key k && str_eq v.event event) (λ v. record v { redacted = true })
        s.versions;
}

abbrev pub is_empty {ℓ} : {A : Type ℓ} → List A → Bool
is_empty [] = true
is_empty (_ ∷ _) = false

unfoldable pub finish_deletion : Store → MessageKey → Result Store
unfolding versions_for_deletion reactions
finish_deletion s k = elim (versions_for_deletion s k) [
  | err thrown ↦ err thrown
  | ok events ↦ unless (is_empty events && is_empty (reactions s k)) deletion_incomplete (
      ok (record s {
        deletions = update (λ d. key_eq d.key k) (λ d. record d { is_done = true }) s.deletions;
      }))
]

unfoldable pub message_status : Store → MessageKey → Option String
message_status s k = elim (select_one (λ r. key_eq r.key k) s.statuses) [
  | none ↦ none
  | some r ↦ some r.body
]

-- INSERT ... ON CONFLICT DO UPDATE SET body.
unfoldable pub save_message_status : Store → MessageKey → String → Store
save_message_status s k body = record s {
  statuses =
      if exists (λ r. key_eq r.key k) s.statuses
      then update (λ r. key_eq r.key k) (λ r. record r { body = body }) s.statuses
      else s.statuses ++ record { key = k; body = body } ∷ [];
}

abbrev pub is_position : String → String → String → ReceiptRow → Bool
is_position profile chat reader r =
    str_eq r.profile profile && str_eq r.chat chat && str_eq r.reader reader

unfoldable pub receipt_position : Store → String → String → String → Option (ℕ × String)
receipt_position s profile chat reader =
    elim (select_one (is_position profile chat reader) s.receipts) [
      | none ↦ none
      | some r ↦ some (r.ordinal, r.message)
    ]

-- `old` is at the position or past it. `old.message >= message` compares message IDs, which are
-- ASCII, so that code units and code points give one order.
abbrev pub covers : Option (ℕ × String) → ℕ → String → Bool
covers none ordinal message = false
covers (some (last, seen)) ordinal message =
    ltb ordinal last || (last == ordinal && str_le message seen)

unfoldable pub save_receipt_position : Store → String → String → String → ℕ → String → Store
unfolding receipt_position
save_receipt_position s profile chat reader ordinal message =
    if covers (receipt_position s profile chat reader) ordinal message then s else record s {
      receipts =
          if exists (is_position profile chat reader) s.receipts
          then update (is_position profile chat reader)
              (λ r. record r { ordinal = ordinal; message = message }) s.receipts
          else s.receipts
            ++ record {
              profile = profile;
              chat = chat;
              reader = reader;
              ordinal = ordinal;
              message = message;
            }
              ∷ [];
    }
