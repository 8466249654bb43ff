-- ===== src/Matrix/Portal/Tables.antt =====
-- The tables of PortalStore (src/matrix/portal-store.ts). The columns profile, chat and message
-- that most primary keys share are one record.
use threema_beeper.Prelude.{ℕ, String, Bool, true, false, ◌&&◌, List, Option, str_eq}

pub record MessageKey : Type 0 where
  pub profile : String
  pub chat : String
  pub message : String

abbrev pub key_eq : MessageKey → MessageKey → Bool
key_eq a b = str_eq a.profile b.profile && str_eq a.chat b.chat && str_eq a.message b.message

pub record PortalRow : Type 0 where
  pub profile : String
  pub chat : String
  pub room : String

pub record GhostRow : Type 0 where
  pub profile : String
  pub identity : String
  pub mxid : String

pub record EncryptedOperation : Type 0 where
  pub id : String
  pub sender : String
  pub room : String
  pub digest : String
  pub ciphertext : String
  pub event : Option String

pub record MessageMapping : Type 0 where
  pub key : MessageKey
  pub room : String
  pub sender : String
  pub root : String
  pub latest : String
  pub digest : String

pub record MessageProjection : Type 0 where
  pub id : String
  pub key : MessageKey
  pub room : String
  pub sender : String
  pub fingerprint : String
  pub digest : String
  pub root : Option String
  pub content : String

pub record ReactionRow : Type 0 where
  pub key : MessageKey
  pub identity : String
  pub emoji : String
  pub event : String

pub record VersionRow : Type 0 where
  pub key : MessageKey
  pub event : String
  pub redacted : Bool

pub record HistoryRow : Type 0 where
  pub key : MessageKey
  pub complete : Bool

pub record DeletionRow : Type 0 where
  pub key : MessageKey
  pub is_done : Bool

pub record StatusRow : Type 0 where
  pub key : MessageKey
  pub body : String

-- The ordinal, a decimal text in the table, is the number that it stands for.
pub record ReceiptRow : Type 0 where
  pub profile : String
  pub chat : String
  pub reader : String
  pub ordinal : ℕ
  pub message : String

pub record UploadRow : Type 0 where
  pub id : String
  pub fingerprint : String
  pub prepared : String
  pub result : Option String

pub record ReadTargetRow : Type 0 where
  pub profile : String
  pub chat : String
  pub event : String
  pub message : String

pub record Store : Type 0 where
  pub portals : List PortalRow
  pub ghosts : List GhostRow
  pub operations : List EncryptedOperation
  pub mappings : List MessageMapping
  pub projections : List MessageProjection
  pub reactions : List ReactionRow
  pub versions : List VersionRow
  pub histories : List HistoryRow
  pub deletions : List DeletionRow
  pub statuses : List StatusRow
  pub receipts : List ReceiptRow
  pub uploads : List UploadRow
  pub read_targets : List ReadTargetRow

-- One constructor for each `throw new Error(...)`.
pub data Error : Type 0 where
  mapping_conflict room_mapped invalid_replacement mapping_changed unfinished_delivery : Error
  has_history encrypted_history ghost_conflict ghost_mapped : Error
  target_unmapped target_conflict echo_portal_conflict echo_mapping_conflict echo_pending : Error
  unfinished_projection projection_conflict not_delivered message_conflict : Error
  reaction_conflict projection_pending legacy_message deletion_incomplete : Error
  invalid_spool upload_conflict recovery_conflict completion_conflict : Error
  operation_conflict operation_completion_conflict : Error
  -- A UNIQUE or PRIMARY KEY constraint that SQLite enforces.
  constraint : Error

pub data Result {ℓ} (T : Type ℓ) : Type ℓ where
  err : Error → Result T
  ok : T → Result T

-- `if (!test) throw e` and `if (test) throw e`, before the rest.
abbrev pub unless {ℓ} : {T : Type ℓ} → Bool → Error → Result T → Result T
unless true e rest = rest
unless false e rest = err e

abbrev pub throw_if {ℓ} : {T : Type ℓ} → Bool → Error → Result T → Result T
throw_if true e rest = err e
throw_if false e rest = rest
