-- ===== src/Store/Tables.antt =====
-- The tables of internal/store/store.go, as lists of rows in the order of insertion, and its error
-- values. A table with one row at most, `singleton_id = 1`, is an option.
use tonnet_messenger.Base.{ℕ, Bool, List, Option}
use tonnet_messenger.Base.Bytes.{Bytes}
use tonnet_messenger.Community.Types.{Error, CommittedEvent}

-- The reject codes of internal/community/types.go.
pub data Code : Type 0 where
  malformed_request wrong_room timestamp reused_nonce invalid_signature : Code
  permission_denied unknown_message role_conflict limit_exceeded : Code
  persistence_failure unsupported_event sequencer_unavailable : Code
  replica_not_ready invalid_canonical_state invalid_identity_domain : Code

-- A `Rejection` is its code; its message and its cause serve the log.
pub data Failure : Type 0 where
  reject : Code → Failure
  community : Error → Failure
  already_initialized not_initialized genesis_mismatch : Failure
  no_rows constraint : Failure
  fork gap state_ahead revision_mismatch projections_disagree not_covered : Failure
  page_limit bad_message_id audit_mismatch : Failure

pub data Role : Type 0 where
  admin moderator : Role

pub data BodyType : Type 0 where
  message pin unpin metadata admin_grant admin_revoke moderator_grant moderator_revoke : BodyType
  write_policy : BodyType

pub record GenesisRow (Blob : Type 0) : Type 0 where
  pub raw_tl : Blob
  pub genesis_hash : Bytes
  pub room_key : Bytes
  pub node_key : Bytes
  pub created_at : ℕ

pub record StateRow (Blob : Type 0) : Type 0 where
  pub revision_seqno : ℕ
  pub revision_hash : Bytes
  pub raw_signed_state : Blob
  pub name : Bytes
  pub description : Bytes
  pub anyone_can_write : Bool

pub record Head : Type 0 where
  pub seqno : ℕ
  pub hash : Bytes

pub record EventRow (Blob : Type 0) : Type 0 where
  pub seqno : ℕ
  pub event_id : Bytes
  pub commit_hash : Bytes
  pub previous_hash : Bytes
  pub author_key : Bytes
  pub body_type : BodyType
  pub raw_proposal : Blob
  pub raw_commit : Blob
  pub committed_at : ℕ

pub record MessageRow (Blob : Type 0) : Type 0 where
  pub message_id : ℕ
  pub creation_seqno : ℕ
  pub author_key : Bytes
  pub nick : Bytes
  pub text : Bytes
  pub client_ts : ℕ
  pub committed_at : ℕ
  pub raw_commit : Blob

pub record PinRow : Type 0 where
  pub message_id : ℕ
  pub pinned_seqno : ℕ
  pub pinned_by : Bytes

pub record RoleRow : Type 0 where
  pub subject_key : Bytes
  pub role : Role
  pub granted_seqno : ℕ
  pub granted_by : Bytes

pub record NonceRow : Type 0 where
  pub author_key : Bytes
  pub nonce : Bytes
  pub accepted_at : ℕ
  pub expires_at : ℕ

pub record Db (Blob : Type 0) : Type 0 where
  pub genesis : Option (GenesisRow Blob)
  pub state : Option (StateRow Blob)
  pub head : Option Head
  pub events : List (EventRow Blob)
  pub messages : List (MessageRow Blob)
  pub pins : List PinRow
  pub roles : List RoleRow
  pub nonces : List NonceRow

pub record CommitResult : Type 0 where
  pub event : CommittedEvent
  pub duplicate : Bool
