-- ===== src/Community/Types.antt =====
-- internal/community/types.go, and the error values of crypto.go and projection.go.
-- Keys, hashes, names and texts are byte strings. An `int64` that the code keeps at 0 or above is
-- a natural number; the tests `< 1` and `<= 0` on such a field reject 0 and every negative value
-- alike. A body and a pointer to it are one constructor; `unsupported` stands for any other value.
use tonnet_messenger.Base.{ℕ, Bool, List}
use tonnet_messenger.Base.Bytes.{Bytes}

pub data Error : Type 0 where
  malformed_key malformed_hash bad_signature wrong_room wrong_node timestamp : Error
  invalid_body invalid_state_order : Error
  invalid_author_name invalid_author_domain : Error
  invalid_room_name control_character invalid_description : Error
  projection_unauthorized projection_conflict projection_limit projection_message : Error
  not_contiguous stale_transition state_disagrees : Error
  encoding trailing_bytes : Error

pub record WritePolicy : Type 0 where
  pub anyone_can_write : Bool

pub record Genesis : Type 0 where
  pub room_key : Bytes
  pub node_key : Bytes
  pub created_at : ℕ
  pub name : Bytes
  pub description : Bytes
  pub write_policy : WritePolicy
  pub initial_admins : List Bytes
  pub signature : Bytes

pub record GenesisToSign : Type 0 where
  pub room_key : Bytes
  pub node_key : Bytes
  pub created_at : ℕ
  pub name : Bytes
  pub description : Bytes
  pub write_policy : WritePolicy
  pub initial_admins : List Bytes

pub record RoomState : Type 0 where
  pub room_id : Bytes
  pub revision_seqno : ℕ
  pub revision_hash : Bytes
  pub name : Bytes
  pub description : Bytes
  pub write_policy : WritePolicy
  pub admins : List Bytes
  pub moderators : List Bytes
  pub pinned_messages : List ℕ
  pub signature : Bytes

pub record RoomStateToSign : Type 0 where
  pub room_id : Bytes
  pub revision_seqno : ℕ
  pub revision_hash : Bytes
  pub name : Bytes
  pub description : Bytes
  pub write_policy : WritePolicy
  pub admins : List Bytes
  pub moderators : List Bytes
  pub pinned_messages : List ℕ

pub data EventBody : Type 0 where
  message : Bytes → EventBody
  pin unpin : ℕ → EventBody
  metadata : Bytes → Bytes → EventBody
  admin_grant admin_revoke moderator_grant moderator_revoke : Bytes → EventBody
  write_policy : Bool → EventBody
  unsupported : EventBody

pub record EventProposal : Type 0 where
  pub room_id : Bytes
  pub author_key : Bytes
  pub author_name : Bytes
  pub author_domain : Bytes
  pub nonce : Bytes
  pub timestamp : ℕ
  pub body : EventBody
  pub signature : Bytes

pub record EventProposalToSign : Type 0 where
  pub room_id : Bytes
  pub node_key : Bytes
  pub author_key : Bytes
  pub author_name : Bytes
  pub author_domain : Bytes
  pub nonce : Bytes
  pub timestamp : ℕ
  pub body_hash : Bytes

pub record CommittedEvent : Type 0 where
  pub seqno : ℕ
  pub message_id : ℕ
  pub previous_hash : Bytes
  pub proposal : EventProposal
  pub committed_at : ℕ
  pub signature : Bytes

pub record CommittedEventToSign : Type 0 where
  pub seqno : ℕ
  pub message_id : ℕ
  pub previous_hash : Bytes
  pub proposal_hash : Bytes
  pub committed_at : ℕ

-- A value that `tl.Serialize` is given, boxed by its constructor's number.
pub data Boxed : Type 0 where
  genesis : Genesis → Boxed
  genesis_to_sign : GenesisToSign → Boxed
  state : RoomState → Boxed
  state_to_sign : RoomStateToSign → Boxed
  body : EventBody → Boxed
  proposal : EventProposal → Boxed
  proposal_to_sign : EventProposalToSign → Boxed
  commit : CommittedEvent → Boxed
  commit_to_sign : CommittedEventToSign → Boxed
