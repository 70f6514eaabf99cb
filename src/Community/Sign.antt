-- ===== src/Community/Sign.antt =====
-- internal/community/crypto.go: digests, signing and verification, and codec.go: decoding.
pub mod RoundTrips
use tonnet_messenger.Base.{
  ℕ, ◌*◌, ◌+◌, ◌/◌, Bool, true, false, not, ◌&&◌, ◌||◌, List, [], ◌∷◌, length, ltb, leb, ◌==◌,
  Option, none, some, if◌then◌else◌, Result, ok, err, ◌>>=◌, ◌>>◌, fail_if, or_err, replicate,
}
use tonnet_messenger.Base.Bytes.{Bytes, equal, bytes_ordered}
use tonnet_messenger.Base.Ordered.{sort, nat_ordered}
use tonnet_messenger.Community.Types.{
  Error, Boxed, Genesis, GenesisToSign, RoomState, RoomStateToSign, WritePolicy, EventProposal,
  EventProposalToSign, EventBody, CommittedEvent, CommittedEventToSign,
}
use tonnet_messenger.Community.Platform.{
  Platform, key_size, hash_size, private_key_size, signature_size,
}
use tonnet_messenger.Community.Validate.{
  second, mutation_clock_skew, validate_genesis, validate_state, validate_proposal,
}

-- `Zero256`
abbrev pub zero_256 : Bytes
zero_256 = replicate key_size 0

-- `time.Time.Unix`
abbrev pub unix : ℕ → ℕ
unix now = now / second

-- `asMessage`, of which the callers here use whether it is one.
unfoldable pub is_message : EventBody → Bool
is_message (EventBody.message text) = true
is_message _ = false

abbrev pub genesis_to_sign : Genesis → GenesisToSign
genesis_to_sign g = record {
  room_key = g.room_key;
  node_key = g.node_key;
  created_at = g.created_at;
  name = g.name;
  description = g.description;
  write_policy = g.write_policy;
  initial_admins = g.initial_admins;
}

abbrev pub state_to_sign : RoomState → RoomStateToSign
state_to_sign s = record {
  room_id = s.room_id;
  revision_seqno = s.revision_seqno;
  revision_hash = s.revision_hash;
  name = s.name;
  description = s.description;
  write_policy = s.write_policy;
  admins = s.admins;
  moderators = s.moderators;
  pinned_messages = s.pinned_messages;
}

module _ (c : Platform) where
  open c use {
    Blob, blob_length, serialize, parse_genesis, parse_state, parse_proposal, parse_commit, sha256,
    public, sign, verify,
  }

  -- `Encode`
  unfoldable pub encode : Boxed → Result Error Blob
  encode v = or_err (serialize v) Error.encoding

  unfoldable pub hash_boxed : Boxed → Result Error Bytes
  hash_boxed v = do raw ← encode v; ok (sha256 raw)

  -- The decoders of codec.go: nothing may be left over.
  abbrev whole : {A : Type 0} → Option (A × Blob) → Result Error A
  whole none = err Error.encoding
  whole (some (value, rest)) = if blob_length rest == 0 then ok value else err Error.trailing_bytes

  unfoldable pub decode_genesis : Blob → Result Error Genesis
  decode_genesis raw = whole (parse_genesis raw)

  unfoldable pub decode_room_state : Blob → Result Error RoomState
  decode_room_state raw = whole (parse_state raw)

  unfoldable pub decode_proposal : Blob → Result Error EventProposal
  decode_proposal raw = whole (parse_proposal raw)

  unfoldable pub decode_committed_event : Blob → Result Error CommittedEvent
  decode_committed_event raw = whole (parse_commit raw)

  unfoldable pub genesis_hash : Genesis → Result Error Bytes
  genesis_hash g = hash_boxed (Boxed.genesis g)

  unfoldable pub new_genesis :
      Bytes → Bytes → ℕ → Bytes → Bytes → Bool → List Bytes → Result Error Genesis
  new_genesis room_private node_private created_at name description anyone admins = do
    fail_if
        (not (length room_private == private_key_size)
          || not (length node_private == private_key_size))
        Error.malformed_key
    let g : Genesis = record {
      room_key = public room_private;
      node_key = public node_private;
      created_at = unix created_at;
      name = name;
      description = description;
      write_policy = record { anyone_can_write = anyone };
      initial_admins = sort admins;
      signature = [];
    }
    validate_genesis g created_at false
    digest ← hash_boxed (Boxed.genesis_to_sign (genesis_to_sign g))
    ok (record g { signature = sign room_private digest })

  unfoldable pub verify_genesis : Genesis → ℕ → Result Error (Unit {0})
  verify_genesis g now = do
    validate_genesis g now true
    digest ← hash_boxed (Boxed.genesis_to_sign (genesis_to_sign g))
    fail_if (not (verify g.room_key digest g.signature)) Error.bad_signature

  unfoldable pub sign_room_state : Bytes → RoomState → Result Error RoomState
  sign_room_state room_private given = do
    fail_if
        (not (length room_private == private_key_size)
          || not (equal (public room_private) given.room_id))
        Error.wrong_room
    let state : RoomState = record given {
      admins = sort given.admins;
      moderators = sort given.moderators;
      pinned_messages = sort given.pinned_messages;
      signature = [];
    }
    validate_state state
    digest ← hash_boxed (Boxed.state_to_sign (state_to_sign state))
    ok (record state { signature = sign room_private digest })

  unfoldable pub verify_room_state : RoomState → Result Error (Unit {0})
  verify_room_state s = do
    validate_state s
    fail_if (not (length s.signature == signature_size)) Error.bad_signature
    digest ← hash_boxed (Boxed.state_to_sign (state_to_sign s))
    fail_if (not (verify s.room_id digest s.signature)) Error.bad_signature

  unfoldable pub proposal_digest : EventProposal → Bytes → Result Error Bytes
  proposal_digest p node_key = do
    body_hash ← hash_boxed (Boxed.body p.body)
    hash_boxed (
        Boxed.proposal_to_sign (record {
          room_id = p.room_id;
          node_key = node_key;
          author_key = p.author_key;
          author_name = p.author_name;
          author_domain = p.author_domain;
          nonce = p.nonce;
          timestamp = p.timestamp;
          body_hash = body_hash;
        }))

  -- `EventProposal.ID`
  unfoldable pub proposal_id : EventProposal → Result Error Bytes
  proposal_id p = hash_boxed (Boxed.proposal p)

  unfoldable pub sign_proposal : Bytes → Bytes → EventProposal → Result Error EventProposal
  sign_proposal private_key node_key given = do
    fail_if (not (length private_key == private_key_size) || not (length node_key == key_size))
        Error.malformed_key
    let p : EventProposal = record given { author_key = public private_key; signature = [] }
    validate_proposal c p
    digest ← proposal_digest p node_key
    ok (record p { signature = sign private_key digest })

  -- `EventProposal.Verify`, for a proposal that arrives at the time `now`.
  unfoldable pub verify_proposal : EventProposal → Bytes → ℕ → Result Error (Unit {0})
  verify_proposal p node_key now = do
    fail_if (not (length node_key == key_size)) Error.wrong_node
    validate_proposal c p
    fail_if (not (length p.signature == signature_size)) Error.bad_signature
    fail_if
        (ltb (p.timestamp * second + mutation_clock_skew) now
          || ltb (now + mutation_clock_skew) (p.timestamp * second))
        Error.timestamp
    digest ← proposal_digest p node_key
    fail_if (not (verify p.author_key digest p.signature)) Error.bad_signature

  -- `EventProposal.VerifyAt`, for a proposal of any age.
  unfoldable pub verify_proposal_at : EventProposal → Bytes → Result Error (Unit {0})
  verify_proposal_at p node_key = do
    fail_if (not (length node_key == key_size)) Error.wrong_node
    validate_proposal c p
    fail_if (not (length p.signature == signature_size)) Error.bad_signature
    digest ← proposal_digest p node_key
    fail_if (not (verify p.author_key digest p.signature)) Error.bad_signature

  unfoldable pub commit_digest : CommittedEvent → Result Error Bytes
  commit_digest e = do
    proposal_hash ← hash_boxed (Boxed.proposal e.proposal)
    hash_boxed (
        Boxed.commit_to_sign (record {
          seqno = e.seqno;
          message_id = e.message_id;
          previous_hash = e.previous_hash;
          proposal_hash = proposal_hash;
          committed_at = e.committed_at;
        }))

  -- `CommittedEvent.Hash`
  unfoldable pub commit_hash : CommittedEvent → Result Error Bytes
  commit_hash e = hash_boxed (Boxed.commit e)

  unfoldable pub sign_commit : Bytes → EventProposal → ℕ → Bytes → ℕ → Result Error CommittedEvent
  sign_commit room_private proposal seqno previous_hash committed_at = do
    fail_if
        (not (length room_private == private_key_size)
          || not (equal (public room_private) proposal.room_id))
        Error.wrong_room
    fail_if (ltb seqno 1 || not (length previous_hash == hash_size)) Error.malformed_hash
    let e : CommittedEvent = record {
      seqno = seqno;
      message_id = if is_message proposal.body then seqno else 0;
      previous_hash = previous_hash;
      proposal = proposal;
      committed_at = unix committed_at;
      signature = [];
    }
    digest ← commit_digest e
    ok (record e { signature = sign room_private digest })

  unfoldable pub verify_commit : CommittedEvent → Bytes → Bytes → Result Error (Unit {0})
  verify_commit e room_id node_key = do
    fail_if (not (length room_id == key_size) || not (equal e.proposal.room_id room_id))
        Error.wrong_room
    fail_if (ltb e.seqno 1 || not (length e.previous_hash == hash_size) || ltb e.committed_at 1)
        Error.malformed_hash
    let message = is_message e.proposal.body
    fail_if ((message && not (e.message_id == e.seqno)) || (not message && not (e.message_id == 0)))
        Error.invalid_body
    verify_proposal_at e.proposal node_key
    fail_if (not (length e.signature == signature_size)) Error.bad_signature
    digest ← commit_digest e
    fail_if (not (verify room_id digest e.signature)) Error.bad_signature
