-- ===== src/Community/Sign/RoundTrips.antt =====
-- What one side signs, the other side accepts.
use tonnet_messenger.Base.{ℕ, ◌*◌, ◌+◌, ◌≤◌, ◌≡◌, refl, [], length, arith, if◌then◌else◌, ok}
use tonnet_messenger.Base.Bytes.{Bytes, equal_refl, equal→eq, bytes_ordered}
use tonnet_messenger.Base.Ordered.{sort, nat_ordered}
use tonnet_messenger.Community.Types.{Boxed, RoomState, EventProposal, CommittedEvent}
use tonnet_messenger.Community.Platform.{Platform, IsLawful, key_size, hash_size, private_key_size}
use tonnet_messenger.Community.Validate.{
  second, mutation_clock_skew, validate_state, validate_proposal,
}
use tonnet_messenger.Community.Sign.{
  unix, is_message, sign_room_state, verify_room_state, proposal_digest, sign_proposal,
  verify_proposal, verify_proposal_at, commit_digest, sign_commit, verify_commit, state_to_sign,
  hash_boxed,
}

abbrev pub sorted_state : RoomState → RoomState
sorted_state s = record s {
  admins = sort s.admins;
  moderators = sort s.moderators;
  pinned_messages = sort s.pinned_messages;
  signature = [];
}

-- The checks of the fields do not read the signature.
validate_state-signature :
    (s : RoomState) (x : Bytes) → validate_state (record s { signature = x }) ≡ validate_state s
unfolding validate_state
validate_state-signature s x = refl

validate_proposal-signature :
    (c : Platform) (p : EventProposal) (x : Bytes)
    → validate_proposal c (record p { signature = x }) ≡ validate_proposal c p
unfolding validate_proposal
validate_proposal-signature c p x = refl

proposal_digest-signature :
    (c : Platform) (p : EventProposal) (x node_key : Bytes)
    → proposal_digest c (record p { signature = x }) node_key ≡ proposal_digest c p node_key
unfolding proposal_digest
proposal_digest-signature c p x node_key = refl

commit_digest-signature :
    (c : Platform) (e : CommittedEvent) (x : Bytes)
    → commit_digest c (record e { signature = x }) ≡ commit_digest c e
unfolding commit_digest
commit_digest-signature c e x = refl

module _ (c : Platform) where
  open c use {public, sign, verify}

  pub sign_room_state_inv :
      (k : Bytes) (given s : RoomState)
      → sign_room_state c k given ≡ ok s
      → (digest : Bytes) × (hash_boxed c (Boxed.state_to_sign (state_to_sign (sorted_state given)))
          ≡ ok digest)
        × (length k ≡ private_key_size)
        × (public k ≡ given.room_id)
        × (validate_state (sorted_state given) ≡ ok tt)
        × (s ≡ record (sorted_state given) { signature = sign k digest })
  unfolding sign_room_state
  sign_room_state_inv k given s h = ground (arith, equal→eq (public k) given.room_id)

  abbrev authored : Bytes → EventProposal → EventProposal
  authored k given = record given { author_key = public k; signature = [] }

  sign_proposal_inv :
      (k node_key : Bytes) (given p : EventProposal)
      → sign_proposal c k node_key given ≡ ok p
      → (digest : Bytes) × (proposal_digest c (authored k given) node_key ≡ ok digest)
        × (length k ≡ private_key_size)
        × (length node_key ≡ key_size)
        × (validate_proposal c (authored k given) ≡ ok tt)
        × (p ≡ record (authored k given) { signature = sign k digest })
  unfolding sign_proposal
  sign_proposal_inv k node_key given p h = ground arith

  abbrev unsigned_commit : EventProposal → ℕ → Bytes → ℕ → CommittedEvent
  unsigned_commit p seqno previous now = record {
    seqno = seqno;
    message_id = if is_message p.body then seqno else 0;
    previous_hash = previous;
    proposal = p;
    committed_at = unix now;
    signature = [];
  }

  pub sign_commit_inv :
      (k previous : Bytes) (p : EventProposal) (seqno now : ℕ) (e : CommittedEvent)
      → sign_commit c k p seqno previous now ≡ ok e
      → (digest : Bytes) × (commit_digest c (unsigned_commit p seqno previous now) ≡ ok digest)
        × (length k ≡ private_key_size)
        × (public k ≡ p.room_id)
        × (1 ≤ seqno)
        × (length previous ≡ hash_size)
        × (e ≡ record (unsigned_commit p seqno previous now) { signature = sign k digest })
  unfolding sign_commit
  sign_commit_inv k previous p seqno now e h = ground (arith, equal→eq (public k) p.room_id)

module _ (c : Platform) (lawful : IsLawful c) where
  open c use {public, sign, verify}

  -- On a platform that keeps its laws, a room state that `SignRoomState` returns passes
  -- `RoomState.Verify`.
  pub verify-sign_room_state :
      (k : Bytes) (given s : RoomState)
      → sign_room_state c k given ≡ ok s
      → verify_room_state c s ≡ ok tt
  unfolding verify_room_state
  verify-sign_room_state k given s h =
      let (digest, hashed, size, owner, valid, e) = sign_room_state_inv c k given s h in
      rw e (
        ground (
          arith,
          validate_state-signature (sorted_state given) (sign k digest),
          hashed,
          size,
          owner,
          valid,
          lawful.verify-sign k digest size,
          lawful.length-sign k digest size,
        ))

  -- On a platform that keeps its laws, a proposal that `SignProposal` returns passes
  -- `EventProposal.Verify` under the same node key at every time that differs from the proposal's
  -- by the accepted clock skew at most.
  pub verify-sign_proposal :
      (k node_key : Bytes) (given p : EventProposal) (now : ℕ)
      → sign_proposal c k node_key given ≡ ok p
      → now ≤ given.timestamp * second + mutation_clock_skew
      → given.timestamp * second ≤ now + mutation_clock_skew
      → verify_proposal c p node_key now ≡ ok tt
  unfolding verify_proposal
  verify-sign_proposal k node_key given p now h early late =
      let (digest, hashed, size, node, valid, e) = sign_proposal_inv c k node_key given p h in
      rw e (
        ground (
          arith,
          validate_proposal-signature c (authored c k given) (sign k digest),
          proposal_digest-signature c (authored c k given) (sign k digest) node_key,
          hashed,
          valid,
          lawful.verify-sign k digest size,
          lawful.length-sign k digest size,
        ))

  -- A proposal that was verified on arrival stays verified.
  pub verify_proposal_at_of_verify_proposal :
      (p : EventProposal) (node_key : Bytes) (now : ℕ)
      → verify_proposal c p node_key now ≡ ok tt
      → verify_proposal_at c p node_key ≡ ok tt
  unfolding verify_proposal verify_proposal_at
  verify_proposal_at_of_verify_proposal p node_key now h = ground arith

  -- On a platform that keeps its laws, a commit that `SignCommit` makes at a time of one second or
  -- later passes `CommittedEvent.Verify` for the proposal's room, when the proposal passes
  -- `VerifyAt` and its room's key has the size of a key.
  pub verify-sign_commit :
      (k previous node_key : Bytes) (p : EventProposal) (seqno now : ℕ) (e : CommittedEvent)
      → sign_commit c k p seqno previous now ≡ ok e
      → verify_proposal_at c p node_key ≡ ok tt
      → length p.room_id ≡ key_size
      → second ≤ now
      → verify_commit c e p.room_id node_key ≡ ok tt
  unfolding verify_commit
  verify-sign_commit k previous node_key p seqno now e h v size late =
      let (digest, hashed, private, owner, positive, chained, f) =
        sign_commit_inv c k previous p seqno now e h in
      rw f (
        ground (
          arith,
          commit_digest-signature c (unsigned_commit c p seqno previous now) (sign k digest),
          hashed,
          v,
          owner,
          equal_refl p.room_id,
          lawful.verify-sign k digest private,
          lawful.length-sign k digest private,
        ))
