-- ===== src/Community/Projection.antt =====
-- internal/community/projection.go: the room state that follows from a genesis and its events.
-- `address` is the pointer by which a transition names its projection. The slices and keys that
-- the code copies are values here, so a copy is the value itself.
pub mod Steps
pub mod RoleLists
pub mod Invariant
pub mod Bodies
pub mod Canonical
pub mod Agreed
pub mod Signable
pub mod Transitions
use mathlib.Core.Bool.{xor}
use tonnet_messenger.Base.{
  ℕ, ◌+◌, Bool, true, false, not, ◌&&◌, ◌||◌, List, [], ◌∷◌, ◌++◌, length, ltb, leb, ◌==◌,
  if◌then◌else◌, Result, ok, err, ◌>>=◌, ◌>>◌, fail_if,
}
use tonnet_messenger.Base.Bytes.{Bytes, equal, bytes_ordered}
use tonnet_messenger.Base.Ordered.{contains, remove, sort, nat_ordered}
use tonnet_messenger.Community.Types.{
  Error, Genesis, RoomState, WritePolicy, EventProposal, EventBody, CommittedEvent,
}
use tonnet_messenger.Community.Platform.{Platform}
use tonnet_messenger.Community.Validate.{max_admins, max_moderators, max_pins}
use tonnet_messenger.Community.Sign.{
  zero_256, is_message, verify_genesis, genesis_hash, verify_commit, commit_hash, verify_room_state,
}

pub record Projection : Type 0 where
  pub address : ℕ
  pub genesis : Genesis
  pub state : RoomState
  pub head_seq : ℕ
  pub head_hash : Bytes
  pub messages : List ℕ

pub record Transition : Type 0 where
  pub owner : ℕ
  pub base_seq : ℕ
  pub base_hash : Bytes
  pub next_seq : ℕ
  pub next_hash : Bytes
  pub state_changed : Bool
  pub next_state : RoomState
  pub message_id : ℕ

-- `RoomState{}`
abbrev pub empty_state : RoomState
empty_state = record {
  room_id = [];
  revision_seqno = 0;
  revision_hash = [];
  name = [];
  description = [];
  write_policy = record { anyone_can_write = false };
  admins = [];
  moderators = [];
  pinned_messages = [];
  signature = [];
}

-- The switch of `projectionAuthorized`, over its four tests.
abbrev pub authorized : Bool → Bool → Bool → Bool → EventBody → Bool
authorized anyone owner admin moderator (EventBody.message text) = anyone || owner || admin
authorized anyone owner admin moderator (EventBody.metadata name description) = owner || admin
authorized anyone owner admin moderator (EventBody.write_policy policy) = owner || admin
authorized anyone owner admin moderator (EventBody.pin id) = owner || admin || moderator
authorized anyone owner admin moderator (EventBody.unpin id) = owner || admin || moderator
authorized anyone owner admin moderator (EventBody.admin_grant key) = owner
authorized anyone owner admin moderator (EventBody.admin_revoke key) = owner
authorized anyone owner admin moderator (EventBody.moderator_grant key) = owner || admin
authorized anyone owner admin moderator (EventBody.moderator_revoke key) = owner || admin
authorized anyone owner admin moderator EventBody.unsupported = false

unfoldable pub projection_authorized : Bytes → RoomState → EventProposal → Bool
projection_authorized room_key state proposal =
    authorized state.write_policy.anyone_can_write (equal proposal.author_key room_key)
      (contains proposal.author_key state.admins) (contains proposal.author_key state.moderators)
      proposal.body

-- The list of keys with one role, behind the pointer that the code takes to it.
abbrev pub roles_of : Bool → RoomState → List Bytes
roles_of true state = state.admins
roles_of false state = state.moderators

abbrev pub with_roles : Bool → RoomState → List Bytes → RoomState
with_roles true state keys = record state { admins = keys }
with_roles false state keys = record state { moderators = keys }

abbrev pub role_limit : Bool → ℕ
role_limit true = max_admins
role_limit false = max_moderators

unfoldable pub grant_projected_role : Bytes → RoomState → Bytes → Bool → Result Error RoomState
grant_projected_role room_key state key admin = do
  fail_if (equal key room_key) Error.projection_conflict
  fail_if (contains key (roles_of admin state)) Error.projection_conflict
  fail_if (leb (role_limit admin) (length (roles_of admin state))) Error.projection_limit
  ok (with_roles admin state (sort (roles_of admin state ++ key ∷ [])))

unfoldable pub revoke_projected_role : Bytes → RoomState → Bytes → Bool → Result Error RoomState
revoke_projected_role room_key state key admin = do
  fail_if (equal key room_key) Error.projection_conflict
  fail_if (not (contains key (roles_of admin state))) Error.projection_conflict
  ok (with_roles admin state (remove key (roles_of admin state)))

unfoldable pub pin_projected : RoomState → List ℕ → ℕ → Result Error RoomState
pin_projected state messages id = do
  fail_if (not (contains id messages)) Error.projection_message
  fail_if (contains id state.pinned_messages) Error.projection_conflict
  fail_if (leb max_pins (length state.pinned_messages)) Error.projection_limit
  ok (record state { pinned_messages = sort (state.pinned_messages ++ id ∷ []) })

unfoldable pub unpin_projected : RoomState → ℕ → Result Error RoomState
unpin_projected state id = do
  fail_if (not (contains id state.pinned_messages)) Error.projection_conflict
  ok (record state { pinned_messages = remove id state.pinned_messages })

unfoldable pub apply_projected_state_body :
    Bytes → RoomState → List ℕ → EventBody → Result Error RoomState
apply_projected_state_body room_key state messages (EventBody.metadata name description) =
    ok (record state { name = name; description = description })
apply_projected_state_body room_key state messages (EventBody.write_policy anyone) =
    ok (record state { write_policy = record { anyone_can_write = anyone } })
apply_projected_state_body room_key state messages (EventBody.pin id) =
    pin_projected state messages id
apply_projected_state_body room_key state messages (EventBody.unpin id) = unpin_projected state id
apply_projected_state_body room_key state messages (EventBody.admin_grant key) =
    grant_projected_role room_key state key true
apply_projected_state_body room_key state messages (EventBody.admin_revoke key) =
    revoke_projected_role room_key state key true
apply_projected_state_body room_key state messages (EventBody.moderator_grant key) =
    grant_projected_role room_key state key false
apply_projected_state_body room_key state messages (EventBody.moderator_revoke key) =
    revoke_projected_role room_key state key false
apply_projected_state_body room_key state messages (EventBody.message text) = err Error.invalid_body
apply_projected_state_body room_key state messages EventBody.unsupported = err Error.invalid_body

-- The loops of `equalProjectedKeys` and `equalProjectedLongs`.
unfoldable pub equal_projected_keys : List Bytes → List Bytes → Bool
equal_projected_keys [] [] = true
equal_projected_keys [] (y ∷ ys) = false
equal_projected_keys (x ∷ xs) [] = false
equal_projected_keys (x ∷ xs) (y ∷ ys) = equal x y && equal_projected_keys xs ys

unfoldable pub equal_projected_longs : List ℕ → List ℕ → Bool
equal_projected_longs [] [] = true
equal_projected_longs [] (y ∷ ys) = false
equal_projected_longs (x ∷ xs) [] = false
equal_projected_longs (x ∷ xs) (y ∷ ys) = x == y && equal_projected_longs xs ys

-- `messages[id] = struct{}{}`
abbrev pub add_message : ℕ → List ℕ → List ℕ
add_message id messages = if contains id messages then messages else id ∷ messages

-- `Projection.Commit`: what is left when the transition is still current.
unfoldable pub commit : Projection → Transition → Result Error Projection
commit p t = do
  fail_if
      (not (t.owner == p.address)
        || not (t.next_seq == p.head_seq + 1)
        || not (t.base_seq == p.head_seq)
        || not (equal t.base_hash p.head_hash))
      Error.stale_transition
  ok (record p {
    head_seq = t.next_seq;
    head_hash = t.next_hash;
    messages = if ltb 0 t.message_id then add_message t.message_id p.messages else p.messages;
    state = if t.state_changed then t.next_state else p.state;
  })

module _ (c : Platform) where
  -- The projection that is made at the pointer `address`, at the time `now`.
  unfoldable pub new_projection : ℕ → Genesis → ℕ → Result Error Projection
  new_projection address genesis now = do
    verify_genesis c genesis now
    hash ← genesis_hash c genesis
    ok (record {
      address = address;
      genesis = genesis;
      state = record {
        room_id = genesis.room_key;
        revision_seqno = 0;
        revision_hash = hash;
        name = genesis.name;
        description = genesis.description;
        write_policy = genesis.write_policy;
        admins = genesis.initial_admins;
        moderators = [];
        pinned_messages = [];
        signature = [];
      };
      head_seq = 0;
      head_hash = zero_256;
      messages = [];
    })

  unfoldable pub prepare_delta : Projection → CommittedEvent → Bytes → Result Error Transition
  prepare_delta p event hash =
      if is_message event.proposal.body
      then ok (record base { message_id = event.message_id })
      else do
        next ← apply_projected_state_body p.genesis.room_key p.state p.messages event.proposal.body
        ok (record base {
          state_changed = true;
          next_state = record next { revision_seqno = event.seqno; revision_hash = hash };
        })
    where
      base : Transition
      base = record {
        owner = p.address;
        base_seq = p.head_seq;
        base_hash = p.head_hash;
        next_seq = event.seqno;
        next_hash = hash;
        state_changed = false;
        next_state = empty_state;
        message_id = 0;
      }

  unfoldable pub prepare : Projection → CommittedEvent → Result Error Transition
  prepare p event = do
    verify_commit c event p.genesis.room_key p.genesis.node_key
    fail_if (not (event.seqno == p.head_seq + 1) || not (equal event.previous_hash p.head_hash))
        Error.not_contiguous
    fail_if (not (projection_authorized p.genesis.room_key p.state event.proposal))
        Error.projection_unauthorized
    hash ← commit_hash c event
    prepare_delta p event hash

  unfoldable pub apply : Projection → CommittedEvent → Result Error Projection
  apply p event = do t ← prepare p event; commit p t

  unfoldable pub validate_projected_state : Projection → RoomState → Result Error (Unit {0})
  validate_projected_state p state = do
    verify_room_state c state
    let expected = p.state
    fail_if
        (not (equal state.room_id expected.room_id)
          || not (state.revision_seqno == expected.revision_seqno)
          || not (equal state.revision_hash expected.revision_hash)
          || not (equal state.name expected.name)
          || not (equal state.description expected.description)
          || xor state.write_policy.anyone_can_write expected.write_policy.anyone_can_write
          || not (equal_projected_keys state.admins expected.admins)
          || not (equal_projected_keys state.moderators expected.moderators)
          || not (equal_projected_longs state.pinned_messages expected.pinned_messages))
        Error.state_disagrees
