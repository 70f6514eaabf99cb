-- ===== src/Store/Commit.antt =====
-- internal/store/commit.go. An operation takes the tables and returns the new ones, or fails. A
-- failure rolls the transaction back, so the tables stay as they were.
use tonnet_messenger.Base.{
  ℕ, ◌+◌, Bool, true, false, not, ◌||◌, List, [], length, leb, ◌==◌, Option, none, some,
  if◌then◌else◌, Result, ok, err, ◌>>=◌, ◌>>◌, fail_if, or_err, map_err,
}
use tonnet_messenger.Base.Bytes.{Bytes, equal, bytes_ordered}
use tonnet_messenger.Base.Ordered.{contains, sort, nat_ordered}
use mathlib.Core.Option
use tonnet_messenger.Community.Types.{
  Error, Boxed, Genesis, RoomState, EventProposal, EventBody, CommittedEvent,
}
use tonnet_messenger.Community.Platform.{Platform, private_key_size}
use tonnet_messenger.Community.Validate.{max_admins, max_moderators, max_pins, nonce_retention}
use tonnet_messenger.Community.Sign.{
  unix, encode, decode_genesis, decode_room_state, decode_committed_event, proposal_id,
  verify_proposal, sign_commit, commit_hash, sign_room_state,
}
use tonnet_messenger.Store.Tables.{
  Code, Failure, Role, BodyType, StateRow, EventRow, RoleRow, Db, CommitResult,
}
use tonnet_messenger.Store.Sql.{
  subjects, delete_role, insert_role, pinned, delete_pin, insert_pin, message_ids,
  insert_message_row, event_with_id, insert_event, expire_nonces, live_nonce, insert_nonce,
}

-- `reject(code, …, err)` around any error.
abbrev pub rejecting {ℓ} : {E : Type 0} {A : Type ℓ} → Code → Result E A → Result Failure A
rejecting code r = map_err (λ _. Failure.reject code) r

-- `persistenceProjection`, and the code for `isConstraint` where the statement can meet it.
abbrev pub on_constraint {ℓ} : {A : Type ℓ} → Code → Result Failure A → Result Failure A
on_constraint code r = map_err (λ _. Failure.reject code) r

unfoldable pub body_type : EventBody → Option BodyType
body_type (EventBody.message text) = some BodyType.message
body_type (EventBody.pin id) = some BodyType.pin
body_type (EventBody.unpin id) = some BodyType.unpin
body_type (EventBody.metadata name description) = some BodyType.metadata
body_type (EventBody.admin_grant key) = some BodyType.admin_grant
body_type (EventBody.admin_revoke key) = some BodyType.admin_revoke
body_type (EventBody.moderator_grant key) = some BodyType.moderator_grant
body_type (EventBody.moderator_revoke key) = some BodyType.moderator_revoke
body_type (EventBody.write_policy anyone) = some BodyType.write_policy
body_type EventBody.unsupported = none

-- The second result of `bodyType`.
abbrev pub state_changing : BodyType → Bool
state_changing BodyType.message = false
state_changing _ = true

-- The switch of `authorize`.
unfoldable pub allowed : Bool → Bool → Bool → Bool → EventBody → Option Bool
allowed anyone owner admin moderator (EventBody.message text) = some (anyone || owner || admin)
allowed anyone owner admin moderator (EventBody.metadata name description) = some (owner || admin)
allowed anyone owner admin moderator (EventBody.write_policy policy) = some (owner || admin)
allowed anyone owner admin moderator (EventBody.pin id) = some (owner || admin || moderator)
allowed anyone owner admin moderator (EventBody.unpin id) = some (owner || admin || moderator)
allowed anyone owner admin moderator (EventBody.admin_grant key) = some owner
allowed anyone owner admin moderator (EventBody.admin_revoke key) = some owner
allowed anyone owner admin moderator (EventBody.moderator_grant key) = some (owner || admin)
allowed anyone owner admin moderator (EventBody.moderator_revoke key) = some (owner || admin)
allowed anyone owner admin moderator EventBody.unsupported = none

-- `hasRole`
unfoldable pub has_role : Bytes → Role → List RoleRow → Bool
has_role key role rows = contains key (subjects role rows)

abbrev pub limit_of : Role → ℕ
limit_of Role.admin = max_admins
limit_of Role.moderator = max_moderators

module _ {Blob : Type 0} where
  unfoldable pub authorize :
      Db Blob → Genesis → RoomState → EventProposal → Result Failure (Unit {0})
  authorize db genesis state p = do
    decision ←
        or_err
          (allowed state.write_policy.anyone_can_write (equal p.author_key genesis.room_key)
            (has_role p.author_key Role.admin db.roles)
            (has_role p.author_key Role.moderator db.roles) p.body)
          (Failure.reject Code.unsupported_event)
    fail_if (not decision) (Failure.reject Code.permission_denied)

  unfoldable pub insert_message : Db Blob → CommittedEvent → Bytes → Blob → Result Failure (Db Blob)
  insert_message db event text raw = do
    messages ← rejecting Code.persistence_failure (
        insert_message_row
          (record {
            message_id = event.message_id;
            creation_seqno = event.seqno;
            author_key = event.proposal.author_key;
            nick = event.proposal.author_name;
            text = text;
            client_ts = event.proposal.timestamp;
            committed_at = event.committed_at;
            raw_commit = raw;
          })
          db.messages)
    ok (record db { messages = messages })

  unfoldable pub pin : Db Blob → ℕ → ℕ → Bytes → Result Failure (Db Blob)
  pin db seqno message_id author = do
    fail_if (not (contains message_id (message_ids db.messages)))
        (Failure.reject Code.unknown_message)
    fail_if (leb max_pins (length (pinned db.pins))) (Failure.reject Code.limit_exceeded)
    pins ← on_constraint Code.role_conflict (
        insert_pin db.messages
          (record { message_id = message_id; pinned_seqno = seqno; pinned_by = author }) db.pins)
    ok (record db { pins = pins })

  unfoldable pub unpin : Db Blob → ℕ → Result Failure (Db Blob)
  unpin db message_id = do
    fail_if (not (contains message_id (pinned db.pins))) (Failure.reject Code.unknown_message)
    ok (record db { pins = delete_pin message_id db.pins })

  unfoldable pub grant_role :
      Db Blob → Genesis → ℕ → Bytes → Bytes → Role → Result Failure (Db Blob)
  grant_role db genesis seqno subject author role = do
    fail_if (equal subject genesis.room_key) (Failure.reject Code.role_conflict)
    fail_if (leb (limit_of role) (length (subjects role db.roles)))
        (Failure.reject Code.limit_exceeded)
    roles ← on_constraint Code.role_conflict (
        insert_role
          (record {
            subject_key = subject;
            role = role;
            granted_seqno = seqno;
            granted_by = author;
          })
          db.roles)
    ok (record db { roles = roles })

  unfoldable pub revoke_role : Db Blob → Genesis → Bytes → Role → Result Failure (Db Blob)
  revoke_role db genesis subject role = do
    fail_if (equal subject genesis.room_key) (Failure.reject Code.role_conflict)
    fail_if (not (has_role subject role db.roles)) (Failure.reject Code.role_conflict)
    ok (record db { roles = delete_role subject role db.roles })

  -- UPDATE room_state SET …, which is no error on an empty table.
  abbrev pub update_state : (StateRow Blob → StateRow Blob) → Db Blob → Db Blob
  update_state f db = record db { state = Option.map f db.state }

  unfoldable pub apply_projection :
      Db Blob → Genesis → CommittedEvent → Blob → EventBody → Result Failure (Db Blob)
  apply_projection db genesis event raw (EventBody.message text) = insert_message db event text raw
  apply_projection db genesis event raw (EventBody.metadata name description) =
      ok (update_state (λ r. record r { name = name; description = description }) db)
  apply_projection db genesis event raw (EventBody.write_policy anyone) =
      ok (update_state (λ r. record r { anyone_can_write = anyone }) db)
  apply_projection db genesis event raw (EventBody.pin id) =
      pin db event.seqno id event.proposal.author_key
  apply_projection db genesis event raw (EventBody.unpin id) = unpin db id
  apply_projection db genesis event raw (EventBody.admin_grant key) =
      grant_role db genesis event.seqno key event.proposal.author_key Role.admin
  apply_projection db genesis event raw (EventBody.admin_revoke key) =
      revoke_role db genesis key Role.admin
  apply_projection db genesis event raw (EventBody.moderator_grant key) =
      grant_role db genesis event.seqno key event.proposal.author_key Role.moderator
  apply_projection db genesis event raw (EventBody.moderator_revoke key) =
      revoke_role db genesis key Role.moderator
  apply_projection db genesis event raw EventBody.unsupported =
      err (Failure.reject Code.unsupported_event)

-- The code under which a failed verification is reported.
abbrev pub verification_code : Error → Failure
verification_code Error.timestamp = Failure.reject Code.timestamp
verification_code _ = Failure.reject Code.invalid_signature

module _ (c : Platform) where
  open c use {Blob, public}

  -- `genesisTx` and `stateTx`
  unfoldable pub genesis_tx : Db Blob → Result Failure (Genesis × Bytes)
  genesis_tx db = do
    row ← or_err db.genesis Failure.no_rows
    genesis ← map_err Failure.community (decode_genesis c row.raw_tl)
    ok (genesis, row.genesis_hash)

  unfoldable pub state_tx : Db Blob → Result Failure RoomState
  state_tx db = do
    row ← or_err db.state Failure.no_rows
    map_err Failure.community (decode_room_state c row.raw_signed_state)

  -- `findEventByID`, and `FindCommitted` outside a transaction.
  unfoldable pub find_event_by_id : Db Blob → Bytes → Result Failure (Option CommittedEvent)
  find_event_by_id db id = elim (event_with_id id db.events) [
    | none ↦ ok none
    | some row ↦ do
      event ← map_err Failure.community (decode_committed_event c row.raw_commit)
      ok (some event)
  ]

  unfoldable pub projected_state : Db Blob → Result Failure RoomState
  projected_state db = do
    (genesis, _) ← genesis_tx db
    row ← or_err db.state Failure.no_rows
    ok (record {
      room_id = genesis.room_key;
      revision_seqno = 0;
      revision_hash = [];
      name = row.name;
      description = row.description;
      write_policy = record { anyone_can_write = row.anyone_can_write };
      admins = sort (subjects Role.admin db.roles);
      moderators = sort (subjects Role.moderator db.roles);
      pinned_messages = sort (pinned db.pins);
      signature = [];
    })

  unfoldable pub persist_state_snapshot : Db Blob → Bytes → ℕ → Bytes → Result Failure (Db Blob)
  persist_state_snapshot db room_private seqno hash = do
    projected ← projected_state db
    state ← map_err Failure.community (
        sign_room_state c room_private
          (record projected { revision_seqno = seqno; revision_hash = hash }))
    raw ← map_err Failure.community (encode c (Boxed.state state))
    ok (
        update_state
          (λ r. record r { revision_seqno = seqno; revision_hash = hash; raw_signed_state = raw })
          db)

  abbrev pub event_row : CommittedEvent → Bytes → Bytes → BodyType → Blob → Blob → EventRow Blob
  event_row event id hash type raw_proposal raw_commit = record {
    seqno = event.seqno;
    event_id = id;
    commit_hash = hash;
    previous_hash = event.previous_hash;
    author_key = event.proposal.author_key;
    body_type = type;
    raw_proposal = raw_proposal;
    raw_commit = raw_commit;
    committed_at = event.committed_at;
  }

  -- From the signed commit on: the event, its projection, the snapshot, the nonce and the head.
  unfoldable pub record_commit :
      Db Blob → Genesis → Bytes → ℕ → Bytes → Blob → CommittedEvent → Result Failure (Db Blob)
  record_commit db genesis room_private now event_id raw_proposal event = do
    raw_commit ← rejecting Code.persistence_failure (encode c (Boxed.commit event))
    hash ← rejecting Code.persistence_failure (commit_hash c event)
    type ← or_err (body_type event.proposal.body) (Failure.reject Code.unsupported_event)
    events ←
        rejecting Code.persistence_failure
          (insert_event (event_row event event_id hash type raw_proposal raw_commit) db.events)
    projected ←
        apply_projection (record db { events = events }) genesis event raw_commit
          event.proposal.body
    saved ←
        if state_changing type
        then rejecting Code.persistence_failure
            (persist_state_snapshot projected room_private event.seqno hash)
        else ok projected
    nonces ← rejecting Code.persistence_failure (
        insert_nonce
          (record {
            author_key = event.proposal.author_key;
            nonce = event.proposal.nonce;
            accepted_at = unix now;
            expires_at = unix (now + nonce_retention);
          })
          saved.nonces)
    ok (record saved {
      nonces = nonces;
      head = Option.map (λ h. record { seqno = event.seqno; hash = hash }) saved.head;
    })

  -- `Commit` of a proposal that is not yet an event.
  unfoldable pub commit_new :
      Db Blob → EventProposal → Bytes → ℕ → Bytes → Blob → Result Failure (Db Blob × CommitResult)
  commit_new db p room_private now event_id raw_proposal = do
    (genesis, _) ← rejecting Code.persistence_failure (genesis_tx db)
    fail_if (not (equal p.room_id genesis.room_key)) (Failure.reject Code.wrong_room)
    fail_if
        (not (length room_private == private_key_size)
          || not (equal (public room_private) genesis.room_key))
        (Failure.reject Code.persistence_failure)
    map_err verification_code (verify_proposal c p genesis.node_key now)
    let fresh : Db Blob = record db { nonces = expire_nonces (unix now) db.nonces }
    fail_if (live_nonce p.author_key p.nonce (unix now) fresh.nonces)
        (Failure.reject Code.reused_nonce)
    state ← rejecting Code.persistence_failure (state_tx fresh)
    authorize fresh genesis state p
    head ← or_err fresh.head (Failure.reject Code.persistence_failure)
    event ←
        rejecting Code.persistence_failure
          (sign_commit c room_private p (head.seqno + 1) head.hash now)
    after ← record_commit fresh genesis room_private now event_id raw_proposal event
    ok (after, record { event = event; duplicate = false })

  -- A proposal that was committed before is answered with its event.
  unfoldable pub commit_unless :
      Option CommittedEvent
      → Db Blob
      → EventProposal
      → Bytes
      → ℕ
      → Bytes
      → Blob
      → Result Failure (Db Blob × CommitResult)
  commit_unless (some event) db p room_private now event_id raw_proposal =
      ok (db, record { event = event; duplicate = true })
  commit_unless none db p room_private now event_id raw_proposal =
      commit_new db p room_private now event_id raw_proposal

  unfoldable pub commit :
      Db Blob → EventProposal → Bytes → ℕ → Result Failure (Db Blob × CommitResult)
  commit db p room_private now = do
    raw_proposal ← rejecting Code.malformed_request (encode c (Boxed.proposal p))
    event_id ← rejecting Code.malformed_request (proposal_id c p)
    found ← rejecting Code.persistence_failure (find_event_by_id db event_id)
    commit_unless found db p room_private now event_id raw_proposal

  -- The tables behind a call, which a failed one leaves alone.
  unfoldable pub after_commit : Db Blob → EventProposal → Bytes → ℕ → Db Blob
  after_commit db p room_private now = elim (commit db p room_private now) [
    | ok r ↦ r.0
    | err e ↦ db
  ]
