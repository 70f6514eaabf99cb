-- ===== src/Store/Replica.antt =====
-- internal/store/replica.go: a relay's copy of a room.
use mathlib.Core.Bool.{xor}
use tonnet_messenger.Base.{
  ℕ, ◌+◌, ◌*◌, Bool, true, false, not, ◌&&◌, ◌||◌, List, [], ◌∷◌, ltb, ◌==◌, Option, none, some,
  if◌then◌else◌, Result, ok, err, ◌>>=◌, ◌>>◌, fail_if, or_err, map_err,
}
use mathlib.Core.Option
use tonnet_messenger.Base.Bytes.{Bytes, equal}
use tonnet_messenger.Community.Types.{Error, Boxed, Genesis, RoomState, CommittedEvent}
use tonnet_messenger.Community.Platform.{Platform}
use tonnet_messenger.Community.Validate.{second, nonce_retention}
use tonnet_messenger.Community.Sign.{
  unix, encode, proposal_id, verify_commit, commit_hash, verify_room_state,
}
use tonnet_messenger.Store.Tables.{Failure, BodyType, EventRow, NonceRow, Db}
use tonnet_messenger.Store.Sql.{event_at, insert_event, insert_or_ignore_nonce}
use tonnet_messenger.Store.Commit.{
  body_type, authorize, apply_projection, update_state, genesis_tx, projected_state, event_row,
}
use tonnet_messenger.Store.Open.{stored_state, stored_genesis, stored_head}

-- The loops of `equalKeys` and `equalLongs`.
unfoldable pub equal_keys : List Bytes → List Bytes → Bool
equal_keys [] [] = true
equal_keys [] (y ∷ ys) = false
equal_keys (x ∷ xs) [] = false
equal_keys (x ∷ xs) (y ∷ ys) = equal x y && equal_keys xs ys

unfoldable pub equal_longs : List ℕ → List ℕ → Bool
equal_longs [] [] = true
equal_longs [] (y ∷ ys) = false
equal_longs (x ∷ xs) [] = false
equal_longs (x ∷ xs) (y ∷ ys) = x == y && equal_longs xs ys

-- SELECT seqno, commit_hash FROM events WHERE body_type <> 'message' ORDER BY seqno DESC LIMIT 1
unfoldable pub is_message_type : BodyType → Bool
is_message_type BodyType.message = true
is_message_type _ = false

abbrev pub later : {Blob : Type 0} → EventRow Blob → Option (EventRow Blob) → EventRow Blob
later r none = r
later r (some x) = if ltb x.seqno r.seqno then r else x

unfoldable pub latest_state_event : {Blob : Type 0} → List (EventRow Blob) → Option (EventRow Blob)
latest_state_event [] = none
latest_state_event (r ∷ rs) =
    let rest = latest_state_event rs in
    if is_message_type r.body_type then rest else some (later r rest)

abbrev pub replica_nonce : CommittedEvent → NonceRow
replica_nonce e = record {
  author_key = e.proposal.author_key;
  nonce = e.proposal.nonce;
  accepted_at = e.committed_at;
  expires_at = unix (e.committed_at * second + nonce_retention);
}

module _ (c : Platform) where
  open c use {Blob}

  -- An event that is not in the table: it must be the next one, and pass every rule.
  unfoldable pub append_new :
      Db Blob → Genesis → CommittedEvent → Bytes → Result Failure (Db Blob × Bool)
  append_new db g e hash = do
    head ← or_err db.head Failure.no_rows
    fail_if (not (e.seqno == head.seqno + 1) || not (equal e.previous_hash head.hash)) Failure.gap
    projected ← projected_state c db
    authorize db g projected e.proposal
    id ← map_err Failure.community (proposal_id c e.proposal)
    raw_proposal ← map_err Failure.community (encode c (Boxed.proposal e.proposal))
    raw_commit ← map_err Failure.community (encode c (Boxed.commit e))
    type ← or_err (body_type e.proposal.body) (Failure.community Error.invalid_body)
    events ← insert_event (event_row c e id hash type raw_proposal raw_commit) db.events
    after ← apply_projection (record db { events = events }) g e raw_commit e.proposal.body
    ok (
      record after {
        nonces = insert_or_ignore_nonce (replica_nonce e) after.nonces;
        head = Option.map (λ h. record { seqno = e.seqno; hash = hash }) after.head;
      },
      true,
    )

  unfoldable pub append_unless :
      Option (EventRow Blob)
      → Db Blob
      → Genesis
      → CommittedEvent
      → Bytes
      → Result Failure (Db Blob × Bool)
  append_unless (some row) db g e hash =
      if equal row.commit_hash hash then ok (db, false) else err Failure.fork
  append_unless none db g e hash = append_new db g e hash

  unfoldable pub append_replica : Db Blob → CommittedEvent → Result Failure (Db Blob × Bool)
  append_replica db e = do
    (g, _) ← genesis_tx c db
    map_err Failure.community (verify_commit c e g.room_key g.node_key)
    hash ← map_err Failure.community (commit_hash c e)
    append_unless (event_at e.seqno db.events) db g e hash

  -- The hash that a state of revision `seqno` must name.
  unfoldable pub revision_hash_at : Db Blob → Bytes → ℕ → Result Failure Bytes
  revision_hash_at db genesis_hash seqno =
      if ltb 0 seqno
      then (do row ← or_err (event_at seqno db.events) Failure.no_rows; ok row.commit_hash)
      else ok genesis_hash

  unfoldable pub install_replica_state : Db Blob → RoomState → Result Failure (Db Blob)
  install_replica_state db state = do
    map_err Failure.community (verify_room_state c state)
    (g, genesis_hash) ← genesis_tx c db
    fail_if (not (equal state.room_id g.room_key)) (Failure.community Error.wrong_room)
    head ← or_err db.head Failure.no_rows
    fail_if (ltb head.seqno state.revision_seqno) Failure.state_ahead
    expected ← revision_hash_at db genesis_hash state.revision_seqno
    fail_if (not (equal state.revision_hash expected)) Failure.revision_mismatch
    projected ← projected_state c db
    fail_if
        (not (equal state.name projected.name)
          || not (equal state.description projected.description)
          || xor state.write_policy.anyone_can_write projected.write_policy.anyone_can_write
          || not (equal_keys state.admins projected.admins)
          || not (equal_keys state.moderators projected.moderators)
          || not (equal_longs state.pinned_messages projected.pinned_messages))
        Failure.projections_disagree
    raw ← map_err Failure.community (encode c (Boxed.state state))
    ok (
        update_state
          (λ r. record {
            revision_seqno = state.revision_seqno;
            revision_hash = state.revision_hash;
            raw_signed_state = raw;
            name = state.name;
            description = state.description;
            anyone_can_write = state.write_policy.anyone_can_write;
          })
          db)

  unfoldable pub replica_ready : Db Blob → Result Failure (Unit {0})
  replica_ready db = do
    state ← stored_state c db
    map_err Failure.community (verify_room_state c state)
    head ← stored_head c db
    fail_if (ltb head.seqno state.revision_seqno) Failure.state_ahead
    (_, genesis_hash) ← stored_genesis c db
    let latest = latest_state_event db.events
    let seqno = Option.get_or (Option.map (λ (r : EventRow Blob). r.seqno) latest) 0
    let hash = Option.get_or (Option.map (λ (r : EventRow Blob). r.commit_hash) latest) genesis_hash
    fail_if (not (state.revision_seqno == seqno) || not (equal state.revision_hash hash))
        Failure.not_covered
