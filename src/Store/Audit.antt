-- ===== src/Store/Audit.antt =====
-- internal/store/audit.go: the replay of the stored chain against everything else in the tables. A
-- mismatch has one error value, whichever text the code gives it. SQLite's own integrity check and
-- `bytes.Equal` on two blobs are arguments.
pub mod Walked
pub mod Sound
use mathlib.Core.Bool.{xor}
use tonnet_messenger.Base.{
  ℕ, ◌+◌, ◌-◌, Bool, true, false, not, ◌||◌, List, [], ◌∷◌, ◌++◌, length, ltb, ◌==◌, Option, none,
  some, if◌then◌else◌, Result, ok, err, ◌>>=◌, ◌>>◌, fail_if, or_err, map_err,
}
use tonnet_messenger.Base.Bytes.{Bytes, equal, bytes_ordered}
use tonnet_messenger.Base.Ordered.{sort, nat_ordered}
use tonnet_messenger.Base.Keyed.{order_by}
use tonnet_messenger.Community.Types.{Genesis, RoomState, CommittedEvent}
use tonnet_messenger.Community.Platform.{Platform}
use tonnet_messenger.Community.Sign.{
  zero_256, decode_committed_event, verify_genesis, genesis_hash, verify_commit, proposal_id,
  commit_hash, verify_room_state,
}
use tonnet_messenger.Community.Projection.{
  Projection, new_projection, apply, validate_projected_state,
}
use tonnet_messenger.Store.Tables.{Failure, Role, EventRow, MessageRow, Db}
use tonnet_messenger.Store.Sql.{subjects, pinned}
use tonnet_messenger.Store.Open.{stored_genesis, stored_state, stored_head}
use tonnet_messenger.Store.Replica.{equal_keys, equal_longs}

-- `value, _ := f()`: without a value, the nil slice.
abbrev pub or_nil : {E : Type 0} → Result E Bytes → Bytes
or_nil (ok hash) = hash
or_nil (err e) = []

-- The map `hashes`, from its last entry to its first; a missing key has the nil slice.
unfoldable pub hash_at : ℕ → List (ℕ × Bytes) → Bytes
hash_at seqno [] = []
hash_at seqno ((k, hash) ∷ rest) = if k == seqno then hash else hash_at seqno rest

module _ (c : Platform) (same_blob : c.Blob → c.Blob → Bool) where
  open c use {Blob}

  -- The variables of the loop over the rows. `messages` is from the last one to the first.
  pub record Walk : Type 0 where
    pub projection : Projection
    pub expected_seqno : ℕ
    pub expected_previous : Bytes
    pub hashes : List (ℕ × Bytes)
    pub messages : List (ℕ × Blob)

  unfoldable pub audit_row : Genesis → Walk → EventRow Blob → Result Failure Walk
  audit_row g w row = do
    event ← map_err (λ _. Failure.audit_mismatch) (decode_committed_event c row.raw_commit)
    map_err (λ _. Failure.audit_mismatch) (verify_commit c event g.room_key g.node_key)
    projection ← map_err Failure.community (apply c w.projection event)
    let hash = or_nil (commit_hash c event)
    fail_if
        (not (row.seqno == w.expected_seqno)
          || not (event.seqno == row.seqno)
          || not (equal row.previous_hash w.expected_previous)
          || not (equal event.previous_hash w.expected_previous)
          || not (equal row.event_id (or_nil (proposal_id c event.proposal)))
          || not (equal row.commit_hash hash))
        Failure.audit_mismatch
    ok (record {
      projection = projection;
      expected_seqno = w.expected_seqno + 1;
      expected_previous = hash;
      hashes = (row.seqno, hash) ∷ w.hashes;
      messages =
          if event.message_id == 0
          then w.messages
          else (event.message_id, row.raw_commit) ∷ w.messages;
    })

  unfoldable pub audit_rows : Genesis → Walk → List (EventRow Blob) → Result Failure Walk
  audit_rows g w [] = ok w
  audit_rows g w (row ∷ rows) = audit_row g w row >>= λ next. audit_rows g next rows

  -- SELECT raw_commit FROM messages WHERE message_id=?
  unfoldable pub message_at : ℕ → List (MessageRow Blob) → Option Blob
  message_at id [] = none
  message_at id (r ∷ rs) = if r.message_id == id then some r.raw_commit else message_at id rs

  unfoldable pub audit_messages : Db Blob → List (ℕ × Blob) → Result Failure (Unit {0})
  audit_messages db [] = ok tt
  audit_messages db ((id, raw) ∷ rest) = do
    audit_messages db rest
    stored ← or_err (message_at id db.messages) Failure.audit_mismatch
    fail_if (not (same_blob stored raw)) Failure.audit_mismatch

  unfoldable pub audit_state_projection : Db Blob → RoomState → Result Failure (Unit {0})
  audit_state_projection db state = do
    row ← or_err db.state Failure.no_rows
    fail_if
        (not (equal row.name state.name)
          || not (equal row.description state.description)
          || xor row.anyone_can_write state.write_policy.anyone_can_write)
        Failure.audit_mismatch
    fail_if
        (not (equal_keys (sort (subjects Role.admin db.roles)) state.admins)
          || not (equal_keys (sort (subjects Role.moderator db.roles)) state.moderators)
          || not (equal_longs (sort (pinned db.pins)) state.pinned_messages))
        Failure.audit_mismatch

  -- The checks behind the loop.
  unfoldable pub audit_tables : Db Blob → Genesis → Walk → Result Failure (Unit {0})
  audit_tables db g w = do
    audit_messages db w.messages
    fail_if (not (length db.messages == length w.messages)) Failure.audit_mismatch
    head ← stored_head c db
    fail_if (not (head.seqno == w.expected_seqno - 1) || not (equal head.hash w.expected_previous))
        Failure.audit_mismatch
    state ← stored_state c db
    map_err Failure.community (verify_room_state c state)
    map_err Failure.community (validate_projected_state c w.projection state)
    fail_if
        (not (equal state.room_id g.room_key)
          || ltb head.seqno state.revision_seqno
          || not (equal state.revision_hash (hash_at state.revision_seqno w.hashes)))
        Failure.audit_mismatch
    audit_state_projection db state

  unfoldable pub audit : Db Blob → Bool → ℕ → Result Failure (Unit {0})
  audit db intact now = do
    fail_if (not intact) Failure.audit_mismatch
    (g, stored_hash) ← stored_genesis c db
    map_err Failure.community (verify_genesis c g now)
    computed ← map_err (λ _. Failure.audit_mismatch) (genesis_hash c g)
    fail_if (not (equal stored_hash computed)) Failure.audit_mismatch
    start ← map_err Failure.community (new_projection c 0 g now)
    w ←
        audit_rows g
          (record {
            projection = start;
            expected_seqno = 1;
            expected_previous = zero_256;
            hashes = (0, computed) ∷ [];
            messages = [];
          })
          (order_by (λ (r : EventRow Blob). r.seqno) db.events)
    audit_tables db g w
