-- ===== src/Store/Open.antt =====
-- internal/store/store.go: a room's tables from its genesis, and what is read off them. The file,
-- its pragmas and the creation of the empty tables are not modelled.
use tonnet_messenger.Base.{
  ℕ, not, ◌||◌, List, [], ◌∷◌, length, ◌==◌, none, some, Result, ok, ◌>>=◌, ◌>>◌, fail_if, or_err,
  map_err, is_some,
}
use tonnet_messenger.Base.Bytes.{Bytes, equal}
use tonnet_messenger.Community.Types.{Error, Boxed, Genesis, RoomState}
use tonnet_messenger.Community.Platform.{Platform, key_size, hash_size, private_key_size}
use tonnet_messenger.Community.Sign.{
  zero_256, encode, genesis_hash, verify_genesis, sign_room_state, decode_genesis,
  decode_room_state,
}
use tonnet_messenger.Store.Tables.{Failure, Role, Head, RoleRow, Db}
use tonnet_messenger.Store.Sql.{insert_role}

-- The tables that `migrate` creates.
abbrev pub empty_tables : {Blob : Type 0} → Db Blob
empty_tables = record {
  genesis = none;
  state = none;
  head = none;
  events = [];
  messages = [];
  pins = [];
  roles = [];
  nonces = [];
}

-- The loop over the initial admins.
unfoldable pub insert_admins : List Bytes → Bytes → List RoleRow → Result Failure (List RoleRow)
insert_admins [] room_key rows = ok rows
insert_admins (k ∷ ks) room_key rows = do
  next ←
      insert_role
        (record { subject_key = k; role = Role.admin; granted_seqno = 0; granted_by = room_key })
        rows
  insert_admins ks room_key next

-- The state at revision 0.
abbrev pub initial_state : Genesis → Bytes → RoomState
initial_state g hash = record {
  room_id = g.room_key;
  revision_seqno = 0;
  revision_hash = hash;
  name = g.name;
  description = g.description;
  write_policy = g.write_policy;
  admins = g.initial_admins;
  moderators = [];
  pinned_messages = [];
  signature = [];
}

module _ (c : Platform) where
  open c use {Blob, public}

  -- The inserts that `Initialize` and `InitializeReplica` share, in one transaction.
  unfoldable pub insert_genesis : Db Blob → Genesis → Blob → Bytes → Blob → Result Failure (Db Blob)
  insert_genesis db g raw_genesis hash raw_state = do
    fail_if (is_some db.genesis) Failure.already_initialized
    fail_if
        (not (length hash == hash_size)
          || not (length g.room_key == key_size)
          || not (length g.node_key == key_size)
          || is_some db.state
          || is_some db.head)
        Failure.constraint
    roles ← insert_admins g.initial_admins g.room_key db.roles
    ok (record db {
      genesis = some (record {
        raw_tl = raw_genesis;
        genesis_hash = hash;
        room_key = g.room_key;
        node_key = g.node_key;
        created_at = g.created_at;
      });
      state = some (record {
        revision_seqno = 0;
        revision_hash = hash;
        raw_signed_state = raw_state;
        name = g.name;
        description = g.description;
        anyone_can_write = g.write_policy.anyone_can_write;
      });
      head = some (record { seqno = 0; hash = zero_256 });
      roles = roles;
    })

  unfoldable pub initialize : Db Blob → Genesis → Bytes → ℕ → Result Failure (Db Blob)
  initialize db g room_private now = do
    map_err Failure.community (verify_genesis c g now)
    fail_if
        (not (length room_private == private_key_size)
          || not (equal (public room_private) g.room_key))
        (Failure.community Error.wrong_room)
    raw_genesis ← map_err Failure.community (encode c (Boxed.genesis g))
    hash ← map_err Failure.community (genesis_hash c g)
    state ← map_err Failure.community (sign_room_state c room_private (initial_state g hash))
    raw_state ← map_err Failure.community (encode c (Boxed.state state))
    insert_genesis db g raw_genesis hash raw_state

  -- internal/store/replica.go: a relay stores the state unsigned until it has the sequencer's.
  unfoldable pub initialize_replica : Db Blob → Genesis → ℕ → Result Failure (Db Blob)
  initialize_replica db g now = do
    map_err Failure.community (verify_genesis c g now)
    raw_genesis ← map_err Failure.community (encode c (Boxed.genesis g))
    hash ← map_err Failure.community (genesis_hash c g)
    raw_state ← map_err Failure.community (encode c (Boxed.state (initial_state g hash)))
    insert_genesis db g raw_genesis hash raw_state

  unfoldable pub stored_genesis : Db Blob → Result Failure (Genesis × Bytes)
  stored_genesis db = do
    row ← or_err db.genesis Failure.not_initialized
    g ← map_err Failure.community (decode_genesis c row.raw_tl)
    ok (g, row.genesis_hash)

  unfoldable pub validate_genesis : Db Blob → Genesis → Result Failure (Unit {0})
  validate_genesis db g = do
    (stored, hash) ← stored_genesis db
    want ← map_err Failure.community (genesis_hash c g)
    stored_hash ← map_err Failure.community (genesis_hash c stored)
    fail_if (not (equal hash want) || not (equal stored_hash want)) Failure.genesis_mismatch

  unfoldable pub stored_state : Db Blob → Result Failure RoomState
  stored_state db = do
    row ← or_err db.state Failure.not_initialized
    map_err Failure.community (decode_room_state c row.raw_signed_state)

  unfoldable pub stored_head : Db Blob → Result Failure Head
  stored_head db = or_err db.head Failure.not_initialized
