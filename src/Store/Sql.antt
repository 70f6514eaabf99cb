-- ===== src/Store/Sql.antt =====
-- The SQL statements of internal/store over those lists. An INSERT fails on the primary keys, the
-- UNIQUE columns and the CHECKs of the schema; a SELECT with ORDER BY sorts; a DELETE filters. A
-- failure of the driver itself, such as a full disk, is not modelled: the code answers every one by
-- an error and a rolled-back transaction.
use tonnet_messenger.Base.{
  ℕ, Bool, true, false, not, ◌&&◌, ◌||◌, List, [], ◌∷◌, ◌++◌, length, ltb, leb, ◌==◌, Option, none,
  some, if◌then◌else◌, Result, ok, ◌>>◌, fail_if,
}
use tonnet_messenger.Base.Bytes.{Bytes, equal, bytes_ordered}
use tonnet_messenger.Base.Ordered.{contains, nat_ordered}
use tonnet_messenger.Community.Platform.{key_size, hash_size}
use tonnet_messenger.Store.Tables.{Failure, Role, EventRow, MessageRow, PinRow, RoleRow, NonceRow}

abbrev pub role_eq : Role → Role → Bool
role_eq Role.admin Role.admin = true
role_eq Role.moderator Role.moderator = true
role_eq Role.admin Role.moderator = false
role_eq Role.moderator Role.admin = false

-- SELECT subject_key FROM roles WHERE role=?
unfoldable pub subjects : Role → List RoleRow → List Bytes
subjects role [] = []
subjects role (r ∷ rs) =
    if role_eq r.role role then r.subject_key ∷ subjects role rs else subjects role rs

-- DELETE FROM roles WHERE subject_key=? AND role=?
unfoldable pub delete_role : Bytes → Role → List RoleRow → List RoleRow
delete_role key role [] = []
delete_role key role (r ∷ rs) =
    if equal r.subject_key key && role_eq r.role role
    then delete_role key role rs
    else r ∷ delete_role key role rs

-- INSERT INTO roles
unfoldable pub insert_role : RoleRow → List RoleRow → Result Failure (List RoleRow)
insert_role r rs = do
  fail_if (contains r.subject_key (subjects r.role rs)) Failure.constraint
  fail_if (not (length r.subject_key == key_size) || not (length r.granted_by == key_size))
      Failure.constraint
  ok (rs ++ r ∷ [])

-- SELECT message_id FROM pins
unfoldable pub pinned : List PinRow → List ℕ
pinned [] = []
pinned (r ∷ rs) = r.message_id ∷ pinned rs

-- DELETE FROM pins WHERE message_id=?
unfoldable pub delete_pin : ℕ → List PinRow → List PinRow
delete_pin id [] = []
delete_pin id (r ∷ rs) = if r.message_id == id then delete_pin id rs else r ∷ delete_pin id rs

module _ {Blob : Type 0} where
  unfoldable pub message_ids : List (MessageRow Blob) → List ℕ
  message_ids [] = []
  message_ids (r ∷ rs) = r.message_id ∷ message_ids rs

  unfoldable pub creation_seqnos : List (MessageRow Blob) → List ℕ
  creation_seqnos [] = []
  creation_seqnos (r ∷ rs) = r.creation_seqno ∷ creation_seqnos rs

  -- INSERT INTO pins, whose key refers to a message.
  unfoldable pub insert_pin :
      List (MessageRow Blob) → PinRow → List PinRow → Result Failure (List PinRow)
  insert_pin messages r rs = do
    fail_if (contains r.message_id (pinned rs)) Failure.constraint
    fail_if
        (not (contains r.message_id (message_ids messages)) || not (length r.pinned_by == key_size))
        Failure.constraint
    ok (rs ++ r ∷ [])

  -- INSERT INTO messages
  unfoldable pub insert_message_row :
      MessageRow Blob → List (MessageRow Blob) → Result Failure (List (MessageRow Blob))
  insert_message_row r rs = do
    fail_if
        (contains r.message_id (message_ids rs) || contains r.creation_seqno (creation_seqnos rs))
        Failure.constraint
    fail_if (not (length r.author_key == key_size)) Failure.constraint
    ok (rs ++ r ∷ [])

  -- SELECT … FROM events WHERE event_id=?, and WHERE seqno=?
  unfoldable pub event_with_id : Bytes → List (EventRow Blob) → Option (EventRow Blob)
  event_with_id id [] = none
  event_with_id id (r ∷ rs) = if equal r.event_id id then some r else event_with_id id rs

  unfoldable pub event_at : ℕ → List (EventRow Blob) → Option (EventRow Blob)
  event_at seqno [] = none
  event_at seqno (r ∷ rs) = if r.seqno == seqno then some r else event_at seqno rs

  -- Whether a new row meets the seqno, the id or the hash of one that is there.
  unfoldable pub event_clashes : EventRow Blob → List (EventRow Blob) → Bool
  event_clashes r [] = false
  event_clashes r (x ∷ xs) =
      x.seqno == r.seqno
      || equal x.event_id r.event_id
      || equal x.commit_hash r.commit_hash
      || event_clashes r xs

  -- INSERT INTO events
  unfoldable pub insert_event :
      EventRow Blob → List (EventRow Blob) → Result Failure (List (EventRow Blob))
  insert_event r rs = do
    fail_if (event_clashes r rs) Failure.constraint
    fail_if
        (not (length r.event_id == hash_size)
          || not (length r.commit_hash == hash_size)
          || not (length r.previous_hash == hash_size)
          || not (length r.author_key == key_size))
        Failure.constraint
    ok (rs ++ r ∷ [])

-- DELETE FROM request_nonces WHERE expires_at<=?
unfoldable pub expire_nonces : ℕ → List NonceRow → List NonceRow
expire_nonces now [] = []
expire_nonces now (r ∷ rs) =
    if leb r.expires_at now then expire_nonces now rs else r ∷ expire_nonces now rs

abbrev pub same_nonce : Bytes → Bytes → NonceRow → Bool
same_nonce author nonce r = equal r.author_key author && equal r.nonce nonce

-- SELECT EXISTS(SELECT 1 FROM request_nonces WHERE author_key=? AND nonce=? AND expires_at>?)
unfoldable pub live_nonce : Bytes → Bytes → ℕ → List NonceRow → Bool
live_nonce author nonce now [] = false
live_nonce author nonce now (r ∷ rs) =
    (same_nonce author nonce r && ltb now r.expires_at) || live_nonce author nonce now rs

unfoldable pub known_nonce : Bytes → Bytes → List NonceRow → Bool
known_nonce author nonce [] = false
known_nonce author nonce (r ∷ rs) = same_nonce author nonce r || known_nonce author nonce rs

-- INSERT INTO request_nonces
unfoldable pub insert_nonce : NonceRow → List NonceRow → Result Failure (List NonceRow)
insert_nonce r rs = do
  fail_if (known_nonce r.author_key r.nonce rs) Failure.constraint
  fail_if (not (length r.author_key == key_size) || not (length r.nonce == hash_size))
      Failure.constraint
  ok (rs ++ r ∷ [])

-- INSERT OR IGNORE INTO request_nonces, which passes over a row that breaks a CHECK too.
unfoldable pub insert_or_ignore_nonce : NonceRow → List NonceRow → List NonceRow
insert_or_ignore_nonce r rs =
    if known_nonce r.author_key r.nonce rs
      || not (length r.author_key == key_size)
      || not (length r.nonce == hash_size)
    then rs
    else rs ++ r ∷ []
