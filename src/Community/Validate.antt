-- ===== src/Community/Validate.antt =====
-- internal/community/crypto.go, the checks of the fields, before any signature.
use tonnet_messenger.Base.{
  ℕ, ◌*◌, ◌+◌, Bool, true, not, ◌&&◌, ◌||◌, List, [], ◌∷◌, length, ltb, leb, ◌==◌, if◌then◌else◌,
  Result, ok, err, ◌>>◌, fail_if,
}
use tonnet_messenger.Base.Bytes.{Bytes, equal, less, bytes_ordered}
use tonnet_messenger.Base.Ordered.{contains}
use tonnet_messenger.Community.Types.{Error, Genesis, RoomState, EventProposal, EventBody}
use tonnet_messenger.Community.Text.{
  valid_utf8_limit, has_control, has_byte, has_prefix, has_suffix, has_infix, split, valid_labels,
  telegram_suffix, ton_suffix,
}
use tonnet_messenger.Community.Platform.{Platform, key_size, hash_size, signature_size}

abbrev pub max_name_bytes : ℕ
max_name_bytes = 64

abbrev pub max_description_bytes : ℕ
max_description_bytes = 512

abbrev pub max_nick_bytes : ℕ
max_nick_bytes = 64

abbrev pub max_domain_bytes : ℕ
max_domain_bytes = 126

abbrev pub max_message_bytes : ℕ
max_message_bytes = 2048

abbrev pub max_initial_admins : ℕ
max_initial_admins = 32

abbrev pub max_admins : ℕ
max_admins = 64

abbrev pub max_moderators : ℕ
max_moderators = 256

abbrev pub max_pins : ℕ
max_pins = 100

-- A `time.Time` is its nanoseconds since 1970, and a `time.Duration` its nanoseconds.
abbrev pub second : ℕ
second = 1_000_000_000

abbrev pub mutation_clock_skew : ℕ
mutation_clock_skew = 300 * second

abbrev pub nonce_retention : ℕ
nonce_retention = 86_400 * second

unfoldable pub validate_metadata : Bytes → Bytes → Result Error (Unit {0})
validate_metadata name description = do
  fail_if (not (valid_utf8_limit name max_name_bytes) || length name == 0) Error.invalid_room_name
  fail_if (has_control name) Error.control_character
  fail_if (not (valid_utf8_limit description max_description_bytes) || has_byte 0 description)
      Error.invalid_description

unfoldable pub validate_message : Bytes → Result Error (Unit {0})
validate_message text = fail_if (not (valid_utf8_limit text max_message_bytes)) Error.invalid_body

unfoldable pub validate_body : EventBody → Result Error (Unit {0})
validate_body (EventBody.message text) = validate_message text
validate_body (EventBody.pin id) = fail_if (ltb id 1) Error.invalid_body
validate_body (EventBody.unpin id) = fail_if (ltb id 1) Error.invalid_body
validate_body (EventBody.metadata name description) = validate_metadata name description
validate_body (EventBody.admin_grant key) =
    fail_if (not (length key == key_size)) Error.malformed_key
validate_body (EventBody.admin_revoke key) =
    fail_if (not (length key == key_size)) Error.malformed_key
validate_body (EventBody.moderator_grant key) =
    fail_if (not (length key == key_size)) Error.malformed_key
validate_body (EventBody.moderator_revoke key) =
    fail_if (not (length key == key_size)) Error.malformed_key
validate_body (EventBody.write_policy anyone) = ok tt
validate_body EventBody.unsupported = err Error.invalid_body

-- The loop of `canonicalKeys`, behind the key `previous`.
unfoldable pub canonical_keys_from : Bytes → List Bytes → Bool
unfolding less
canonical_keys_from previous [] = true
canonical_keys_from previous (k ∷ ks) =
    length k == key_size && less previous k && canonical_keys_from k ks

unfoldable pub canonical_keys : List Bytes → Bool
unfolding canonical_keys_from
canonical_keys [] = true
canonical_keys (k ∷ ks) = length k == key_size && canonical_keys_from k ks

unfoldable pub canonical_longs_from : ℕ → List ℕ → Bool
canonical_longs_from previous [] = true
canonical_longs_from previous (n ∷ ns) = leb 1 n && ltb previous n && canonical_longs_from n ns

unfoldable pub canonical_longs : List ℕ → Bool
unfolding canonical_longs_from
canonical_longs [] = true
canonical_longs (n ∷ ns) = leb 1 n && canonical_longs_from n ns

-- The fields of a genesis at the time `now`.
unfoldable pub validate_genesis : Genesis → ℕ → Bool → Result Error (Unit {0})
validate_genesis g now require_signature = do
  fail_if (not (length g.room_key == key_size) || not (length g.node_key == key_size))
      Error.malformed_key
  fail_if (require_signature && not (length g.signature == signature_size)) Error.bad_signature
  fail_if (ltb g.created_at 1 || ltb (now + mutation_clock_skew) (g.created_at * second))
      Error.timestamp
  validate_metadata g.name g.description
  fail_if
      (ltb max_initial_admins (length g.initial_admins) || not (canonical_keys g.initial_admins))
      Error.invalid_state_order
  fail_if (contains g.room_key g.initial_admins) Error.invalid_state_order

unfoldable pub validate_state : RoomState → Result Error (Unit {0})
validate_state s = do
  fail_if (not (length s.room_id == key_size) || not (length s.revision_hash == hash_size))
      Error.malformed_hash
  fail_if
      (ltb max_admins (length s.admins)
        || ltb max_moderators (length s.moderators)
        || ltb max_pins (length s.pinned_messages))
      Error.invalid_state_order
  validate_metadata s.name s.description
  fail_if
      (not (canonical_keys s.admins)
        || not (canonical_keys s.moderators)
        || not (canonical_longs s.pinned_messages))
      Error.invalid_state_order

module _ (c : Platform) where
  open c use {to_lower}

  unfoldable pub is_domain_name : Bytes → Bool
  is_domain_name domain =
      let telegram = has_suffix domain telegram_suffix in
      valid_utf8_limit domain max_domain_bytes
      && equal domain (to_lower domain)
      && (has_suffix domain ton_suffix || telegram)
      && not (has_infix domain (b'.' ∷ b'.' ∷ []) || has_prefix domain (b'.' ∷ []))
      && valid_labels telegram (split b'.' domain)

  unfoldable pub validate_author_profile : Bytes → Bytes → Result Error (Unit {0})
  validate_author_profile name domain = do
    fail_if (not (valid_utf8_limit name max_nick_bytes)) Error.invalid_author_name
    if length domain == 0
        then ok tt
        else fail_if (not (is_domain_name domain)) Error.invalid_author_domain

  unfoldable pub validate_proposal : EventProposal → Result Error (Unit {0})
  validate_proposal p = do
    fail_if
        (not (length p.room_id == key_size)
          || not (length p.author_key == key_size)
          || not (length p.nonce == hash_size))
        Error.malformed_key
    validate_author_profile p.author_name p.author_domain
    validate_body p.body
