-- ===== src/Community/Fields.antt =====
-- What the checks of the fields in internal/community/crypto.go ask of a room state, without their
-- code: `ValidateMetadata` and `RoomState.validateFields`.
use tonnet_messenger.Base.{◌≤◌, ◌<◌, ◌≡◌, ◌≢◌, true, [], ◌∷◌, length}
use tonnet_messenger.Base.Bytes.{Bytes, bytes_ordered}
use tonnet_messenger.Base.Ordered.{Sorted, nat_ordered}
use tonnet_messenger.Community.Types.{RoomState}
use tonnet_messenger.Community.Text.{valid_from}
use tonnet_messenger.Community.Canonical.{Sized, Positive}

-- The second byte of a control character behind its first, 194.
abbrev pub StartsC1 : Bytes → Type 0
StartsC1 [] = ⊥
StartsC1 (c ∷ bs) = (0x80 ≤ c) × (c ≤ 0x9f)

-- No control character starts at any byte.
abbrev pub Printable : Bytes → Type 0
Printable [] = Unit {0}
Printable (b ∷ bs) = (0x20 ≤ b) × (b ≢ 0x7f) × (b ≡ 0xc2 → ¬ StartsC1 bs) × Printable bs

abbrev pub ZeroFree : Bytes → Type 0
ZeroFree [] = Unit {0}
ZeroFree (b ∷ bs) = (0 < b) × ZeroFree bs

-- A room's name and its description.
pub record IsMetadata (name description : Bytes) : Type 0 where
  pub name_text : valid_from [] name ≡ true
  pub named : 0 < length name
  pub short_name : length name ≤ 64
  pub printable : Printable name
  pub description_text : valid_from [] description ≡ true
  pub short_description : length description ≤ 512
  pub zero_free : ZeroFree description

-- Roles and pins in strictly rising order, of the right sizes and within their limits.
pub record IsRoomState (s : RoomState) : Type 0 where
  pub room : length s.room_id ≡ 32
  pub revision : length s.revision_hash ≡ 32
  pub metadata : IsMetadata s.name s.description
  pub admins : Sorted s.admins × Sized s.admins
  pub moderators : Sorted s.moderators × Sized s.moderators
  pub pins : Sorted s.pinned_messages × Positive s.pinned_messages
  pub few_admins : length s.admins ≤ 64
  pub few_moderators : length s.moderators ≤ 256
  pub few_pins : length s.pinned_messages ≤ 100
