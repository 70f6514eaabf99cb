-- ===== src/Community/Platform.antt =====
-- What internal/community takes from outside the repository, as a parameter: the TL codec of
-- tonutils-go, SHA-256, Ed25519 and `strings.ToLower`. A blob is a byte string that the codec
-- makes; the code only measures, hashes, stores and parses it.
use tonnet_messenger.Base.{ℕ, ◌≡◌, Bool, true, Option, some, length}
use tonnet_messenger.Base.Bytes.{Bytes}
use tonnet_messenger.Community.Types.{Boxed, Genesis, RoomState, EventProposal, CommittedEvent}

abbrev pub key_size : ℕ
key_size = 32

abbrev pub hash_size : ℕ
hash_size = 32

abbrev pub private_key_size : ℕ
private_key_size = 64

abbrev pub signature_size : ℕ
signature_size = 64

pub record Platform : Type 1 where
  pub Blob : Type 0
  pub blob_length : Blob → ℕ
  pub serialize : Boxed → Option Blob
  pub parse_genesis : Blob → Option (Genesis × Blob)
  pub parse_state : Blob → Option (RoomState × Blob)
  pub parse_proposal : Blob → Option (EventProposal × Blob)
  pub parse_commit : Blob → Option (CommittedEvent × Blob)
  pub sha256 : Blob → Bytes
  pub public : Bytes → Bytes
  pub sign : Bytes → Bytes → Bytes
  pub verify : Bytes → Bytes → Bytes → Bool
  pub to_lower : Bytes → Bytes

-- The documented behaviour that the theorems rely on: a parse gives back what was serialized and
-- leaves nothing over, and a signature has its size and verifies under the key's public half.
pub record IsLawful (c : Platform) : Type 0 where
  pub parse_genesis-serialize :
      (g : Genesis) (raw : c.Blob)
      → c.serialize (Boxed.genesis g) ≡ some raw
      → (rest : c.Blob) × (c.parse_genesis raw ≡ some (g, rest)) × (c.blob_length rest ≡ 0)
  pub parse_state-serialize :
      (s : RoomState) (raw : c.Blob)
      → c.serialize (Boxed.state s) ≡ some raw
      → (rest : c.Blob) × (c.parse_state raw ≡ some (s, rest)) × (c.blob_length rest ≡ 0)
  pub parse_commit-serialize :
      (e : CommittedEvent) (raw : c.Blob)
      → c.serialize (Boxed.commit e) ≡ some raw
      → (rest : c.Blob) × (c.parse_commit raw ≡ some (e, rest)) × (c.blob_length rest ≡ 0)
  pub length-sha256 : (b : c.Blob) → length (c.sha256 b) ≡ hash_size
  pub length-sign :
      (k digest : Bytes) → length k ≡ private_key_size → length (c.sign k digest) ≡ signature_size
  pub verify-sign :
      (k digest : Bytes)
      → length k ≡ private_key_size
      → c.verify (c.public k) digest (c.sign k digest) ≡ true
