-- ===== src/Tests.antt =====
-- A small platform, for the runs of the code in the child modules.
pub mod Room
pub mod Delivered
pub mod Punished
pub mod Peers
pub mod Shown
use tonnet_messenger.Base.{
  ℕ, ◌+◌, ◌*◌, ◌≡◌, refl, Bool, true, false, List, [], ◌∷◌, arith, length, take, replicate, Option,
  none, some, Result, ok, err, ◌⊎◌, inl, inr, ==_iff,
}
use tonnet_messenger.Base.Bytes.{Bytes, equal, less}
use tonnet_messenger.Base.Ordered.{contains, remove, insert, sort, sort_onto}
use tonnet_messenger.Community.Types.{
  Error, Boxed, Genesis, RoomState, WritePolicy, EventBody, EventProposal, CommittedEvent,
}
use tonnet_messenger.Community.Platform.{
  Platform, IsLawful, key_size, hash_size, private_key_size, signature_size,
}

-- The last byte of a hash.
abbrev pub tag : Boxed → ℕ
tag (Boxed.proposal p) = 10 + length p.author_name
tag (Boxed.commit e) = 100 + e.seqno
tag _ = 1

abbrev pub Wire : Type 0
Wire = List Boxed

abbrev pub take_genesis : Wire → Option (Genesis × Wire)
take_genesis (Boxed.genesis g ∷ rest) = some (g, rest)
take_genesis _ = none

abbrev pub take_state : Wire → Option (RoomState × Wire)
take_state (Boxed.state s ∷ rest) = some (s, rest)
take_state _ = none

abbrev pub take_proposal : Wire → Option (EventProposal × Wire)
take_proposal (Boxed.proposal p ∷ rest) = some (p, rest)
take_proposal _ = none

abbrev pub take_commit : Wire → Option (CommittedEvent × Wire)
take_commit (Boxed.commit e ∷ rest) = some (e, rest)
take_commit _ = none

abbrev pub digest : Wire → Bytes
digest [] = replicate 32 0
digest (v ∷ rest) = tag v ∷ replicate 31 0

abbrev pub platform : Platform
platform = record {
  Blob = Wire;
  blob_length = length;
  serialize = λ v. some (v ∷ []);
  parse_genesis = take_genesis;
  parse_state = take_state;
  parse_proposal = take_proposal;
  parse_commit = take_commit;
  sha256 = digest;
  public = take 32;
  sign = λ k d. replicate 64 0;
  verify = λ k d s. true;
  to_lower = λ b. b;
}

length-digest : (w : Wire) → length (digest w) ≡ hash_size
length-digest [] = refl
length-digest (v ∷ rest) = refl

serialized : (v : Boxed) (w : Wire) → ◌≡◌ {A = Option Wire} (some (v ∷ [])) (some w) → v ∷ [] ≡ w
serialized v w h = cc

pub platform-IsLawful : IsLawful platform
platform-IsLawful = record {
  parse_genesis-serialize = λ g raw h. ([], rw (← serialized (Boxed.genesis g) raw h) refl, refl);
  parse_state-serialize = λ s raw h. ([], rw (← serialized (Boxed.state s) raw h) refl, refl);
  parse_commit-serialize = λ e raw h. ([], rw (← serialized (Boxed.commit e) raw h) refl, refl);
  length-sha256 = length-digest;
  length-sign = λ k d h. refl;
  verify-sign = λ k d h. refl;
}
