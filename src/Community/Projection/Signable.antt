-- ===== src/Community/Projection/Signable.antt =====
-- The sequencer signs what internal/community/projection.go projects: `SignRoomState` never refuses
-- such a state, and changes nothing in it but the signature.
use tonnet_messenger.Base.{
  ℕ, ◌≡◌, refl, false, List, [], ◌∷◌, arith, length, ok, some, Bool-cases, inl, inr,
}
use tonnet_messenger.Base.Bytes.{Bytes, equal_refl, bytes_ordered}
use tonnet_messenger.Base.Ordered.{contains, nat_ordered}
use tonnet_messenger.Base.Sorting.{sort-eq_of_Sorted}
use tonnet_messenger.Community.Types.{Boxed, Genesis, RoomState, CommittedEvent}
use tonnet_messenger.Community.Platform.{Platform, IsLawful, private_key_size}
use tonnet_messenger.Community.Canonical.{Positive, canonical_keys-intro, canonical_longs-intro}
use tonnet_messenger.Community.Validate.{validate_state}
use tonnet_messenger.Community.Sign.{
  state_to_sign, encode, hash_boxed, sign_room_state, verify_room_state,
}
use tonnet_messenger.Community.Sign.RoundTrips.{verify-sign_room_state}
use tonnet_messenger.Community.Projection.{Projection, apply, new_projection}
use tonnet_messenger.Community.Projection.Canonical.{IsValid, apply-IsValid, new_projection-IsValid}

-- The projections that a room may come to.
pub data Reached (c : Platform) : Projection → Type 1 where
  created :
      (address now : ℕ) (g : Genesis) (p : Projection)
      → new_projection c address g now ≡ ok p
      → Reached c p
  applied : (p q : Projection) (e : CommittedEvent) → Reached c p → apply c p e ≡ ok q → Reached c q

Positive-of_contains : (ns : List ℕ) → contains 0 ns ≡ false → Positive ns
unfolding contains
Positive-of_contains [] h = tt
Positive-of_contains (n ∷ ns) h = (ground arith, Positive-of_contains ns (ground arith))

positive_pins : (p : Projection) → IsValid p → contains 0 p.state.pinned_messages ≡ false
positive_pins p v = elim (Bool-cases (contains 0 p.state.pinned_messages)) [
  | inl e ↦ cc (v.canonical.pins.known 0 e, v.positive)
  | inr e ↦ e
]

validate_state_of_IsValid : (p : Projection) → IsValid p → validate_state p.state ≡ ok tt
unfolding validate_state
validate_state_of_IsValid p v = ground (
  arith,
  v.hashed,
  v.canonical.identified,
  v.canonical.metadata,
  v.canonical.admins.bounded,
  v.canonical.moderators.bounded,
  v.canonical.pins.bounded,
  canonical_keys-intro p.state.admins v.canonical.admins.sorted v.canonical.admins.sized,
  canonical_keys-intro p.state.moderators v.canonical.moderators.sorted
      v.canonical.moderators.sized,
  canonical_longs-intro p.state.pinned_messages v.canonical.pins.sorted
      (Positive-of_contains p.state.pinned_messages (positive_pins p v)),
)

validate_state-unsigned :
    (s : RoomState) → validate_state (record s { signature = [] }) ≡ validate_state s
unfolding validate_state
validate_state-unsigned s = refl

module _ (c : Platform) (lawful : IsLawful c) where
  open c use {Blob, serialize, public, sign, sha256}

  Reached-IsValid : (p : Projection) → Reached c p → IsValid p
  Reached-IsValid p (created address now g _ h) = new_projection-IsValid c lawful address now g p h
  Reached-IsValid q (applied p _ e r h) = apply-IsValid c lawful p q e (Reached-IsValid p r) h

  hash_boxed_serialized :
      (v : Boxed) (raw : Blob) → serialize v ≡ some raw → hash_boxed c v ≡ ok (sha256 raw)
  unfolding hash_boxed encode
  hash_boxed_serialized v raw h = rw h refl

  sign_IsValid :
      (k : Bytes) (p : Projection) (raw : Blob)
      → IsValid p
      → length k ≡ private_key_size
      → public k ≡ p.state.room_id
      → serialize (Boxed.state_to_sign (state_to_sign p.state)) ≡ some raw
      → sign_room_state c k p.state ≡ ok (record p.state { signature = sign k (sha256 raw) })
  unfolding sign_room_state
  sign_IsValid k p raw v size owner h = ground (
    arith,
    equal_refl p.state.room_id,
    sort-eq_of_Sorted p.state.admins v.canonical.admins.sorted,
    sort-eq_of_Sorted p.state.moderators v.canonical.moderators.sorted,
    sort-eq_of_Sorted p.state.pinned_messages v.canonical.pins.sorted,
    validate_state-unsigned p.state,
    validate_state_of_IsValid p v,
    hash_boxed_serialized (Boxed.state_to_sign (state_to_sign p.state)) raw h,
  )

  -- On a platform that keeps its laws, the state of every projection that `NewProjection` and any
  -- number of `Apply` calls reach can be signed with the room's key, where the codec serializes it:
  -- `SignRoomState` returns that same state, with its own signature in place of the old, and what
  -- it returns passes `RoomState.Verify`.
  pub verify-sign-Reached :
      (k : Bytes) (p : Projection) (raw : Blob)
      → Reached c p
      → length k ≡ private_key_size
      → public k ≡ p.state.room_id
      → serialize (Boxed.state_to_sign (state_to_sign p.state)) ≡ some raw
      → (signature : Bytes) × (sign_room_state c k p.state
          ≡ ok (record p.state { signature = signature }))
        × (verify_room_state c (record p.state { signature = signature }) ≡ ok tt)
  verify-sign-Reached k p raw r size owner h =
      let signed = sign_IsValid k p raw (Reached-IsValid p r) size owner h in
      (
        sign k (sha256 raw),
        signed,
        verify-sign_room_state c lawful k p.state
            (record p.state { signature = sign k (sha256 raw) }) signed,
      )
