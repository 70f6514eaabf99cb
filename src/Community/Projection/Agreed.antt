-- ===== src/Community/Projection/Agreed.antt =====
-- What `Projection.ValidateState` of internal/community/projection.go says of a signed state: it is
-- the projected one, but for its signature.
use tonnet_messenger.Base.{ℕ, ◌≡◌, refl, Bool, true, false, List, [], ◌∷◌, arith, ok}
use mathlib.Core.Bool.{xor}
use tonnet_messenger.Base.Bytes.{Bytes, equal, equal→eq}
use tonnet_messenger.Community.Types.{RoomState}
use tonnet_messenger.Community.Platform.{Platform}
use tonnet_messenger.Community.Projection.{
  Projection, equal_projected_keys, equal_projected_longs, validate_projected_state,
}

equal_projected_keys→eq : (xs ys : List Bytes) → equal_projected_keys xs ys ≡ true → xs ≡ ys
unfolding equal_projected_keys
equal_projected_keys→eq [] [] h = refl
equal_projected_keys→eq [] (y ∷ ys) h = cc
equal_projected_keys→eq (x ∷ xs) [] h = cc
equal_projected_keys→eq (x ∷ xs) (y ∷ ys) h =
    ground (arith, equal→eq x y, equal_projected_keys→eq xs ys)

equal_projected_longs→eq : (xs ys : List ℕ) → equal_projected_longs xs ys ≡ true → xs ≡ ys
unfolding equal_projected_longs
equal_projected_longs→eq [] [] h = refl
equal_projected_longs→eq [] (y ∷ ys) h = cc
equal_projected_longs→eq (x ∷ xs) [] h = cc
equal_projected_longs→eq (x ∷ xs) (y ∷ ys) h = ground (arith, equal_projected_longs→eq xs ys)

pub xor-eq : (a b : Bool) → xor a b ≡ false → a ≡ b
unfolding xor
xor-eq true true h = refl
xor-eq true false h = cc
xor-eq false true h = cc
xor-eq false false h = refl

-- The tests of `ValidateState` between two states.
projected_inv :
    (c : Platform) (p : Projection) (s : RoomState)
    → validate_projected_state c p s ≡ ok tt
    → (equal s.room_id p.state.room_id ≡ true)
      × (s.revision_seqno ≡ p.state.revision_seqno)
      × (equal s.revision_hash p.state.revision_hash ≡ true)
      × (equal s.name p.state.name ≡ true)
      × (equal s.description p.state.description ≡ true)
      × (xor s.write_policy.anyone_can_write p.state.write_policy.anyone_can_write ≡ false)
      × (equal_projected_keys s.admins p.state.admins ≡ true)
      × (equal_projected_keys s.moderators p.state.moderators ≡ true)
      × (equal_projected_longs s.pinned_messages p.state.pinned_messages ≡ true)
unfolding validate_projected_state
projected_inv c p s h = ground arith

pub projected_eq :
    (c : Platform) (p : Projection) (s : RoomState)
    → validate_projected_state c p s ≡ ok tt
    → s ≡ record p.state { signature = s.signature }
projected_eq c p s h =
    let (room, seqno, hash, name, about, policy, a, m, pins) = projected_inv c p s h in
    λ i. record {
      room_id = equal→eq s.room_id p.state.room_id room i;
      revision_seqno = seqno i;
      revision_hash = equal→eq s.revision_hash p.state.revision_hash hash i;
      name = equal→eq s.name p.state.name name i;
      description = equal→eq s.description p.state.description about i;
      write_policy = record {
        anyone_can_write =
            xor-eq s.write_policy.anyone_can_write p.state.write_policy.anyone_can_write policy i;
      };
      admins = equal_projected_keys→eq s.admins p.state.admins a i;
      moderators = equal_projected_keys→eq s.moderators p.state.moderators m i;
      pinned_messages = equal_projected_longs→eq s.pinned_messages p.state.pinned_messages pins i;
      signature = s.signature;
    }
