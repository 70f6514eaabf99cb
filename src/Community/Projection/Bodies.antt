-- ===== src/Community/Projection/Bodies.antt =====
-- Each kind of event body keeps the room state canonical.
use tonnet_messenger.Base.{ℕ, ◌<◌, ◌≡◌, subst, true, false, List, [], ◌∷◌, ◌++◌, arith, length, ok}
use tonnet_messenger.Base.Bytes.{Bytes, bytes_ordered}
use tonnet_messenger.Base.Ordered.{contains, remove, sort, nat_ordered}
use tonnet_messenger.Community.Types.{RoomState, EventBody, CommittedEvent}
use tonnet_messenger.Community.Platform.{Platform}
use tonnet_messenger.Community.Validate.{max_pins, validate_body, validate_proposal}
use tonnet_messenger.Community.Sign.{verify_proposal_at, verify_commit}
use tonnet_messenger.Community.Projection.{
  pin_projected, unpin_projected, apply_projected_state_body,
}
use tonnet_messenger.Community.Projection.RoleLists.{
  insert-IsPinList, remove-IsPinList, sort-append_of_Sorted,
}
use tonnet_messenger.Community.Projection.Invariant.{
  IsCanonical, grant-IsCanonical, revoke-IsCanonical,
}

pub pin_inv :
    (s t : RoomState) (messages : List ℕ) (id : ℕ)
    → pin_projected s messages id ≡ ok t
    → (contains id messages ≡ true)
      × (contains id s.pinned_messages ≡ false)
      × (length s.pinned_messages < max_pins)
      × (t ≡ record s { pinned_messages = sort (s.pinned_messages ++ id ∷ []) })
unfolding pin_projected
pin_inv s t messages id h = ground arith

pub unpin_inv :
    (s t : RoomState) (id : ℕ)
    → unpin_projected s id ≡ ok t
    → (contains id s.pinned_messages ≡ true)
      × (t ≡ record s { pinned_messages = remove id s.pinned_messages })
unfolding unpin_projected
unpin_inv s t id h = ground arith

module _ (room_key : Bytes) (messages : List ℕ) (s t : RoomState)
    (v : IsCanonical room_key messages s) where
  pin-IsCanonical : (id : ℕ) → pin_projected s messages id ≡ ok t → IsCanonical room_key messages t
  pin-IsCanonical id h =
      let (held, new, room, e) = pin_inv s t messages id h in
      rw (e, sort-append_of_Sorted id s.pinned_messages v.pins.sorted)
        (record {
          admins = v.admins;
          moderators = v.moderators;
          pins = insert-IsPinList messages s.pinned_messages id v.pins held new room;
          metadata = v.metadata;
          identified = v.identified;
        })

  unpin-IsCanonical : (id : ℕ) → unpin_projected s id ≡ ok t → IsCanonical room_key messages t
  unpin-IsCanonical id h =
      let (held, e) = unpin_inv s t id h in
      rw e (record {
        admins = v.admins;
        moderators = v.moderators;
        pins = remove-IsPinList messages s.pinned_messages id v.pins held;
        metadata = v.metadata;
        identified = v.identified;
      })

  -- A body that passes `ValidateBody` and is applied leaves a canonical state.
  pub body-IsCanonical :
      (body : EventBody)
      → validate_body body ≡ ok tt
      → apply_projected_state_body room_key s messages body ≡ ok t
      → IsCanonical room_key messages t
  unfolding apply_projected_state_body validate_body
  body-IsCanonical (EventBody.message text) b h = cc
  body-IsCanonical (EventBody.metadata name description) b h =
      let e : record s { name = name; description = description } ≡ t = cc in
      subst (IsCanonical room_key messages) e (record {
        admins = v.admins;
        moderators = v.moderators;
        pins = v.pins;
        metadata = b;
        identified = v.identified;
      })
  body-IsCanonical (EventBody.write_policy anyone) b h =
      let e : record s { write_policy = record { anyone_can_write = anyone } } ≡ t = cc in
      subst (IsCanonical room_key messages) e (record {
        admins = v.admins;
        moderators = v.moderators;
        pins = v.pins;
        metadata = v.metadata;
        identified = v.identified;
      })
  body-IsCanonical (EventBody.pin id) b h = pin-IsCanonical id h
  body-IsCanonical (EventBody.unpin id) b h = unpin-IsCanonical id h
  body-IsCanonical (EventBody.admin_grant key) b h =
      grant-IsCanonical room_key key messages s t true v (ground arith) h
  body-IsCanonical (EventBody.admin_revoke key) b h =
      revoke-IsCanonical room_key key messages s t true v h
  body-IsCanonical (EventBody.moderator_grant key) b h =
      grant-IsCanonical room_key key messages s t false v (ground arith) h
  body-IsCanonical (EventBody.moderator_revoke key) b h =
      revoke-IsCanonical room_key key messages s t false v h
  body-IsCanonical EventBody.unsupported b h = cc

-- The body of a verified event passes `ValidateBody`.
pub validate_body_of_verify :
    (c : Platform) (e : CommittedEvent) (room_id node_key : Bytes)
    → verify_commit c e room_id node_key ≡ ok tt
    → validate_body e.proposal.body ≡ ok tt
unfolding verify_commit verify_proposal_at validate_proposal
validate_body_of_verify c e room_id node_key h = ground arith
