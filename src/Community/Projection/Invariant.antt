-- ===== src/Community/Projection/Invariant.antt =====
-- What `Apply` keeps: a projected room state is always one that `SignRoomState` and
-- `RoomState.Verify` accept.
use tonnet_messenger.Base.{ℕ, ◌<◌, ◌≡◌, Bool, true, false, List, [], ◌∷◌, ◌++◌, arith, length, ok}
use tonnet_messenger.Base.Bytes.{Bytes, equal, bytes_ordered}
use tonnet_messenger.Base.Ordered.{contains, remove, sort, nat_ordered}
use tonnet_messenger.Community.Types.{RoomState}
use tonnet_messenger.Community.Platform.{key_size}
use tonnet_messenger.Community.Validate.{max_admins, max_moderators, validate_metadata}
use tonnet_messenger.Community.Projection.{
  roles_of, with_roles, role_limit, grant_projected_role, revoke_projected_role,
}
use tonnet_messenger.Community.Projection.RoleLists.{
  IsRoleList, IsPinList, insert-IsRoleList, remove-IsRoleList, sort-append_of_Sorted,
}

-- The part of the invariant that concerns the state alone.
pub record IsCanonical (room_key : Bytes) (messages : List ℕ) (s : RoomState) : Type 0 where
  pub admins : IsRoleList max_admins room_key s.admins
  pub moderators : IsRoleList max_moderators room_key s.moderators
  pub pins : IsPinList messages s.pinned_messages
  pub metadata : validate_metadata s.name s.description ≡ ok tt
  pub identified : length s.room_id ≡ key_size

roles_of-IsRoleList :
    (admin : Bool) (room_key : Bytes) (messages : List ℕ) (s : RoomState)
    → IsCanonical room_key messages s
    → IsRoleList (role_limit admin) room_key (roles_of admin s)
roles_of-IsRoleList true room_key messages s v = v.admins
roles_of-IsRoleList false room_key messages s v = v.moderators

with_roles-IsCanonical :
    (admin : Bool) (room_key : Bytes) (messages : List ℕ) (s : RoomState) (keys : List Bytes)
    → IsCanonical room_key messages s
    → IsRoleList (role_limit admin) room_key keys
    → IsCanonical room_key messages (with_roles admin s keys)
with_roles-IsCanonical true room_key messages s keys v w = record {
  admins = w;
  moderators = v.moderators;
  pins = v.pins;
  metadata = v.metadata;
  identified = v.identified;
}
with_roles-IsCanonical false room_key messages s keys v w = record {
  admins = v.admins;
  moderators = w;
  pins = v.pins;
  metadata = v.metadata;
  identified = v.identified;
}

-- A grant that succeeds inserts a new key below the limit.
pub grant_inv :
    (room_key key : Bytes) (s t : RoomState) (admin : Bool)
    → grant_projected_role room_key s key admin ≡ ok t
    → (equal key room_key ≡ false)
      × (contains key (roles_of admin s) ≡ false)
      × (length (roles_of admin s) < role_limit admin)
      × (t ≡ with_roles admin s (sort (roles_of admin s ++ key ∷ [])))
unfolding grant_projected_role
grant_inv room_key key s t true h = ground arith
grant_inv room_key key s t false h = ground arith

pub revoke_inv :
    (room_key key : Bytes) (s t : RoomState) (admin : Bool)
    → revoke_projected_role room_key s key admin ≡ ok t
    → (equal key room_key ≡ false)
      × (contains key (roles_of admin s) ≡ true)
      × (t ≡ with_roles admin s (remove key (roles_of admin s)))
unfolding revoke_projected_role
revoke_inv room_key key s t true h = ground arith
revoke_inv room_key key s t false h = ground arith

pub grant-IsCanonical :
    (room_key key : Bytes) (messages : List ℕ) (s t : RoomState) (admin : Bool)
    → IsCanonical room_key messages s
    → length key ≡ key_size
    → grant_projected_role room_key s key admin ≡ ok t
    → IsCanonical room_key messages t
grant-IsCanonical room_key key messages s t admin v size h =
    let (other, new, room, e) = grant_inv room_key key s t admin h in
    let r = roles_of-IsRoleList admin room_key messages s v in
    rw (e, sort-append_of_Sorted key (roles_of admin s) r.sorted)
      (with_roles-IsCanonical admin room_key messages s _ v
        (insert-IsRoleList _ room_key key (roles_of admin s) r size other new room))

pub revoke-IsCanonical :
    (room_key key : Bytes) (messages : List ℕ) (s t : RoomState) (admin : Bool)
    → IsCanonical room_key messages s
    → revoke_projected_role room_key s key admin ≡ ok t
    → IsCanonical room_key messages t
revoke-IsCanonical room_key key messages s t admin v h =
    let (other, held, e) = revoke_inv room_key key s t admin h in
    let r = roles_of-IsRoleList admin room_key messages s v in
    rw e (
      with_roles-IsCanonical admin room_key messages s _ v
        (remove-IsRoleList _ room_key key (roles_of admin s) r held))
