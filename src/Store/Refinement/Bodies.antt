-- ===== src/Store/Refinement/Bodies.antt =====
-- `applyProjection` on the tables does what `applyProjectedStateBody` does on the state: whatever
-- the tables accept, the projection accepts, with the same outcome.
use tonnet_messenger.Base.{
  ℕ, ◌<◌, ◌≡◌, refl, ap, sym, ◌∙◌, subst, Bool, true, false, not, List, [], ◌∷◌, ◌++◌, length,
  arith, Result, ok, ok-injective,
}
use mathlib.Core.Option
use tonnet_messenger.Base.Bytes.{Bytes, equal, bytes_ordered}
use tonnet_messenger.Base.Ordered.{contains, remove, sort, nat_ordered}
use tonnet_messenger.Base.Sorting.{contains-sort, length-sort}
use tonnet_messenger.Community.Types.{Error, Genesis, RoomState, EventBody, CommittedEvent}
use tonnet_messenger.Community.Sign.{is_message}
use tonnet_messenger.Community.Validate.{max_pins}
use tonnet_messenger.Community.Projection.{
  roles_of, with_roles, role_limit, grant_projected_role, revoke_projected_role, pin_projected,
  unpin_projected, apply_projected_state_body,
}
use tonnet_messenger.Store.Tables.{Role, StateRow, RoleRow, PinRow, Db}
use tonnet_messenger.Store.Sql.{
  role_eq, subjects, delete_role, insert_role, pinned, delete_pin, insert_pin, message_ids,
}
use tonnet_messenger.Store.Rows.{
  Holds, HoldsPins, Holds-snoc, Holds-snoc_other, Holds-delete_role, Holds-delete_other,
  HoldsPins-snoc, HoldsPins-delete_pin,
}
use tonnet_messenger.Store.Commit.{
  limit_of, has_role, pin, unpin, grant_role, revoke_role, update_state, apply_projection,
}
use tonnet_messenger.Store.Refinement.Shows.{Shows}

-- The role behind the flag that projection.go passes.
abbrev pub role_of : Bool → Role
role_of true = Role.admin
role_of false = Role.moderator

module _ {Blob : Type 0} (db : Db Blob) (messages : List ℕ) (s : RoomState)
    (v : Shows db messages s) where
  abbrev holds : (admin : Bool) → Holds (role_of admin) db.roles (roles_of admin s)
  holds true = v.admins
  holds false = v.moderators

  pub contains-roles :
      (admin : Bool) (key : Bytes)
      → contains key (roles_of admin s) ≡ contains key (subjects (role_of admin) db.roles)
  contains-roles admin key = ap (contains key) (sym (holds admin).sorted) ∙ contains-sort key _

  pub length-roles :
      (admin : Bool) → length (roles_of admin s) ≡ length (subjects (role_of admin) db.roles)
  length-roles admin = ap length (sym (holds admin).sorted) ∙ length-sort _

  with_roles-Shows :
      (admin : Bool) (rows : List RoleRow) (keys : List Bytes)
      → Holds (role_of admin) rows keys
      → Holds (role_of (not admin)) rows (roles_of (not admin) s)
      → Shows (record db { roles = rows }) messages (with_roles admin s keys)
  with_roles-Shows true rows keys h k = record {
    known = v.known;
    admins = h;
    moderators = k;
    pins = v.pins;
    row = v.row;
    stored = v.stored;
    name = v.name;
    description = v.description;
    policy = v.policy;
  }
  with_roles-Shows false rows keys h k = record {
    known = v.known;
    admins = k;
    moderators = h;
    pins = v.pins;
    row = v.row;
    stored = v.stored;
    name = v.name;
    description = v.description;
    policy = v.policy;
  }

  with_pins-Shows :
      (rows : List PinRow) (ids : List ℕ)
      → HoldsPins rows ids
      → Shows (record db { pins = rows }) messages (record s { pinned_messages = ids })
  with_pins-Shows rows ids h = record {
    known = v.known;
    admins = v.admins;
    moderators = v.moderators;
    pins = h;
    row = v.row;
    stored = v.stored;
    name = v.name;
    description = v.description;
    policy = v.policy;
  }

  role_row : Bytes → Role → ℕ → Bytes → RoleRow
  role_row key role seqno author = record {
    subject_key = key;
    role = role;
    granted_seqno = seqno;
    granted_by = author;
  }

  grant_role_inv :
      (g : Genesis) (seqno : ℕ) (key author : Bytes) (role : Role) (db' : Db Blob)
      → grant_role db g seqno key author role ≡ ok db'
      → (equal key g.room_key ≡ false)
        × (length (subjects role db.roles) < limit_of role)
        × (contains key (subjects role db.roles) ≡ false)
        × (db' ≡ record db { roles = db.roles ++ role_row key role seqno author ∷ [] })
  unfolding grant_role insert_role role_row
  grant_role_inv g seqno key author Role.admin db' h = ground arith
  grant_role_inv g seqno key author Role.moderator db' h = ground arith

  revoke_role_inv :
      (g : Genesis) (key : Bytes) (role : Role) (db' : Db Blob)
      → revoke_role db g key role ≡ ok db'
      → (equal key g.room_key ≡ false)
        × (contains key (subjects role db.roles) ≡ true)
        × (db' ≡ record db { roles = delete_role key role db.roles })
  unfolding revoke_role has_role
  revoke_role_inv g key role db' h = ground arith

  abbrev Projects : Db Blob → Result Error RoomState → Type 0
  Projects db' r = (t : RoomState) × (r ≡ ok t) × Shows db' messages t

  limit-role_of : (admin : Bool) → limit_of (role_of admin) ≡ role_limit admin
  limit-role_of true = refl
  limit-role_of false = refl

  grant_ok :
      (room_key key : Bytes) (admin : Bool)
      → equal key room_key ≡ false
      → contains key (roles_of admin s) ≡ false
      → length (roles_of admin s) < role_limit admin
      → grant_projected_role room_key s key admin
        ≡ ok (with_roles admin s (sort (roles_of admin s ++ key ∷ [])))
  unfolding grant_projected_role
  grant_ok room_key key true other new room = ground arith
  grant_ok room_key key false other new room = ground arith

  grant_role-Projects :
      (g : Genesis) (seqno : ℕ) (key author : Bytes) (admin : Bool) (db' : Db Blob)
      → grant_role db g seqno key author (role_of admin) ≡ ok db'
      → Projects db' (grant_projected_role g.room_key s key admin)
  unfolding role_row
  grant_role-Projects g seqno key author admin db' h =
      let (other, room, new, e) = grant_role_inv g seqno key author (role_of admin) db' h in
      (
        with_roles admin s (sort (roles_of admin s ++ key ∷ [])),
        grant_ok g.room_key key admin other (contains-roles admin key ∙ new)
            (omega (arith, room, length-roles admin, limit-role_of admin)),
        rw e (
            with_roles-Shows admin _ _
              (Holds-snoc (role_row key (role_of admin) seqno author) db.roles _ (holds admin) new)
              (Holds-snoc_other (role_of (not admin)) _ db.roles _ (others admin)
                (holds (not admin)))),
      )
    where
      others : (a : Bool) → role_eq (role_of a) (role_of (not a)) ≡ false
      others true = refl
      others false = refl

  revoke_ok :
      (room_key key : Bytes) (admin : Bool)
      → equal key room_key ≡ false
      → contains key (roles_of admin s) ≡ true
      → revoke_projected_role room_key s key admin
        ≡ ok (with_roles admin s (remove key (roles_of admin s)))
  unfolding revoke_projected_role
  revoke_ok room_key key admin other held = ground arith

  revoke_role-Projects :
      (g : Genesis) (key : Bytes) (admin : Bool) (db' : Db Blob)
      → revoke_role db g key (role_of admin) ≡ ok db'
      → Projects db' (revoke_projected_role g.room_key s key admin)
  revoke_role-Projects g key admin db' h =
      let (other, held, e) = revoke_role_inv g key (role_of admin) db' h in
      (
        with_roles admin s (remove key (roles_of admin s)),
        revoke_ok g.room_key key admin other (contains-roles admin key ∙ held),
        rw e (
            with_roles-Shows admin _ _
              (Holds-delete_role (role_of admin) key db.roles _ (holds admin))
              (Holds-delete_other (role_of admin) (role_of (not admin)) key db.roles _
                (others admin) (holds (not admin)))),
      )
    where
      others : (a : Bool) → role_eq (role_of a) (role_of (not a)) ≡ false
      others true = refl
      others false = refl

  pin_row : ℕ → ℕ → Bytes → PinRow
  pin_row id seqno author = record { message_id = id; pinned_seqno = seqno; pinned_by = author }

  pin_table_inv :
      (seqno id : ℕ) (author : Bytes) (db' : Db Blob)
      → pin db seqno id author ≡ ok db'
      → (contains id (message_ids db.messages) ≡ true)
        × (length (pinned db.pins) < max_pins)
        × (contains id (pinned db.pins) ≡ false)
        × (db' ≡ record db { pins = db.pins ++ pin_row id seqno author ∷ [] })
  unfolding pin insert_pin pin_row
  pin_table_inv seqno id author db' h = ground arith

  pin_ok :
      (id : ℕ)
      → contains id messages ≡ true
      → contains id s.pinned_messages ≡ false
      → length s.pinned_messages < max_pins
      → pin_projected s messages id
        ≡ ok (record s { pinned_messages = sort (s.pinned_messages ++ id ∷ []) })
  unfolding pin_projected
  pin_ok id held new room = ground arith

  pub contains-pins : (id : ℕ) → contains id s.pinned_messages ≡ contains id (pinned db.pins)
  contains-pins id = ap (contains id) (sym v.pins.sorted) ∙ contains-sort id _

  pub length-pins : length s.pinned_messages ≡ length (pinned db.pins)
  length-pins = ap length (sym v.pins.sorted) ∙ length-sort _

  pin-Projects :
      (seqno id : ℕ) (author : Bytes) (db' : Db Blob)
      → pin db seqno id author ≡ ok db'
      → Projects db' (pin_projected s messages id)
  unfolding pin_row
  pin-Projects seqno id author db' h =
      let (held, room, new, e) = pin_table_inv seqno id author db' h in
      (
        record s { pinned_messages = sort (s.pinned_messages ++ id ∷ []) },
        pin_ok id (sym (v.known id) ∙ held) (contains-pins id ∙ new)
            (omega (arith, room, length-pins)),
        rw e (with_pins-Shows _ _ (HoldsPins-snoc (pin_row id seqno author) db.pins _ v.pins new)),
      )

  unpin_table_inv :
      (id : ℕ) (db' : Db Blob)
      → unpin db id ≡ ok db'
      → (contains id (pinned db.pins) ≡ true) × (db' ≡ record db { pins = delete_pin id db.pins })
  unfolding unpin
  unpin_table_inv id db' h = ground arith

  unpin_ok :
      (id : ℕ)
      → contains id s.pinned_messages ≡ true
      → unpin_projected s id ≡ ok (record s { pinned_messages = remove id s.pinned_messages })
  unfolding unpin_projected
  unpin_ok id held = ground arith

  unpin-Projects :
      (id : ℕ) (db' : Db Blob) → unpin db id ≡ ok db' → Projects db' (unpin_projected s id)
  unpin-Projects id db' h =
      let (held, e) = unpin_table_inv id db' h in
      (
        record s { pinned_messages = remove id s.pinned_messages },
        unpin_ok id (contains-pins id ∙ held),
        rw e (with_pins-Shows _ _ (HoldsPins-delete_pin id db.pins _ v.pins)),
      )

  update_state-Shows :
      (f : StateRow Blob → StateRow Blob) (t : RoomState)
      → s.admins ≡ t.admins
      → s.moderators ≡ t.moderators
      → s.pinned_messages ≡ t.pinned_messages
      → (f v.row).name ≡ t.name
      → (f v.row).description ≡ t.description
      → (f v.row).anyone_can_write ≡ t.write_policy.anyone_can_write
      → Shows (update_state f db) messages t
  update_state-Shows f t a m p n d w = record {
    known = v.known;
    admins = subst (Holds Role.admin db.roles) a v.admins;
    moderators = subst (Holds Role.moderator db.roles) m v.moderators;
    pins = subst (HoldsPins db.pins) p v.pins;
    row = f v.row;
    stored = ap (Option.map f) v.stored;
    name = n;
    description = d;
    policy = w;
  }

  -- An event that is no message: the projection takes it as well, and both end in step.
  pub apply_projection-Projects :
      (g : Genesis) (e : CommittedEvent) (raw : Blob) (body : EventBody) (db' : Db Blob)
      → is_message body ≡ false
      → apply_projection db g e raw body ≡ ok db'
      → Projects db' (apply_projected_state_body g.room_key s messages body)
  unfolding apply_projection apply_projected_state_body is_message
  apply_projection-Projects g e raw (EventBody.message text) db' m h = cc
  apply_projection-Projects g e raw (EventBody.metadata name description) db' m h = (
    record s { name = name; description = description },
    refl,
    subst (λ d. Shows d messages (record s { name = name; description = description }))
        (ok-injective h) (update_state-Shows _ _ refl refl refl refl refl v.policy),
  )
  apply_projection-Projects g e raw (EventBody.write_policy anyone) db' m h = (
    record s { write_policy = record { anyone_can_write = anyone } },
    refl,
    subst (λ d. Shows d messages (record s { write_policy = record { anyone_can_write = anyone } }))
        (ok-injective h) (update_state-Shows _ _ refl refl refl v.name v.description refl),
  )
  apply_projection-Projects g e raw (EventBody.pin id) db' m h =
      pin-Projects e.seqno id e.proposal.author_key db' h
  apply_projection-Projects g e raw (EventBody.unpin id) db' m h = unpin-Projects id db' h
  apply_projection-Projects g e raw (EventBody.admin_grant key) db' m h =
      grant_role-Projects g e.seqno key e.proposal.author_key true db' h
  apply_projection-Projects g e raw (EventBody.admin_revoke key) db' m h =
      revoke_role-Projects g key true db' h
  apply_projection-Projects g e raw (EventBody.moderator_grant key) db' m h =
      grant_role-Projects g e.seqno key e.proposal.author_key false db' h
  apply_projection-Projects g e raw (EventBody.moderator_revoke key) db' m h =
      revoke_role-Projects g key false db' h
  apply_projection-Projects g e raw EventBody.unsupported db' m h = cc
