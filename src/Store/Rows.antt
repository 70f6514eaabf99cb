-- ===== src/Store/Rows.antt =====
-- What the statements on roles, pins and messages do to the lists that the code reads off them.
use tonnet_messenger.Base.{
  ℕ, ◌≡◌, refl, ap, sym, true, false, not, ◌&&◌, ◌||◌, List, [], ◌∷◌, ◌++◌, arith, ◌==◌,
  if◌then◌else◌,
}
use tonnet_messenger.Base.Bytes.{Bytes, equal, equal→eq, equal_refl, bytes_ordered}
use tonnet_messenger.Base.Ordered.{contains, remove, sort, Distinct, nat_ordered}
use tonnet_messenger.Base.Sorting.{Distinct-snoc, sort-append-sort, sort-eq-remove}
use tonnet_messenger.Store.Tables.{Role, MessageRow, PinRow, RoleRow}
use tonnet_messenger.Store.Sql.{role_eq, subjects, delete_role, pinned, delete_pin, message_ids}

pub subjects-snoc :
    (role : Role) (r : RoleRow) (rs : List RoleRow)
    → subjects role (rs ++ r ∷ [])
      ≡ (if role_eq r.role role then subjects role rs ++ r.subject_key ∷ [] else subjects role rs)
unfolding subjects
subjects-snoc role r [] = ground arith
subjects-snoc role r (x ∷ rs) = ground (arith, subjects-snoc role r rs)

pub contains-subjects-delete_role :
    (k key : Bytes) (role : Role) (rs : List RoleRow)
    → contains k (subjects role (delete_role key role rs))
      ≡ (contains k (subjects role rs) && not (equal key k))
unfolding contains subjects delete_role
contains-subjects-delete_role k key role [] = refl
contains-subjects-delete_role k key role (r ∷ rs) = ground (
  arith,
  contains-subjects-delete_role k key role rs,
  equal→eq r.subject_key key,
  equal→eq r.subject_key k,
  equal→eq key k,
  equal_refl k,
)

role_eq_trans : (a b d : Role) → role_eq b d ≡ false → role_eq a b ≡ true → role_eq a d ≡ false
role_eq_trans Role.admin Role.admin d h k = h
role_eq_trans Role.moderator Role.moderator d h k = h
role_eq_trans Role.admin Role.moderator d h k = cc
role_eq_trans Role.moderator Role.admin d h k = cc

role_eq_refl : (a : Role) → role_eq a a ≡ true
role_eq_refl Role.admin = refl
role_eq_refl Role.moderator = refl

subjects-delete_other :
    (key : Bytes) (role other : Role) (rs : List RoleRow)
    → role_eq role other ≡ false
    → subjects other (delete_role key role rs) ≡ subjects other rs
unfolding subjects delete_role
subjects-delete_other key role other [] h = refl
subjects-delete_other key role other (r ∷ rs) h =
    ground (arith, subjects-delete_other key role other rs h, role_eq_trans r.role role other h)

Distinct-subjects-delete_role :
    (key : Bytes) (role : Role) (rs : List RoleRow)
    → Distinct (subjects role rs)
    → Distinct (subjects role (delete_role key role rs))
unfolding subjects delete_role
Distinct-subjects-delete_role key role [] d = tt
Distinct-subjects-delete_role key role (r ∷ rs) d = ground (
  arith,
  contains-subjects-delete_role r.subject_key key role rs,
  Distinct-subjects-delete_role key role rs,
)

pub pinned-snoc :
    (r : PinRow) (rs : List PinRow) → pinned (rs ++ r ∷ []) ≡ pinned rs ++ r.message_id ∷ []
unfolding pinned
pinned-snoc r [] = refl
pinned-snoc r (x ∷ rs) = ap (◌∷◌ x.message_id) (pinned-snoc r rs)

contains-pinned-delete_pin :
    (n id : ℕ) (rs : List PinRow)
    → contains n (pinned (delete_pin id rs)) ≡ (contains n (pinned rs) && not (id == n))
unfolding contains pinned delete_pin
contains-pinned-delete_pin n id [] = refl
contains-pinned-delete_pin n id (r ∷ rs) = ground (arith, contains-pinned-delete_pin n id rs)

Distinct-pinned-delete_pin :
    (id : ℕ) (rs : List PinRow) → Distinct (pinned rs) → Distinct (pinned (delete_pin id rs))
unfolding pinned delete_pin
Distinct-pinned-delete_pin id [] d = tt
Distinct-pinned-delete_pin id (r ∷ rs) d = ground (
  arith,
  contains-pinned-delete_pin r.message_id id rs,
  d.0,
  Distinct-pinned-delete_pin id rs d.1,
)

pub contains-message_ids-snoc :
    {Blob : Type 0} (id : ℕ) (r : MessageRow Blob) (rs : List (MessageRow Blob))
    → contains id (message_ids (rs ++ r ∷ []))
      ≡ (r.message_id == id || contains id (message_ids rs))
unfolding contains message_ids
contains-message_ids-snoc id r [] = refl
contains-message_ids-snoc id r (x ∷ rs) = ground (arith, contains-message_ids-snoc id r rs)

-- The rows of one role, read in order, are the keys that the state lists.
pub record Holds (role : Role) (rows : List RoleRow) (keys : List Bytes) : Type 0 where
  pub distinct : Distinct (subjects role rows)
  pub sorted : sort (subjects role rows) ≡ keys

pub record HoldsPins (rows : List PinRow) (pins : List ℕ) : Type 0 where
  pub distinct : Distinct (pinned rows)
  pub sorted : sort (pinned rows) ≡ pins

pub Holds-snoc :
    (r : RoleRow) (rows : List RoleRow) (keys : List Bytes)
    → Holds r.role rows keys
    → contains r.subject_key (subjects r.role rows) ≡ false
    → Holds r.role (rows ++ r ∷ []) (sort (keys ++ r.subject_key ∷ []))
Holds-snoc r rows keys h new =
    let e : subjects r.role (rows ++ r ∷ []) ≡ subjects r.role rows ++ r.subject_key ∷ [] =
      ground (arith, subjects-snoc r.role r rows, role_eq_refl r.role) in
    record {
      distinct = rw e (Distinct-snoc r.subject_key (subjects r.role rows) new h.distinct);
      sorted =
          rw (e, ← h.sorted)
            (sym (sort-append-sort r.subject_key (subjects r.role rows) h.distinct));
    }

pub Holds-snoc_other :
    (role : Role) (r : RoleRow) (rows : List RoleRow) (keys : List Bytes)
    → role_eq r.role role ≡ false
    → Holds role rows keys
    → Holds role (rows ++ r ∷ []) keys
Holds-snoc_other role r rows keys other h =
    let e : subjects role (rows ++ r ∷ []) ≡ subjects role rows =
      ground (arith, subjects-snoc role r rows) in
    record { distinct = rw e h.distinct; sorted = rw e h.sorted }

pub Holds-delete_role :
    (role : Role) (key : Bytes) (rows : List RoleRow) (keys : List Bytes)
    → Holds role rows keys
    → Holds role (delete_role key role rows) (remove key keys)
Holds-delete_role role key rows keys h =
    let d = Distinct-subjects-delete_role key role rows h.distinct in
    record {
      distinct = d;
      sorted = rw (← h.sorted) (
          sort-eq-remove key (subjects role rows) _ h.distinct d
            (λ k. contains-subjects-delete_role k key role rows));
    }

pub Holds-delete_other :
    (role other : Role) (key : Bytes) (rows : List RoleRow) (keys : List Bytes)
    → role_eq role other ≡ false
    → Holds other rows keys
    → Holds other (delete_role key role rows) keys
Holds-delete_other role other key rows keys ne h =
    let e = subjects-delete_other key role other rows ne in
    record { distinct = rw e h.distinct; sorted = rw e h.sorted }

pub HoldsPins-snoc :
    (r : PinRow) (rows : List PinRow) (pins : List ℕ)
    → HoldsPins rows pins
    → contains r.message_id (pinned rows) ≡ false
    → HoldsPins (rows ++ r ∷ []) (sort (pins ++ r.message_id ∷ []))
HoldsPins-snoc r rows pins h new =
    let e = pinned-snoc r rows in
    record {
      distinct = rw e (Distinct-snoc r.message_id (pinned rows) new h.distinct);
      sorted = rw (e, ← h.sorted) (sym (sort-append-sort r.message_id (pinned rows) h.distinct));
    }

pub HoldsPins-delete_pin :
    (id : ℕ) (rows : List PinRow) (pins : List ℕ)
    → HoldsPins rows pins
    → HoldsPins (delete_pin id rows) (remove id pins)
HoldsPins-delete_pin id rows pins h =
    let d = Distinct-pinned-delete_pin id rows h.distinct in
    record {
      distinct = d;
      sorted = rw (← h.sorted) (
          sort-eq-remove id (pinned rows) _ h.distinct d
            (λ n. contains-pinned-delete_pin n id rows));
    }
