-- ===== src/Community/Projection/RoleLists.antt =====
-- The lists in a room state: what the grants, revocations, pins and unpins of projection.go keep.
use tonnet_messenger.Base.{
  ℕ, ◌≤◌, ◌<◌, ◌≡◌, true, false, List, [], ◌∷◌, ◌++◌, arith, length, ◌==◌, Bool-cases, inl, inr,
}
use tonnet_messenger.Base.Bytes.{Bytes, equal, bytes_ordered}
use tonnet_messenger.Base.Ordered.{Ordered, contains, insert, remove, sort, Sorted, nat_ordered}
use tonnet_messenger.Base.Sorting.{
  contains-insert, contains-remove, insert-Sorted, remove-Sorted, length-insert, length-remove,
  sort-append, sort-eq_of_Sorted,
}
use tonnet_messenger.Community.Platform.{key_size}
use tonnet_messenger.Community.Canonical.{Sized, Sized-insert, Sized-remove}
use tonnet_messenger.Community.Validate.{max_pins}

-- To append to a rising list and sort is to insert.
pub sort-append_of_Sorted {ℓ} :
    {A : Type ℓ} ⦃o : Ordered A⦄ (a : A) (xs : List A)
    → Sorted xs
    → sort (xs ++ a ∷ []) ≡ insert a xs
sort-append_of_Sorted a xs s = rw (sort-append, sort-eq_of_Sorted xs s)

-- The keys with one role: rising, of the right size, at most `limit`, and without the owner's.
pub record IsRoleList (limit : ℕ) (room_key : Bytes) (keys : List Bytes) : Type 0 where
  pub sorted : Sorted keys
  pub sized : Sized keys
  pub bounded : length keys ≤ limit
  pub unowned : contains room_key keys ≡ false

pub insert-IsRoleList :
    (limit : ℕ) (room_key key : Bytes) (keys : List Bytes)
    → IsRoleList limit room_key keys
    → length key ≡ key_size
    → equal key room_key ≡ false
    → contains key keys ≡ false
    → length keys < limit
    → IsRoleList limit room_key (insert key keys)
insert-IsRoleList limit room_key key keys v size other new room = record {
  sorted = insert-Sorted key keys new v.sorted;
  sized = Sized-insert key keys size v.sized;
  bounded = omega (arith, length-insert key keys);
  unowned = ground (arith, contains-insert room_key key keys, v.unowned);
}

pub remove-IsRoleList :
    (limit : ℕ) (room_key key : Bytes) (keys : List Bytes)
    → IsRoleList limit room_key keys
    → contains key keys ≡ true
    → IsRoleList limit room_key (remove key keys)
remove-IsRoleList limit room_key key keys v held = record {
  sorted = remove-Sorted key keys v.sorted;
  sized = Sized-remove key keys v.sized;
  bounded = omega (arith, v.bounded, length-remove key keys held);
  unowned = ground (arith, contains-remove room_key key keys v.sorted, v.unowned);
}

-- The pinned messages: rising, at most `max_pins`, and each a message of the room.
pub record IsPinList (messages pins : List ℕ) : Type 0 where
  pub sorted : Sorted pins
  pub bounded : length pins ≤ max_pins
  pub known : (id : ℕ) → contains id pins ≡ true → contains id messages ≡ true

pub insert-IsPinList :
    (messages pins : List ℕ) (id : ℕ)
    → IsPinList messages pins
    → contains id messages ≡ true
    → contains id pins ≡ false
    → length pins < max_pins
    → IsPinList messages (insert id pins)
insert-IsPinList messages pins id v held new room = record {
  sorted = insert-Sorted id pins new v.sorted;
  bounded = omega (arith, length-insert id pins);
  known = λ n h. elim (Bool-cases (id == n)) [
    | inl e ↦ ground (arith, held)
    | inr d ↦ v.known n (ground (arith, contains-insert n id pins))
  ];
}

pub remove-IsPinList :
    (messages pins : List ℕ) (id : ℕ)
    → IsPinList messages pins
    → contains id pins ≡ true
    → IsPinList messages (remove id pins)
remove-IsPinList messages pins id v held = record {
  sorted = remove-Sorted id pins v.sorted;
  bounded = omega (arith, v.bounded, length-remove id pins held);
  known = λ n h. v.known n (ground (arith, contains-remove n id pins v.sorted));
}
