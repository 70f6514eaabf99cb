-- ===== src/Community/Canonical.antt =====
-- The tests `canonicalKeys` and `canonicalLongs` decide what they mean: strictly rising lists of
-- keys of the right size, and of positive numbers.
use tonnet_messenger.Base.{ℕ, ltb, ◌<◌, ◌≡◌, refl, true, List, [], ◌∷◌, arith, length}
use tonnet_messenger.Base.Bytes.{Bytes, less, bytes_ordered}
use tonnet_messenger.Base.Sorting.{Above-trans}
use tonnet_messenger.Base.Ordered.{insert, remove, Above, Sorted, nat_ordered}
use tonnet_messenger.Community.Platform.{key_size}
use tonnet_messenger.Community.Validate.{
  canonical_keys, canonical_keys_from, canonical_longs, canonical_longs_from,
}

-- Every key has the size of a public key.
abbrev pub Sized : List Bytes → Type 0
Sized [] = Unit {0}
Sized (k ∷ ks) = (length k ≡ key_size) × Sized ks

pub Sized-insert :
    (k : Bytes) (ks : List Bytes) → length k ≡ key_size → Sized ks → Sized (insert k ks)
unfolding insert
Sized-insert k [] h s = (h, tt)
Sized-insert k (x ∷ xs) h s = ground (arith, Sized-insert k xs h s.1)

pub Sized-remove : (k : Bytes) (ks : List Bytes) → Sized ks → Sized (remove k ks)
unfolding remove
Sized-remove k [] s = tt
Sized-remove k (x ∷ xs) s = ground (arith, Sized-remove k xs s.1)

canonical_keys_from-intro :
    (p : Bytes) (ks : List Bytes)
    → Above p ks
    → Sorted ks
    → Sized ks
    → canonical_keys_from p ks ≡ true
unfolding canonical_keys_from
canonical_keys_from-intro p [] a s z = refl
canonical_keys_from-intro p (k ∷ ks) a s z =
    ground (arith, canonical_keys_from-intro k ks s.0 s.1 z.1)

pub canonical_keys-intro : (ks : List Bytes) → Sorted ks → Sized ks → canonical_keys ks ≡ true
unfolding canonical_keys
canonical_keys-intro [] s z = refl
canonical_keys-intro (k ∷ ks) s z = ground (arith, canonical_keys_from-intro k ks s.0 s.1 z.1)

canonical_keys_from-elim :
    (p : Bytes) (ks : List Bytes)
    → canonical_keys_from p ks ≡ true
    → Above p ks × Sorted ks × Sized ks
unfolding canonical_keys_from
canonical_keys_from-elim p [] h = (tt, tt, tt)
canonical_keys_from-elim p (k ∷ ks) h =
    let (a, s, z) = canonical_keys_from-elim k ks (ground arith) in
    let below : less p k ≡ true = ground arith in
    ((below, Above-trans p k ks below a), (a, s), (ground arith, z))

pub canonical_keys-elim : (ks : List Bytes) → canonical_keys ks ≡ true → Sorted ks × Sized ks
unfolding canonical_keys
canonical_keys-elim [] h = (tt, tt)
canonical_keys-elim (k ∷ ks) h =
    let (a, s, z) = canonical_keys_from-elim k ks (ground arith) in ((a, s), (ground arith, z))

canonical_longs_from-intro :
    (p : ℕ) (ns : List ℕ) → Above p ns → Sorted ns → canonical_longs_from p ns ≡ true
unfolding canonical_longs_from
canonical_longs_from-intro p [] a s = refl
canonical_longs_from-intro p (n ∷ ns) a s = ground (arith, canonical_longs_from-intro n ns s.0 s.1)

-- Every number is positive.
abbrev pub Positive : List ℕ → Type 0
Positive [] = Unit {0}
Positive (n ∷ ns) = (0 < n) × Positive ns

pub canonical_longs-intro : (ns : List ℕ) → Sorted ns → Positive ns → canonical_longs ns ≡ true
unfolding canonical_longs
canonical_longs-intro [] s z = refl
canonical_longs-intro (n ∷ ns) s z = ground (arith, canonical_longs_from-intro n ns s.0 s.1)

canonical_longs_from-elim :
    (p : ℕ) (ns : List ℕ) → canonical_longs_from p ns ≡ true → Above p ns × Sorted ns × Positive ns
unfolding canonical_longs_from
canonical_longs_from-elim p [] h = (tt, tt, tt)
canonical_longs_from-elim p (n ∷ ns) h =
    let (a, s, z) = canonical_longs_from-elim n ns (ground arith) in
    let below : ltb p n ≡ true = ground arith in
    ((below, Above-trans p n ns below a), (a, s), (ground arith, z))

pub canonical_longs-elim : (ns : List ℕ) → canonical_longs ns ≡ true → Sorted ns × Positive ns
unfolding canonical_longs
canonical_longs-elim [] h = (tt, tt)
canonical_longs-elim (n ∷ ns) h =
    let (a, s, z) = canonical_longs_from-elim n ns (ground arith) in ((a, s), (ground arith, z))
