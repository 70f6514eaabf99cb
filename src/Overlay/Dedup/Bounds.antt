-- ===== src/Overlay/Dedup/Bounds.antt =====
-- The bound on internal/overlay/dedup.go's list of delivered broadcasts, and who may deliver one.
use tonnet_messenger.Base.{
  ◌≤◌, ◌≡◌, refl, true, false, not, ◌&&◌, List, [], ◌∷◌, ◌++◌, arith, length, Bool-cases, inl, inr,
  length-append,
}
use tonnet_messenger.Base.Int.{ℤ, pos, negsuc, pos_part, ltb_ℤ}
use tonnet_messenger.Base.Bytes.{Bytes, bytes_ordered, equal, equal_refl, equal→eq}
use tonnet_messenger.Base.Ordered.{contains, remove, Distinct}
use tonnet_messenger.Base.Sorting.{Distinct-snoc, contains-append, length-remove}
use tonnet_messenger.Overlay.Dedup.{
  Dedup, evict, add_locked, move_to_back, reserve, release, commit, seen, contains_hash,
}

-- Each hash stands once in the list, which holds no more than the cap, and the cap is positive.
pub record IsBounded (d : Dedup) : Type 0 where
  pub positive : ltb_ℤ (pos 0) d.cap ≡ true
  pub bounded : length d.order ≤ pos_part d.cap
  pub distinct : Distinct d.order
  pub reserved : Distinct d.pend

contains-remove_of_Distinct :
    (a b : Bytes) (xs : List Bytes)
    → Distinct xs
    → contains a (remove b xs) ≡ (contains a xs && not (equal b a))
unfolding contains remove
contains-remove_of_Distinct a b [] d = refl
contains-remove_of_Distinct a b (x ∷ xs) d = ground (
  arith,
  d.0,
  contains-remove_of_Distinct a b xs d.1,
  equal→eq x b,
  equal→eq x a,
  equal→eq b a,
  equal_refl b,
)

remove-Distinct : (b : Bytes) (xs : List Bytes) → Distinct xs → Distinct (remove b xs)
unfolding remove
remove-Distinct b [] d = tt
remove-Distinct b (x ∷ xs) d =
    ground (arith, d.0, remove-Distinct b xs d.1, contains-remove_of_Distinct x b xs d.1)

evict-length : (cap : ℤ) (xs : List Bytes) → length (evict cap xs) ≤ pos_part cap
unfolding evict
evict-length cap [] = omega arith
evict-length (pos n) (x ∷ xs) = ground (arith, evict-length (pos n) xs)
evict-length (negsuc n) (x ∷ xs) = ground (arith, evict-length (negsuc n) xs)

evict-Distinct : (cap : ℤ) (xs : List Bytes) → Distinct xs → Distinct (evict cap xs)
unfolding evict
evict-Distinct cap [] d = tt
evict-Distinct cap (x ∷ xs) d = elim (Bool-cases (ltb_ℤ cap (pos (length (x ∷ xs))))) [
  | inl e ↦ rw e (evict-Distinct cap xs d.1)
  | inr e ↦ rw e d
]

-- The newest entry is not evicted.
evict-last :
    (cap : ℤ) (k : Bytes) (xs : List Bytes)
    → ltb_ℤ (pos 0) cap ≡ true
    → contains k (evict cap (xs ++ k ∷ [])) ≡ true
unfolding evict contains
evict-last (pos n) k [] h = ground (arith, equal_refl k)
evict-last (negsuc n) k [] h = ground arith
evict-last cap k (x ∷ xs) h = elim (Bool-cases (ltb_ℤ cap (pos (length (x ∷ (xs ++ k ∷ [])))))) [
  | inl e ↦ rw e (evict-last cap k xs h)
  | inr e ↦ rw e (ground (arith, contains-append k xs (k ∷ []), equal_refl k))
]

add_locked-IsBounded :
    (d : Dedup) (k : Bytes) → IsBounded d → contains k d.order ≡ false → IsBounded (add_locked d k)
unfolding add_locked
add_locked-IsBounded d k v new = record {
  positive = v.positive;
  bounded = evict-length d.cap (d.order ++ k ∷ []);
  distinct = evict-Distinct d.cap _ (Distinct-snoc k d.order new v.distinct);
  reserved = v.reserved;
}

move_to_back-IsBounded :
    (d : Dedup) (k : Bytes) → IsBounded d → contains k d.order ≡ true → IsBounded (move_to_back d k)
unfolding move_to_back
move_to_back-IsBounded d k v old = record {
  positive = v.positive;
  bounded =
      omega
        (arith, v.bounded, length-append (remove k d.order) (k ∷ []), length-remove k d.order old);
  distinct =
      Distinct-snoc k (remove k d.order)
        (ground (arith, contains-remove_of_Distinct k k d.order v.distinct, equal_refl k))
        (remove-Distinct k d.order v.distinct);
  reserved = v.reserved;
}

release-IsBounded : (d : Dedup) (k : Bytes) → IsBounded d → IsBounded (release d k)
unfolding release
release-IsBounded d k v = record {
  positive = v.positive;
  bounded = v.bounded;
  distinct = v.distinct;
  reserved = remove-Distinct k d.pend v.reserved;
}

commit-IsBounded : (d : Dedup) (k : Bytes) → IsBounded d → IsBounded (commit d k)
unfolding commit
commit-IsBounded d k v = elim (Bool-cases (contains k (release d k).order)) [
  | inl e ↦ rw e (move_to_back-IsBounded (release d k) k (release-IsBounded d k v) e)
  | inr e ↦ rw e (add_locked-IsBounded (release d k) k (release-IsBounded d k v) e)
]

seen-IsBounded : (d : Dedup) (k : Bytes) → IsBounded d → IsBounded (seen d k).0
unfolding seen
seen-IsBounded d k v = elim (Bool-cases (contains k d.order)) [
  | inl e ↦ rw e (move_to_back-IsBounded d k v e)
  | inr e ↦ rw e (add_locked-IsBounded d k v e)
]

reserve-IsBounded : (d : Dedup) (k : Bytes) → IsBounded d → IsBounded (reserve d k).0
unfolding reserve
reserve-IsBounded d k v = elim (Bool-cases (contains k d.order)) [
  | inl e ↦ rw e v
  | inr e ↦ rw e (elim (Bool-cases (contains k d.pend)) [
    | inl f ↦ rw f v
    | inr f ↦ rw f (record {
      positive = v.positive;
      bounded = v.bounded;
      distinct = v.distinct;
      reserved = (f, v.reserved);
    })
  ])
]

-- `Reserve`, `Commit`, `Release` and `Seen` each keep the list of delivered hashes and the
-- reservations free of repetitions, and the list within its cap.
pub operations-IsBounded :
    (d : Dedup) (k : Bytes)
    → IsBounded d
    → IsBounded (reserve d k).0
      × IsBounded (commit d k)
      × IsBounded (release d k)
      × IsBounded (seen d k).0
operations-IsBounded d k v =
    (reserve-IsBounded d k v, commit-IsBounded d k v, release-IsBounded d k v, seen-IsBounded d k v)

last : (k : Bytes) → contains k (k ∷ []) ≡ true
unfolding contains
last k = ground (arith, equal_refl k)

commit-held : (d : Dedup) (k : Bytes) → IsBounded d → contains_hash (commit d k) k ≡ true
unfolding contains_hash commit release add_locked move_to_back
commit-held d k v = elim (Bool-cases (contains k d.order)) [
  | inl e ↦ rw e (ground (arith, contains-append k (remove k d.order) (k ∷ []), last k))
  | inr e ↦ rw e (evict-last d.cap k d.order v.positive)
]

commit-pend : (d : Dedup) (k : Bytes) → IsBounded d → contains k (commit d k).pend ≡ false
unfolding commit release add_locked move_to_back
commit-pend d k v = ground (arith, contains-remove_of_Distinct k k d.pend v.reserved, equal_refl k)

reserve-held : (d : Dedup) (k : Bytes) → contains_hash d k ≡ true → reserve d k ≡ (d, false)
unfolding contains_hash reserve
reserve-held d k h = ground (arith, h)

seen-held : (d : Dedup) (k : Bytes) → contains_hash d k ≡ true → (seen d k).1 ≡ true
unfolding contains_hash seen
seen-held d k h = ground (arith, h)

-- After `Commit` of a hash on bounded lists the hash is contained and no longer reserved, the next
-- `Reserve` of it is refused and changes nothing, and the next `Seen` reports it.
pub commit-reserve :
    (d : Dedup) (k : Bytes)
    → IsBounded d
    → (contains_hash (commit d k) k ≡ true)
      × (contains k (commit d k).pend ≡ false)
      × (reserve (commit d k) k ≡ (commit d k, false))
      × ((seen (commit d k) k).1 ≡ true)
commit-reserve d k v =
    let held = commit-held d k v in
    (held, commit-pend d k v, reserve-held (commit d k) k held, seen-held (commit d k) k held)

-- After a `Reserve` that succeeds, a second `Reserve` of the same hash is refused and changes
-- nothing, and `Release` restores the lists from before.
pub reserve-release :
    (d held : Dedup) (k : Bytes)
    → reserve d k ≡ (held, true)
    → (reserve held k ≡ (held, false)) × (release held k ≡ d)
unfolding reserve release contains remove
reserve-release d held k h = ground (arith, h, equal_refl k)
