-- ===== src/Base/Dict/Laws.antt =====
-- The laws of those maps: a key stands once, and the sizes and counts behind each operation.
use Prim.Native.Nat.{ℕ, ◌+◌, ◌≤◌, ◌<◌}
use mathlib.Core.Path.{◌≡◌, refl, ap}
use mathlib.Core.Logic.{inl, inr}
use mathlib.Core.Bool.{Bool, true, false, ◌&&◌, ◌||◌, not}
use mathlib.Core.List.{[], ◌∷◌}
use mathlib.Core.Option.{none, some}
use native.Mathlib.Omega.{arith}
use tonnet_messenger.Base.Tests.{ltb, leb, ◌==◌, if◌then◌else◌, Bool-cases}
use tonnet_messenger.Base.Lists.{length}
use tonnet_messenger.Base.Bytes.{Bytes, equal, equal_refl, equal→eq}
use tonnet_messenger.Base.Dict.{
  Dict, find, has, delete, set, keep, collect, weight, count, oldest_from, make_room,
}

equal-swap : (k l : Bytes) → equal k l ≡ false → equal l k ≡ false
equal-swap k l e = ground (arith, e, equal→eq l k, equal_refl k)

module _ {ℓ} {V : Type ℓ} where
  -- No key stands twice.
  abbrev pub Single : Dict V → Type 0
  Single [] = Unit {0}
  Single ((i, v) ∷ d) = (has i d ≡ false) × Single d

  has-keep :
      (k : Bytes) (test : Bytes → V → Bool) (d : Dict V)
      → has k d ≡ false
      → has k (keep test d) ≡ false
  unfolding has keep
  has-keep k test [] h = refl
  has-keep k test ((i, v) ∷ d) h = ground (arith, h, has-keep k test d)

  pub keep-Single : (test : Bytes → V → Bool) (d : Dict V) → Single d → Single (keep test d)
  unfolding keep
  keep-Single test [] s = tt
  keep-Single test ((i, v) ∷ d) s = elim (Bool-cases (test i v)) [
    | inl e ↦ rw e (has-keep i test d s.0, keep-Single test d s.1)
    | inr e ↦ rw e (keep-Single test d s.1)
  ]

  pub length-keep : (test : Bytes → V → Bool) (d : Dict V) → length (keep test d) ≤ length d
  unfolding keep
  length-keep test [] = omega arith
  length-keep test ((i, v) ∷ d) = ground (arith, length-keep test d)

  pub count-keep :
      (P : V → Bool) (test : Bytes → V → Bool) (d : Dict V) → count P (keep test d) ≤ count P d
  unfolding count keep
  count-keep P test [] = omega arith
  count-keep P test ((i, v) ∷ d) = ground (arith, count-keep P test d)

  has-delete : (k l : Bytes) (d : Dict V) → has k d ≡ false → has k (delete l d) ≡ false
  unfolding has delete
  has-delete k l [] h = refl
  has-delete k l ((i, v) ∷ d) h = ground (arith, h, has-delete k l d)

  pub delete-Single : (k : Bytes) (d : Dict V) → Single d → Single (delete k d)
  unfolding delete
  delete-Single k [] s = tt
  delete-Single k ((i, v) ∷ d) s = elim (Bool-cases (equal i k)) [
    | inl e ↦ rw e s.1
    | inr e ↦ rw e (has-delete i k d s.0, delete-Single k d s.1)
  ]

  pub length-delete : (k : Bytes) (d : Dict V) → has k d ≡ true → length (delete k d) + 1 ≡ length d
  unfolding has delete
  length-delete k [] h = cc
  length-delete k ((i, v) ∷ d) h = ground (arith, h, length-delete k d)

  pub length-delete_le : (k : Bytes) (d : Dict V) → length (delete k d) ≤ length d
  unfolding delete
  length-delete_le k [] = omega arith
  length-delete_le k ((i, v) ∷ d) = ground (arith, length-delete_le k d)

  pub count-delete : (P : V → Bool) (k : Bytes) (d : Dict V) → count P (delete k d) ≤ count P d
  unfolding count delete
  count-delete P k [] = omega arith
  count-delete P k ((i, v) ∷ d) = ground (arith, count-delete P k d)

  pub find-missing : (k : Bytes) (d : Dict V) → has k d ≡ false → find k d ≡ none
  unfolding has find
  find-missing k [] h = refl
  find-missing k ((i, v) ∷ d) h = ground (arith, h, find-missing k d)

  -- What is deleted is gone.
  pub find-delete : (k : Bytes) (d : Dict V) → Single d → find k (delete k d) ≡ none
  unfolding find delete
  find-delete k [] s = refl
  find-delete k ((i, v) ∷ d) s =
      ground (arith, s.0, equal→eq i k, find-missing k d, find-delete k d s.1)

  pub find-delete_other :
      (k l : Bytes) (d : Dict V) → equal l k ≡ false → find k (delete l d) ≡ find k d
  unfolding find delete
  find-delete_other k l [] e = refl
  find-delete_other k l ((i, v) ∷ d) e = ground (arith, e, find-delete_other k l d, equal→eq i l)

  has-set :
      (k l : Bytes) (w : V) (d : Dict V)
      → has k d ≡ false
      → equal l k ≡ false
      → has k (set l w d) ≡ false
  unfolding has set
  has-set k l w [] h e = ground (arith, e)
  has-set k l w ((i, v) ∷ d) h e = ground (arith, h, e, has-set k l w d)

  pub set-Single : (k : Bytes) (w : V) (d : Dict V) → Single d → Single (set k w d)
  unfolding set has
  set-Single k w [] s = (refl, tt)
  set-Single k w ((i, v) ∷ d) s = elim (Bool-cases (equal i k)) [
    | inl e ↦ rw e s
    | inr e ↦ rw e (has-set i k w d s.0 (equal-swap i k e), set-Single k w d s.1)
  ]

  pub length-set :
      (k : Bytes) (w : V) (d : Dict V)
      → length (set k w d) ≡ (if has k d then length d else length d + 1)
  unfolding set has
  length-set k w [] = omega arith
  length-set k w ((i, v) ∷ d) = ground (arith, length-set k w d)

  pub find-set : (k : Bytes) (w : V) (d : Dict V) → find k (set k w d) ≡ some w
  unfolding set find
  find-set k w [] = ground (arith, equal_refl k)
  find-set k w ((i, v) ∷ d) = ground (arith, find-set k w d)

  pub find-set_other :
      (k l : Bytes) (w : V) (d : Dict V) → equal l k ≡ false → find k (set l w d) ≡ find k d
  unfolding set find
  find-set_other k l w [] e = ground (arith, e)
  find-set_other k l w ((i, v) ∷ d) e = ground (arith, e, find-set_other k l w d, equal→eq i l)

  -- A value that replaces another takes its place in the count.
  pub count-set :
      (P : V → Bool) (k : Bytes) (old w : V) (d : Dict V)
      → find k d ≡ some old
      → count P (set k w d) + weight (P old) ≡ count P d + weight (P w)
  unfolding find set count
  count-set P k old w [] h = cc
  count-set P k old w ((i, v) ∷ d) h = elim (Bool-cases (equal i k)) [
    | inl e ↦ ground (arith, e, h)
    | inr e ↦ ground (arith, e, h, count-set P k old w d)
  ]

  pub count-set_new :
      (P : V → Bool) (k : Bytes) (w : V) (d : Dict V)
      → find k d ≡ none
      → count P (set k w d) ≡ count P d + weight (P w)
  unfolding find set count
  count-set_new P k w [] h = omega arith
  count-set_new P k w ((i, v) ∷ d) h = ground (arith, h, count-set_new P k w d)

  pub find-weight :
      (P : V → Bool) (k : Bytes) (v : V) (d : Dict V) → find k d ≡ some v → weight (P v) ≤ count P d
  unfolding find count
  find-weight P k v [] h = cc
  find-weight P k v ((i, w) ∷ d) h = ground (arith, h, find-weight P k v d)

  pub count_mono :
      (P Q : V → Bool) (d : Dict V) → ((v : V) → P v ≡ true → Q v ≡ true) → count P d ≤ count Q d
  unfolding count
  count_mono P Q [] h = omega arith
  count_mono P Q ((i, v) ∷ d) h = ground (arith, h v, count_mono P Q d h)

  -- What the loop leaves under a key, and what it takes.
  pub find-keep :
      (k : Bytes) (test : V → Bool) (d : Dict V)
      → Single d
      → find k (keep (λ _ v. test v) d)
        ≡ elim (find k d) [ none ↦ none | some v ↦ if test v then some v else none ]
  unfolding find keep
  find-keep k test [] s = refl
  find-keep k test ((i, v) ∷ d) s = ground (
    arith,
    s.0,
    equal→eq i k,
    find-missing k d,
    find-keep k test d s.1,
    has-keep i (λ (_ : Bytes) (w : V). test w) d s.0,
    find-missing k (keep (λ (_ : Bytes) (w : V). test w) d),
  )

  pub length-keep-collect :
      (test : V → Bool) (d : Dict V)
      → length (keep (λ _ v. test v) d) + length (collect (λ _ v. not (test v)) d) ≡ length d
  unfolding keep collect
  length-keep-collect test [] = omega arith
  length-keep-collect test ((i, v) ∷ d) = ground (arith, length-keep-collect test d)

  -- A loop that finds nothing to delete.
  pub keep-keep :
      (test : V → Bool) (d : Dict V)
      → keep (λ _ v. test v) (keep (λ _ v. test v) d) ≡ keep (λ _ v. test v) d
  unfolding keep
  keep-keep test [] = refl
  keep-keep test ((i, v) ∷ d) = elim (Bool-cases (test v)) [
    | inl e ↦ rw e (rw e (ap (λ r. (i, v) ∷ r) (keep-keep test d)))
    | inr e ↦ rw e (keep-keep test d)
  ]

  pub collect-keep :
      (test : V → Bool) (d : Dict V) → collect (λ _ v. not (test v)) (keep (λ _ v. test v) d) ≡ []
  unfolding keep collect
  collect-keep test [] = refl
  collect-keep test ((i, v) ∷ d) = ground (arith, collect-keep test d)

  oldest_from-cons :
      (time : V → ℕ) (k : Bytes) (oldest : ℕ) (i : Bytes) (v : V) (d : Dict V)
      → oldest_from time k oldest ((i, v) ∷ d) ≡ (
          if length k == 0 || ltb (time v) oldest
          then oldest_from time i (time v) d
          else oldest_from time k oldest d)
  unfolding oldest_from
  oldest_from-cons time k oldest i v d = refl

  oldest_from-nil : (time : V → ℕ) (k : Bytes) (oldest : ℕ) → oldest_from time k oldest [] ≡ k
  unfolding oldest_from
  oldest_from-nil time k oldest = refl

  -- What the loop finds is the key it started from or one of the map.
  has-oldest_from :
      (time : V → ℕ) (k : Bytes) (oldest : ℕ) (d : Dict V)
      → (equal (oldest_from time k oldest d) k || has (oldest_from time k oldest d) d) ≡ true
  unfolding has
  has-oldest_from time k oldest [] = ground (arith, oldest_from-nil time k oldest, equal_refl k)
  has-oldest_from time k oldest ((i, v) ∷ d) =
      elim (Bool-cases (length k == 0 || ltb (time v) oldest)) [
        | inl e ↦ ground (
          arith,
          e,
          oldest_from-cons time k oldest i v d,
          has-oldest_from time i (time v) d,
          equal→eq (oldest_from time i (time v) d) i,
          equal_refl i,
        )
        | inr e ↦
            ground (arith, e, oldest_from-cons time k oldest i v d, has-oldest_from time k oldest d)
      ]

  has-oldest :
      (time : V → ℕ) (i : Bytes) (v : V) (d : Dict V)
      → has (oldest_from time [] 0 ((i, v) ∷ d)) ((i, v) ∷ d) ≡ true
  unfolding has
  has-oldest time i v d = ground (
    arith,
    oldest_from-cons time [] 0 i v d,
    has-oldest_from time i (time v) d,
    equal→eq (oldest_from time i (time v) d) i,
    equal_refl i,
  )

  -- After `make_room` the key is there or there is room for it.
  length-make_room :
      (time : V → ℕ) (limit : ℕ) (k : Bytes) (d : Dict V)
      → 0 < limit
      → length d ≤ limit
      → (length (make_room time limit k d) ≤ limit)
        × (has k (make_room time limit k d) ≡ false → length (make_room time limit k d) < limit)
  unfolding make_room has
  length-make_room time limit k [] p h = (ground (arith, p, h), λ n. ground (arith, p, h))
  length-make_room time limit k ((i, v) ∷ d) p h =
      elim (Bool-cases (not (has k ((i, v) ∷ d)) && leb limit (length ((i, v) ∷ d)))) [
        | inl e ↦
            let shorter =
              length-delete (oldest_from time [] 0 ((i, v) ∷ d)) ((i, v) ∷ d)
                (has-oldest time i v d) in
            rw e (omega (arith, shorter, h), λ n. omega (arith, shorter, h))
        | inr e ↦ rw e (h, λ n. ground (arith, e, n, h))
      ]

  pub make_room-Single :
      (time : V → ℕ) (limit : ℕ) (k : Bytes) (d : Dict V)
      → Single d
      → Single (make_room time limit k d)
  unfolding make_room
  make_room-Single time limit k d s = elim (Bool-cases (not (has k d) && leb limit (length d))) [
    | inl e ↦ rw e (delete-Single (oldest_from time [] 0 d) d s)
    | inr e ↦ rw e s
  ]

  -- To set a key behind `make_room` keeps the map within its limit.
  pub length-set-make_room :
      (time : V → ℕ) (limit : ℕ) (k : Bytes) (w : V) (d : Dict V)
      → 0 < limit
      → length d ≤ limit
      → length (set k w (make_room time limit k d)) ≤ limit
  length-set-make_room time limit k w d p h =
      let (short, room) = length-make_room time limit k d p h in
      ground (arith, length-set k w (make_room time limit k d), short, room)
