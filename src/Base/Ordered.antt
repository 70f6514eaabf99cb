-- ===== src/Base/Ordered.antt =====
-- Lists kept in strictly rising order: membership, insertion, removal, sorting and the test that
-- a list is canonical. `community/projection.go` and `community/crypto.go` do these by loops.
use Prim.Native.Nat.{ℕ}
use mathlib.Core.Path.{◌≡◌, refl}
use mathlib.Core.Logic.{◌↔◌, inl, inr}
use mathlib.Core.Bool.{Bool, true, false, ◌||◌}
use mathlib.Core.List.{List, [], ◌∷◌}
use native.Mathlib.Omega.{arith}
use tonnet_messenger.Base.Tests.{ltb, ◌==◌, ==_iff, if◌then◌else◌, Bool-cases}

pub record Ordered {ℓ} (A : Type ℓ) : Type ℓ where
  pub eq : A → A → Bool
  pub less : A → A → Bool
  pub eq_iff : (a b : A) → (eq a b ≡ true) ↔ (a ≡ b)
  pub less_irrefl : (a : A) → less a a ≡ false
  pub less_trans : (a b c : A) → less a b ≡ true → less b c ≡ true → less a c ≡ true
  pub less_total : (a b : A) → less a b ≡ false → less b a ≡ false → a ≡ b

pub nat_less_irrefl : (a : ℕ) → ltb a a ≡ false
nat_less_irrefl a = ground arith

pub nat_less_trans : (a b c : ℕ) → ltb a b ≡ true → ltb b c ≡ true → ltb a c ≡ true
nat_less_trans a b c h k = ground arith

pub nat_less_total : (a b : ℕ) → ltb a b ≡ false → ltb b a ≡ false → a ≡ b
nat_less_total a b h k = ground arith

instance abbrev pub nat_ordered : Ordered ℕ
nat_ordered = record {
  eq = ◌==◌;
  less = ltb;
  eq_iff = ==_iff;
  less_irrefl = nat_less_irrefl;
  less_trans = nat_less_trans;
  less_total = nat_less_total;
}

module _ {ℓ} {A : Type ℓ} ⦃o : Ordered A⦄ where
  open o use {eq, less, eq_iff, less_irrefl, less_trans, less_total}

  pub eq_refl : (a : A) → eq a a ≡ true
  eq_refl a = (eq_iff a a).1 refl

  pub eq→path : (a b : A) → eq a b ≡ true → a ≡ b
  eq→path a b = (eq_iff a b).0

  pub less→ne : (a b : A) → less a b ≡ true → eq a b ≡ false
  less→ne a b h = elim (Bool-cases (eq a b)) [
    | inl e ↦ cc (less_irrefl a, eq→path a b e)
    | inr d ↦ d
  ]

  unfoldable pub contains : A → List A → Bool
  contains a [] = false
  contains a (x ∷ xs) = eq x a || contains a xs

  -- The list without the first entry that equals `a`.
  unfoldable pub remove : A → List A → List A
  remove a [] = []
  remove a (x ∷ xs) = if eq x a then xs else x ∷ remove a xs

  unfoldable pub insert : A → List A → List A
  insert a [] = a ∷ []
  insert a (x ∷ xs) = if less a x then a ∷ x ∷ xs else x ∷ insert a xs

  -- `sort.Slice`, whose result is determined, since the order is total.
  unfoldable pub sort_onto : List A → List A → List A
  sort_onto acc [] = acc
  sort_onto acc (x ∷ xs) = sort_onto (insert x acc) xs

  unfoldable pub sort : List A → List A
  unfolding sort_onto
  sort xs = sort_onto [] xs

  abbrev pub Above : A → List A → Type 0
  Above a [] = Unit {0}
  Above a (x ∷ xs) = (less a x ≡ true) × Above a xs

  abbrev pub Sorted : List A → Type 0
  Sorted [] = Unit {0}
  Sorted (x ∷ xs) = Above x xs × Sorted xs

  abbrev pub Distinct : List A → Type 0
  Distinct [] = Unit {0}
  Distinct (x ∷ xs) = (contains x xs ≡ false) × Distinct xs
