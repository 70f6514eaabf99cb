-- ===== src/Base/Sorting.antt =====
-- Laws of the operations on lists in strictly rising order: what they contain, their length, and
-- that such a list is determined by what it contains.
use tonnet_messenger.Base.Ordered.{
  Ordered, eq_refl, eq→path, less→ne, contains, remove, insert, sort_onto, sort, Above, Sorted,
  Distinct,
}
use mathlib.Core.Path.{◌≡◌, refl, ap, ◌∙◌, sym, subst}
use mathlib.Core.Logic.{inl, inr}
use mathlib.Core.Bool.{true, false, ◌&&◌, ◌||◌, not}
use mathlib.Core.List.{List, [], ◌∷◌, ◌++◌}
use Prim.Native.Nat.{suc, ◌+◌}
use native.Mathlib.Omega.{arith}
use tonnet_messenger.Base.Tests.{Bool-cases}
use tonnet_messenger.Base.Lists.{length}

module _ {ℓ} {A : Type ℓ} ⦃o : Ordered A⦄ where
  open o use {eq, less, eq_iff, less_irrefl, less_trans, less_total}

  pub eq_comm : (a b : A) → eq a b ≡ eq b a
  eq_comm a b = elim (Bool-cases (eq a b)) [
    | inl e ↦ ap (λ c. eq c b) (eq→path a b e) ∙ ap (λ c. eq b c) (sym (eq→path a b e))
    | inr d ↦ elim (Bool-cases (eq b a)) [
      | inl e ↦ ap (λ c. eq c b) (sym (eq→path b a e)) ∙ ap (λ c. eq b c) (eq→path b a e)
      | inr f ↦ d ∙ sym f
    ]
  ]

  pub contains-append :
      (a : A) (xs ys : List A) → contains a (xs ++ ys) ≡ (contains a xs || contains a ys)
  unfolding contains
  contains-append a [] ys = refl
  contains-append a (x ∷ xs) ys = ground (arith, contains-append a xs ys)

  pub contains-insert :
      (a b : A) (xs : List A) → contains a (insert b xs) ≡ (eq b a || contains a xs)
  unfolding contains insert
  contains-insert a b [] = refl
  contains-insert a b (x ∷ xs) = ground (arith, contains-insert a b xs)

  contains-sort_onto :
      (a : A) (acc xs : List A) → contains a (sort_onto acc xs) ≡ (contains a acc || contains a xs)
  unfolding contains sort_onto
  contains-sort_onto a acc [] = ground arith
  contains-sort_onto a acc (x ∷ xs) =
      ground (arith, contains-sort_onto a (insert x acc) xs, contains-insert a x acc)

  pub contains-sort : (a : A) (xs : List A) → contains a (sort xs) ≡ contains a xs
  unfolding sort contains
  contains-sort a xs = contains-sort_onto a [] xs

  pub length-insert : (a : A) (xs : List A) → length (insert a xs) ≡ suc (length xs)
  unfolding insert
  length-insert a [] = refl
  length-insert a (x ∷ xs) = ground (arith, length-insert a xs)

  length-sort_onto : (acc xs : List A) → length (sort_onto acc xs) ≡ length acc + length xs
  unfolding sort_onto
  length-sort_onto acc [] = omega arith
  length-sort_onto acc (x ∷ xs) =
      omega (arith, length-sort_onto (insert x acc) xs, length-insert x acc)

  pub length-sort : (xs : List A) → length (sort xs) ≡ length xs
  unfolding sort
  length-sort xs = omega (arith, length-sort_onto [] xs)

  sort_onto-append :
      (a : A) (acc xs : List A) → sort_onto acc (xs ++ a ∷ []) ≡ insert a (sort_onto acc xs)
  unfolding sort_onto
  sort_onto-append a acc [] = refl
  sort_onto-append a acc (x ∷ xs) = sort_onto-append a (insert x acc) xs

  -- To append an entry and sort again is to insert it.
  pub sort-append : (a : A) (xs : List A) → sort (xs ++ a ∷ []) ≡ insert a (sort xs)
  unfolding sort
  sort-append a xs = sort_onto-append a [] xs

  pub Above-trans : (a b : A) (xs : List A) → less a b ≡ true → Above b xs → Above a xs
  Above-trans a b [] h k = tt
  Above-trans a b (x ∷ xs) h k = (less_trans a b x h k.0, Above-trans a b xs h k.1)

  Above-insert : (a b : A) (xs : List A) → less a b ≡ true → Above a xs → Above a (insert b xs)
  unfolding insert
  Above-insert a b [] h k = (h, tt)
  Above-insert a b (x ∷ xs) h k = elim (Bool-cases (less b x)) [
    | inl e ↦ rw e (h, k)
    | inr e ↦ rw e (k.0, Above-insert a b xs h k.1)
  ]

  pub contains-Above : (a : A) (xs : List A) → Above a xs → contains a xs ≡ false
  unfolding contains
  contains-Above a [] h = refl
  contains-Above a (x ∷ xs) h =
      ground (arith, contains-Above a xs h.1, less→ne a x h.0, eq_comm a x)

  less_of_ne : (a b : A) → eq a b ≡ false → less b a ≡ false → less a b ≡ true
  less_of_ne a b d h = elim (Bool-cases (less a b)) [
    | inl l ↦ l
    | inr l ↦ cc (sym d ∙ (eq_iff a b).1 (less_total a b l h))
  ]

  pub insert-Sorted :
      (a : A) (xs : List A) → contains a xs ≡ false → Sorted xs → Sorted (insert a xs)
  unfolding contains insert
  insert-Sorted a [] h s = (tt, tt)
  insert-Sorted a (x ∷ xs) h s = elim (Bool-cases (less a x)) [
    | inl e ↦ rw e ((e, Above-trans a x xs e s.0), s)
    | inr e ↦ rw e (
      Above-insert x a xs (less_of_ne x a (ground arith) e) s.0,
      insert-Sorted a xs (ground arith) s.1,
    )
  ]

  abbrev Fresh : List A → List A → Type 0
  Fresh acc [] = Unit {0}
  Fresh acc (x ∷ xs) = (contains x acc ≡ false) × Fresh acc xs

  Fresh-insert :
      (a : A) (acc xs : List A) → contains a xs ≡ false → Fresh acc xs → Fresh (insert a acc) xs
  unfolding contains
  Fresh-insert a acc [] h f = tt
  Fresh-insert a acc (x ∷ xs) h f = (
    ground (arith, contains-insert x a acc, eq_comm a x, f.0),
    Fresh-insert a acc xs (ground arith) f.1,
  )

  sort_onto-Sorted :
      (acc xs : List A) → Sorted acc → Distinct xs → Fresh acc xs → Sorted (sort_onto acc xs)
  unfolding sort_onto
  sort_onto-Sorted acc [] s d f = s
  sort_onto-Sorted acc (x ∷ xs) s d f =
      sort_onto-Sorted (insert x acc) xs (insert-Sorted x acc f.0 s) d.1
        (Fresh-insert x acc xs d.0 f.1)

  Fresh-nil : (xs : List A) → Fresh [] xs
  unfolding contains
  Fresh-nil [] = tt
  Fresh-nil (x ∷ xs) = (refl, Fresh-nil xs)

  -- Sorting a list with no repetition makes it strictly rising.
  pub sort-Sorted : (xs : List A) → Distinct xs → Sorted (sort xs)
  unfolding sort
  sort-Sorted xs d = sort_onto-Sorted [] xs tt d (Fresh-nil xs)

  pub Distinct-Sorted : (xs : List A) → Sorted xs → Distinct xs
  Distinct-Sorted [] s = tt
  Distinct-Sorted (x ∷ xs) s = (contains-Above x xs s.0, Distinct-Sorted xs s.1)

  Above-less : (a b : A) (xs : List A) → Above a xs → contains b xs ≡ true → less a b ≡ true
  unfolding contains
  Above-less a b [] h c = cc
  Above-less a b (x ∷ xs) h c = elim (Bool-cases (eq x b)) [
    | inl e ↦ subst (λ y. less a y ≡ true) (eq→path x b e) h.0
    | inr d ↦ Above-less a b xs h.1 (ground arith)
  ]

  less_asym : (a b : A) → less a b ≡ true → less b a ≡ true → ⊥
  less_asym a b h k = cc (less_irrefl a, less_trans a b a h k)

  abbrev Same : List A → List A → Type ℓ
  Same xs ys = (a : A) → contains a xs ≡ contains a ys

  head-eq : (x y : A) (xs ys : List A) → Above x xs → Above y ys → Same (x ∷ xs) (y ∷ ys) → x ≡ y
  unfolding contains
  head-eq x y xs ys h k same = elim (Bool-cases (eq x y)) [
    | inl e ↦ eq→path x y e
    | inr d ↦ absurd (
        less_asym x y (Above-less x y xs h (ground (arith, same y, eq_refl y)))
          (Above-less y x ys k (ground (arith, same x, eq_refl x, eq_comm x y))))
  ]

  tail-Same :
      (x : A) (xs ys : List A) → Above x xs → Above x ys → Same (x ∷ xs) (x ∷ ys) → Same xs ys
  unfolding contains
  tail-Same x xs ys h k same a = elim (Bool-cases (eq x a)) [
    | inl e ↦
        subst (λ b. contains b xs ≡ contains b ys) (eq→path x a e)
          (contains-Above x xs h ∙ sym (contains-Above x ys k))
    | inr d ↦ ground (arith, same a)
  ]

  -- A strictly rising list is determined by what it contains.
  pub Sorted-ext : (xs ys : List A) → Sorted xs → Sorted ys → Same xs ys → xs ≡ ys
  unfolding contains
  Sorted-ext [] [] s t same = refl
  Sorted-ext [] (y ∷ ys) s t same = ground (arith, same y, eq_refl y)
  Sorted-ext (x ∷ xs) [] s t same = ground (arith, same x, eq_refl x)
  Sorted-ext (x ∷ xs) (y ∷ ys) s t same =
      let e = head-eq x y xs ys s.0 t.0 same in
      let above = subst (λ z. Above z ys) (sym e) t.0 in
      let same' = subst (λ z. Same (x ∷ xs) (z ∷ ys)) (sym e) same in
      cc (e, Sorted-ext xs ys s.1 t.1 (tail-Same x xs ys s.0 above same'))

  pub sort-eq_of_Sorted : (xs : List A) → Sorted xs → sort xs ≡ xs
  sort-eq_of_Sorted xs s =
      Sorted-ext (sort xs) xs (sort-Sorted xs (Distinct-Sorted xs s)) s (λ a. contains-sort a xs)

  pub contains-remove :
      (a b : A) (xs : List A)
      → Sorted xs
      → contains a (remove b xs) ≡ (contains a xs && not (eq b a))
  unfolding contains remove
  contains-remove a b [] s = refl
  contains-remove a b (x ∷ xs) s = ground (
    arith,
    contains-remove a b xs s.1,
    contains-Above x xs s.0,
    eq→path x b,
    eq→path b a,
    eq→path x a,
    eq_comm x b,
    eq_comm a b,
    eq_refl a,
  )

  Above-remove : (a b : A) (xs : List A) → Above a xs → Above a (remove b xs)
  unfolding remove
  Above-remove a b [] h = tt
  Above-remove a b (x ∷ xs) h = elim (Bool-cases (eq x b)) [
    | inl e ↦ rw e h.1
    | inr d ↦ rw d (h.0, Above-remove a b xs h.1)
  ]

  pub remove-Sorted : (b : A) (xs : List A) → Sorted xs → Sorted (remove b xs)
  unfolding remove
  remove-Sorted b [] s = tt
  remove-Sorted b (x ∷ xs) s = elim (Bool-cases (eq x b)) [
    | inl e ↦ rw e s.1
    | inr d ↦ rw d (Above-remove x b xs s.0, remove-Sorted b xs s.1)
  ]

  pub length-remove :
      (b : A) (xs : List A) → contains b xs ≡ true → suc (length (remove b xs)) ≡ length xs
  unfolding contains remove
  length-remove b [] h = cc
  length-remove b (x ∷ xs) h = ground (arith, length-remove b xs)

  pub Distinct-snoc :
      (a : A) (xs : List A) → contains a xs ≡ false → Distinct xs → Distinct (xs ++ a ∷ [])
  unfolding contains
  Distinct-snoc a [] h d = (refl, tt)
  Distinct-snoc a (x ∷ xs) h d = (
    ground (arith, contains-append x xs (a ∷ []), d.0, eq_comm a x),
    Distinct-snoc a xs (ground arith) d.1,
  )

  -- Appending to an unsorted list, or to the sorted copy of it, and sorting, is the same.
  pub sort-append-sort :
      (a : A) (xs : List A) → Distinct xs → sort (sort xs ++ a ∷ []) ≡ sort (xs ++ a ∷ [])
  sort-append-sort a xs d =
      rw (sort-append a (sort xs), sort-append a xs, sort-eq_of_Sorted (sort xs) (sort-Sorted xs d))

  -- A list with the entries of `xs` but `b` is, sorted, the sorted list without `b`.
  pub sort-eq-remove :
      (b : A) (xs ys : List A)
      → Distinct xs
      → Distinct ys
      → ((a : A) → contains a ys ≡ (contains a xs && not (eq b a)))
      → sort ys ≡ remove b (sort xs)
  sort-eq-remove b xs ys d e same =
      let s = sort-Sorted xs d in
      Sorted-ext (sort ys) (remove b (sort xs)) (sort-Sorted ys e) (remove-Sorted b (sort xs) s)
        (λ a.
          contains-sort a ys
          ∙ same a
          ∙ sym
              (contains-remove a b (sort xs) s ∙ ap (λ t. t && not (eq b a)) (contains-sort a xs)))
