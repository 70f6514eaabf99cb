-- ===== src/Base/Keyed.antt =====
-- `ORDER BY` a number and `LIMIT`, over lists of rows.
use Prim.Native.Nat.{ℕ, zero, suc, ◌+◌, ◌≤◌, ◌<◌}
use mathlib.Core.Path.{◌≡◌, refl, ap, sym, ◌∙◌, subst}
use mathlib.Core.Logic.{inl, inr}
use mathlib.Core.Bool.{Bool}
use mathlib.Core.List.{List, [], ◌∷◌, ◌++◌}
use native.Mathlib.Omega.{arith}
use tonnet_messenger.Base.Tests.{ltb, leb, if◌then◌else◌, Bool-cases}
use tonnet_messenger.Base.Lists.{length, take, drop}

module _ {ℓ} {A : Type ℓ} where
  unfoldable pub insert_by : (A → ℕ) → A → List A → List A
  insert_by key a [] = a ∷ []
  insert_by key a (x ∷ xs) = if leb (key a) (key x) then a ∷ x ∷ xs else x ∷ insert_by key a xs

  -- ORDER BY key ASC
  unfoldable pub order_by : (A → ℕ) → List A → List A
  order_by key [] = []
  order_by key (x ∷ xs) = insert_by key x (order_by key xs)

  -- WHERE
  unfoldable pub filter : (A → Bool) → List A → List A
  filter test [] = []
  filter test (x ∷ xs) = if test x then x ∷ filter test xs else filter test xs

  -- The keys are the numbers from `n` on.
  abbrev pub Numbered : (A → ℕ) → ℕ → List A → Type 0
  Numbered key n [] = Unit {0}
  Numbered key n (x ∷ xs) = (key x ≡ n) × Numbered key (n + 1) xs

  pub order_by-Numbered :
      (key : A → ℕ) (n : ℕ) (xs : List A) → Numbered key n xs → order_by key xs ≡ xs
  unfolding order_by insert_by
  order_by-Numbered key n [] h = refl
  order_by-Numbered key n (x ∷ []) h = refl
  order_by-Numbered key n (x ∷ y ∷ xs) h =
      rw (order_by-Numbered key (n + 1) (y ∷ xs) h.1) (ground (arith, h.0, h.1.0))

  pub filter-all :
      (key : A → ℕ) (n after : ℕ) (xs : List A)
      → Numbered key n xs
      → after < n
      → filter (λ x. ltb after (key x)) xs ≡ xs
  unfolding filter
  filter-all key n after [] h l = refl
  filter-all key n after (x ∷ xs) h l =
      ground (arith, h.0, l, filter-all key (n + 1) after xs h.1 (omega (arith, l)))

  -- To look for the keys beyond `after` is to leave out the rows up to it.
  pub filter-drop :
      (key : A → ℕ) (n k after : ℕ) (xs : List A)
      → Numbered key n xs
      → after + 1 ≡ n + k
      → filter (λ x. ltb after (key x)) xs ≡ drop k xs
  unfolding filter
  filter-drop key n zero after xs h e = filter-all key n after xs h (omega (arith, e))
  filter-drop key n (suc k) after [] h e = refl
  filter-drop key n (suc k) after (x ∷ xs) h e =
      ground (arith, h.0, e, filter-drop key (n + 1) k after xs h.1 (omega (arith, e)))

  pub Numbered-drop :
      (key : A → ℕ) (n k : ℕ) (xs : List A) → Numbered key n xs → Numbered key (n + k) (drop k xs)
  Numbered-drop key n zero xs h = subst (λ m. Numbered key m xs) (omega arith) h
  Numbered-drop key n (suc k) [] h = tt
  Numbered-drop key n (suc k) (x ∷ xs) h =
      subst (λ m. Numbered key m (drop k xs)) (omega arith) (Numbered-drop key (n + 1) k xs h.1)

  pub Numbered-take :
      (key : A → ℕ) (n k : ℕ) (xs : List A) → Numbered key n xs → Numbered key n (take k xs)
  Numbered-take key n zero xs h = tt
  Numbered-take key n (suc k) [] h = tt
  Numbered-take key n (suc k) (x ∷ xs) h = (h.0, Numbered-take key (n + 1) k xs h.1)

  pub Numbered-snoc :
      (key : A → ℕ) (n : ℕ) (xs : List A) (x : A)
      → Numbered key n xs
      → key x ≡ n + length xs
      → Numbered key n (xs ++ x ∷ [])
  Numbered-snoc key n [] x h e = (omega (arith, e), tt)
  Numbered-snoc key n (y ∷ ys) x h e = (h.0, Numbered-snoc key (n + 1) ys x h.1 (omega (arith, e)))

  pub length-take_le : (n : ℕ) (xs : List A) → length (take n xs) ≤ length xs
  length-take_le zero xs = omega arith
  length-take_le (suc n) [] = omega arith
  length-take_le (suc n) (x ∷ xs) = omega (arith, length-take_le n xs)

  pub length-take : (n : ℕ) (xs : List A) → length (take n xs) ≤ n
  length-take zero xs = omega arith
  length-take (suc n) [] = omega arith
  length-take (suc n) (x ∷ xs) = omega (arith, length-take n xs)

  pub take-short : (n : ℕ) (xs : List A) → length xs ≤ n → take n xs ≡ xs
  take-short zero [] h = refl
  take-short zero (x ∷ xs) h = ground (arith, h)
  take-short (suc n) [] h = refl
  take-short (suc n) (x ∷ xs) h = ap (◌∷◌ x) (take-short n xs (omega (arith, h)))

  pub take-take : (n : ℕ) (xs : List A) → take n (take (suc n) xs) ≡ take n xs
  take-take zero xs = refl
  take-take (suc n) [] = refl
  take-take (suc n) (x ∷ xs) = ap (◌∷◌ x) (take-take n xs)

  pub length-take_eq : (n : ℕ) (xs : List A) → n ≤ length xs → length (take n xs) ≡ n
  length-take_eq zero xs h = refl
  length-take_eq (suc n) [] h = omega (arith, h)
  length-take_eq (suc n) (x ∷ xs) h = omega (arith, length-take_eq n xs (omega (arith, h)))

  pub take-drop : (n : ℕ) (xs : List A) → take n xs ++ drop n xs ≡ xs
  take-drop zero xs = refl
  take-drop (suc n) [] = refl
  take-drop (suc n) (x ∷ xs) = ap (◌∷◌ x) (take-drop n xs)

  pub drop-drop : (k j : ℕ) (xs : List A) → drop j (drop k xs) ≡ drop (k + j) xs
  drop-drop zero j xs = ap (λ n. drop n xs) (omega arith)
  drop-drop (suc k) j [] = drop-nil j ∙ sym (drop-nil (suc k + j))
    where
      drop-nil : (m : ℕ) → drop {A = A} m [] ≡ []
      drop-nil zero = refl
      drop-nil (suc m) = refl
  drop-drop (suc k) j (x ∷ xs) =
      let step : suc (k + j) ≡ suc k + j = omega arith in
      drop-drop k j xs ∙ ap (λ n. drop n (x ∷ xs)) step

  pub length-drop : (k : ℕ) (xs : List A) → k ≤ length xs → length (drop k xs) + k ≡ length xs
  length-drop zero xs h = omega arith
  length-drop (suc k) [] h = omega (arith, h)
  length-drop (suc k) (x ∷ xs) h = omega (arith, length-drop k xs (omega (arith, h)))

  -- One row more than a page tells whether there is another page.
  more_lem : (n : ℕ) (xs : List A) → ltb n (length (take (suc n) xs)) ≡ ltb n (length xs)
  more_lem n xs = elim (Bool-cases (leb (suc n) (length xs))) [
    | inl e ↦ ground (arith, e, length-take_eq (suc n) xs (ground (arith, e)))
    | inr e ↦ rw (take-short (suc n) xs (ground (arith, e))) refl
  ]

  pub page_more : (n : ℕ) (xs : List A) → ltb n (length (take (n + 1) xs)) ≡ ltb n (length xs)
  page_more n xs =
      let step : n + 1 ≡ suc n = omega arith in
      ap (λ m. ltb n (length (take m xs))) step ∙ more_lem n xs

  pub page_cut :
      (n : ℕ) (xs : List A)
      → (if ltb n (length xs) then take n (take (n + 1) xs) else take (n + 1) xs) ≡ take n xs
  page_cut n xs =
      let step : n + 1 ≡ suc n = omega arith in
      elim (Bool-cases (ltb n (length xs))) [
        | inl e ↦ rw e (ap (λ m. take n (take m xs)) step ∙ take-take n xs)
        | inr e ↦
            rw e (
              take-short (n + 1) xs (ground (arith, e)) ∙ sym (take-short n xs (ground (arith, e))))
      ]
