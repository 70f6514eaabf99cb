-- ===== src/Base/Dict/Gathered.antt =====
-- What the loop gathers that collects the values of a map which pass a test.
use mathlib.Core.Path.{◌≡◌, sym, ◌∙◌, ap}
use mathlib.Core.Logic.{◌⊎◌, inl, inr}
use mathlib.Core.Bool.{Bool, true}
use mathlib.Core.List.{List, [], ◌∷◌}
use mathlib.Core.Option.{some}
use native.Mathlib.Omega.{arith}
use tonnet_messenger.Base.Tests.{Bool-cases}
use tonnet_messenger.Base.Bytes.{Bytes, equal, equal_refl, equal→eq}
use tonnet_messenger.Base.Dict.{Dict, find, collect}
use tonnet_messenger.Base.Dict.Laws.{Single, find-missing}

module _ {V : Type 0} where
  abbrev pub Among : V → List V → Type 0
  Among v [] = ⊥
  Among v (w ∷ ws) = (w ≡ v) ⊎ Among v ws

  pub collect-Among :
      (test : V → Bool) (k : Bytes) (v : V) (d : Dict V)
      → find k d ≡ some v
      → test v ≡ true
      → Among v (collect (λ _ w. test w) d)
  unfolding find collect
  collect-Among test k v [] h t = cc
  collect-Among test k v ((i, w) ∷ d) h t = elim (Bool-cases (equal i k)) [
    | inl e ↦
        let same : w ≡ v = ground (arith, h, e) in
        let passed : test w ≡ true = ap test same ∙ t in rw passed (inl same)
    | inr e ↦
        let rest = collect-Among test k v d (ground (arith, h, e)) t in
        elim (Bool-cases (test w)) [ inl p ↦ rw p (inr rest) | inr p ↦ rw p rest ]
  ]

  -- A key of the rest is not the first one.
  Among-collect_cons :
      (test : V → Bool) (v : V) (i : Bytes) (w : V) (d : Dict V)
      → Single ((i, w) ∷ d)
      → (k : Bytes) × (find k d ≡ some v) × (test v ≡ true)
      → (k : Bytes) × (find k ((i, w) ∷ d) ≡ some v) × (test v ≡ true)
  unfolding find
  Among-collect_cons test v i w d s (k, f, t) =
      (k, ground (arith, s.0, f, equal→eq i k, find-missing k d), t)

  pub Among-collect :
      (test : V → Bool) (v : V) (d : Dict V)
      → Single d
      → Among v (collect (λ _ w. test w) d)
      → (k : Bytes) × (find k d ≡ some v) × (test v ≡ true)
  unfolding find collect
  Among-collect test v [] s m = absurd m
  Among-collect test v ((i, w) ∷ d) s m = elim (Bool-cases (test w)) [
    | inl p ↦ elim (rw p at m) [
      | inl same ↦ (i, ground (arith, equal_refl i, same), ap test (sym same) ∙ p)
      | inr rest ↦ Among-collect_cons test v i w d s (Among-collect test v d s.1 rest)
    ]
    | inr p ↦ Among-collect_cons test v i w d s (Among-collect test v d s.1 (rw p at m))
  ]
