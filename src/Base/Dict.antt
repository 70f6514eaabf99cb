-- ===== src/Base/Dict.antt =====
-- Go's maps from byte strings, as lists of entries in the order in which a `range` loop meets them,
-- which Go leaves open: the theorems hold of every order.
pub mod Laws
pub mod Gathered
use Prim.Native.Nat.{ℕ, ◌+◌}
use mathlib.Core.Bool.{Bool, true, false, ◌&&◌, ◌||◌, not}
use mathlib.Core.List.{List, [], ◌∷◌}
use mathlib.Core.Option.{Option, none, some}
use tonnet_messenger.Base.Tests.{ltb, leb, ◌==◌, if◌then◌else◌}
use tonnet_messenger.Base.Lists.{length}
use tonnet_messenger.Base.Bytes.{Bytes, equal}

abbrev pub Dict {ℓ} : Type ℓ → Type ℓ
Dict V = List (Bytes × V)

abbrev pub weight : Bool → ℕ
weight true = 1
weight false = 0

module _ {ℓ} {V : Type ℓ} where
  unfoldable pub find : Bytes → Dict V → Option V
  find k [] = none
  find k ((i, v) ∷ d) = if equal i k then some v else find k d

  unfoldable pub has : Bytes → Dict V → Bool
  has k [] = false
  has k ((i, v) ∷ d) = equal i k || has k d

  -- `delete(m, k)`
  unfoldable pub delete : Bytes → Dict V → Dict V
  delete k [] = []
  delete k ((i, v) ∷ d) = if equal i k then d else (i, v) ∷ delete k d

  -- `m[k] = w`
  unfoldable pub set : Bytes → V → Dict V → Dict V
  set k w [] = (k, w) ∷ []
  set k w ((i, v) ∷ d) = if equal i k then (i, w) ∷ d else (i, v) ∷ set k w d

  -- A loop that deletes every entry that fails a test.
  unfoldable pub keep : (Bytes → V → Bool) → Dict V → Dict V
  keep test [] = []
  keep test ((i, v) ∷ d) = if test i v then (i, v) ∷ keep test d else keep test d

  -- A loop that gathers the values that pass a test.
  unfoldable pub collect : (Bytes → V → Bool) → Dict V → List V
  collect test [] = []
  collect test ((i, v) ∷ d) = if test i v then v ∷ collect test d else collect test d

  -- A loop that counts the values that pass a test.
  unfoldable pub count : (V → Bool) → Dict V → ℕ
  count test [] = 0
  count test ((i, v) ∷ d) = weight (test v) + count test d

  -- The loop that looks for the key with the least time, from the key `k` with the time `oldest`.
  -- An empty key stands for none yet, as in the code.
  unfoldable pub oldest_from : (V → ℕ) → Bytes → ℕ → Dict V → Bytes
  oldest_from time k oldest [] = k
  oldest_from time k oldest ((i, v) ∷ d) =
      let taken = oldest_from time i (time v) d in
      let left = oldest_from time k oldest d in
      if length k == 0 || ltb (time v) oldest then taken else left

  -- The guard before an entry under a new key: a full map loses its oldest entry.
  unfoldable pub make_room : (V → ℕ) → ℕ → Bytes → Dict V → Dict V
  make_room time limit k d =
      if not (has k d) && leb limit (length d) then delete (oldest_from time [] 0 d) d else d
