-- ===== src/Overlay/Dedup.antt =====
-- internal/overlay/dedup.go. `order` is the list from front to back; the keys of `index` are its
-- entries, so the map is not kept apart. A hash stands for its hex string, which is injective. The
-- cap is an `int`, as in the code: it may be zero or negative.
pub mod Bounds
pub mod Runs
use tonnet_messenger.Base.{
  ℕ, ◌+◌, ◌-◌, ◌≤◌, ◌<◌, ◌≡◌, refl, ap, sym, ◌∙◌, Bool, true, false, not, ◌&&◌, ◌||◌, List, [], ◌∷◌,
  ◌++◌, arith, length, drop, ltb, leb, ◌==◌, if◌then◌else◌, Bool-cases, inl, inr, length-append,
}
use tonnet_messenger.Base.Int.{ℤ, pos, leb_ℤ, ltb_ℤ}
use tonnet_messenger.Base.Bytes.{Bytes, equal, bytes_ordered, equal_refl, equal→eq}
use tonnet_messenger.Base.Ordered.{contains, remove}

abbrev pub default_delivered_cap : ℕ
default_delivered_cap = 1000

pub record Dedup : Type 0 where
  pub cap : ℤ
  pub order : List Bytes
  pub pend : List Bytes

unfoldable pub new_dedup : ℤ → Dedup
new_dedup cap = record {
  cap = if leb_ℤ cap (pos 0) then pos default_delivered_cap else cap;
  order = [];
  pend = [];
}

-- The loop of `addLocked` over the front of the list.
unfoldable pub evict : ℤ → List Bytes → List Bytes
evict cap [] = []
evict cap (k ∷ ks) =
    let rest = evict cap ks in if ltb_ℤ cap (pos (length (k ∷ ks))) then rest else k ∷ ks

unfoldable pub add_locked : Dedup → Bytes → Dedup
add_locked d k = record d { order = evict d.cap (d.order ++ k ∷ []) }

-- `MoveToBack`
unfoldable pub move_to_back : Dedup → Bytes → Dedup
move_to_back d k = record d { order = remove k d.order ++ k ∷ [] }

unfoldable pub reserve : Dedup → Bytes → Dedup × Bool
reserve d k =
    if contains k d.order
    then (d, false)
    else if contains k d.pend
    then (d, false)
    else (record d { pend = k ∷ d.pend }, true)

unfoldable pub release : Dedup → Bytes → Dedup
release d k = record d { pend = remove k d.pend }

unfoldable pub commit : Dedup → Bytes → Dedup
commit d k =
    let released = release d k in
    if contains k released.order then move_to_back released k else add_locked released k

unfoldable pub seen : Dedup → Bytes → Dedup × Bool
seen d k = if contains k d.order then (move_to_back d k, true) else (add_locked d k, false)

unfoldable pub contains_hash : Dedup → Bytes → Bool
contains_hash d k = contains k d.order

unfoldable pub len : Dedup → ℕ
len d = length d.order
