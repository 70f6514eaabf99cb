-- ===== src/Overlay/Dedup/Runs.antt =====
-- The list of internal/overlay/dedup.go from `NewDedup` on, behind any sequence of calls.
use tonnet_messenger.Base.{ℕ, zero, suc, ◌≤◌, ◌≡◌, refl, List, [], ◌∷◌, arith, length, ap, ◌∙◌}
use tonnet_messenger.Base.Int.{ℤ, pos, negsuc, pos_part}
use tonnet_messenger.Base.Bytes.{Bytes, bytes_ordered}
use tonnet_messenger.Overlay.Dedup.{
  Dedup, new_dedup, add_locked, move_to_back, reserve, release, commit, seen,
}
use tonnet_messenger.Overlay.Dedup.Bounds.{IsBounded, operations-IsBounded}

pub data Call : Type 0 where
  reserve_hash : Bytes → Call
  commit_hash : Bytes → Call
  release_hash : Bytes → Call
  seen_hash : Bytes → Call

unfoldable pub step : Dedup → Call → Dedup
step d (reserve_hash k) = (reserve d k).0
step d (commit_hash k) = commit d k
step d (release_hash k) = release d k
step d (seen_hash k) = (seen d k).0

unfoldable pub run : Dedup → List Call → Dedup
unfolding step
run d [] = d
run d (call ∷ calls) = run (step d call) calls

-- The room that a cap asks for: its own, or that of the default where it is not positive.
abbrev pub room_for : ℤ → ℕ
room_for (pos zero) = 1000
room_for (pos (suc n)) = suc n
room_for (negsuc n) = 1000

step-IsBounded : (d : Dedup) (call : Call) → IsBounded d → IsBounded (step d call)
unfolding step
step-IsBounded d (reserve_hash k) v = (operations-IsBounded d k v).0
step-IsBounded d (commit_hash k) v = (operations-IsBounded d k v).1
step-IsBounded d (release_hash k) v = (operations-IsBounded d k v).2
step-IsBounded d (seen_hash k) v = (operations-IsBounded d k v).3

step_cap : (d : Dedup) (call : Call) → (step d call).cap ≡ d.cap
unfolding step reserve commit release seen add_locked move_to_back
step_cap d (reserve_hash k) = ground arith
step_cap d (commit_hash k) = ground arith
step_cap d (release_hash k) = refl
step_cap d (seen_hash k) = ground arith

run-IsBounded : (d : Dedup) (calls : List Call) → IsBounded d → IsBounded (run d calls)
unfolding run
run-IsBounded d [] v = v
run-IsBounded d (call ∷ calls) v = run-IsBounded (step d call) calls (step-IsBounded d call v)

run_cap : (d : Dedup) (calls : List Call) → (run d calls).cap ≡ d.cap
unfolding run
run_cap d [] = refl
run_cap d (call ∷ calls) = run_cap (step d call) calls ∙ step_cap d call

new_dedup-IsBounded : (cap : ℤ) → IsBounded (new_dedup cap)
unfolding new_dedup
new_dedup-IsBounded (pos zero) = record {
  positive = refl;
  bounded = omega arith;
  distinct = tt;
  reserved = tt;
}
new_dedup-IsBounded (pos (suc n)) = record {
  positive = ground arith;
  bounded = omega arith;
  distinct = tt;
  reserved = tt;
}
new_dedup-IsBounded (negsuc n) = record {
  positive = ground arith;
  bounded = omega arith;
  distinct = tt;
  reserved = tt;
}

new_dedup_cap : (cap : ℤ) → (new_dedup cap).cap ≡ pos (room_for cap)
unfolding new_dedup
new_dedup_cap (pos zero) = refl
new_dedup_cap (pos (suc n)) = ground arith
new_dedup_cap (negsuc n) = ground arith

-- From `NewDedup` on, with any cap, also one that is zero or negative, and behind any sequence of
-- calls of `Reserve`, `Commit`, `Release` and `Seen`, no delivered hash and no reservation stands
-- twice, and the list holds no more hashes than the cap where that is positive, and than 1000 where
-- it is not.
pub run-new_dedup :
    (cap : ℤ) (calls : List Call)
    → IsBounded (run (new_dedup cap) calls)
      × (length (run (new_dedup cap) calls).order ≤ room_for cap)
run-new_dedup cap calls =
    let v = run-IsBounded (new_dedup cap) calls (new_dedup-IsBounded cap) in
    let same : pos_part (run (new_dedup cap) calls).cap ≡ room_for cap =
      ap pos_part (run_cap (new_dedup cap) calls ∙ new_dedup_cap cap) in
    (v, omega (arith, v.bounded, same))
