-- ===== src/Tests/Delivered.antt =====
-- A list of delivered broadcasts with room for two, and the theorems applied to it.
use tonnet_messenger.Base.{◌≡◌, ◌≤◌, List, length, refl, true, false, [], ◌∷◌, arith}
use tonnet_messenger.Base.Int.{pos, negsuc}
use tonnet_messenger.Base.Bytes.{Bytes, equal, bytes_ordered}
use tonnet_messenger.Base.Ordered.{contains, remove}
use tonnet_messenger.Overlay.Dedup.Runs.{Call, run, run-new_dedup}
use tonnet_messenger.Overlay.Dedup.{
  Dedup, new_dedup, evict, add_locked, move_to_back, reserve, release, commit, seen, contains_hash,
}
use tonnet_messenger.Overlay.Dedup.Bounds.{
  IsBounded, operations-IsBounded, commit-reserve, reserve-release,
}

program : Unit {0}
unfolding equal contains remove new_dedup evict add_locked move_to_back reserve release commit seen
    contains_hash run
program = tt

abbrev a : Bytes
a = 1 ∷ []

abbrev b : Bytes
b = 2 ∷ []

abbrev d : Bytes
d = 3 ∷ []

abbrev two : Dedup
two = record { cap = pos 2; order = a ∷ b ∷ []; pend = [] }

delivered : commit (commit (new_dedup (pos 2)) a) b ≡ two
unfolding program
delivered = refl

-- The oldest is evicted, and what is seen again becomes the newest.
evicted : ((commit two d).order ≡ b ∷ d ∷ []) × ((seen two a).0.order ≡ b ∷ a ∷ [])
unfolding program
evicted = (refl, refl)

two-IsBounded : IsBounded two
unfolding program
two-IsBounded = record {
  positive = refl;
  bounded = omega arith;
  distinct = (refl, (refl, tt));
  reserved = tt;
}

abbrev calls : List Call
calls = Call.reserve_hash a ∷ Call.commit_hash a ∷ Call.seen_hash b ∷ Call.release_hash d ∷ []

-- A cap of -1.
run-new_dedup_example :
    IsBounded (run (new_dedup (negsuc 0)) calls)
    × (length (run (new_dedup (negsuc 0)) calls).order ≤ 1000)
run-new_dedup_example = run-new_dedup (negsuc 0) calls

ran : (run (new_dedup (negsuc 0)) calls).order ≡ a ∷ b ∷ []
unfolding program
ran = refl

operations-IsBounded_example :
    IsBounded (reserve two d).0
    × IsBounded (commit two d)
    × IsBounded (release two d)
    × IsBounded (seen two d).0
operations-IsBounded_example = operations-IsBounded two d two-IsBounded

commit-reserve_example :
    (contains_hash (commit two d) d ≡ true)
    × (contains d (commit two d).pend ≡ false)
    × (reserve (commit two d) d ≡ (commit two d, false))
    × ((seen (commit two d) d).1 ≡ true)
commit-reserve_example = commit-reserve two d two-IsBounded

reserved : reserve two d ≡ (record two { pend = d ∷ [] }, true)
unfolding program
reserved = refl

reserve-release_example :
    (reserve (record two { pend = d ∷ [] }) d ≡ (record two { pend = d ∷ [] }, false))
    × (release (record two { pend = d ∷ [] }) d ≡ two)
reserve-release_example = reserve-release two (record two { pend = d ∷ [] }) d reserved
