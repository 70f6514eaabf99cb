-- ===== src/Node/Penalties.antt =====
-- The penalty box of internal/node/limits.go.
pub mod Bounds
use tonnet_messenger.Base.{ℕ, ◌+◌, ◌*◌, Bool, true, false, none, some, not, ltb, leb, if◌then◌else◌}
use tonnet_messenger.Base.Bytes.{Bytes}
use tonnet_messenger.Base.Dict.{Dict, find, delete, set, keep, make_room}
use tonnet_messenger.Community.Validate.{second}

abbrev pub sig_penalty : ℕ
sig_penalty = 5 * second

abbrev pub max_penalties : ℕ
max_penalties = 4096

-- From a peer's id to the end of its penalty.
abbrev pub PenaltyBox : Type 0
PenaltyBox = Dict ℕ

unfoldable pub punish : PenaltyBox → Bytes → ℕ → PenaltyBox
punish b id now =
    let lasting = keep (λ _ until. not (leb until now)) b in
    set id (now + sig_penalty) (make_room (λ until. until) max_penalties id lasting)

unfoldable pub banned : PenaltyBox → Bytes → ℕ → PenaltyBox × Bool
banned b id now = elim (find id b) [
  | none ↦ (b, false)
  | some until ↦ if ltb until now then (delete id b, false) else (b, true)
]
