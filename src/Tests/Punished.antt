-- ===== src/Tests/Punished.antt =====
-- A penalty box with one peer, and the theorems applied to it.
use tonnet_messenger.Base.{◌+◌, ◌≡◌, refl, [], ◌∷◌, arith, leb}
use tonnet_messenger.Base.Bytes.{Bytes, equal}
use tonnet_messenger.Base.Dict.{find, has, delete, set, keep, oldest_from, make_room}
use tonnet_messenger.Node.Penalties.{PenaltyBox, sig_penalty, punish, banned}
use tonnet_messenger.Node.Penalties.Bounds.{IsBox, punish-IsBox, Asked, banned-Asked, banned-punish}

program : Unit {0}
unfolding equal find has delete set keep oldest_from make_room punish banned
program = tt

abbrev peer : Bytes
peer = 1 ∷ []

abbrev box : PenaltyBox
box = (peer, 9) ∷ []

box-IsBox : IsBox box
unfolding program
box-IsBox = record { single = (refl, tt); bounded = omega arith }

-- A penalty that is over is dropped, one that lasts is renewed.
punished :
    (punish box (2 ∷ []) 9 ≡ (2 ∷ [], 9 + sig_penalty) ∷ [])
    × (punish box peer 8 ≡ (peer, 8 + sig_penalty) ∷ [])
unfolding program
punished = (refl, refl)

punish-IsBox_example : IsBox (punish box peer 8)
punish-IsBox_example = punish-IsBox box peer 8 box-IsBox

banned-Asked_example : Asked box peer 10 (banned box peer 10).0 (banned box peer 10).1
banned-Asked_example = banned-Asked box peer 10 box-IsBox

banned-punish_example : (banned (punish box peer 8) peer 100).1 ≡ leb 100 (8 + sig_penalty)
banned-punish_example = banned-punish box peer 8 100
