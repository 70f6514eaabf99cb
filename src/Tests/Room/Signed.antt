-- ===== src/Tests/Room/Signed.antt =====
-- The state that the small room comes to, its checks and its signature, and the theorems applied.
use tonnet_messenger.Base.{◌≡◌, refl, ok, [], ◌∷◌}
use tonnet_messenger.Base.Bytes.{Bytes}
use tonnet_messenger.Community.Types.{Boxed, RoomState}
use tonnet_messenger.Community.Validate.{validate_state}
use tonnet_messenger.Community.Sign.{state_to_sign, sign_room_state, verify_room_state}
use tonnet_messenger.Community.Projection.Signable.{Reached, verify-sign-Reached}
use tonnet_messenger.Tests.{platform, platform-IsLawful}
use tonnet_messenger.Tests.Room.{
  program, now, owner_private, room_genesis, run_1, projection_0, projection_1, projected_0,
  projected_1,
}

abbrev state_1 : RoomState
state_1 = projection_1.state

state_1_passes : validate_state state_1 ≡ ok tt
unfolding program
state_1_passes = refl

reached : Reached platform projection_1
reached =
    Reached.applied projection_0 projection_1 run_1.1.event
      (Reached.created 0 now room_genesis projection_0 projected_0) projected_1

verify-sign-Reached_example :
    (signature : Bytes) × (sign_room_state platform owner_private state_1
      ≡ ok (record state_1 { signature = signature }))
    × (verify_room_state platform (record state_1 { signature = signature }) ≡ ok tt)
unfolding program
verify-sign-Reached_example =
    verify-sign-Reached platform platform-IsLawful owner_private projection_1
      (Boxed.state_to_sign (state_to_sign state_1) ∷ []) reached refl refl refl
