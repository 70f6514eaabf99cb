-- ===== src/Tests/Shown.antt =====
-- Direct messages that arrive twice, and the theorems applied to them.
use tonnet_messenger.Base.{◌≡◌, ◌≢◌, refl, true, false, [], ◌∷◌, arith, some}
use tonnet_messenger.Base.Bytes.{Bytes, equal}
use tonnet_messenger.Base.Dict.{has, set, keep, count}
use tonnet_messenger.Client.Replay.{
  DirectReplayCache, Notified, Surroundings, sooner, earliest, prune, remember,
  notify_direct_for_session,
}
use tonnet_messenger.Client.Replay.Once.{IsCache, notify_all, notify-once}

program : Unit {0}
unfolding equal has set keep count sooner earliest prune remember notify_direct_for_session
    notify_all
program = tt

abbrev open_session : Surroundings
open_session = record {
  current_session = true;
  context_done = false;
  session_done = false;
  notified = true;
}

abbrev hello : Bytes
hello = 1 ∷ []

abbrev cache : DirectReplayCache
cache = record { entries = (2 ∷ [], 5) ∷ []; next_expiry = some 5 }

cache-IsCache : IsCache cache
unfolding program
cache-IsCache = record { single = (refl, tt); bounded = omega arith; waits = refl }

shown : (notify_direct_for_session cache open_session hello 9 7).1 ≡ Notified.delivered
unfolding program
shown = refl

-- The entry that had expired is gone.
pruned : (notify_direct_for_session cache open_session hello 9 7).0.entries ≡ (hello, 9) ∷ []
unfolding program
pruned = refl

notify-once_example :
    (notify_direct_for_session
      (notify_all
        (notify_direct_for_session cache open_session hello 9 7).0
        ((open_session, 3 ∷ [], 20, 8) ∷ []))
      open_session
      hello
      30
      9).1
    ≢ Notified.delivered
notify-once_example =
    notify-once cache open_session open_session hello 9 7 ((open_session, 3 ∷ [], 20, 8) ∷ []) 30 9
      cache-IsCache shown (omega arith, tt) (omega arith)
