-- ===== src/Client/Replay.antt =====
-- internal/client/dm_replay.go: the direct messages that a client has shown, so that none is shown
-- twice. The map is a list of entries in any order. What the session, the context and the delivery
-- of the notification answer are arguments.
pub mod Once
use tonnet_messenger.Base.{
  ℕ, Bool, true, false, not, ◌||◌, [], ◌∷◌, Option, none, some, length, ltb, leb, if◌then◌else◌,
}
use tonnet_messenger.Base.Bytes.{Bytes}
use tonnet_messenger.Base.Dict.{Dict, has, set, keep}

abbrev pub max_received_dms : ℕ
max_received_dms = 8192

-- `next_expiry` is none for Go's zero time.
pub record DirectReplayCache : Type 0 where
  pub entries : Dict ℕ
  pub next_expiry : Option ℕ

-- `cache.nextExpiry.IsZero() || expires.Before(cache.nextExpiry)`
unfoldable pub sooner : ℕ → Option ℕ → Option ℕ
sooner expires none = some expires
sooner expires (some next) = if ltb expires next then some expires else some next

-- What the loop of `prune` leaves in `nextExpiry`, which it finds at `next`.
unfoldable pub earliest : Option ℕ → Dict ℕ → Option ℕ
earliest next [] = next
earliest next ((id, expires) ∷ rest) = earliest (sooner expires next) rest

unfoldable pub prune : DirectReplayCache → ℕ → DirectReplayCache
prune cache now = elim cache.next_expiry [
  | none ↦ cache
  | some next ↦
      if not (ltb next now)
      then cache
      else let left = keep (λ _ expires. not (ltb expires now)) cache.entries in
        record { entries = left; next_expiry = earliest none left }
]

unfoldable pub remember : DirectReplayCache → Bytes → ℕ → DirectReplayCache
remember cache id expires = record {
  entries = set id expires cache.entries;
  next_expiry = sooner expires cache.next_expiry;
}

pub data Notified : Type 0 where
  delivered seen : Notified
  session_changed cancelled timestamp cache_full undelivered : Notified

-- What is around a call: whether its session is current and still open, whether its context is
-- done, and whether the notification gets through.
pub record Surroundings : Type 0 where
  pub current_session : Bool
  pub context_done : Bool
  pub session_done : Bool
  pub notified : Bool

unfoldable pub notify_direct_for_session :
    DirectReplayCache → Surroundings → Bytes → ℕ → ℕ → DirectReplayCache × Notified
notify_direct_for_session cache s id expires now =
    if not s.current_session
    then (cache, Notified.session_changed)
    else if s.context_done
    then (cache, Notified.cancelled)
    else if s.session_done
    then (cache, Notified.session_changed)
    else if ltb expires now
    then (cache, Notified.timestamp)
    else let pruned = prune cache now in
      if has id pruned.entries
      then (pruned, Notified.seen)
      else if leb max_received_dms (length pruned.entries)
      then (pruned, Notified.cache_full)
      else if not s.notified
      then (pruned, Notified.undelivered)
      else (remember pruned id expires, Notified.delivered)
