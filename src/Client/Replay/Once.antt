-- ===== src/Client/Replay/Once.antt =====
-- internal/client/dm_replay.go: the bound on the cache, its lazy expiry, and that a message is shown
-- once.
use tonnet_messenger.Base.{
  ℕ, ◌≤◌, ◌<◌, ◌≡◌, ◌≢◌, refl, ap, sym, ◌∙◌, subst, Bool, true, false, not, List, [], ◌∷◌, arith,
  length, ltb, leb, Option, none, some, Bool-cases, Option-cases, inl, inr,
}
use tonnet_messenger.Base.Bytes.{Bytes, equal→eq}
use tonnet_messenger.Base.Dict.{Dict, find, has, keep, count}
use tonnet_messenger.Base.Dict.Laws.{
  Single, keep-Single, set-Single, length-keep, length-set, find-set, find-set_other, find-keep,
  count-set_new, find-missing, count_mono,
}
use tonnet_messenger.Client.Replay.{
  DirectReplayCache, Notified, Surroundings, max_received_dms, sooner, earliest, prune, remember,
  notify_direct_for_session,
}

-- An expiry that comes before the one to wait for.
abbrev pub early : Option ℕ → ℕ → Bool
early none expires = true
early (some next) expires = ltb expires next

pub record IsCache (cache : DirectReplayCache) : Type 0 where
  pub single : Single cache.entries
  pub bounded : length cache.entries ≤ max_received_dms
  pub waits : count (early cache.next_expiry) cache.entries ≡ 0

keep_all :
    (next now : ℕ) (d : Dict ℕ)
    → count (early (some next)) d ≡ 0
    → ltb next now ≡ false
    → keep (λ _ expires. not (ltb expires now)) d ≡ d
unfolding keep count
keep_all next now [] h l = refl
keep_all next now ((id, expires) ∷ d) h l =
    ground (arith, h, l, keep_all next now d (ground (arith, h)) l)

keep_none : (now : ℕ) (d : Dict ℕ) → count (early none) d ≡ 0 → d ≡ []
unfolding count
keep_none now [] h = refl
keep_none now ((id, expires) ∷ d) h = ground (arith, h)

keep-nil : (now : ℕ) → keep (λ _ expires. not (ltb expires now)) [] ≡ []
unfolding keep
keep-nil now = refl

pub entries-prune :
    (cache : DirectReplayCache) (now : ℕ)
    → IsCache cache
    → (prune cache now).entries ≡ keep (λ _ expires. not (ltb expires now)) cache.entries
unfolding prune
entries-prune cache now v = elim (Option-cases cache.next_expiry) [
  | inl e ↦
      let empty : cache.entries ≡ [] =
        keep_none now cache.entries (subst (λ o. count (early o) cache.entries ≡ 0) e v.waits) in
      rw (prune, e) (rw empty (sym (keep-nil now)))
  | inr (next, e) ↦ elim (Bool-cases (ltb next now)) [
    | inl b ↦ rw (prune, e, b) refl
    | inr b ↦
        rw (prune, e, b)
          (sym (
            keep_all next now cache.entries
              (subst (λ o. count (early o) cache.entries ≡ 0) e v.waits) b))
  ]
]

-- Whatever is found is at `next` or behind it.
early-sooner :
    (expires x : ℕ) (next : Option ℕ) → early (sooner expires next) x ≡ true → early next x ≡ true
unfolding sooner
early-sooner expires x none h = refl
early-sooner expires x (some next) h = ground (arith, h)

early-earliest :
    (d : Dict ℕ) (next : Option ℕ) (x : ℕ) → early (earliest next d) x ≡ true → early next x ≡ true
unfolding earliest
early-earliest [] next x h = h
early-earliest ((id, expires) ∷ d) next x h =
    early-sooner expires x next (early-earliest d (sooner expires next) x h)

early_self : (expires : ℕ) (next : Option ℕ) → early (sooner expires next) expires ≡ false
unfolding sooner
early_self expires none = ground arith
early_self expires (some next) = ground arith

false_of : (a b : Bool) → (a ≡ true → b ≡ true) → b ≡ false → a ≡ false
false_of a b f h = ground (arith, f, h)

count-earliest : (d : Dict ℕ) (next : Option ℕ) → count (early (earliest next d)) d ≡ 0
unfolding earliest count
count-earliest [] next = refl
count-earliest ((id, expires) ∷ d) next = ground (
  arith,
  false_of (early (earliest (sooner expires next) d) expires) (early (sooner expires next) expires)
      (early-earliest d (sooner expires next) expires) (early_self expires next),
  count-earliest d (sooner expires next),
)

prune-IsCache : (cache : DirectReplayCache) (now : ℕ) → IsCache cache → IsCache (prune cache now)
unfolding prune
prune-IsCache cache now v = elim (Option-cases cache.next_expiry) [
  | inl e ↦ rw (prune, e) v
  | inr (next, e) ↦ elim (Bool-cases (ltb next now)) [
    | inr b ↦ rw (prune, e, b) v
    | inl b ↦
        let left = keep (λ _ expires. not (ltb expires now)) cache.entries in
        rw (prune, e, b)
          (record {
            single = keep-Single (λ _ expires. not (ltb expires now)) cache.entries v.single;
            bounded =
                omega (
                  arith,
                  length-keep (λ _ expires. not (ltb expires now)) cache.entries,
                  v.bounded,
                );
            waits = count-earliest left none;
          })
  ]
]

remember-IsCache :
    (cache : DirectReplayCache) (id : Bytes) (expires : ℕ)
    → IsCache cache
    → has id cache.entries ≡ false
    → length cache.entries < max_received_dms
    → IsCache (remember cache id expires)
unfolding remember
remember-IsCache cache id expires v new room = record {
  single = set-Single id expires cache.entries v.single;
  bounded = ground (arith, length-set id expires cache.entries, new, room);
  waits = ground (
    arith,
    count-set_new (early (sooner expires cache.next_expiry)) id expires cache.entries
        (find-missing id cache.entries new),
    count_mono (early (sooner expires cache.next_expiry)) (early cache.next_expiry) cache.entries
        (λ x h. early-sooner expires x cache.next_expiry h),
    early_self expires cache.next_expiry,
    v.waits,
  );
}

-- What a call does to the cache.
data Effect (cache : DirectReplayCache) (id : Bytes) (expires now : ℕ)
    : DirectReplayCache × Notified → Type 0 where
  left : (n : Notified) → n ≢ Notified.delivered → Effect cache id expires now (cache, n)
  pruned :
      (n : Notified) → n ≢ Notified.delivered → Effect cache id expires now (prune cache now, n)
  shown :
      has id (prune cache now).entries ≡ false
      → length (prune cache now).entries < max_received_dms
      → Effect cache id expires now (remember (prune cache now) id expires, Notified.delivered)

notify-Effect :
    (cache : DirectReplayCache) (s : Surroundings) (id : Bytes) (expires now : ℕ)
    → Effect cache id expires now (notify_direct_for_session cache s id expires now)
unfolding notify_direct_for_session
notify-Effect cache s id expires now = elim (Bool-cases s.current_session) [
  | inr a ↦ rw (notify_direct_for_session, a) (left Notified.session_changed (λ h. cc))
  | inl a ↦ elim (Bool-cases s.context_done) [
    | inl b ↦ rw (notify_direct_for_session, a, b) (left Notified.cancelled (λ h. cc))
    | inr b ↦ elim (Bool-cases s.session_done) [
      | inl d ↦ rw (notify_direct_for_session, a, b, d) (left Notified.session_changed (λ h. cc))
      | inr d ↦ elim (Bool-cases (ltb expires now)) [
        | inl l ↦ rw (notify_direct_for_session, a, b, d, l) (left Notified.timestamp (λ h. cc))
        | inr l ↦ elim (Bool-cases (has id (prune cache now).entries)) [
          | inl k ↦ rw (notify_direct_for_session, a, b, d, l, k) (pruned Notified.seen (λ h. cc))
          | inr k ↦ elim (Bool-cases (leb max_received_dms (length (prune cache now).entries))) [
            | inl f ↦
                rw (notify_direct_for_session, a, b, d, l, k, f)
                  (pruned Notified.cache_full (λ h. cc))
            | inr f ↦ elim (Bool-cases s.notified) [
              | inr n ↦
                  rw (notify_direct_for_session, a, b, d, l, k, f, n)
                    (pruned Notified.undelivered (λ h. cc))
              | inl n ↦
                  rw (notify_direct_for_session, a, b, d, l, k, f, n) (shown k (ground (arith, f)))
            ]
          ]
        ]
      ]
    ]
  ]
]

Effect-IsCache :
    (cache : DirectReplayCache) (id : Bytes) (expires now : ℕ) (r : DirectReplayCache × Notified)
    → IsCache cache
    → Effect cache id expires now r
    → IsCache r.0
Effect-IsCache cache id expires now _ v (left n h) = v
Effect-IsCache cache id expires now _ v (pruned n h) = prune-IsCache cache now v
Effect-IsCache cache id expires now _ v (shown new room) =
    remember-IsCache (prune cache now) id expires (prune-IsCache cache now v) new room

pub notify-IsCache :
    (cache : DirectReplayCache) (s : Surroundings) (id : Bytes) (expires now : ℕ)
    → IsCache cache
    → IsCache (notify_direct_for_session cache s id expires now).0
notify-IsCache cache s id expires now v =
    Effect-IsCache cache id expires now (notify_direct_for_session cache s id expires now) v
      (notify-Effect cache s id expires now)

-- An entry outlives a prune up to its expiry.
find-prune :
    (cache : DirectReplayCache) (id : Bytes) (expires now : ℕ)
    → IsCache cache
    → find id cache.entries ≡ some expires
    → now ≤ expires
    → find id (prune cache now).entries ≡ some expires
find-prune cache id expires now v h l =
    ap (λ d. find id d) (entries-prune cache now v)
    ∙ ground (arith, h, l, find-keep id (λ (x : ℕ). not (ltb x now)) cache.entries v.single)

Effect-find :
    (cache : DirectReplayCache) (id other : Bytes) (until expires now : ℕ)
    (r : DirectReplayCache × Notified)
    → IsCache cache
    → find id cache.entries ≡ some until
    → now ≤ until
    → Effect cache other expires now r
    → find id r.0.entries ≡ some until
unfolding remember
Effect-find cache id other until expires now _ v h l (left n k) = h
Effect-find cache id other until expires now _ v h l (pruned n k) =
    find-prune cache id until now v h l
Effect-find cache id other until expires now _ v h l (shown new room) =
    let there = find-prune cache id until now v h l in
    find-set_other id other expires (prune cache now).entries
      (ground (arith, equal→eq other id, new, there, find-missing id (prune cache now).entries))
    ∙ there

-- A call with its surroundings, its message's id and expiry, and its time.
abbrev pub Request : Type 0
Request = Surroundings × Bytes × ℕ × ℕ

unfoldable pub notify_all : DirectReplayCache → List Request → DirectReplayCache
notify_all cache [] = cache
notify_all cache ((s, id, expires, now) ∷ rest) =
    notify_all (notify_direct_for_session cache s id expires now).0 rest

-- Every call is made by the time `until`.
abbrev pub Within : ℕ → List Request → Type 0
Within until [] = Unit {0}
Within until ((s, id, expires, now) ∷ rest) = (now ≤ until) × Within until rest

find-notify_all :
    (calls : List Request) (cache : DirectReplayCache) (id : Bytes) (until : ℕ)
    → IsCache cache
    → find id cache.entries ≡ some until
    → Within until calls
    → find id (notify_all cache calls).entries ≡ some until × IsCache (notify_all cache calls)
unfolding notify_all
find-notify_all [] cache id until v h w = (h, v)
find-notify_all ((s, other, expires, now) ∷ rest) cache id until v h w =
    find-notify_all rest (notify_direct_for_session cache s other expires now).0 id until
      (notify-IsCache cache s other expires now v)
      (Effect-find cache id other until expires now
        (notify_direct_for_session cache s other expires now) v h w.0
        (notify-Effect cache s other expires now))
      w.1

Effect-delivered :
    (cache : DirectReplayCache) (id : Bytes) (expires now : ℕ) (r : DirectReplayCache × Notified)
    → Effect cache id expires now r
    → r.1 ≡ Notified.delivered
    → (find id r.0.entries ≡ some expires) × (has id (prune cache now).entries ≡ false)
unfolding remember
Effect-delivered cache id expires now _ (left n h) d = absurd (h d)
Effect-delivered cache id expires now _ (pruned n h) d = absurd (h d)
Effect-delivered cache id expires now _ (shown new room) d =
    (find-set id expires (prune cache now).entries, new)

-- On a bounded cache, once `notifyDirectForSession` has delivered a message, then behind any
-- further calls, with any messages and whatever becomes of them, as long as they and a last one are
-- made by the message's expiry, the last one does not deliver a message with the same id again.
pub notify-once :
    (cache : DirectReplayCache) (s t : Surroundings) (id : Bytes) (expires now : ℕ)
    (calls : List Request) (again later : ℕ)
    → IsCache cache
    → (notify_direct_for_session cache s id expires now).1 ≡ Notified.delivered
    → Within expires calls
    → later ≤ expires
    → (notify_direct_for_session
        (notify_all (notify_direct_for_session cache s id expires now).0 calls)
        t
        id
        again
        later).1
      ≢ Notified.delivered
notify-once cache s t id expires now calls again later v d w l =
    let first = notify_direct_for_session cache s id expires now in
    let (there, _) =
      Effect-delivered cache id expires now first (notify-Effect cache s id expires now) d in
    let (still, u) =
      find-notify_all calls first.0 id expires (notify-IsCache cache s id expires now v) there w in
    let behind = notify_all first.0 calls in
    λ shown.
      let (_, new) =
        Effect-delivered behind id again later (notify_direct_for_session behind t id again later)
          (notify-Effect behind t id again later) shown in
      ground (
        arith,
        new,
        find-missing id (prune behind later).entries,
        find-prune behind id expires later u still l,
      )
