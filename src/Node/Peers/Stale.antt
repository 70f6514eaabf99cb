-- ===== src/Node/Peers/Stale.antt =====
-- internal/node/peers.go: what `evictStale` leaves and what it takes, against a look at each peer.
use tonnet_messenger.Base.{
  ℕ, ◌+◌, ◌≤◌, ◌≡◌, ap, ◌∙◌, true, false, not, List, [], arith, length, some, Bool-cases,
  Option-cases, inl, inr,
}
use tonnet_messenger.Base.Bytes.{Bytes}
use tonnet_messenger.Base.Dict.{find, keep, collect}
use tonnet_messenger.Base.Dict.Laws.{
  Single, find-keep, length-keep-collect, keep-keep, collect-keep,
}
use tonnet_messenger.Base.Dict.Gathered.{Among, collect-Among, Among-collect}
use tonnet_messenger.Node.Peers.{
  PeerKind, Peer, PeerTable, peer_quarantine_ttl, peer_member_idle_ttl, node_of,
}
use tonnet_messenger.Node.Peers.Table.{fresh, evict_stale}

module _ {Signed : Type 0} where
  -- A peer that may stay: a node, a member with a good word not too long ago, or a newcomer.
  pub data Stays (now : ℕ) (p : Peer Signed) : Type 0 where
    node : p.kind ≡ PeerKind.kind_node → Stays now p
    member :
        (last : ℕ)
        → p.member ≡ true
        → p.last_good ≡ some last
        → now ≤ last + peer_member_idle_ttl
        → Stays now p
    newcomer : p.member ≡ false → now ≤ p.first_seen + peer_quarantine_ttl → Stays now p

  Stays-fresh : (now : ℕ) (p : Peer Signed) → fresh now p ≡ true → Stays now p
  unfolding fresh
  Stays-fresh now p h = elim (Bool-cases (node_of p)) [
    | inl n ↦ node (ground (arith, n))
    | inr n ↦ elim (Bool-cases p.member) [
      | inr m ↦ newcomer m (ground (arith, h, n, m))
      | inl m ↦ elim (Option-cases p.last_good) [
        | inl e ↦ ground (arith, h, n, m, e)
        | inr (last, e) ↦ member last m e (ground (arith, h, n, m, e))
      ]
    ]
  ]

  fresh-Stays : (now : ℕ) (p : Peer Signed) → Stays now p → fresh now p ≡ true
  unfolding fresh
  fresh-Stays now p (node k) = ground (arith, k)
  fresh-Stays now p (member last m e l) = ground (arith, m, e, l)
  fresh-Stays now p (newcomer m l) = ground (arith, m, l)

  found_fresh :
      (t : PeerTable Signed) (now : ℕ) (id : Bytes) (p : Peer Signed)
      → Single t.m
      → find id (keep (λ _ q. fresh now q) t.m) ≡ some p
      → (find id t.m ≡ some p) × (fresh now p ≡ true)
  found_fresh t now id p s h = elim (Option-cases (find id t.m)) [
    | inl e ↦ ground (arith, h, e, find-keep id (λ (q : Peer Signed). fresh now q) t.m s)
    | inr (q, e) ↦ elim (Bool-cases (fresh now q)) [
      | inl f ↦ ground (arith, h, e, f, find-keep id (λ (r : Peer Signed). fresh now r) t.m s)
      | inr f ↦ ground (arith, h, e, f, find-keep id (λ (r : Peer Signed). fresh now r) t.m s)
    ]
  ]

  evicted-Among :
      (t : PeerTable Signed) (now : ℕ) (id : Bytes) (p : Peer Signed)
      → find id t.m ≡ some p
      → ¬ Stays now p
      → Among p (collect (λ _ q. not (fresh now q)) t.m)
  evicted-Among t now id p h stale = elim (Bool-cases (fresh now p)) [
    | inl f ↦ absurd (stale (Stays-fresh now p f))
    | inr f ↦ collect-Among (λ q. not (fresh now q)) id p t.m h (ap not f)
  ]

  Among-evicted :
      (t : PeerTable Signed) (now : ℕ) (p : Peer Signed)
      → Single t.m
      → Among p (collect (λ _ q. not (fresh now q)) t.m)
      → (id : Bytes) × (find id t.m ≡ some p) × (¬ Stays now p)
  Among-evicted t now p s m =
      let (id, held, f) = Among-collect (λ q. not (fresh now q)) p t.m s m in
      (id, held, λ l. cc (f, ap not (fresh-Stays now p l)))

  -- What the table holds behind the sweep is what it held and what may stay; what is returned is
  -- what it held and what may not, in the same number; and a second sweep at the same time finds
  -- nobody.
  pub record Swept (t : PeerTable Signed) (now : ℕ) (after : PeerTable Signed)
      (out : List (Peer Signed)) : Type 0 where
    pub stays :
        (id : Bytes) (p : Peer Signed)
        → find id after.m ≡ some p
        → (find id t.m ≡ some p) × Stays now p
    pub kept :
        (id : Bytes) (p : Peer Signed)
        → find id t.m ≡ some p
        → Stays now p
        → find id after.m ≡ some p
    pub evicted :
        (id : Bytes) (p : Peer Signed) → find id t.m ≡ some p → ¬ Stays now p → Among p out
    pub held :
        (p : Peer Signed) → Among p out → (id : Bytes) × (find id t.m ≡ some p) × (¬ Stays now p)
    pub counted : length after.m + length out ≡ length t.m
    pub settled : evict_stale after now ≡ (after, [])

  -- On a table in which no id stands twice, `evictStale` leaves exactly the peers that may stay:
  -- the nodes, the members whose last good word is recent enough, and the newcomers; it returns
  -- exactly the other peers that the table held, as many as it takes out, and a second sweep at the
  -- same time finds nobody.
  pub evict_stale-Swept :
      (t : PeerTable Signed) (now : ℕ)
      → Single t.m
      → Swept t now (evict_stale t now).0 (evict_stale t now).1
  unfolding evict_stale
  evict_stale-Swept t now s = record {
    stays = λ id p h. let (held, f) = found_fresh t now id p s h in (held, Stays-fresh now p f);
    kept = λ id p h l.
        ground
          (arith, h, fresh-Stays now p l, find-keep id (λ (r : Peer Signed). fresh now r) t.m s);
    evicted = evicted-Among t now;
    held = λ p m. Among-evicted t now p s m;
    counted = length-keep-collect (λ p. fresh now p) t.m;
    settled =
        ap
          (λ d. (
            record t { m = d },
            collect (λ _ p. not (fresh now p)) (keep (λ _ p. fresh now p) t.m),
          ))
          (keep-keep (λ p. fresh now p) t.m)
        ∙ ap (λ o. (record t { m = keep (λ _ p. fresh now p) t.m }, o))
            (collect-keep (λ p. fresh now p) t.m);
  }
