-- ===== src/Node/Peers/Table.antt =====
-- The operations of internal/node/peers.go that change the peer table. Each returns the table
-- behind it with what the code returns. `time.Now()` is an argument. A score or a count of failures
-- is far below the bounds of an int.
use tonnet_messenger.Base.{
  ℕ, ◌+◌, ◌-◌, Bool, true, false, not, ◌&&◌, ◌||◌, List, [], Option, none, some, ltb, leb, ◌==◌,
  if◌then◌else◌, is_some,
}
use tonnet_messenger.Base.Bytes.{Bytes}
use tonnet_messenger.Base.Dict.{find, has, delete, set, keep, collect, make_room}
use tonnet_messenger.Node.Peers.{
  PeerKind, PeerState, Connection, Limiter, Peer, PeerTable, default_max_leaves, max_node_peers,
  max_pending_peers, max_known_nodes, leaf_peer_burst, leaf_peer_refill_rate, node_peer_burst,
  node_peer_refill_rate, peer_quarantine_ttl, peer_member_idle_ttl, peer_bad_score_evict,
  peer_max_failures, is_leaf, is_quarantined, same_conn, node_of, member_leaf_count_locked,
  pending_count_locked, node_count_locked,
}

abbrev pub node_limiter : Limiter
node_limiter = record { max = node_peer_burst; refill_per_sec = node_peer_refill_rate }

abbrev pub leaf_limiter : Limiter
leaf_limiter = record { max = leaf_peer_burst; refill_per_sec = leaf_peer_refill_rate }

module _ {Signed : Type 0} where
  -- A `max_leaves` of zero or less is 0.
  unfoldable pub new_peer_table : ℕ → PeerTable Signed
  new_peer_table max_leaves = record {
    max_leaves = if max_leaves == 0 then default_max_leaves else max_leaves;
    m = [];
    known = [];
    next = 0;
  }

  unfoldable pub new_peer :
      ℕ → ℕ → Bytes → PeerKind → Option Connection → Option Signed → Peer Signed
  new_peer address now id kind conn signed = record {
    address = address;
    id = id;
    kind = kind;
    state = PeerState.peer_quarantine;
    conn = conn;
    member = false;
    errs = 0;
    bad_score = 0;
    failures = 0;
    first_seen = now;
    last_seen = now;
    last_good = none;
    signed = signed;
    limiter = if is_leaf kind then leaf_limiter else node_limiter;
  }

  -- `t.m[id] = newPeer(...)`
  unfoldable pub put_new :
      PeerTable Signed → ℕ → Bytes → PeerKind → Option Connection → PeerTable Signed × Peer Signed
  put_new t now id kind conn =
      let p = new_peer t.next now id kind conn none in
      (record t { m = set id p t.m; next = t.next + 1 }, p)

  abbrev pub kind_for : PeerTable Signed → Bytes → PeerKind
  kind_for t id = if has id t.known then PeerKind.kind_node else PeerKind.kind_leaf

  -- The peer, whether it is new, and the peer it replaces.
  unfoldable pub add_inbound :
      PeerTable Signed
      → ℕ
      → Bytes
      → Option Connection
      → PeerTable Signed × (Option (Peer Signed) × Bool × Option (Peer Signed))
  add_inbound t now id conn = elim (find id t.m) [
    | some p ↦
        if node_of p || same_conn p.conn conn
        then (t, (some p, false, none))
        else let (next, made) = put_new t now id PeerKind.kind_leaf conn in
          (next, (some made, true, some p))
    | none ↦
        let kind = kind_for t id in
        if is_leaf kind && leb max_pending_peers (pending_count_locked t)
        then (t, (none, false, none))
        else if not (is_leaf kind) && leb max_node_peers (node_count_locked t)
        then (t, (none, false, none))
        else let (next, made) = put_new t now id kind conn in (next, (some made, true, none))
  ]

  -- `if p.badScore > 0 { p.badScore-- }`
  unfoldable pub good : ℕ → Peer Signed → Peer Signed
  good now p = record p {
    last_seen = now;
    last_good = some now;
    failures = 0;
    bad_score = p.bad_score - 1;
    state = if is_quarantined p.state then PeerState.peer_healthy else p.state;
  }

  unfoldable pub accept_inbound :
      PeerTable Signed
      → Option (Peer Signed)
      → ℕ
      → PeerTable Signed × (Option (Peer Signed) × Bool × Bool)
  accept_inbound t none now = (t, (none, false, false))
  accept_inbound t (some p) now = elim (find p.id t.m) [
    | none ↦ (t, (none, false, false))
    | some existing ↦
        if not (existing.address == p.address)
        then (t, (none, false, false))
        else let better = good now existing in
          let seen = record t { m = set p.id better t.m } in
          if node_of existing || existing.member
          then (seen, (some better, false, true))
          else if leb t.max_leaves (member_leaf_count_locked seen)
          then (seen, (none, false, false))
          else let joined = record better { member = true } in
            (record t { m = set p.id joined t.m }, (some joined, true, true))
  ]

  unfoldable pub mark_known_locked : PeerTable Signed → Bytes → ℕ → PeerTable Signed
  mark_known_locked t id now = record t {
    known = set id now (make_room (λ seen. seen) max_known_nodes id t.known);
  }

  unfoldable pub mark_known : PeerTable Signed → Bytes → ℕ → PeerTable Signed
  mark_known t id now = mark_known_locked t id now

  -- A leaf that turns out to be a node gets a node's limiter.
  unfoldable pub as_node : Peer Signed → Peer Signed
  as_node p =
      if node_of p then p else record p { kind = PeerKind.kind_node; limiter = node_limiter }

  unfoldable pub set_signed : PeerTable Signed → Bytes → Option Signed → ℕ → PeerTable Signed × Bool
  set_signed t id signed now =
      let marked = mark_known_locked t id now in
      elim (find id marked.m) [
        | none ↦ (marked, false)
        | some p ↦
            if not (node_of p) && leb max_node_peers (node_count_locked marked)
            then (marked, false)
            else let node = as_node p in
              let next = record node {
                member = false;
                last_seen = now;
                signed = if is_some signed then signed else p.signed;
              } in
              (record marked { m = set id next marked.m }, true)
      ]

  unfoldable pub mark_accepted : PeerTable Signed → Bytes → ℕ → PeerTable Signed × Bool
  mark_accepted t id now = elim (find id t.m) [
    | none ↦ (t, false)
    | some p ↦
        if node_of p || p.member
        then (t, false)
        else let next = record p {
          state = PeerState.peer_healthy;
          member = true;
          last_seen = now;
          last_good = some now;
          failures = 0;
        } in
          (record t { m = set id next t.m }, true)
  ]

  unfoldable pub mark_good_locked_kind :
      PeerTable Signed → Bytes → ℕ → Bool → PeerTable Signed × Bool
  mark_good_locked_kind t id now node_only = elim (find id t.m) [
    | none ↦ (t, false)
    | some p ↦
        if node_only && not (node_of p)
        then (t, false)
        else (record t { m = set id (good now p) t.m }, is_quarantined p.state)
  ]

  unfoldable pub mark_seen : PeerTable Signed → Bytes → ℕ → PeerTable Signed
  mark_seen t id now = elim (find id t.m) [
    | none ↦ t
    | some p ↦ record t { m = set id (record p { last_seen = now }) t.m }
  ]

  -- The score, and the peer when it is evicted. A `score` below 1 is 0.
  unfoldable pub mark_bad :
      PeerTable Signed → Bytes → ℕ → ℕ → PeerTable Signed × (ℕ × Option (Peer Signed))
  mark_bad t id score now = elim (find id t.m) [
    | none ↦ (t, (0, none))
    | some p ↦
        let worse = record p {
          last_seen = now;
          bad_score = p.bad_score + (if ltb score 1 then 1 else score);
        } in
        if ltb worse.bad_score peer_bad_score_evict
        then (record t { m = set id worse t.m }, (worse.bad_score, none))
        else (
          record t { m = delete id t.m },
          (worse.bad_score, some (record worse { state = PeerState.peer_bad })),
        )
  ]

  unfoldable pub mark_failure :
      PeerTable Signed → Bytes → ℕ → PeerTable Signed × (ℕ × Option (Peer Signed))
  mark_failure t id now = elim (find id t.m) [
    | none ↦ (t, (0, none))
    | some p ↦
        let worse = record p {
          last_seen = now;
          failures = p.failures + 1;
          bad_score = p.bad_score + 2;
        } in
        if ltb worse.failures peer_max_failures && ltb worse.bad_score peer_bad_score_evict
        then (record t { m = set id worse t.m }, (worse.failures, none))
        else (
          record t { m = delete id t.m },
          (worse.failures, some (record worse { state = PeerState.peer_bad })),
        )
  ]

  -- The test with which the loop of `evictStale` goes on to the next peer. The zero time of a member
  -- that was never good lies further back than any limit.
  unfoldable pub fresh : ℕ → Peer Signed → Bool
  fresh now p =
      if node_of p
      then true
      else if p.member
      then elim p.last_good [ none ↦ false | some last ↦ leb now (last + peer_member_idle_ttl) ]
      else leb now (p.first_seen + peer_quarantine_ttl)

  unfoldable pub evict_stale : PeerTable Signed → ℕ → PeerTable Signed × List (Peer Signed)
  evict_stale t now =
      (record t { m = keep (λ _ p. fresh now p) t.m }, collect (λ _ p. not (fresh now p)) t.m)

  unfoldable pub remove_peer :
      PeerTable Signed → Bytes → Option (Peer Signed) → PeerTable Signed × Bool
  remove_peer t id target = elim (find id t.m) [
    | none ↦ (t, false)
    | some p ↦
        if elim target [ none ↦ false | some other ↦ not (p.address == other.address) ]
        then (t, false)
        else (record t { m = delete id t.m }, true)
  ]

  unfoldable pub count_error : PeerTable Signed → Bytes → PeerTable Signed × ℕ
  count_error t id = elim (find id t.m) [
    | none ↦ (t, 0)
    | some p ↦ (record t { m = set id (record p { errs = p.errs + 1 }) t.m }, p.errs + 1)
  ]
