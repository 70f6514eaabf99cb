-- ===== src/Node/Peers/Limits.antt =====
-- internal/node/peers.go: the limits of the peer table, and what keeps them.
pub mod Calls
use tonnet_messenger.Base.{
  ℕ, ◌+◌, ◌-◌, ◌≤◌, ◌<◌, ◌≡◌, refl, sym, Bool, true, false, not, ◌&&◌, ◌||◌, List, [], ◌∷◌, arith,
  length, ltb, leb, ◌==◌, Option, none, some, Bool-cases, Option-cases, inl, inr, if◌then◌else◌,
  is_some,
}
use tonnet_messenger.Base.Bytes.{Bytes}
use tonnet_messenger.Base.Dict.{
  Dict, find, has, delete, set, keep, collect, weight, count, make_room,
}
use tonnet_messenger.Base.Dict.Laws.{
  Single, keep-Single, delete-Single, set-Single, make_room-Single, count-keep, count-delete,
  count-set, count-set_new, length-set-make_room, find-weight, count_mono,
}
use tonnet_messenger.Node.Peers.{
  PeerKind, PeerState, Connection, Peer, PeerTable, default_max_leaves, max_node_peers,
  max_pending_peers, max_known_nodes, peer_bad_score_evict, peer_max_failures, is_leaf, is_healthy,
  is_quarantined, same_conn, member_leaf_of, pending_of, node_of, member_leaf_count_locked,
  pending_count_locked, node_count_locked,
}
use tonnet_messenger.Node.Peers.Table.{
  kind_for, new_peer_table, new_peer, put_new, add_inbound, good, accept_inbound, mark_known_locked,
  mark_known, as_node, set_signed, mark_good_locked_kind, mark_seen, mark_bad, mark_failure, fresh,
  evict_stale, remove_peer, count_error,
}

module _ {Signed : Type 0} where
  -- A bad peer, or a member that is a node, that is not healthy, or that was never good.
  abbrev pub unsound : Peer Signed → Bool
  unsound p =
      elim p.state [ PeerState.peer_bad ↦ true | _ ↦ false ]
      || (p.member && (node_of p || not (is_healthy p.state) || not (is_some p.last_good)))

  -- An address that no peer has been given yet.
  abbrev pub unborn : ℕ → Peer Signed → Bool
  unborn next p = leb next p.address

  pub record IsTable (t : PeerTable Signed) : Type 0 where
    pub single : Single t.m
    pub single_known : Single t.known
    pub members : count member_leaf_of t.m ≤ t.max_leaves
    pub leaves : count member_leaf_of t.m + count pending_of t.m ≤ t.max_leaves + max_pending_peers
    pub nodes : count node_of t.m ≤ max_node_peers
    pub known_nodes : length t.known ≤ max_known_nodes
    pub sound : count unsound t.m ≡ 0
    pub born : count (unborn t.next) t.m ≡ 0

  pub new_peer_table-IsTable : (n : ℕ) → IsTable (new_peer_table n)
  unfolding new_peer_table count
  new_peer_table-IsTable n = record {
    single = tt;
    single_known = tt;
    members = omega arith;
    leaves = omega arith;
    nodes = omega arith;
    known_nodes = omega arith;
    sound = refl;
    born = refl;
  }

  -- A peer takes the place of another of the same kind.
  pub replace-IsTable :
      (t : PeerTable Signed) (id : Bytes) (p q : Peer Signed)
      → find id t.m ≡ some p
      → IsTable t
      → q.kind ≡ p.kind
      → q.member ≡ p.member
      → unsound q ≡ false
      → q.address ≡ p.address
      → IsTable (record t { m = set id q t.m })
  replace-IsTable t id p q found v k m s a = record {
    single = set-Single id q t.m v.single;
    single_known = v.single_known;
    members = ground (arith, count-set member_leaf_of id p q t.m found, v.members, k, m);
    leaves = ground (
      arith,
      count-set member_leaf_of id p q t.m found,
      count-set pending_of id p q t.m found,
      v.leaves,
      k,
      m,
    );
    nodes = ground (arith, count-set node_of id p q t.m found, v.nodes, k);
    known_nodes = v.known_nodes;
    sound = ground (arith, count-set unsound id p q t.m found, v.sound, s);
    born = ground (arith, count-set (unborn t.next) id p q t.m found, v.born, a);
  }

  pub delete-IsTable :
      (t : PeerTable Signed) (id : Bytes) → IsTable t → IsTable (record t { m = delete id t.m })
  delete-IsTable t id v = record {
    single = delete-Single id t.m v.single;
    single_known = v.single_known;
    members = omega (arith, count-delete member_leaf_of id t.m, v.members);
    leaves =
        omega (arith, count-delete member_leaf_of id t.m, count-delete pending_of id t.m, v.leaves);
    nodes = omega (arith, count-delete node_of id t.m, v.nodes);
    known_nodes = v.known_nodes;
    sound = omega (arith, count-delete unsound id t.m, v.sound);
    born = omega (arith, count-delete (unborn t.next) id t.m, v.born);
  }

  pub sound_at :
      (t : PeerTable Signed) (id : Bytes) (p : Peer Signed)
      → find id t.m ≡ some p
      → IsTable t
      → unsound p ≡ false
  sound_at t id p found v = ground (arith, find-weight unsound id p t.m found, v.sound)

  later_unborn :
      (t : PeerTable Signed) → count (unborn (t.next + 1)) t.m ≤ count (unborn t.next) t.m
  later_unborn t =
      count_mono (unborn (t.next + 1)) (unborn t.next) t.m
        (λ (p : Peer Signed) h. ground (arith, h))

  -- A peer under a new id, with room for its kind.
  pub insert-IsTable :
      (t : PeerTable Signed) (id : Bytes) (q : Peer Signed)
      → find id t.m ≡ none
      → IsTable t
      → q.member ≡ false
      → unsound q ≡ false
      → (node_of q ≡ false → count pending_of t.m < max_pending_peers)
      → (node_of q ≡ true → count node_of t.m < max_node_peers)
      → q.address ≡ t.next
      → IsTable (record t { m = set id q t.m; next = t.next + 1 })
  insert-IsTable t id q missing v m s pending nodes a = record {
    single = set-Single id q t.m v.single;
    single_known = v.single_known;
    members = ground (arith, count-set_new member_leaf_of id q t.m missing, v.members, m);
    leaves = ground (
      arith,
      count-set_new member_leaf_of id q t.m missing,
      count-set_new pending_of id q t.m missing,
      v.members,
      v.leaves,
      m,
      pending,
    );
    nodes = ground (arith, count-set_new node_of id q t.m missing, v.nodes, nodes);
    known_nodes = v.known_nodes;
    sound = ground (arith, count-set_new unsound id q t.m missing, v.sound, s);
    born =
        ground
          (arith, count-set_new (unborn (t.next + 1)) id q t.m missing, later_unborn t, v.born, a);
  }

  -- A new leaf takes the place of a leaf.
  pub renew-IsTable :
      (t : PeerTable Signed) (id : Bytes) (p q : Peer Signed)
      → find id t.m ≡ some p
      → IsTable t
      → node_of p ≡ false
      → node_of q ≡ false
      → q.member ≡ false
      → unsound q ≡ false
      → q.address ≡ t.next
      → IsTable (record t { m = set id q t.m; next = t.next + 1 })
  renew-IsTable t id p q found v k l m s a = record {
    single = set-Single id q t.m v.single;
    single_known = v.single_known;
    members = ground (arith, count-set member_leaf_of id p q t.m found, v.members, k, l, m);
    leaves = ground (
      arith,
      count-set member_leaf_of id p q t.m found,
      count-set pending_of id p q t.m found,
      v.leaves,
      k,
      l,
      m,
    );
    nodes = ground (arith, count-set node_of id p q t.m found, v.nodes, k, l);
    known_nodes = v.known_nodes;
    sound = ground (arith, count-set unsound id p q t.m found, v.sound, s);
    born =
        ground (arith, count-set (unborn (t.next + 1)) id p q t.m found, later_unborn t, v.born, a);
  }

  -- A pending leaf becomes a member.
  pub join-IsTable :
      (t : PeerTable Signed) (id : Bytes) (p q : Peer Signed)
      → find id t.m ≡ some p
      → IsTable t
      → pending_of p ≡ true
      → member_leaf_of q ≡ true
      → unsound q ≡ false
      → count member_leaf_of t.m < t.max_leaves
      → q.address ≡ p.address
      → IsTable (record t { m = set id q t.m })
  join-IsTable t id p q found v k l s room a = record {
    single = set-Single id q t.m v.single;
    single_known = v.single_known;
    members = ground (arith, count-set member_leaf_of id p q t.m found, v.members, k, l, room);
    leaves = ground (
      arith,
      count-set member_leaf_of id p q t.m found,
      count-set pending_of id p q t.m found,
      v.leaves,
      k,
      l,
    );
    nodes = ground (arith, count-set node_of id p q t.m found, v.nodes, k, l);
    known_nodes = v.known_nodes;
    sound = ground (arith, count-set unsound id p q t.m found, v.sound, s);
    born = ground (arith, count-set (unborn t.next) id p q t.m found, v.born, a);
  }

  -- A leaf becomes a node.
  pub turn-IsTable :
      (t : PeerTable Signed) (id : Bytes) (p q : Peer Signed)
      → find id t.m ≡ some p
      → IsTable t
      → q.kind ≡ PeerKind.kind_node
      → q.member ≡ false
      → unsound q ≡ false
      → (node_of p ≡ false → count node_of t.m < max_node_peers)
      → q.address ≡ p.address
      → IsTable (record t { m = set id q t.m })
  turn-IsTable t id p q found v k m s room a = record {
    single = set-Single id q t.m v.single;
    single_known = v.single_known;
    members = ground (arith, count-set member_leaf_of id p q t.m found, v.members, k, m);
    leaves = ground (
      arith,
      count-set member_leaf_of id p q t.m found,
      count-set pending_of id p q t.m found,
      v.leaves,
      k,
      m,
    );
    nodes = ground (arith, count-set node_of id p q t.m found, v.nodes, k, m, room);
    known_nodes = v.known_nodes;
    sound = ground (arith, count-set unsound id p q t.m found, v.sound, s);
    born = ground (arith, count-set (unborn t.next) id p q t.m found, v.born, a);
  }
