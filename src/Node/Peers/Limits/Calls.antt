-- ===== src/Node/Peers/Limits/Calls.antt =====
-- internal/node/peers.go: every call keeps the limits of the peer table.
use tonnet_messenger.Base.{
  ℕ, ◌+◌, ◌≡◌, refl, Bool, true, false, not, ◌&&◌, ◌||◌, List, [], ◌∷◌, arith, ltb, leb, ◌==◌,
  Option, none, some, Bool-cases, Option-cases, inl, inr, if◌then◌else◌,
}
use tonnet_messenger.Base.Bytes.{Bytes}
use tonnet_messenger.Base.Dict.{find, has, set, count, make_room}
use tonnet_messenger.Base.Dict.Laws.{
  keep-Single, set-Single, make_room-Single, count-keep, count-set, length-set-make_room,
}
use tonnet_messenger.Node.Peers.{
  PeerKind, Connection, Peer, PeerTable, max_node_peers, max_pending_peers, max_known_nodes,
  peer_bad_score_evict, peer_max_failures, same_conn, member_leaf_of, pending_of, node_of,
  member_leaf_count_locked, pending_count_locked, node_count_locked,
}
use tonnet_messenger.Node.Peers.Table.{
  new_peer_table, new_peer, put_new, add_inbound, good, accept_inbound, mark_known_locked,
  mark_known, as_node, set_signed, mark_good_locked_kind, mark_seen, mark_bad, mark_failure, fresh,
  evict_stale, remove_peer, count_error,
}
use tonnet_messenger.Node.Peers.Steps.{Call, perform, perform_all}
use tonnet_messenger.Node.Peers.Limits.{
  IsTable, replace-IsTable, delete-IsTable, sound_at, insert-IsTable, renew-IsTable, join-IsTable,
  turn-IsTable, new_peer_table-IsTable, unsound, unborn,
}

module _ {Signed : Type 0} where
  pub evict_stale-IsTable :
      (t : PeerTable Signed) (now : ℕ) → IsTable t → IsTable (evict_stale t now).0
  unfolding evict_stale
  evict_stale-IsTable t now v =
      let test = (λ (_ : Bytes) (p : Peer Signed). fresh now p) in
      record {
        single = keep-Single test t.m v.single;
        single_known = v.single_known;
        members = omega (arith, count-keep member_leaf_of test t.m, v.members);
        leaves =
            omega
              (arith, count-keep member_leaf_of test t.m, count-keep pending_of test t.m, v.leaves);
        nodes = omega (arith, count-keep node_of test t.m, v.nodes);
        known_nodes = v.known_nodes;
        sound = omega (arith, count-keep unsound test t.m, v.sound);
        born = omega (arith, count-keep (unborn t.next) test t.m, v.born);
      }

  mark_known-IsTable :
      (t : PeerTable Signed) (id : Bytes) (now : ℕ)
      → IsTable t
      → IsTable (mark_known_locked t id now)
  unfolding mark_known_locked
  mark_known-IsTable t id now v = record {
    single = v.single;
    single_known =
        set-Single id now (make_room _ max_known_nodes id t.known)
          (make_room-Single _ max_known_nodes id t.known v.single_known);
    members = v.members;
    leaves = v.leaves;
    nodes = v.nodes;
    known_nodes = length-set-make_room _ max_known_nodes id now t.known (omega arith) v.known_nodes;
    sound = v.sound;
    born = v.born;
  }

  good-kind : (now : ℕ) (p : Peer Signed) → (good now p).kind ≡ p.kind
  unfolding good
  good-kind now p = refl

  good-address : (now : ℕ) (p : Peer Signed) → (good now p).address ≡ p.address
  unfolding good
  good-address now p = refl

  good-member : (now : ℕ) (p : Peer Signed) → (good now p).member ≡ p.member
  unfolding good
  good-member now p = refl

  mark_good-IsTable :
      (t : PeerTable Signed) (id : Bytes) (now : ℕ) (node_only : Bool)
      → IsTable t
      → IsTable (mark_good_locked_kind t id now node_only).0
  unfolding mark_good_locked_kind good
  mark_good-IsTable t id now node_only v = elim (Option-cases (find id t.m)) [
    | inl e ↦ rw (mark_good_locked_kind, e) v
    | inr (p, e) ↦ elim (Bool-cases (node_only && not (node_of p))) [
      | inl b ↦ rw (mark_good_locked_kind, e, b) v
      | inr b ↦
          rw (mark_good_locked_kind, e, b)
            (replace-IsTable t id p (good now p) e v refl refl (ground (arith, sound_at t id p e v))
              refl)
    ]
  ]

  mark_seen-IsTable :
      (t : PeerTable Signed) (id : Bytes) (now : ℕ) → IsTable t → IsTable (mark_seen t id now)
  unfolding mark_seen
  mark_seen-IsTable t id now v = elim (Option-cases (find id t.m)) [
    | inl e ↦ rw (mark_seen, e) v
    | inr (p, e) ↦
        rw (mark_seen, e) (replace-IsTable t id p _ e v refl refl (sound_at t id p e v) refl)
  ]

  count_error-IsTable :
      (t : PeerTable Signed) (id : Bytes) → IsTable t → IsTable (count_error t id).0
  unfolding count_error
  count_error-IsTable t id v = elim (Option-cases (find id t.m)) [
    | inl e ↦ rw (count_error, e) v
    | inr (p, e) ↦
        rw (count_error, e) (replace-IsTable t id p _ e v refl refl (sound_at t id p e v) refl)
  ]

  remove_peer-IsTable :
      (t : PeerTable Signed) (id : Bytes) (target : Option (Peer Signed))
      → IsTable t
      → IsTable (remove_peer t id target).0
  unfolding remove_peer
  remove_peer-IsTable t id none v = elim (Option-cases (find id t.m)) [
    | inl e ↦ rw (remove_peer, e) v
    | inr (p, e) ↦ rw (remove_peer, e) (delete-IsTable t id v)
  ]
  remove_peer-IsTable t id (some other) v = elim (Option-cases (find id t.m)) [
    | inl e ↦ rw (remove_peer, e) v
    | inr (p, e) ↦ elim (Bool-cases (p.address == other.address)) [
      | inl b ↦ rw (remove_peer, e, b) (delete-IsTable t id v)
      | inr b ↦ rw (remove_peer, e, b) v
    ]
  ]

  mark_bad-IsTable :
      (t : PeerTable Signed) (id : Bytes) (score now : ℕ)
      → IsTable t
      → IsTable (mark_bad t id score now).0
  unfolding mark_bad
  mark_bad-IsTable t id score now v = elim (Option-cases (find id t.m)) [
    | inl e ↦ rw (mark_bad, e) v
    | inr (p, e) ↦
        elim (Bool-cases
          (ltb (p.bad_score + (if ltb score 1 then 1 else score)) peer_bad_score_evict)) [
            | inl b ↦
                rw (mark_bad, e, b)
                  (replace-IsTable t id p _ e v refl refl (sound_at t id p e v) refl)
            | inr b ↦ rw (mark_bad, e, b) (delete-IsTable t id v)
          ]
  ]

  mark_failure-IsTable :
      (t : PeerTable Signed) (id : Bytes) (now : ℕ) → IsTable t → IsTable (mark_failure t id now).0
  unfolding mark_failure
  mark_failure-IsTable t id now v = elim (Option-cases (find id t.m)) [
    | inl e ↦ rw (mark_failure, e) v
    | inr (p, e) ↦
        elim (Bool-cases
          (ltb (p.failures + 1) peer_max_failures && ltb (p.bad_score + 2) peer_bad_score_evict)) [
            | inl b ↦
                rw (mark_failure, e, b)
                  (replace-IsTable t id p _ e v refl refl (sound_at t id p e v) refl)
            | inr b ↦ rw (mark_failure, e, b) (delete-IsTable t id v)
          ]
  ]

  add_inbound-IsTable :
      (t : PeerTable Signed) (now : ℕ) (id : Bytes) (conn : Option Connection)
      → IsTable t
      → IsTable (add_inbound t now id conn).0
  unfolding add_inbound put_new new_peer pending_count_locked node_count_locked
  add_inbound-IsTable t now id conn v = elim (Option-cases (find id t.m)) [
    | inr (p, e) ↦ elim (Bool-cases (node_of p || same_conn p.conn conn)) [
      | inl b ↦ rw (add_inbound, e, b) v
      | inr b ↦
          rw (add_inbound, e, b)
            (renew-IsTable t id p (new_peer t.next now id PeerKind.kind_leaf conn none) e v
              (ground (arith, b)) refl refl refl refl)
    ]
    | inl e ↦ elim (Bool-cases (has id t.known)) [
      | inl k ↦ elim (Bool-cases (leb max_node_peers (count node_of t.m))) [
        | inl b ↦ rw (add_inbound, e, k, b) v
        | inr b ↦
            rw (add_inbound, e, k, b)
              (insert-IsTable t id (new_peer t.next now id PeerKind.kind_node conn none) e v refl
                refl (λ n. cc) (λ n. ground (arith, b)) refl)
      ]
      | inr k ↦ elim (Bool-cases (leb max_pending_peers (count pending_of t.m))) [
        | inl b ↦ rw (add_inbound, e, k, b) v
        | inr b ↦
            rw (add_inbound, e, k, b)
              (insert-IsTable t id (new_peer t.next now id PeerKind.kind_leaf conn none) e v refl
                refl (λ n. ground (arith, b)) (λ n. cc) refl)
      ]
    ]
  ]

  set_signed-IsTable :
      (t : PeerTable Signed) (id : Bytes) (signed : Option Signed) (now : ℕ)
      → IsTable t
      → IsTable (set_signed t id signed now).0
  unfolding set_signed mark_known_locked as_node node_count_locked
  set_signed-IsTable t id signed now v = elim (Option-cases (find id t.m)) [
    | inl e ↦ rw (set_signed, e) (mark_known-IsTable t id now v)
    | inr (p, e) ↦ elim (Bool-cases (not (node_of p) && leb max_node_peers (count node_of t.m))) [
      | inl b ↦ rw (set_signed, e, b) (mark_known-IsTable t id now v)
      | inr b ↦
          rw (set_signed, e, b)
            (turn-IsTable (mark_known_locked t id now) id p _ e (mark_known-IsTable t id now v)
              (ground arith) refl (ground (arith, sound_at t id p e v)) (λ n. ground (arith, b, n))
              (ground arith))
    ]
  ]

  good_sound :
      (t : PeerTable Signed) (id : Bytes) (p : Peer Signed) (now : ℕ)
      → find id t.m ≡ some p
      → IsTable t
      → unsound (good now p) ≡ false
  unfolding good
  good_sound t id p now e v = ground (arith, sound_at t id p e v)

  joined_sound :
      (t : PeerTable Signed) (id : Bytes) (p : Peer Signed) (now : ℕ)
      → find id t.m ≡ some p
      → IsTable t
      → node_of p ≡ false
      → unsound (record (good now p) { member = true }) ≡ false
  unfolding good
  joined_sound t id p now e v n = ground (arith, n, sound_at t id p e v)

  -- A good word for a peer leaves the number of members as it is.
  count-good :
      (t : PeerTable Signed) (id : Bytes) (p : Peer Signed) (now : ℕ)
      → find id t.m ≡ some p
      → count member_leaf_of (set id (good now p) t.m) ≡ count member_leaf_of t.m
  unfolding good
  count-good t id p now e = omega (arith, count-set member_leaf_of id p (good now p) t.m e)

  accept_inbound-IsTable :
      (t : PeerTable Signed) (candidate : Option (Peer Signed)) (now : ℕ)
      → IsTable t
      → IsTable (accept_inbound t candidate now).0
  unfolding accept_inbound member_leaf_count_locked
  accept_inbound-IsTable t none now v = v
  accept_inbound-IsTable t (some c) now v = elim (Option-cases (find c.id t.m)) [
    | inl e ↦ rw (accept_inbound, e) v
    | inr (p, e) ↦ elim (Bool-cases (p.address == c.address)) [
      | inr a ↦ rw (accept_inbound, e, a) v
      | inl a ↦
          let better =
            replace-IsTable t c.id p (good now p) e v (good-kind now p) (good-member now p)
              (good_sound t c.id p now e v) (good-address now p) in
          elim (Bool-cases (node_of p || p.member)) [
            | inl b ↦ rw (accept_inbound, e, a, b) better
            | inr b ↦
                elim (Bool-cases
                  (leb t.max_leaves (count member_leaf_of (set c.id (good now p) t.m)))) [
                    | inl full ↦ rw (accept_inbound, e, a, b, full) better
                    | inr room ↦
                        rw (accept_inbound, e, a, b, room)
                          (join-IsTable t c.id p (record (good now p) { member = true }) e v
                            (ground (arith, b)) (ground (arith, b, good-kind now p))
                            (joined_sound t c.id p now e v (ground (arith, b)))
                            (ground (arith, room, count-good t c.id p now e)) (good-address now p))
                  ]
          ]
    ]
  ]

  pub perform-IsTable :
      (t : PeerTable Signed) (call : Call Signed) → IsTable t → IsTable (perform t call)
  unfolding perform mark_known
  perform-IsTable t (Call.inbound id conn now) v = add_inbound-IsTable t now id conn v
  perform-IsTable t (Call.accept p now) v = accept_inbound-IsTable t p now v
  perform-IsTable t (Call.learn id now) v = mark_known-IsTable t id now v
  perform-IsTable t (Call.sign id signed now) v = set_signed-IsTable t id signed now v
  perform-IsTable t (Call.good id node_only now) v = mark_good-IsTable t id now node_only v
  perform-IsTable t (Call.see id now) v = mark_seen-IsTable t id now v
  perform-IsTable t (Call.bad id score now) v = mark_bad-IsTable t id score now v
  perform-IsTable t (Call.fail id now) v = mark_failure-IsTable t id now v
  perform-IsTable t (Call.sweep now) v = evict_stale-IsTable t now v
  perform-IsTable t (Call.drop id target) v = remove_peer-IsTable t id target v
  perform-IsTable t (Call.error id) v = count_error-IsTable t id v

  perform_all-IsTable :
      (t : PeerTable Signed) (calls : List (Call Signed))
      → IsTable t
      → IsTable (perform_all t calls)
  unfolding perform_all
  perform_all-IsTable t [] v = v
  perform_all-IsTable t (call ∷ calls) v =
      perform_all-IsTable (perform t call) calls (perform-IsTable t call v)

  -- From `newPeerTable` on, behind any sequence of the calls that the relay makes of its peer
  -- table, with any arguments, no id stands twice; the members are within their limit, the leaves
  -- within that limit and `MaxPendingPeers` together, the nodes and the known ids within theirs; no
  -- peer is bad, and every member is a healthy leaf that was good before.
  pub run-IsTable :
      (n : ℕ) (calls : List (Call Signed)) → IsTable (perform_all (new_peer_table n) calls)
  run-IsTable n calls = perform_all-IsTable (new_peer_table n) calls (new_peer_table-IsTable n)
