-- ===== src/Tests/Peers.antt =====
-- A small peer table, and the theorems applied to it.
use tonnet_messenger.Base.{
  ℕ, ◌+◌, ◌≡◌, refl, true, false, [], ◌∷◌, arith, ltb, Option, none, some, is_some,
}
use tonnet_messenger.Base.Bytes.{Bytes, equal}
use tonnet_messenger.Base.Dict.{
  find, has, delete, set, keep, collect, count, oldest_from, make_room,
}
use tonnet_messenger.Base.Dict.Laws.{Single}
use tonnet_messenger.Node.Peers.{
  PeerKind, Connection, Peer, PeerTable, member_leaf_count_locked, pending_count_locked,
  node_count_locked, owns, accepts_author, is_healthy_node, peer_bad_score_evict,
}
use tonnet_messenger.Node.Peers.Table.{
  new_peer_table, new_peer, put_new, add_inbound, good, accept_inbound, mark_known_locked,
  mark_known, as_node, set_signed, mark_good_locked_kind, mark_seen, mark_bad, mark_failure, fresh,
  evict_stale, remove_peer, count_error,
}
use tonnet_messenger.Node.Peers.Steps.{Call, perform, perform_all}
use tonnet_messenger.Node.Peers.Limits.{IsTable}
use tonnet_messenger.Node.Peers.Limits.Calls.{run-IsTable}
use tonnet_messenger.Node.Peers.Scores.{
  failures_at, bads_at, total, Powerless, find-failures_at, find-bads_at, add_inbound-Powerless,
}
use tonnet_messenger.Node.Peers.Stale.{Swept, evict_stale-Swept}

program : Unit {0}
unfolding equal find has delete set keep collect count oldest_from make_room
    member_leaf_count_locked pending_count_locked node_count_locked owns accepts_author
    is_healthy_node new_peer_table new_peer put_new add_inbound good accept_inbound
    mark_known_locked mark_known as_node set_signed mark_good_locked_kind mark_seen mark_bad
    mark_failure fresh evict_stale remove_peer count_error perform perform_all failures_at bads_at
program = tt

abbrev alice : Bytes
alice = 1 ∷ []

abbrev bob : Bytes
bob = 2 ∷ []

abbrev wire : ℕ → Option Connection
wire n = some (record { address = n; public_key = alice })

abbrev start : PeerTable ℕ
start = new_peer_table 1

-- Two connections, of which the table has room for one member.
abbrev both : PeerTable ℕ
both = perform_all start (Call.inbound alice (wire 7) 1 ∷ Call.inbound bob (wire 8) 1 ∷ [])

abbrev joined : PeerTable ℕ
joined = (accept_inbound both (find alice both.m) 2).0

crowded :
    (pending_count_locked both ≡ 2)
    × (member_leaf_count_locked joined ≡ 1)
    × ((accept_inbound joined (find bob joined.m) 3).1 ≡ (none, false, false))
unfolding program
crowded = (refl, refl, refl)

run-IsTable_example : IsTable (
    perform_all {Signed = ℕ} (new_peer_table 1) (
      Call.inbound alice (wire 7) 1
      ∷ Call.learn bob 1
      ∷ Call.inbound bob (wire 8) 1
      ∷ Call.bad alice 9 2
      ∷ []))
run-IsTable_example = run-IsTable {Signed = ℕ} 1 (
    Call.inbound alice (wire 7) 1
    ∷ Call.learn bob 1
    ∷ Call.inbound bob (wire 8) 1
    ∷ Call.bad alice 9 2
    ∷ [])

both-Single : Single both.m
unfolding program
both-Single = (refl, (refl, tt))

find-failures_at_example : find alice (failures_at both alice (5 ∷ 6 ∷ 7 ∷ [])).m ≡ none
find-failures_at_example = find-failures_at both alice (5 ∷ 6 ∷ 7 ∷ []) both-Single (omega arith)

abbrev newcomer : Peer ℕ
newcomer = new_peer 0 1 alice PeerKind.kind_leaf (wire 7) none

newcomer_found : find alice both.m ≡ some newcomer
unfolding program
newcomer_found = refl

newcomer_good : newcomer.bad_score ≡ 0
unfolding program
newcomer_good = refl

find-bads_at_example :
    is_some (find alice (bads_at both alice ((0, 5) ∷ (6, 6) ∷ [])).m)
    ≡ ltb (newcomer.bad_score + total ((0, 5) ∷ (6, 6) ∷ [])) peer_bad_score_evict
find-bads_at_example =
    find-bads_at both alice ((0, 5) ∷ (6, 6) ∷ []) newcomer both-Single newcomer_found
      (omega (arith, newcomer_good))

evict_stale-Swept_example : Swept both 9 (evict_stale both 9).0 (evict_stale both 9).1
evict_stale-Swept_example = evict_stale-Swept both 9 both-Single

both-IsTable : IsTable both
both-IsTable =
    run-IsTable {Signed = ℕ} 1 (Call.inbound alice (wire 7) 1 ∷ Call.inbound bob (wire 8) 1 ∷ [])

abbrev reconnected : Peer ℕ
reconnected = new_peer 2 4 alice PeerKind.kind_leaf (wire 9) none

newcomer_named : newcomer.id ≡ alice
unfolding program
newcomer_named = refl

replaced : (add_inbound both 4 alice (wire 9)).1 ≡ (some reconnected, true, some newcomer)
unfolding program
replaced = refl

add_inbound-Powerless_example : Powerless (add_inbound both 4 alice (wire 9)).0 newcomer
add_inbound-Powerless_example =
    add_inbound-Powerless both 4 alice (wire 9) newcomer reconnected both-IsTable newcomer_named
      replaced
