-- ===== src/Node/Peers/Steps.antt =====
-- The calls that the relay makes of its peer table, internal/node/peers.go, and their runs.
-- `markMember` and `markAccepted` have no caller and are left out: they admit a member without a look
-- at the limit.
use tonnet_messenger.Base.{ℕ, Bool, List, [], ◌∷◌, Option}
use tonnet_messenger.Base.Bytes.{Bytes}
use tonnet_messenger.Node.Peers.{Connection, Peer, PeerTable}
use tonnet_messenger.Node.Peers.Table.{
  add_inbound, accept_inbound, mark_known, set_signed, mark_good_locked_kind, mark_seen, mark_bad,
  mark_failure, evict_stale, remove_peer, count_error,
}

-- A call with its arguments, the time last.
pub data Call (Signed : Type 0) : Type 0 where
  inbound : Bytes → Option Connection → ℕ → Call Signed
  accept : Option (Peer Signed) → ℕ → Call Signed
  learn : Bytes → ℕ → Call Signed
  sign : Bytes → Option Signed → ℕ → Call Signed
  good : Bytes → Bool → ℕ → Call Signed
  see : Bytes → ℕ → Call Signed
  bad : Bytes → ℕ → ℕ → Call Signed
  fail : Bytes → ℕ → Call Signed
  sweep : ℕ → Call Signed
  drop : Bytes → Option (Peer Signed) → Call Signed
  error : Bytes → Call Signed

module _ {Signed : Type 0} where
  unfoldable pub perform : PeerTable Signed → Call Signed → PeerTable Signed
  perform t (Call.inbound id conn now) = (add_inbound t now id conn).0
  perform t (Call.accept p now) = (accept_inbound t p now).0
  perform t (Call.learn id now) = mark_known t id now
  perform t (Call.sign id signed now) = (set_signed t id signed now).0
  perform t (Call.good id node_only now) = (mark_good_locked_kind t id now node_only).0
  perform t (Call.see id now) = mark_seen t id now
  perform t (Call.bad id score now) = (mark_bad t id score now).0
  perform t (Call.fail id now) = (mark_failure t id now).0
  perform t (Call.sweep now) = (evict_stale t now).0
  perform t (Call.drop id target) = (remove_peer t id target).0
  perform t (Call.error id) = (count_error t id).0

  unfoldable pub perform_all : PeerTable Signed → List (Call Signed) → PeerTable Signed
  perform_all t [] = t
  perform_all t (call ∷ calls) = perform_all (perform t call) calls
