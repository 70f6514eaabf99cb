-- ===== src/Node/Peers.antt =====
-- The peer table of internal/node/peers.go: its data, and what it answers without a change. A
-- pointer to a peer or to a connection is an address, unique to the object; a caller's pointer to a
-- peer is the peer as the caller saw it, of which only the id and the address never change. The
-- signed node record of the overlay library is a type that the table never looks into. A peer's
-- queue, its stop channel and the level of its token bucket are left out.
pub mod Table
pub mod Steps
pub mod Limits
pub mod Scores
pub mod Stale
use tonnet_messenger.Base.{
  ℕ, ◌+◌, ◌*◌, Bool, true, false, not, ◌&&◌, ◌||◌, List, [], ◌∷◌, Option, none, some, length, take,
  ltb, leb, ◌==◌, if◌then◌else◌, is_some,
}
use tonnet_messenger.Base.Bytes.{Bytes, equal}
use tonnet_messenger.Base.Dict.{Dict, find, collect, count}
use tonnet_messenger.Community.Validate.{second}

abbrev pub default_max_leaves : ℕ
default_max_leaves = 256

abbrev pub max_node_peers : ℕ
max_node_peers = 16

abbrev pub max_pending_peers : ℕ
max_pending_peers = 100

abbrev pub max_known_nodes : ℕ
max_known_nodes = 256

abbrev pub leaf_peer_burst : ℕ
leaf_peer_burst = 16

abbrev pub leaf_peer_refill_rate : ℕ
leaf_peer_refill_rate = 2

abbrev pub node_peer_burst : ℕ
node_peer_burst = 32

abbrev pub node_peer_refill_rate : ℕ
node_peer_refill_rate = 16

abbrev pub peer_quarantine_ttl : ℕ
peer_quarantine_ttl = 30 * second

abbrev pub peer_member_idle_ttl : ℕ
peer_member_idle_ttl = 150 * second

abbrev pub peer_bad_score_evict : ℕ
peer_bad_score_evict = 8

abbrev pub peer_max_failures : ℕ
peer_max_failures = 3

abbrev pub public_key_size : ℕ
public_key_size = 32

pub data PeerKind : Type 0 where
  kind_leaf : PeerKind
  kind_node : PeerKind

pub data PeerState : Type 0 where
  peer_quarantine : PeerState
  peer_healthy : PeerState
  peer_bad : PeerState

-- A connection of the ADNL library with the key that `GetPubKey` returns.
pub record Connection : Type 0 where
  pub address : ℕ
  pub public_key : Bytes

-- What `newTokenBucket` is made with.
pub record Limiter : Type 0 where
  pub max : ℕ
  pub refill_per_sec : ℕ

-- `last_good` is none for Go's zero time.
pub record Peer (Signed : Type 0) : Type 0 where
  pub address : ℕ
  pub id : Bytes
  pub kind : PeerKind
  pub state : PeerState
  pub conn : Option Connection
  pub member : Bool
  pub errs : ℕ
  pub bad_score : ℕ
  pub failures : ℕ
  pub first_seen : ℕ
  pub last_seen : ℕ
  pub last_good : Option ℕ
  pub signed : Option Signed
  pub limiter : Limiter

-- `next` is the address of the next peer that is made.
pub record PeerTable (Signed : Type 0) : Type 0 where
  pub max_leaves : ℕ
  pub m : Dict (Peer Signed)
  pub known : Dict ℕ
  pub next : ℕ

abbrev pub is_leaf : PeerKind → Bool
is_leaf PeerKind.kind_leaf = true
is_leaf PeerKind.kind_node = false

abbrev pub is_healthy : PeerState → Bool
is_healthy PeerState.peer_healthy = true
is_healthy _ = false

abbrev pub is_quarantined : PeerState → Bool
is_quarantined PeerState.peer_quarantine = true
is_quarantined _ = false

abbrev pub same_conn : Option Connection → Option Connection → Bool
same_conn none none = true
same_conn none (some b) = false
same_conn (some a) none = false
same_conn (some a) (some b) = a.address == b.address

-- `p.conn != nil && bytes.Equal(p.conn.GetPubKey(), key)`
unfoldable pub owns : Option Connection → Bytes → Bool
owns none key = false
owns (some c) key = equal c.public_key key

module _ {Signed : Type 0} where
  abbrev pub member_leaf_of : Peer Signed → Bool
  member_leaf_of p = is_leaf p.kind && p.member

  abbrev pub pending_of : Peer Signed → Bool
  pending_of p = is_leaf p.kind && not p.member

  abbrev pub node_of : Peer Signed → Bool
  node_of p = not (is_leaf p.kind)

  unfoldable pub member_leaf_count_locked : PeerTable Signed → ℕ
  member_leaf_count_locked t = count member_leaf_of t.m

  unfoldable pub pending_count_locked : PeerTable Signed → ℕ
  pending_count_locked t = count pending_of t.m

  unfoldable pub node_count_locked : PeerTable Signed → ℕ
  node_count_locked t = count node_of t.m

  -- The members and the nodes.
  unfoldable pub counts : PeerTable Signed → ℕ × ℕ
  counts t = (count (λ p. not (node_of p) && p.member) t.m, count node_of t.m)

  unfoldable pub get : PeerTable Signed → Bytes → Option (Peer Signed)
  get t id = find id t.m

  unfoldable pub member_leaf : PeerTable Signed → Bytes → Option (Peer Signed)
  member_leaf t id = elim (find id t.m) [
    | none ↦ none
    | some p ↦ if node_of p || not p.member || not (is_healthy p.state) then none else some p
  ]

  unfoldable pub accepts_author : PeerTable Signed → Option (Peer Signed) → Bytes → Bool
  accepts_author t none author_key = false
  accepts_author t (some candidate) author_key =
      if not (length author_key == public_key_size) then false else elim (find candidate.id t.m) [
        | none ↦ false
        | some p ↦
            if not (p.address == candidate.address) || not (is_healthy p.state)
            then false
            else if node_of p
            then true
            else p.member && owns p.conn author_key
      ]

  unfoldable pub identity_leaves : PeerTable Signed → Bytes → Bytes → List (Peer Signed)
  identity_leaves t identity_key exclude_id =
      collect
        (λ id p.
          not (
            equal p.id exclude_id
            || node_of p
            || not p.member
            || not (is_healthy p.state)
            || not (is_some p.conn))
          && owns p.conn identity_key)
        t.m

  unfoldable pub is_healthy_node : PeerTable Signed → Option (Peer Signed) → Bool
  is_healthy_node t none = false
  is_healthy_node t (some candidate) = elim (find candidate.id t.m) [
    | none ↦ false
    | some p ↦ p.address == candidate.address && node_of p && is_healthy p.state
  ]

  unfoldable pub member_leaves : PeerTable Signed → Bytes → List (Peer Signed)
  member_leaves t exclude =
      collect (λ id p. not (equal id exclude) && (member_leaf_of p && is_healthy p.state)) t.m

  -- `shuffle` is `rand.Shuffle`. A `max` of zero or less is 0.
  unfoldable pub node_targets :
      (List (Peer Signed) → List (Peer Signed)) → PeerTable Signed → Bytes → ℕ → List (Peer Signed)
  node_targets shuffle t exclude max =
      let out = collect (λ id p. not (equal id exclude) && (node_of p && is_healthy p.state)) t.m in
      if max == 0 || leb (length out) max then out else take max (shuffle out)

  unfoldable pub node_peers : PeerTable Signed → List (Peer Signed)
  node_peers t = collect (λ _ p. node_of p) t.m

  -- The time from which a node counts as idle.
  unfoldable pub last_active : Peer Signed → ℕ
  last_active p = elim p.last_good [ none ↦ p.first_seen | some last ↦ last ]

  unfoldable pub node_peers_idle_since : PeerTable Signed → ℕ → ℕ → List (Peer Signed)
  node_peers_idle_since t now idle =
      collect (λ _ p. node_of p && is_healthy p.state && leb (last_active p + idle) now) t.m

  unfoldable pub records : List (Peer Signed) → List Signed
  records [] = []
  records (p ∷ ps) = elim p.signed [ none ↦ records ps | some node ↦ node ∷ records ps ]

  unfoldable pub signed_nodes : PeerTable Signed → List Signed
  signed_nodes t =
      records (collect (λ _ p. node_of p && is_healthy p.state && is_some p.signed) t.m)
