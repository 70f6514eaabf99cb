-- ===== src/Node/Peers/Scores.antt =====
-- internal/node/peers.go: the peers that misbehave leave the table, and a pointer to one that has
-- left it is worth nothing.
use tonnet_messenger.Base.{
  ℕ, ◌+◌, ◌≤◌, ◌<◌, ◌≡◌, ◌⊎◌, refl, sym, true, false, ◌&&◌, ◌||◌, List, [], ◌∷◌, arith, length, ltb,
  ◌==◌, Option, none, some, Bool-cases, Option-cases, inl, inr, if◌then◌else◌, is_some, ◌∙◌, subst,
  ap,
}
use tonnet_messenger.Base.Bytes.{Bytes}
use tonnet_messenger.Base.Dict.{find, delete, set}
use tonnet_messenger.Base.Dict.Laws.{Single, set-Single, find-set, find-delete, find-weight}
use tonnet_messenger.Node.Peers.{
  PeerKind, Connection, Peer, PeerTable, peer_bad_score_evict, peer_max_failures, node_of,
  same_conn, accepts_author, is_healthy_node,
}
use tonnet_messenger.Node.Peers.Table.{
  new_peer, put_new, add_inbound, accept_inbound, mark_bad, mark_failure,
}
use tonnet_messenger.Node.Peers.Limits.{IsTable, unborn}

-- What the scores add up to, of which each counts one at least.
abbrev pub total : List (ℕ × ℕ) → ℕ
total [] = 0
total ((score, now) ∷ rest) = (if ltb score 1 then 1 else score) + total rest

module _ {Signed : Type 0} where
  -- `markFailure` at each of the times.
  unfoldable pub failures_at : PeerTable Signed → Bytes → List ℕ → PeerTable Signed
  failures_at t id [] = t
  failures_at t id (now ∷ times) = failures_at (mark_failure t id now).0 id times

  -- `markBad` with each of the scores and times.
  unfoldable pub bads_at : PeerTable Signed → Bytes → List (ℕ × ℕ) → PeerTable Signed
  bads_at t id [] = t
  bads_at t id ((score, now) ∷ rest) = bads_at (mark_bad t id score now).0 id rest

  mark_failure-missing :
      (t : PeerTable Signed) (id : Bytes) (now : ℕ)
      → find id t.m ≡ none
      → (mark_failure t id now).0 ≡ t
  unfolding mark_failure
  mark_failure-missing t id now e = rw (mark_failure, e) refl

  mark_bad-missing :
      (t : PeerTable Signed) (id : Bytes) (score now : ℕ)
      → find id t.m ≡ none
      → (mark_bad t id score now).0 ≡ t
  unfolding mark_bad
  mark_bad-missing t id score now e = rw (mark_bad, e) refl

  failures-missing :
      (t : PeerTable Signed) (id : Bytes) (times : List ℕ)
      → find id t.m ≡ none
      → find id (failures_at t id times).m ≡ none
  unfolding failures_at
  failures-missing t id [] e = e
  failures-missing t id (now ∷ times) e =
      subst (λ u. find id (failures_at u id times).m ≡ none) (sym (mark_failure-missing t id now e))
        (failures-missing t id times e)

  -- One failure more, or the peer is gone.
  find-mark_failure :
      (t : PeerTable Signed) (id : Bytes) (now : ℕ) (p : Peer Signed)
      → Single t.m
      → find id t.m ≡ some p
      → (find id (mark_failure t id now).0.m ≡ none)
        ⊎ ((q : Peer Signed) × (find id (mark_failure t id now).0.m ≡ some q)
            × (q.failures ≡ p.failures + 1)
            × (q.failures < peer_max_failures)
            × Single (mark_failure t id now).0.m)
  unfolding mark_failure
  find-mark_failure t id now p s e =
      elim (Bool-cases
        (ltb (p.failures + 1) peer_max_failures && ltb (p.bad_score + 2) peer_bad_score_evict)) [
          | inl b ↦
              rw (mark_failure, e, b)
                (inr (
                  record p {
                    last_seen = now;
                    failures = p.failures + 1;
                    bad_score = p.bad_score + 2;
                  },
                  find-set id _ t.m,
                  refl,
                  ground (arith, b),
                  set-Single id _ t.m s,
                ))
          | inr b ↦ rw (mark_failure, e, b) (inl (find-delete id t.m s))
        ]

  failures-find :
      (t : PeerTable Signed) (id : Bytes) (times : List ℕ) (p : Peer Signed)
      → Single t.m
      → find id t.m ≡ some p
      → p.failures < peer_max_failures ⊎ (0 < length times)
      → peer_max_failures ≤ p.failures + length times
      → find id (failures_at t id times).m ≡ none
  unfolding failures_at
  failures-find t id [] p s e few n = ground (arith, few, n)
  failures-find t id (now ∷ times) p s e few n = elim (find-mark_failure t id now p s e) [
    | inl gone ↦ failures-missing (mark_failure t id now).0 id times gone
    | inr (q, f, k, l, r) ↦
        failures-find (mark_failure t id now).0 id times q r f (inl l) (omega (arith, k, n))
  ]

  -- Whatever a peer did before, after three or more calls of `markFailure` in a row it is no longer
  -- in the table.
  pub find-failures_at :
      (t : PeerTable Signed) (id : Bytes) (times : List ℕ)
      → Single t.m
      → peer_max_failures ≤ length times
      → find id (failures_at t id times).m ≡ none
  find-failures_at t id times s n = elim (Option-cases (find id t.m)) [
    | inl e ↦ failures-missing t id times e
    | inr (p, e) ↦ failures-find t id times p s e (inr (omega (arith, n))) (omega (arith, n))
  ]

  bads-missing :
      (t : PeerTable Signed) (id : Bytes) (scores : List (ℕ × ℕ))
      → find id t.m ≡ none
      → find id (bads_at t id scores).m ≡ none
  unfolding bads_at
  bads-missing t id [] e = e
  bads-missing t id ((score, now) ∷ rest) e =
      subst (λ u. find id (bads_at u id rest).m ≡ none) (sym (mark_bad-missing t id score now e))
        (bads-missing t id rest e)

  abbrev worse : Peer Signed → ℕ → ℕ → Peer Signed
  worse p score now = record p {
    last_seen = now;
    bad_score = p.bad_score + (if ltb score 1 then 1 else score);
  }

  mark_bad-low :
      (t : PeerTable Signed) (id : Bytes) (score now : ℕ) (p : Peer Signed)
      → find id t.m ≡ some p
      → ltb (worse p score now).bad_score peer_bad_score_evict ≡ true
      → (mark_bad t id score now).0 ≡ record t { m = set id (worse p score now) t.m }
  unfolding mark_bad
  mark_bad-low t id score now p e b = rw (mark_bad, e, b) refl

  mark_bad-high :
      (t : PeerTable Signed) (id : Bytes) (score now : ℕ) (p : Peer Signed)
      → find id t.m ≡ some p
      → ltb (worse p score now).bad_score peer_bad_score_evict ≡ false
      → (mark_bad t id score now).0 ≡ record t { m = delete id t.m }
  unfolding mark_bad
  mark_bad-high t id score now p e b = rw (mark_bad, e, b) refl

  -- After a sequence of calls of `markBad`, a peer whose score was below the limit is still in the
  -- table exactly when its score and those of the calls, each counted as one at least, add up to
  -- less than the limit.
  pub find-bads_at :
      (t : PeerTable Signed) (id : Bytes) (scores : List (ℕ × ℕ)) (p : Peer Signed)
      → Single t.m
      → find id t.m ≡ some p
      → p.bad_score < peer_bad_score_evict
      → is_some (find id (bads_at t id scores).m)
        ≡ ltb (p.bad_score + total scores) peer_bad_score_evict
  unfolding bads_at
  find-bads_at t id [] p s e low = rw e (ground (arith, low))
  find-bads_at t id ((score, now) ∷ rest) p s e low =
      let q = worse p score now in
      elim (Bool-cases (ltb q.bad_score peer_bad_score_evict)) [
        | inl b ↦
            ap (λ u. is_some (find id (bads_at u id rest).m)) (mark_bad-low t id score now p e b)
            ∙ find-bads_at (record t { m = set id q t.m }) id rest q (set-Single id q t.m s)
                (find-set id q t.m) (ground (arith, b))
            ∙ ap (λ n. ltb n peer_bad_score_evict) (omega arith)
        | inr b ↦
            ap (λ u. is_some (find id (bads_at u id rest).m)) (mark_bad-high t id score now p e b)
            ∙ ap (λ o. is_some o)
                (bads-missing (record t { m = delete id t.m }) id rest (find-delete id t.m s))
            ∙ ground (arith, b)
      ]

  -- A pointer to a peer that the table no longer holds has no say: it is no author, no healthy node,
  -- and its acceptance changes nothing.
  pub record Powerless (t : PeerTable Signed) (p : Peer Signed) : Type 0 where
    pub no_author : (key : Bytes) → accepts_author t (some p) key ≡ false
    pub no_node : is_healthy_node t (some p) ≡ false
    pub no_accept : (now : ℕ) → accept_inbound t (some p) now ≡ (t, (none, false, false))

  missing-Powerless :
      (t : PeerTable Signed) (p : Peer Signed) → find p.id t.m ≡ none → Powerless t p
  unfolding accepts_author is_healthy_node accept_inbound
  missing-Powerless t p e = record {
    no_author = λ key. ground (arith, e);
    no_node = ground (arith, e);
    no_accept = λ now. rw (accept_inbound, e) refl;
  }

  other-Powerless :
      (t : PeerTable Signed) (p q : Peer Signed)
      → find p.id t.m ≡ some q
      → (q.address == p.address) ≡ false
      → Powerless t p
  unfolding accepts_author is_healthy_node accept_inbound
  other-Powerless t p q e a = record {
    no_author = λ key. ground (arith, e, a);
    no_node = ground (arith, e, a);
    no_accept = λ now. rw (accept_inbound, e, a) refl;
  }

  born_at :
      (t : PeerTable Signed) (id : Bytes) (p : Peer Signed)
      → find id t.m ≡ some p
      → IsTable t
      → p.address < t.next
  born_at t id p found v = ground (arith, find-weight (unborn t.next) id p t.m found, v.born)

  -- When a peer is replaced by a new connection under its id, a pointer to it has no say any more:
  -- `acceptsAuthor` refuses it with every key, `isHealthyNode` denies it, and `acceptInbound` of it
  -- changes nothing and accepts nobody.
  pub add_inbound-Powerless :
      (t : PeerTable Signed) (now : ℕ) (id : Bytes) (conn : Option Connection) (p q : Peer Signed)
      → IsTable t
      → p.id ≡ id
      → (add_inbound t now id conn).1 ≡ (some q, true, some p)
      → Powerless (add_inbound t now id conn).0 p
  unfolding add_inbound put_new new_peer
  add_inbound-Powerless t now id conn p q v named h = elim (Option-cases (find id t.m)) [
    | inl e ↦ ground (arith, h, e)
    | inr (o, e) ↦ elim (Bool-cases (node_of o || same_conn o.conn conn)) [
      | inl b ↦ ground (arith, h, e, b)
      | inr b ↦
          rw (add_inbound, e, b)
            (let made : Peer Signed = new_peer t.next now id PeerKind.kind_leaf conn none in
              let old : o ≡ p = ground (arith, h, e, b) in
              other-Powerless (record t { m = set id made t.m; next = t.next + 1 }) p made
                (subst (λ k. find k (set id made t.m) ≡ some made) (sym named)
                  (find-set id made t.m))
                (ground (arith, born_at t id o e v, old)))
    ]
  ]
