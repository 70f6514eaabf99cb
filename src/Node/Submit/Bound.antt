-- ===== src/Node/Submit/Bound.antt =====
-- internal/node/community.go: only a peer that is bound to an event's author changes the room.
use mathlib.Core.Bool.{false≢true}
use tonnet_messenger.Base.{
  ℕ, ◌≤◌, ◌≡◌, ◌≢◌, refl, ap, sym, ◌∙◌, subst, Bool, true, false, not, ◌&&◌, Option, none, some,
  arith, length, ◌==◌, Bool-cases, Option-cases, inl, inr, ◌⊎◌, Result, ok, err, fail_if, map_err,
  ok-injective, >>=-eq-ok,
}
use tonnet_messenger.Base.Bytes.{Bytes, equal, equal→eq}
use tonnet_messenger.Base.Dict.{find}
use tonnet_messenger.Community.Types.{Genesis, EventProposal, CommittedEvent}
use tonnet_messenger.Community.Platform.{Platform, IsLawful}
use tonnet_messenger.Community.Validate.{second}
use tonnet_messenger.Community.Sign.{proposal_id, verify_proposal}
use tonnet_messenger.Community.Projection.{Projection, apply}
use tonnet_messenger.Store.Tables.{Code, Failure, Db, CommitResult}
use tonnet_messenger.Store.Commit.{rejecting, find_event_by_id, commit}
use tonnet_messenger.Store.Refinement.Shows.{Tracks}
use tonnet_messenger.Store.Refinement.Sequencer.{commit-Tracks}
use tonnet_messenger.Node.Peers.{
  PeerKind, PeerState, Connection, Peer, PeerTable, node_of, owns, accepts_author,
}
use tonnet_messenger.Node.Submit.{
  Reply, rejection_code, submit_code, commit_unknown, commit_proposal, reply_to, answer_submit,
}

result-cases : {E A : Type 0} (r : Result E A) → ((x : A) × (r ≡ ok x)) ⊎ ((e : E) × (r ≡ err e))
result-cases (ok x) = inl (x, refl)
result-cases (err e) = inr (e, refl)

owns_inv :
    (conn : Option Connection) (key : Bytes)
    → owns conn key ≡ true
    → (k : Connection) × (conn ≡ some k) × (k.public_key ≡ key)
unfolding owns
owns_inv none key h = cc
owns_inv (some k) key h = (k, refl, equal→eq k.public_key key h)

module _ {Signed : Type 0} where
  -- The peer is the one in the table, it is healthy, and it is a node or a member that is connected
  -- under the author's key.
  pub record BoundTo (t : PeerTable Signed) (candidate : Peer Signed) (author_key : Bytes)
      : Type 0 where
    pub peer : Peer Signed
    pub found : find candidate.id t.m ≡ some peer
    pub same : peer.address ≡ candidate.address
    pub healthy : peer.state ≡ PeerState.peer_healthy
    pub owner :
        (peer.kind ≡ PeerKind.kind_node)
        ⊎ ((peer.member ≡ true)
            × (conn : Connection) × (peer.conn ≡ some conn)
            × (conn.public_key ≡ author_key))

  accepts_author-BoundTo :
      (t : PeerTable Signed) (candidate : Peer Signed) (author_key : Bytes)
      → accepts_author t (some candidate) author_key ≡ true
      → BoundTo t candidate author_key
  unfolding accepts_author
  accepts_author-BoundTo t candidate author_key h = elim (Option-cases (find candidate.id t.m)) [
    | inl e ↦ ground (arith, h, e)
    | inr (p, e) ↦ record {
      peer = p;
      found = e;
      same = ground (arith, h, e);
      healthy = ground (arith, h, e);
      owner = elim (Bool-cases (node_of p)) [
        | inl n ↦ inl (ground (arith, n))
        | inr n ↦
            let (conn, connected, key) = owns_inv p.conn author_key (ground (arith, h, e, n)) in
            inr (ground (arith, h, e, n), conn, connected, key)
      ];
    }
  ]

  nobody : (t : PeerTable Signed) (author_key : Bytes) → accepts_author t none author_key ≡ false
  unfolding accepts_author
  nobody t author_key = refl

  BoundTo-accepts_author :
      (t : PeerTable Signed) (peer : Option (Peer Signed)) (author_key : Bytes)
      → accepts_author t peer author_key ≡ true
      → (candidate : Peer Signed) × (peer ≡ some candidate) × BoundTo t candidate author_key
  BoundTo-accepts_author t (some candidate) author_key h =
      (candidate, refl, accepts_author-BoundTo t candidate author_key h)
  BoundTo-accepts_author t none author_key h = absurd (false≢true (sym (nobody t author_key) ∙ h))

module _ (c : Platform) (lawful : IsLawful c) where
  open c use {Blob}

  -- A committed proposal was a duplicate, or moves the projection on.
  commit_unknown-commit :
      (g : Genesis) (room_private : Bytes) (domain_verified : Bool) (db next : Db Blob)
      (p : EventProposal) (now : ℕ) (r : CommitResult)
      → commit_unknown c g room_private domain_verified db p now ≡ ok (next, r)
      → commit c db p room_private now ≡ ok (next, r)
  unfolding commit_unknown
  commit_unknown-commit g room_private domain_verified db next p now r h =
      let (_, _, h₁) =
        >>=-eq-ok (fail_if (not (equal p.room_id g.room_key)) (Failure.reject Code.wrong_room)) _
          h in
      let (_, _, h₂) =
        >>=-eq-ok
          (map_err (λ e. Failure.reject (submit_code e)) (verify_proposal c p g.node_key now)) _
          h₁ in
      let (_, _, h₃) =
        >>=-eq-ok
          (fail_if (not (length p.author_domain == 0) && not domain_verified)
            (Failure.reject Code.invalid_identity_domain))
          _ h₂ in
      h₃

  -- What a proposal did to the tables, with what the code says of it.
  abbrev pub Outcome : Projection → Db Blob → Db Blob → CommitResult → Type 0
  Outcome q db next r =
      ((r.duplicate ≡ true) × (next ≡ db))
      ⊎ ((r.duplicate ≡ false)
          × (after : Projection) × (apply c q r.event ≡ ok after)
          × Tracks c next after)

  commit_proposal-Outcome :
      (g : Genesis) (room_private : Bytes) (domain_verified : Bool) (db next : Db Blob)
      (p : EventProposal) (now : ℕ) (r : CommitResult) (q : Projection)
      → second ≤ now
      → Tracks c db q
      → commit_proposal c g room_private domain_verified db p now ≡ ok (next, r)
      → Outcome q db next r
  unfolding commit_proposal
  commit_proposal-Outcome g room_private domain_verified db next p now r q late t h =
      let (id, _, h₁) = >>=-eq-ok (rejecting Code.malformed_request (proposal_id c p)) _ h in
      let (found, _, h₂) = >>=-eq-ok (find_event_by_id c db id) _ h₁ in settled found h₂
    where
      settled :
          (found : Option CommittedEvent)
          → elim found as (λ _. Result Failure (Db Blob × CommitResult)) [
            | some event ↦ ok (db, record { event = event; duplicate = true })
            | none ↦ commit_unknown c g room_private domain_verified db p now
          ]
            ≡ ok (next, r)
          → Outcome q db next r
      settled (some event) k =
          let same : (db, record { event = event; duplicate = true }) ≡ (next, r) =
            ok-injective k in
          inl (
            ap (λ (y : Db Blob × CommitResult). y.1.duplicate) (sym same),
            ap (λ (y : Db Blob × CommitResult). y.0) (sym same),
          )
      settled none k =
          commit-Tracks c lawful db next q p room_private now r late t
            (commit_unknown-commit g room_private domain_verified db next p now r k)

  -- The tables stay and nothing is accepted, or the peer is bound to the author of an event that is
  -- accepted and that the projection applies too.
  pub data Answered {Signed : Type 0} (t : PeerTable Signed) (peer : Option (Peer Signed))
      (author_key : Bytes) (q : Projection) (db : Db Blob) : Db Blob × Reply → Type 0 where
    unchanged :
        (reply : Reply)
        → ((e : CommittedEvent) → reply ≢ Reply.submit_accepted e)
        → Answered t peer author_key q db (db, reply)
    accepted :
        (candidate : Peer Signed) (next : Db Blob) (e : CommittedEvent) (after : Projection)
        → peer ≡ some candidate
        → BoundTo t candidate author_key
        → apply c q e ≡ ok after
        → Tracks c next after
        → Answered t peer author_key q db (next, Reply.submit_accepted e)

  Outcome-Answered :
      {Signed : Type 0} (t : PeerTable Signed) (candidate : Peer Signed) (author_key : Bytes)
      (q : Projection) (db next : Db Blob) (r : CommitResult)
      → BoundTo t candidate author_key
      → Outcome q db next r
      → Answered t (some candidate) author_key q db (next, reply_to r)
  Outcome-Answered t candidate author_key q db next r b (inl (old, same)) =
      subst (λ d. Answered t (some candidate) author_key q db (d, reply_to r)) (sym same)
        (rw old (unchanged (Reply.submit_duplicate r.event) (λ e h. cc)))
  Outcome-Answered t candidate author_key q db next r b (inr (new, after, applied, tracks)) =
      rw new (accepted candidate next r.event after refl b applied tracks)

  -- On a platform that keeps its laws, at a time of one second or later, when the sequencer's
  -- tables track a projection, `answerSubmit` either leaves the tables as they are and accepts
  -- nothing, or the peer is the healthy one that the peer table holds, a node or a member that is
  -- connected under the proposal's author key, and the projection applies the event that is
  -- accepted and the new tables track what it gives.
  pub answer_submit-Answered :
      {Signed : Type 0} (g : Genesis) (room_private : Bytes) (domain_verified : Bool)
      (t : PeerTable Signed) (peer : Option (Peer Signed)) (db : Db Blob) (proposal : EventProposal)
      (now : ℕ) (q : Projection)
      → second ≤ now
      → Tracks c db q
      → Answered t peer proposal.author_key q db
          (answer_submit c g room_private domain_verified t peer db proposal now)
  unfolding answer_submit
  answer_submit-Answered g room_private domain_verified t peer db proposal now q late v =
      elim (Bool-cases (accepts_author t peer proposal.author_key)) [
        | inr b ↦
            rw (answer_submit, b)
              (unchanged (Reply.submit_rejected Code.permission_denied) (λ e h. cc))
        | inl b ↦
            let (candidate, named, bound) = BoundTo-accepts_author t peer proposal.author_key b in
            elim (result-cases (commit_proposal c g room_private domain_verified db proposal now)) [
              | inr (f, h) ↦
                  rw (answer_submit, b, h)
                    (unchanged (Reply.submit_rejected (rejection_code f)) (λ e k. cc))
              | inl ((next, r), h) ↦
                  rw (answer_submit, b, h)
                    (subst (λ o. Answered t o proposal.author_key q db (next, reply_to r))
                      (sym named)
                      (Outcome-Answered t candidate proposal.author_key q db next r bound (
                        commit_proposal-Outcome g room_private domain_verified db next proposal now
                          r q late v h)))
            ]
      ]
