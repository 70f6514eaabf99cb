-- ===== src/Store/Refinement/Sequencer.antt =====
-- The sequencer's `Commit` implements the projection.
use tonnet_messenger.Base.{
  ℕ, ◌+◌, ◌≤◌, ◌≡◌, refl, ap, sym, ◌∙◌, subst, true, false, not, List, arith, length, if◌then◌else◌,
  Option, none, some, ok, Bool-cases, inl, inr, ◌⊎◌, >>=-eq-ok, ok-injective, map_err-eq-ok,
}
use mathlib.Core.Option
use mathlib.Core.Path.{subst₂}
use tonnet_messenger.Base.Bytes.{Bytes}
use tonnet_messenger.Community.Types.{Boxed, Genesis, RoomState, EventProposal, CommittedEvent}
use tonnet_messenger.Community.Platform.{Platform, IsLawful, key_size}
use tonnet_messenger.Community.Validate.{second, validate_proposal}
use tonnet_messenger.Community.Sign.{
  is_message, encode, proposal_id, verify_proposal_at, verify_commit, sign_commit,
}
use tonnet_messenger.Community.Sign.RoundTrips.{
  verify-sign_commit, verify_proposal_at_of_verify_proposal, sign_commit_inv,
}
use tonnet_messenger.Community.Projection.{Projection, projection_authorized, apply}
use tonnet_messenger.Community.Projection.Steps.{Accepts, apply-eq_of_Accepts}
use tonnet_messenger.Store.Tables.{Code, BodyType, NonceRow, Head, Db, CommitResult}
use tonnet_messenger.Store.Commit.{
  rejecting, state_changing, persist_state_snapshot, record_commit, find_event_by_id, commit_new,
  commit_unless, commit,
}
use tonnet_messenger.Store.Refinement.Shows.{Shows, Tracks}
use tonnet_messenger.Store.Refinement.Settle.{
  authorize-authorized, Shows-frame, apply_projection-Keeps, apply_projection-Settles,
  message_id_of_verify, raw_state,
}
use tonnet_messenger.Store.Refinement.Record.{
  state_changing-body_type, record_commit-Recorded, persist-Saved, genesis_tx_cong, state_tx_cong,
}
use tonnet_messenger.Store.Refinement.Commit.{
  fresh_at, Committed, commit_new-Committed, Finished, finish_state,
}

room_id_size :
    (c : Platform) (p : EventProposal) (node_key : Bytes)
    → verify_proposal_at c p node_key ≡ ok tt
    → length p.room_id ≡ key_size
unfolding verify_proposal_at validate_proposal
room_id_size c p node_key h = ground arith

module _ (c : Platform) (lawful : IsLawful c) where
  open c use {Blob}

  -- The steps of a commit, read at the projection that the tables track.
  record Prepared (db : Db Blob) (q : Projection) (p : EventProposal) (k : Bytes) (now : ℕ)
      (id : Bytes) (raw : Blob) (db' : Db Blob) (e : CommittedEvent) : Type 0 where
    accepts : Accepts c q e
    recorded : record_commit c (fresh_at c db now) q.genesis k now id raw e ≡ ok db'

  prepared :
      (db db' : Db Blob) (q : Projection) (p : EventProposal) (k : Bytes) (now : ℕ) (id : Bytes)
      (raw : Blob) (e : CommittedEvent)
      → second ≤ now
      → Tracks c db q
      → Committed c db p k now id raw db' e
      → Prepared db q p k now id raw db' e
  prepared db db' q p k now id raw e late t w =
      let m = t.mirrors in
      let same : w.genesis ≡ q.genesis = ap (λ x. x.0) (ok-injective (sym w.found ∙ m.genesis)) in
      let at : w.head ≡ record { seqno = q.head_seq; hash = q.head_hash } =
        ground (arith, w.at_head, m.head) in
      let policy : w.state.write_policy.anyone_can_write ≡ q.state.write_policy.anyone_can_write =
        ap (λ (s : RoomState). s.write_policy.anyone_can_write)
          (ok-injective (sym w.loaded ∙ t.snapshot))
        ∙ t.signed_policy in
      let signed : sign_commit c k p (q.head_seq + 1) q.head_hash now ≡ ok e =
        subst (λ (h : Head). sign_commit c k p (h.seqno + 1) h.hash now ≡ ok e) at w.signed in
      let (digest, _, _, _, _, _, shape) =
        sign_commit_inv c k q.head_hash p (q.head_seq + 1) now e signed in
      let verified : verify_proposal_at c p q.genesis.node_key ≡ ok tt =
        subst (λ (g : Genesis). verify_proposal_at c p g.node_key ≡ ok tt) same
          (verify_proposal_at_of_verify_proposal c lawful p w.genesis.node_key now w.verified) in
      let committed : verify_commit c e p.room_id q.genesis.node_key ≡ ok tt =
        verify-sign_commit c lawful k q.head_hash q.genesis.node_key p (q.head_seq + 1) now e signed
          verified (room_id_size c p q.genesis.node_key verified) late in
      let room : p.room_id ≡ q.genesis.room_key =
        w.same_room ∙ ap (λ (g : Genesis). g.room_key) same in
      let permitted : projection_authorized w.genesis.room_key q.state p ≡ true =
        authorize-authorized (fresh_at c db now) q.messages q.state w.state w.genesis p
          (Shows-frame db q.messages q.state db.events _ db.head q.state.revision_seqno
            q.state.revision_hash m.shows)
          policy w.permitted in
      record {
        accepts = record {
          verified = subst (λ r. verify_commit c e r q.genesis.node_key ≡ ok tt) room committed;
          follows = ap (λ (x : CommittedEvent). x.seqno) shape;
          chained = ap (λ (x : CommittedEvent). x.previous_hash) shape;
          permitted =
              subst₂ (λ (g : Genesis) x. projection_authorized g.room_key q.state x ≡ true) same
                (sym (ap (λ (x : CommittedEvent). x.proposal) shape)) permitted;
        };
        recorded =
            subst (λ g. record_commit c (fresh_at c db now) g k now id raw e ≡ ok db') same
              w.recorded;
      }

  finish_message :
      (db projected : Db Blob) (q next : Projection)
      → Tracks c db q
      → raw_state projected ≡ raw_state db
      → next.state ≡ q.state
      → Shows projected next.messages next.state
      → Finished c projected projected next.messages next.state
  finish_message db projected q next t raw same v = record {
    shows = v;
    genesis = refl;
    head = refl;
    signed = t.signed;
    snapshot = state_tx_cong c db projected raw ∙ t.snapshot;
    signed_policy =
        t.signed_policy ∙ ap (λ (s : RoomState). s.write_policy.anyone_can_write) (sym same);
  }

  -- After the snapshot, if there is one.
  finished :
      (db : Db Blob) (q next : Projection) (k : Bytes) (e : CommittedEvent) (hash : Bytes)
      (type : BodyType) (projected saved : Db Blob)
      → Tracks c db q
      → raw_state projected ≡ raw_state db
      → (is_message e.proposal.body ≡ true → next.state ≡ q.state)
      → Shows projected next.messages next.state
      → state_changing type ≡ not (is_message e.proposal.body)
      → (if state_changing type
          then rejecting Code.persistence_failure
              (persist_state_snapshot c projected k e.seqno hash)
          else ok projected)
        ≡ ok saved
      → Finished c projected saved next.messages next.state
  finished db q next k e hash type projected saved t raw same v kind h =
      elim (Bool-cases (is_message e.proposal.body)) [
        | inl m ↦
            let plain : state_changing type ≡ false = kind ∙ ap not m in
            let unchanged : projected ≡ saved = ok-injective (rw plain at h) in
            subst (λ d. Finished c projected d next.messages next.state) unchanged
              (finish_message db projected q next t raw (same m) v)
        | inr m ↦
            let changing : state_changing type ≡ true = kind ∙ ap not m in
            let written : persist_state_snapshot c projected k e.seqno hash ≡ ok saved =
              map_err-eq-ok _ (persist_state_snapshot c projected k e.seqno hash)
                (rw changing at h) in
            finish_state c lawful projected saved next.messages next.state k e.seqno hash v
              (persist-Saved c projected saved k e.seqno hash written)
      ]

  Finished-Tracks :
      (db projected saved db' : Db Blob) (q next : Projection) (nonces : List NonceRow)
      (e : CommittedEvent) (hash : Bytes)
      → Tracks c db q
      → projected.genesis ≡ db.genesis
      → projected.head ≡ db.head
      → Finished c projected saved next.messages next.state
      → next.genesis ≡ q.genesis
      → next.head_seq ≡ e.seqno
      → next.head_hash ≡ hash
      → db' ≡ record saved {
        nonces = nonces;
        head = Option.map (λ h. record { seqno = e.seqno; hash = hash }) saved.head;
      }
      → Tracks c db' next
  Finished-Tracks db projected saved db' q next nonces e hash t g₀ h₀ f g s x result =
      rw result (record {
        mirrors = record {
          shows =
              Shows-frame saved next.messages next.state saved.events nonces _
                next.state.revision_seqno next.state.revision_hash f.shows;
          genesis_hash = t.mirrors.genesis_hash;
          genesis =
              genesis_tx_cong c db _ (f.genesis ∙ g₀)
              ∙ t.mirrors.genesis
              ∙ ap (λ y. ok (y, t.mirrors.genesis_hash)) (sym g);
          head =
              ap (Option.map (λ h. record { seqno = e.seqno; hash = hash }))
                (f.head ∙ h₀ ∙ t.mirrors.head)
              ∙ ground (arith, s, x);
        };
        signed = f.signed;
        snapshot = state_tx_cong c saved _ refl ∙ f.snapshot;
        signed_policy = f.signed_policy;
      })

  commit_new-Tracks :
      (db db' : Db Blob) (q : Projection) (p : EventProposal) (k : Bytes) (now : ℕ) (id : Bytes)
      (raw : Blob) (r : CommitResult)
      → second ≤ now
      → Tracks c db q
      → commit_new c db p k now id raw ≡ ok (db', r)
      → (next : Projection) × (apply c q r.event ≡ ok next) × Tracks c db' next
  commit_new-Tracks db db' q p k now id raw r late t h =
      let e = r.event in
      let w = commit_new-Committed c db db' p k now id raw r h in
      let ready = prepared db db' q p k now id raw e late t w in
      let fresh : Db Blob = fresh_at c db now in
      let x = record_commit-Recorded c fresh db' q.genesis k now id raw e ready.recorded in
      let inside : Db Blob = record fresh { events = x.events } in
      let shown =
        Shows-frame db q.messages q.state x.events fresh.nonces db.head q.state.revision_seqno
          q.state.revision_hash t.mirrors.shows in
      let (next, settled, shows, genesis, seq, hash, same) =
        apply_projection-Settles inside x.projected q e x.raw_commit x.hash shown
          (message_id_of_verify c e q.genesis.room_key q.genesis.node_key ready.accepts.verified)
          x.applied in
      let keeps = apply_projection-Keeps inside x.projected q.genesis e x.raw_commit _ x.applied in
      let kind = state_changing-body_type e.proposal.body x.type x.typed in
      let done =
        finished db q next k e x.hash x.type x.projected x.saved t keeps.raw same shows kind
          x.snapshot in
      (
        next,
        apply-eq_of_Accepts c q e x.hash ready.accepts x.hashed ∙ settled,
        Finished-Tracks db x.projected x.saved db' q next x.nonces e x.hash t keeps.genesis
            keeps.head done genesis seq hash x.result,
      )

  abbrev pub Outcome :
      Db Blob → Db Blob → EventProposal → Bytes → ℕ → Bytes → Blob → CommitResult → Type 0
  Outcome db db' p k now id raw r =
      ((r.duplicate ≡ true) × (db' ≡ db) × (find_event_by_id c db id ≡ ok (some r.event)))
      ⊎ ((find_event_by_id c db id ≡ ok none) × (commit_new c db p k now id raw ≡ ok (db', r)))

  commit_unless-Outcome :
      (found : Option CommittedEvent) (db db' : Db Blob) (p : EventProposal) (k : Bytes) (now : ℕ)
      (id : Bytes) (raw : Blob) (r : CommitResult)
      → find_event_by_id c db id ≡ ok found
      → commit_unless c found db p k now id raw ≡ ok (db', r)
      → Outcome db db' p k now id raw r
  unfolding commit_unless
  commit_unless-Outcome none db db' p k now id raw r f h = inr (f, h)
  commit_unless-Outcome (some e) db db' p k now id raw r f h = inl (
    ap (λ y. y.1.duplicate) (sym (ok-injective h)),
    ap (λ y. y.0) (sym (ok-injective h)),
    f ∙ ap (λ y. ok (some y.1.event)) (ok-injective h),
  )

  -- What a commit that succeeds did.
  pub commit-Outcome :
      (db db' : Db Blob) (p : EventProposal) (k : Bytes) (now : ℕ) (r : CommitResult)
      → commit c db p k now ≡ ok (db', r)
      → (id : Bytes) × (raw : Blob) × (proposal_id c p ≡ ok id)
        × (encode c (Boxed.proposal p) ≡ ok raw)
        × Outcome db db' p k now id raw r
  unfolding commit
  commit-Outcome db db' p k now r h =
      let (raw, encoded, h₁) =
        >>=-eq-ok (rejecting Code.malformed_request (encode c (Boxed.proposal p))) _ h in
      let (id, named, h₂) = >>=-eq-ok (rejecting Code.malformed_request (proposal_id c p)) _ h₁ in
      let (found, looked, h₃) =
        >>=-eq-ok (rejecting Code.persistence_failure (find_event_by_id c db id)) _ h₂ in
      (
        id,
        raw,
        map_err-eq-ok _ (proposal_id c p) named,
        map_err-eq-ok _ (encode c (Boxed.proposal p)) encoded,
        commit_unless-Outcome found db db' p k now id raw r
            (map_err-eq-ok _ (find_event_by_id c db id) looked) h₃,
      )

  pub not_duplicate :
      (db db' : Db Blob) (p : EventProposal) (k : Bytes) (now : ℕ) (id : Bytes) (raw : Blob)
      (r : CommitResult)
      → commit_new c db p k now id raw ≡ ok (db', r)
      → r.duplicate ≡ false
  unfolding commit_new
  not_duplicate db db' p k now id raw r h = ground arith

  -- On a platform that keeps its laws, at a time of one second or later, a `Commit` that succeeds
  -- on tables that track a projection either reports a duplicate and leaves the tables as they
  -- were, or makes an event that is no duplicate, that the projection applies too, and behind which
  -- the new tables track the new projection.
  pub commit-Tracks :
      (db db' : Db Blob) (q : Projection) (p : EventProposal) (k : Bytes) (now : ℕ)
      (r : CommitResult)
      → second ≤ now
      → Tracks c db q
      → commit c db p k now ≡ ok (db', r)
      → ((r.duplicate ≡ true) × (db' ≡ db))
        ⊎ ((r.duplicate ≡ false)
            × (next : Projection) × (apply c q r.event ≡ ok next)
            × Tracks c db' next)
  commit-Tracks db db' q p k now r late t h =
      let (id, raw, _, _, outcome) = commit-Outcome db db' p k now r h in
      elim outcome [
        | inl (duplicate, same, _) ↦ inl (duplicate, same)
        | inr (_, made) ↦
            let (next, applied, tracked) =
              commit_new-Tracks db db' q p k now id raw r late t made in
            inr (not_duplicate db db' p k now id raw r made, next, applied, tracked)
      ]
