-- ===== src/Store/Refinement/Relay.antt =====
-- A relay's `AppendReplica` implements the projection too.
use mathlib.Core.Option
use tonnet_messenger.Base.{
  ◌+◌, ◌≡◌, refl, ap, sym, ◌∙◌, subst, Bool, true, false, not, ◌||◌, List, arith, ◌==◌, Option,
  none, some, ok, fail_if, or_err, map_err, Bool-cases, inl, inr, ◌⊎◌, ok-injective, >>=-eq-ok,
  map_err-eq-ok, or_err-eq-ok, fail_if-eq-ok,
}
use tonnet_messenger.Base.Bytes.{Bytes, equal, equal→eq}
use tonnet_messenger.Community.Types.{Error, Boxed, Genesis, RoomState, CommittedEvent}
use tonnet_messenger.Community.Platform.{Platform}
use tonnet_messenger.Community.Sign.{encode, proposal_id, verify_commit, commit_hash}
use tonnet_messenger.Community.Projection.{Projection, apply, projection_authorized}
use tonnet_messenger.Community.Projection.Steps.{Accepts, apply-eq_of_Accepts}
use tonnet_messenger.Store.Tables.{Failure, EventRow, Head, Db}
use tonnet_messenger.Store.Sql.{event_at, insert_event, insert_or_ignore_nonce}
use tonnet_messenger.Store.Commit.{
  body_type, authorize, apply_projection, genesis_tx, projected_state, event_row,
}
use tonnet_messenger.Store.Replica.{append_new, append_unless, append_replica, replica_nonce}
use tonnet_messenger.Store.Refinement.Shows.{Mirrors}
use tonnet_messenger.Store.Refinement.Settle.{
  authorize-authorized, Shows-frame, apply_projection-Keeps, apply_projection-Settles,
  message_id_of_verify,
}
use tonnet_messenger.Store.Refinement.Record.{genesis_tx_cong}
use tonnet_messenger.Store.Refinement.Commit.{policy-projected_state}

module _ (c : Platform) where
  open c use {Blob}

  -- What an appended event went through.
  pub record Appended (db : Db Blob) (g : Genesis) (e : CommittedEvent) (hash : Bytes)
      (db' : Db Blob) : Type 0 where
    pub head : Head
    pub state : RoomState
    pub raw : Blob
    pub events : List (EventRow Blob)
    pub after : Db Blob
    pub row : EventRow Blob
    pub row_seqno : row.seqno ≡ e.seqno
    pub inserted : insert_event row db.events ≡ ok events
    pub at_head : db.head ≡ some head
    pub follows : e.seqno ≡ head.seqno + 1
    pub chained : e.previous_hash ≡ head.hash
    pub loaded : projected_state c db ≡ ok state
    pub permitted : authorize db g state e.proposal ≡ ok tt
    pub applied :
        apply_projection (record db { events = events }) g e raw e.proposal.body ≡ ok after
    pub result : db' ≡ record after {
      nonces = insert_or_ignore_nonce (replica_nonce e) after.nonces;
      head = Option.map (λ h. record { seqno = e.seqno; hash = hash }) after.head;
    }

  pub append_new-Appended :
      (db db' : Db Blob) (g : Genesis) (e : CommittedEvent) (hash : Bytes) (new : Bool)
      → append_new c db g e hash ≡ ok (db', new)
      → Appended db g e hash db'
  unfolding append_new
  append_new-Appended db db' g e hash new h =
      let (head, at_head, h₁) = >>=-eq-ok (or_err db.head Failure.no_rows) _ h in
      let (_, next, h₂) =
        >>=-eq-ok
          (fail_if (not (e.seqno == head.seqno + 1) || not (equal e.previous_hash head.hash))
            Failure.gap)
          _ h₁ in
      let (state, loaded, h₃) = >>=-eq-ok (projected_state c db) _ h₂ in
      let (_, permitted, h₄) = >>=-eq-ok (authorize db g state e.proposal) _ h₃ in
      let (id, _, h₅) = >>=-eq-ok (map_err Failure.community (proposal_id c e.proposal)) _ h₄ in
      let (raw_proposal, _, h₆) =
        >>=-eq-ok (map_err Failure.community (encode c (Boxed.proposal e.proposal))) _ h₅ in
      let (raw, _, h₇) = >>=-eq-ok (map_err Failure.community (encode c (Boxed.commit e))) _ h₆ in
      let (type, _, h₈) =
        >>=-eq-ok (or_err (body_type e.proposal.body) (Failure.community Error.invalid_body)) _
          h₇ in
      let (events, inserted, h₉) =
        >>=-eq-ok (insert_event (event_row c e id hash type raw_proposal raw) db.events) _ h₈ in
      let (after, applied, done) =
        >>=-eq-ok (apply_projection (record db { events = events }) g e raw e.proposal.body) _ h₉ in
      let (follows, chained) = next_inv e head (fail_if-eq-ok _ _ next) in
      record {
        head = head;
        state = state;
        raw = raw;
        events = events;
        after = after;
        row = event_row c e id hash type raw_proposal raw;
        row_seqno = refl;
        inserted = inserted;
        at_head = or_err-eq-ok db.head _ at_head;
        follows = follows;
        chained = chained;
        loaded = loaded;
        permitted = permitted;
        applied = applied;
        result = ap (λ y. y.0) (sym (ok-injective done));
      }
    where
      next_inv :
          (x : CommittedEvent) (y : Head)
          → (not (x.seqno == y.seqno + 1) || not (equal x.previous_hash y.hash)) ≡ false
          → (x.seqno ≡ y.seqno + 1) × (x.previous_hash ≡ y.hash)
      next_inv x y n = ground (arith, equal→eq x.previous_hash y.hash)

  append_new-Mirrors :
      (db db' : Db Blob) (q : Projection) (e : CommittedEvent) (hash : Bytes) (new : Bool)
      → Mirrors c db q
      → verify_commit c e q.genesis.room_key q.genesis.node_key ≡ ok tt
      → commit_hash c e ≡ ok hash
      → append_new c db q.genesis e hash ≡ ok (db', new)
      → (next : Projection) × (apply c q e ≡ ok next) × Mirrors c db' next
  append_new-Mirrors db db' q e hash new m verified hashed h =
      let w = append_new-Appended db db' q.genesis e hash new h in
      let at : w.head ≡ record { seqno = q.head_seq; hash = q.head_hash } =
        ground (arith, w.at_head, m.head) in
      let v = m.shows in
      let permitted : projection_authorized q.genesis.room_key q.state e.proposal ≡ true =
        authorize-authorized db q.messages q.state w.state q.genesis e.proposal v
          (policy-projected_state c db w.state v.row w.loaded v.stored ∙ v.policy) w.permitted in
      let accepts : Accepts c q e = record {
        verified = verified;
        follows = w.follows ∙ ap (λ (y : Head). y.seqno + 1) at;
        chained = w.chained ∙ ap (λ (y : Head). y.hash) at;
        permitted = permitted;
      } in
      let inside : Db Blob = record db { events = w.events } in
      let shown =
        Shows-frame db q.messages q.state w.events db.nonces db.head q.state.revision_seqno
          q.state.revision_hash v in
      let (next, settled, shows, genesis, seq, last, _) =
        apply_projection-Settles inside w.after q e w.raw hash shown
          (message_id_of_verify c e q.genesis.room_key q.genesis.node_key verified) w.applied in
      let keeps = apply_projection-Keeps inside w.after q.genesis e w.raw _ w.applied in
      (
        next,
        apply-eq_of_Accepts c q e hash accepts hashed ∙ settled,
        subst (λ d. Mirrors c d next) (sym w.result)
            (record {
              shows =
                  Shows-frame w.after next.messages next.state w.after.events _ _
                    next.state.revision_seqno next.state.revision_hash shows;
              genesis_hash = m.genesis_hash;
              genesis =
                  genesis_tx_cong c db _ keeps.genesis
                  ∙ m.genesis
                  ∙ ap (λ y. ok (y, m.genesis_hash)) (sym genesis);
              head =
                  ap (Option.map (λ h. record { seqno = e.seqno; hash = hash }))
                    (keeps.head ∙ m.head)
                  ∙ ground (arith, seq, last);
            }),
      )

  new_inv :
      (db db' : Db Blob) (g : Genesis) (e : CommittedEvent) (hash : Bytes) (new : Bool)
      → append_new c db g e hash ≡ ok (db', new)
      → new ≡ true
  unfolding append_new
  new_inv db db' g e hash new h = ground arith

  append_unless-Mirrors :
      (found : Option (EventRow Blob)) (db db' : Db Blob) (q : Projection) (e : CommittedEvent)
      (hash : Bytes) (new : Bool)
      → Mirrors c db q
      → verify_commit c e q.genesis.room_key q.genesis.node_key ≡ ok tt
      → commit_hash c e ≡ ok hash
      → append_unless c found db q.genesis e hash ≡ ok (db', new)
      → ((new ≡ false) × (db' ≡ db))
        ⊎ ((new ≡ true) × (next : Projection) × (apply c q e ≡ ok next) × Mirrors c db' next)
  unfolding append_unless
  append_unless-Mirrors none db db' q e hash new m verified hashed h =
      let (next, applied, mirrors) = append_new-Mirrors db db' q e hash new m verified hashed h in
      inr (new_inv db db' q.genesis e hash new h, next, applied, mirrors)
  append_unless-Mirrors (some row) db db' q e hash new m verified hashed h =
      elim (Bool-cases (equal row.commit_hash hash)) [
        | inl same ↦
            let known : ok (db, false) ≡ ok (db', new) = rw same at h in
            inl (ap (λ y. y.1) (sym (ok-injective known)), ap (λ y. y.0) (sym (ok-injective known)))
        | inr other ↦ ground (arith, h, other)
      ]

  -- An `AppendReplica` that succeeds on tables that mirror a projection either reports that the
  -- event is not new and leaves the tables as they were, or reports a new event that the projection
  -- applies too, and the new tables mirror the new projection.
  pub append_replica-Mirrors :
      (db db' : Db Blob) (q : Projection) (e : CommittedEvent) (new : Bool)
      → Mirrors c db q
      → append_replica c db e ≡ ok (db', new)
      → ((new ≡ false) × (db' ≡ db))
        ⊎ ((new ≡ true) × (next : Projection) × (apply c q e ≡ ok next) × Mirrors c db' next)
  unfolding append_replica
  append_replica-Mirrors db db' q e new m h =
      let (stored, found, h₁) = >>=-eq-ok (genesis_tx c db) _ h in
      let same : stored ≡ (q.genesis, m.genesis_hash) = ok-injective (sym found ∙ m.genesis) in
      let (_, verified, h₂) =
        >>=-eq-ok
          (map_err Failure.community (verify_commit c e stored.0.room_key stored.0.node_key)) _
          h₁ in
      let (hash, hashed, h₃) = >>=-eq-ok (map_err Failure.community (commit_hash c e)) _ h₂ in
      append_unless-Mirrors (event_at e.seqno db.events) db db' q e hash new m
        (subst (λ (y : Genesis × Bytes). verify_commit c e y.0.room_key y.0.node_key ≡ ok tt) same
          (map_err-eq-ok _ (verify_commit c e stored.0.room_key stored.0.node_key) verified))
        (map_err-eq-ok _ (commit_hash c e) hashed)
        (subst
          (λ (y : Genesis × Bytes).
            append_unless c (event_at e.seqno db.events) db y.0 e hash ≡ ok (db', new))
          same h₃)
