-- ===== src/Store/Refinement/Commit.antt =====
-- The sequencer implements the projection: an event that `Store.Commit` makes is one that every
-- client's and relay's projection at the same head accepts, and the two stay in step.
use tonnet_messenger.Base.{
  ℕ, ◌+◌, ◌≡◌, refl, ap, sym, ◌∙◌, subst, false, not, ◌||◌, List, length, arith, ◌==◌, some, ok,
  fail_if, or_err, map_err, ok-injective, >>=-eq-ok, fail_if-eq-ok, or_err-eq-ok, map_err-eq-ok,
  not-eq-false,
}
use mathlib.Core.Option
use mathlib.Core.Path.{subst₂}
use tonnet_messenger.Base.Bytes.{Bytes, equal, equal→eq, bytes_ordered}
use tonnet_messenger.Community.Types.{Genesis, RoomState, EventProposal, CommittedEvent}
use tonnet_messenger.Community.Platform.{Platform, IsLawful, private_key_size}
use tonnet_messenger.Community.Sign.{unix, verify_proposal, sign_commit}
use tonnet_messenger.Store.Refinement.Record.{Saved, state_tx-raw, decode-encode_state}
use tonnet_messenger.Store.Tables.{Code, Failure, StateRow, Head, Db, CommitResult}
use tonnet_messenger.Store.Sql.{expire_nonces, live_nonce}
use tonnet_messenger.Store.Commit.{
  rejecting, verification_code, authorize, genesis_tx, state_tx, projected_state, record_commit,
  commit_new,
}
use tonnet_messenger.Store.Refinement.Shows.{Shows}

module _ (c : Platform) where
  open c use {Blob, public}

  abbrev pub fresh_at : Db Blob → ℕ → Db Blob
  fresh_at db now = record db { nonces = expire_nonces (unix now) db.nonces }

  -- What an accepted new commit went through.
  pub record Committed (db : Db Blob) (p : EventProposal) (k : Bytes) (now : ℕ) (id : Bytes)
      (raw : Blob) (db' : Db Blob) (e : CommittedEvent) : Type 0 where
    pub genesis : Genesis
    pub genesis_hash : Bytes
    pub state : RoomState
    pub head : Head
    pub found : genesis_tx c db ≡ ok (genesis, genesis_hash)
    pub same_room : p.room_id ≡ genesis.room_key
    pub verified : verify_proposal c p genesis.node_key now ≡ ok tt
    pub unused : live_nonce p.author_key p.nonce (unix now) (fresh_at db now).nonces ≡ false
    pub loaded : state_tx c db ≡ ok state
    pub permitted : authorize (fresh_at db now) genesis state p ≡ ok tt
    pub at_head : db.head ≡ some head
    pub signed : sign_commit c k p (head.seqno + 1) head.hash now ≡ ok e
    pub recorded : record_commit c (fresh_at db now) genesis k now id raw e ≡ ok db'

  genesis_tx_fresh : (db : Db Blob) (now : ℕ) → genesis_tx c (fresh_at db now) ≡ genesis_tx c db
  unfolding genesis_tx
  genesis_tx_fresh db now = refl

  state_tx_fresh : (db : Db Blob) (now : ℕ) → state_tx c (fresh_at db now) ≡ state_tx c db
  unfolding state_tx
  state_tx_fresh db now = refl

  pub commit_new-Committed :
      (db db' : Db Blob) (p : EventProposal) (k : Bytes) (now : ℕ) (id : Bytes) (raw : Blob)
      (r : CommitResult)
      → commit_new c db p k now id raw ≡ ok (db', r)
      → Committed db p k now id raw db' r.event
  unfolding commit_new
  commit_new-Committed db db' p k now id raw r h =
      let (x, found, h₁) = >>=-eq-ok (rejecting Code.persistence_failure (genesis_tx c db)) _ h in
      let g = x.0 in
      let (_, room, h₂) =
        >>=-eq-ok (fail_if (not (equal p.room_id g.room_key)) (Failure.reject Code.wrong_room)) _
          h₁ in
      let (_, _, h₃) =
        >>=-eq-ok
          (fail_if (not (length k == private_key_size) || not (equal (public k) g.room_key))
            (Failure.reject Code.persistence_failure))
          _ h₂ in
      let (_, verified, h₄) =
        >>=-eq-ok (map_err verification_code (verify_proposal c p g.node_key now)) _ h₃ in
      let (_, unused, h₅) =
        >>=-eq-ok
          (fail_if (live_nonce p.author_key p.nonce (unix now) (expire_nonces (unix now) db.nonces))
            (Failure.reject Code.reused_nonce))
          _ h₄ in
      let (state, loaded, h₆) =
        >>=-eq-ok (rejecting Code.persistence_failure (state_tx c (fresh_at db now))) _ h₅ in
      let (_, permitted, h₇) = >>=-eq-ok (authorize (fresh_at db now) g state p) _ h₆ in
      let (head, at_head, h₈) =
        >>=-eq-ok (or_err db.head (Failure.reject Code.persistence_failure)) _ h₇ in
      let (e, signed, h₉) =
        >>=-eq-ok
          (rejecting Code.persistence_failure (sign_commit c k p (head.seqno + 1) head.hash now)) _
          h₈ in
      let (after, recorded, done) =
        >>=-eq-ok (record_commit c (fresh_at db now) g k now id raw e) _ h₉ in
      let same_event : e ≡ r.event = ap (λ y. y.1.event) (ok-injective done) in
      let same_db : after ≡ db' = ap (λ y. y.0) (ok-injective done) in
      record {
        genesis = g;
        genesis_hash = x.1;
        state = state;
        head = head;
        found = map_err-eq-ok _ (genesis_tx c db) found;
        same_room = equal→eq p.room_id g.room_key (not-eq-false _ (fail_if-eq-ok _ _ room));
        verified = map_err-eq-ok verification_code (verify_proposal c p g.node_key now) verified;
        unused = fail_if-eq-ok _ _ unused;
        loaded =
            sym (state_tx_fresh db now) ∙ map_err-eq-ok _ (state_tx c (fresh_at db now)) loaded;
        permitted = permitted;
        at_head = or_err-eq-ok db.head _ at_head;
        signed =
            subst (λ y. sign_commit c k p (head.seqno + 1) head.hash now ≡ ok y) same_event
              (map_err-eq-ok _ (sign_commit c k p (head.seqno + 1) head.hash now) signed);
        recorded =
            subst₂ (λ y d. record_commit c (fresh_at db now) g k now id raw y ≡ ok d) same_event
              same_db recorded;
      }

  pub policy-projected_state :
      (db : Db Blob) (given : RoomState) (row : StateRow Blob)
      → projected_state c db ≡ ok given
      → db.state ≡ some row
      → given.write_policy.anyone_can_write ≡ row.anyone_can_write
  unfolding projected_state
  policy-projected_state db given row h stored = ground arith

  -- Writing the signed snapshot changes nothing that is shown.
  snapshot-Shows :
      (db saved : Db Blob) (messages : List ℕ) (s : RoomState) (k : Bytes) (seqno : ℕ)
      (hash : Bytes)
      → Shows db messages s
      → Saved c db k seqno hash saved
      → Shows saved messages s
  snapshot-Shows db saved messages s k seqno hash v w = rw w.result (record {
    known = v.known;
    admins = v.admins;
    moderators = v.moderators;
    pins = v.pins;
    row = record v.row { revision_seqno = seqno; revision_hash = hash; raw_signed_state = w.raw };
    stored = ap (Option.map _) v.stored;
    name = v.name;
    description = v.description;
    policy = v.policy;
  })

  -- The step from the tables after `applyProjection` to the tables at the end, on both kinds of
  -- events: what is shown, what is kept, and the policy in the signed state.
  pub record Finished (db saved : Db Blob) (messages : List ℕ) (s : RoomState) : Type 0 where
    pub shows : Shows saved messages s
    pub genesis : saved.genesis ≡ db.genesis
    pub head : saved.head ≡ db.head
    pub signed : RoomState
    pub snapshot : state_tx c saved ≡ ok signed
    pub signed_policy : signed.write_policy.anyone_can_write ≡ s.write_policy.anyone_can_write

  pub finish_state :
      IsLawful c
      → (db saved : Db Blob) (messages : List ℕ) (s : RoomState) (k : Bytes) (seqno : ℕ)
        (hash : Bytes)
      → Shows db messages s
      → Saved c db k seqno hash saved
      → Finished db saved messages s
  finish_state lawful db saved messages s k seqno hash v w = record {
    shows = snapshot-Shows db saved messages s k seqno hash v w;
    genesis = ap (λ (d : Db Blob). d.genesis) w.result;
    head = ap (λ (d : Db Blob). d.head) w.result;
    signed = w.signed;
    snapshot =
        state_tx-raw c saved
        ∙ rw (w.result, v.stored, decode-encode_state c lawful w.signed w.raw w.encoded);
    signed_policy =
        ap (λ y. y.anyone_can_write) w.policy
        ∙ policy-projected_state db w.given v.row w.projected v.stored
        ∙ v.policy;
  }
