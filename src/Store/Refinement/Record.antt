-- ===== src/Store/Refinement/Record.antt =====
-- What `Commit` writes once the event is signed, taken apart.
use tonnet_messenger.Base.{
  ℕ, ◌+◌, ◌≡◌, ap, sym, not, List, arith, if◌then◌else◌, some, ok, ◌>>=◌, or_err, map_err,
  Option-cases, inl, inr, ok-injective, >>=-eq-ok, or_err-eq-ok, map_err-eq-ok,
}
use mathlib.Core.Option
use tonnet_messenger.Base.Bytes.{Bytes}
use tonnet_messenger.Community.Types.{Boxed, Genesis, RoomState, EventBody, CommittedEvent}
use tonnet_messenger.Community.Platform.{Platform, IsLawful}
use tonnet_messenger.Community.Validate.{nonce_retention}
use tonnet_messenger.Community.Sign.{
  unix, encode, is_message, commit_hash, sign_room_state, decode_room_state,
}
use tonnet_messenger.Community.Sign.RoundTrips.{sign_room_state_inv}
use tonnet_messenger.Store.Tables.{Code, Failure, BodyType, EventRow, NonceRow, Db}
use tonnet_messenger.Store.Sql.{insert_event, insert_nonce}
use tonnet_messenger.Store.Commit.{
  rejecting, body_type, state_changing, apply_projection, update_state, genesis_tx, state_tx,
  projected_state, persist_state_snapshot, event_row, record_commit,
}
use tonnet_messenger.Store.Refinement.Settle.{raw_state}

-- Every body but a message changes the state.
pub state_changing-body_type :
    (body : EventBody) (type : BodyType)
    → body_type body ≡ some type
    → state_changing type ≡ not (is_message body)
unfolding body_type is_message
state_changing-body_type (EventBody.message text) type h = ground arith
state_changing-body_type _ type h = ground arith

module _ (c : Platform) where
  open c use {Blob}

  abbrev pub nonce_row : CommittedEvent → ℕ → NonceRow
  nonce_row e now = record {
    author_key = e.proposal.author_key;
    nonce = e.proposal.nonce;
    accepted_at = unix now;
    expires_at = unix (now + nonce_retention);
  }

  pub record Recorded (db : Db Blob) (g : Genesis) (k : Bytes) (now : ℕ) (id : Bytes) (raw : Blob)
      (e : CommittedEvent) (db' : Db Blob) : Type 0 where
    pub raw_commit : Blob
    pub hash : Bytes
    pub type : BodyType
    pub events : List (EventRow Blob)
    pub projected : Db Blob
    pub saved : Db Blob
    pub nonces : List NonceRow
    pub encoded : encode c (Boxed.commit e) ≡ ok raw_commit
    pub hashed : commit_hash c e ≡ ok hash
    pub typed : body_type e.proposal.body ≡ some type
    pub inserted : insert_event (event_row c e id hash type raw raw_commit) db.events ≡ ok events
    pub applied :
        apply_projection (record db { events = events }) g e raw_commit e.proposal.body
        ≡ ok projected
    pub snapshot :
        (if state_changing type
          then rejecting Code.persistence_failure
              (persist_state_snapshot c projected k e.seqno hash)
          else ok projected)
        ≡ ok saved
    pub kept : insert_nonce (nonce_row e now) saved.nonces ≡ ok nonces
    pub result : db' ≡ record saved {
      nonces = nonces;
      head = Option.map (λ h. record { seqno = e.seqno; hash = hash }) saved.head;
    }

  pub record_commit-Recorded :
      (db db' : Db Blob) (g : Genesis) (k : Bytes) (now : ℕ) (id : Bytes) (raw : Blob)
      (e : CommittedEvent)
      → record_commit c db g k now id raw e ≡ ok db'
      → Recorded db g k now id raw e db'
  unfolding record_commit
  record_commit-Recorded db db' g k now id raw e h =
      let (raw_commit, encoded, h₁) =
        >>=-eq-ok (rejecting Code.persistence_failure (encode c (Boxed.commit e))) _ h in
      let (hash, hashed, h₂) =
        >>=-eq-ok (rejecting Code.persistence_failure (commit_hash c e)) _ h₁ in
      let (type, typed, h₃) =
        >>=-eq-ok (or_err (body_type e.proposal.body) (Failure.reject Code.unsupported_event)) _
          h₂ in
      let row : EventRow Blob = event_row c e id hash type raw raw_commit in
      let (events, inserted, h₄) =
        >>=-eq-ok (rejecting Code.persistence_failure (insert_event row db.events)) _ h₃ in
      let inside : Db Blob = record db { events = events } in
      let (projected, applied, h₅) =
        >>=-eq-ok (apply_projection inside g e raw_commit e.proposal.body) _ h₄ in
      let (saved, snapshot, h₆) =
        >>=-eq-ok
          (if state_changing type
            then rejecting Code.persistence_failure
                (persist_state_snapshot c projected k e.seqno hash)
            else ok projected)
          _ h₅ in
      let (nonces, kept, done) =
        >>=-eq-ok (rejecting Code.persistence_failure (insert_nonce (nonce_row e now) saved.nonces))
          _ h₆ in
      record {
        raw_commit = raw_commit;
        hash = hash;
        type = type;
        events = events;
        projected = projected;
        saved = saved;
        nonces = nonces;
        encoded = map_err-eq-ok _ (encode c (Boxed.commit e)) encoded;
        hashed = map_err-eq-ok _ (commit_hash c e) hashed;
        typed = or_err-eq-ok (body_type e.proposal.body) _ typed;
        inserted = map_err-eq-ok _ (insert_event row db.events) inserted;
        applied = applied;
        snapshot = snapshot;
        kept = map_err-eq-ok _ (insert_nonce (nonce_row e now) saved.nonces) kept;
        result = sym (ok-injective done);
      }

  -- The snapshot that a state-changing event leaves in the row of the state.
  pub record Saved (db : Db Blob) (k : Bytes) (seqno : ℕ) (hash : Bytes) (saved : Db Blob)
      : Type 0 where
    pub given : RoomState
    pub signed : RoomState
    pub raw : Blob
    pub projected : projected_state c db ≡ ok given
    pub policy : signed.write_policy ≡ given.write_policy
    pub encoded : encode c (Boxed.state signed) ≡ ok raw
    pub result :
        saved
        ≡ update_state
            (λ r. record r { revision_seqno = seqno; revision_hash = hash; raw_signed_state = raw })
            db

  pub persist-Saved :
      (db saved : Db Blob) (k : Bytes) (seqno : ℕ) (hash : Bytes)
      → persist_state_snapshot c db k seqno hash ≡ ok saved
      → Saved db k seqno hash saved
  unfolding persist_state_snapshot
  persist-Saved db saved k seqno hash h =
      let (given, projected, h₁) = >>=-eq-ok (projected_state c db) _ h in
      let revised : RoomState = record given { revision_seqno = seqno; revision_hash = hash } in
      let (signed, sealed, h₂) =
        >>=-eq-ok (map_err Failure.community (sign_room_state c k revised)) _ h₁ in
      let (raw, encoded, done) =
        >>=-eq-ok (map_err Failure.community (encode c (Boxed.state signed))) _ h₂ in
      let (_, _, _, _, _, e) =
        sign_room_state_inv c k revised signed
          (map_err-eq-ok _ (sign_room_state c k revised) sealed) in
      record {
        given = given;
        signed = signed;
        raw = raw;
        projected = projected;
        policy = ap (λ s. s.write_policy) e;
        encoded = map_err-eq-ok _ (encode c (Boxed.state signed)) encoded;
        result = sym (ok-injective done);
      }

  pub genesis_tx_cong :
      (db db' : Db Blob) → db'.genesis ≡ db.genesis → genesis_tx c db' ≡ genesis_tx c db
  unfolding genesis_tx
  genesis_tx_cong db db' e = ground arith

  -- `stateTx` reads nothing but the signed blob.
  pub state_tx-raw :
      (db : Db Blob)
      → state_tx c db ≡ (do
        raw ← or_err (raw_state db) Failure.no_rows
        map_err Failure.community (decode_room_state c raw))
  unfolding state_tx
  state_tx-raw db = elim (Option-cases db.state) [ inl e ↦ rw e | inr (r, e) ↦ rw e ]

  pub state_tx_cong :
      (db db' : Db Blob) → raw_state db' ≡ raw_state db → state_tx c db' ≡ state_tx c db
  state_tx_cong db db' e = rw (state_tx-raw db', state_tx-raw db, e)

  pub decode-encode_state :
      (lawful : IsLawful c) (s : RoomState) (raw : Blob)
      → encode c (Boxed.state s) ≡ ok raw
      → decode_room_state c raw ≡ ok s
  unfolding encode decode_room_state
  decode-encode_state lawful s raw h =
      let (rest, parsed, empty) =
        lawful.parse_state-serialize s raw (or_err-eq-ok (c.serialize (Boxed.state s)) _ h) in
      rw (parsed, empty)
