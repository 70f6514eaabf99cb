-- ===== src/Store/Refinement/Settle.antt =====
-- One accepted event, on both sides: the tables after `applyProjection` show the projection after
-- `Apply`.
use tonnet_messenger.Base.{
  ℕ, ◌≤◌, ◌≡◌, refl, ap, sym, ◌∙◌, subst, Bool, true, false, List, [], ◌∷◌, ◌++◌, arith, ltb,
  Option, none, some, ok, Bool-cases, inl, inr, ok-injective,
}
use mathlib.Core.Option
use mathlib.Core.Bool.{false≢true}
use tonnet_messenger.Base.Bytes.{Bytes, equal, bytes_ordered}
use tonnet_messenger.Base.Ordered.{nat_ordered}
use tonnet_messenger.Community.Types.{Genesis, RoomState, EventProposal, EventBody, CommittedEvent}
use tonnet_messenger.Community.Platform.{Platform}
use tonnet_messenger.Community.Sign.{is_message, verify_commit}
use tonnet_messenger.Community.Projection.{
  Projection, add_message, authorized, projection_authorized, apply_projected_state_body,
}
use tonnet_messenger.Community.Projection.Steps.{settle}
use tonnet_messenger.Community.Projection.Canonical.{contains-add_message}
use tonnet_messenger.Store.Tables.{Role, StateRow, EventRow, MessageRow, NonceRow, Head, Db}
use tonnet_messenger.Store.Sql.{insert_message_row}
use tonnet_messenger.Store.Rows.{contains-message_ids-snoc}
use tonnet_messenger.Store.Commit.{
  allowed, has_role, authorize, insert_message, pin, unpin, grant_role, revoke_role, update_state,
  apply_projection,
}
use tonnet_messenger.Store.Refinement.Shows.{Shows}
use tonnet_messenger.Store.Refinement.Bodies.{apply_projection-Projects, contains-roles}

-- The two switches on the author's rights agree.
pub allowed-authorized :
    (anyone owner admin moderator : Bool) (body : EventBody) (decision : Bool)
    → allowed anyone owner admin moderator body ≡ some decision
    → authorized anyone owner admin moderator body ≡ decision
unfolding allowed
allowed-authorized a o d m (EventBody.message text) x h = cc
allowed-authorized a o d m (EventBody.metadata name description) x h = cc
allowed-authorized a o d m (EventBody.write_policy anyone) x h = cc
allowed-authorized a o d m (EventBody.pin id) x h = cc
allowed-authorized a o d m (EventBody.unpin id) x h = cc
allowed-authorized a o d m (EventBody.admin_grant key) x h = cc
allowed-authorized a o d m (EventBody.admin_revoke key) x h = cc
allowed-authorized a o d m (EventBody.moderator_grant key) x h = cc
allowed-authorized a o d m (EventBody.moderator_revoke key) x h = cc
allowed-authorized a o d m EventBody.unsupported x h = cc

-- A message's number is its event's.
pub message_id_of_verify :
    (c : Platform) (e : CommittedEvent) (room_id node_key : Bytes)
    → verify_commit c e room_id node_key ≡ ok tt
    → is_message e.proposal.body ≡ true
    → (e.message_id ≡ e.seqno) × (1 ≤ e.seqno)
unfolding verify_commit
message_id_of_verify c e room_id node_key h m = ground arith

settle_message :
    (p : Projection) (e : CommittedEvent) (hash : Bytes)
    → is_message e.proposal.body ≡ true
    → e.message_id ≡ e.seqno
    → 1 ≤ e.seqno
    → settle p e hash
      ≡ ok (record p {
        head_seq = e.seqno;
        head_hash = hash;
        messages = add_message e.message_id p.messages;
      })
unfolding settle
settle_message p e hash m f g = let t : ltb 0 e.message_id ≡ true = ground arith in rw (m, t)

settle_state :
    (p : Projection) (e : CommittedEvent) (hash : Bytes) (t : RoomState)
    → is_message e.proposal.body ≡ false
    → apply_projected_state_body p.genesis.room_key p.state p.messages e.proposal.body ≡ ok t
    → settle p e hash
      ≡ ok (record p {
        head_seq = e.seqno;
        head_hash = hash;
        state = record t { revision_seqno = e.seqno; revision_hash = hash };
      })
unfolding settle
settle_state p e hash t m h = rw (m, h)

module _ {Blob : Type 0} where
  authorize_inv :
      (db : Db Blob) (g : Genesis) (state : RoomState) (p : EventProposal)
      → authorize db g state p ≡ ok tt
      → allowed state.write_policy.anyone_can_write
          (equal p.author_key g.room_key)
          (has_role p.author_key Role.admin db.roles)
          (has_role p.author_key Role.moderator db.roles)
          p.body
        ≡ some true
  unfolding authorize
  authorize_inv db g state p h = ground arith

  -- Whom the tables let write, the projection lets write.
  pub authorize-authorized :
      (db : Db Blob) (messages : List ℕ) (s state : RoomState) (g : Genesis) (p : EventProposal)
      → Shows db messages s
      → state.write_policy.anyone_can_write ≡ s.write_policy.anyone_can_write
      → authorize db g state p ≡ ok tt
      → projection_authorized g.room_key s p ≡ true
  unfolding projection_authorized has_role
  authorize-authorized db messages s state g p v w h =
      let a = allowed-authorized _ _ _ _ p.body true (authorize_inv db g state p h) in
      rw
        (
          ← w,
          contains-roles db messages s v true p.author_key,
          contains-roles db messages s v false p.author_key,
        )
        a

  abbrev pub raw_state : Db Blob → Option Blob
  raw_state db = Option.map (λ r. r.raw_signed_state) db.state

  -- What `applyProjection` leaves alone.
  pub record Keeps (db db' : Db Blob) : Type 0 where
    pub genesis : db'.genesis ≡ db.genesis
    pub head : db'.head ≡ db.head
    pub events : db'.events ≡ db.events
    pub nonces : db'.nonces ≡ db.nonces
    pub raw : raw_state db' ≡ raw_state db

  Keeps-refl : (db : Db Blob) → Keeps db db
  Keeps-refl db = record { genesis = refl; head = refl; events = refl; nonces = refl; raw = refl }

  raw-map :
      (f : StateRow Blob → StateRow Blob) (o : Option (StateRow Blob))
      → ((r : StateRow Blob) → (f r).raw_signed_state ≡ r.raw_signed_state)
      → Option.map (λ r. r.raw_signed_state) (Option.map f o)
        ≡ Option.map (λ r. r.raw_signed_state) o
  raw-map f none same = refl
  raw-map f (some r) same = ap some (same r)

  update_state-Keeps :
      (db db' : Db Blob) (f : StateRow Blob → StateRow Blob)
      → ((r : StateRow Blob) → (f r).raw_signed_state ≡ r.raw_signed_state)
      → update_state f db ≡ db'
      → Keeps db db'
  update_state-Keeps db db' f same h = subst (Keeps db) h (record {
    genesis = refl;
    head = refl;
    events = refl;
    nonces = refl;
    raw = raw-map f db.state same;
  })

  pub apply_projection-Keeps :
      (db db' : Db Blob) (g : Genesis) (e : CommittedEvent) (raw : Blob) (body : EventBody)
      → apply_projection db g e raw body ≡ ok db'
      → Keeps db db'
  unfolding apply_projection insert_message pin unpin grant_role revoke_role
  apply_projection-Keeps db db' g e raw (EventBody.message text) h = ground arith
  apply_projection-Keeps db db' g e raw (EventBody.metadata name description) h =
      update_state-Keeps db db' _ (λ r. refl) (ok-injective h)
  apply_projection-Keeps db db' g e raw (EventBody.write_policy anyone) h =
      update_state-Keeps db db' _ (λ r. refl) (ok-injective h)
  apply_projection-Keeps db db' g e raw (EventBody.pin id) h = ground arith
  apply_projection-Keeps db db' g e raw (EventBody.unpin id) h = ground arith
  apply_projection-Keeps db db' g e raw (EventBody.admin_grant key) h = ground arith
  apply_projection-Keeps db db' g e raw (EventBody.admin_revoke key) h = ground arith
  apply_projection-Keeps db db' g e raw (EventBody.moderator_grant key) h = ground arith
  apply_projection-Keeps db db' g e raw (EventBody.moderator_revoke key) h = ground arith
  apply_projection-Keeps db db' g e raw EventBody.unsupported h = cc

  insert_message_inv :
      (db db' : Db Blob) (e : CommittedEvent) (text : Bytes) (raw : Blob)
      → insert_message db e text raw ≡ ok db'
      → (r : MessageRow Blob) × (r.message_id ≡ e.message_id)
        × (db' ≡ record db { messages = db.messages ++ r ∷ [] })
  unfolding insert_message insert_message_row
  insert_message_inv db db' e text raw h = (
    record {
      message_id = e.message_id;
      creation_seqno = e.seqno;
      author_key = e.proposal.author_key;
      nick = e.proposal.author_name;
      text = text;
      client_ts = e.proposal.timestamp;
      committed_at = e.committed_at;
      raw_commit = raw;
    },
    refl,
    ground arith,
  )

  message-Shows :
      (db db' : Db Blob) (messages : List ℕ) (s : RoomState) (e : CommittedEvent) (text : Bytes)
      (raw : Blob)
      → Shows db messages s
      → insert_message db e text raw ≡ ok db'
      → Shows db' (add_message e.message_id messages) s
  message-Shows db db' messages s e text raw v h =
      let (r, id, f) = insert_message_inv db db' e text raw h in
      rw f (record {
        known = λ n.
            contains-message_ids-snoc n r db.messages
            ∙ ground (arith, id, v.known n, contains-add_message n e.message_id messages);
        admins = v.admins;
        moderators = v.moderators;
        pins = v.pins;
        row = v.row;
        stored = v.stored;
        name = v.name;
        description = v.description;
        policy = v.policy;
      })

  -- The other columns of the state row, and the tables of events and nonces, are not shown.
  pub Shows-frame :
      (db : Db Blob) (messages : List ℕ) (s : RoomState) (events : List (EventRow Blob))
      (nonces : List NonceRow) (head : Option Head) (seqno : ℕ) (hash : Bytes)
      → Shows db messages s
      → Shows
          (record db { events = events; nonces = nonces; head = head })
          messages
          (record s { revision_seqno = seqno; revision_hash = hash })
  Shows-frame db messages s events nonces head seqno hash v = record {
    known = v.known;
    admins = v.admins;
    moderators = v.moderators;
    pins = v.pins;
    row = v.row;
    stored = v.stored;
    name = v.name;
    description = v.description;
    policy = v.policy;
  }

  abbrev pub Settles : Db Blob → Projection → CommittedEvent → Bytes → Type 0
  Settles db' p e hash =
      (q : Projection) × (settle p e hash ≡ ok q)
      × Shows db' q.messages q.state
      × (q.genesis ≡ p.genesis)
      × (q.head_seq ≡ e.seqno)
      × (q.head_hash ≡ hash)
      × (is_message e.proposal.body ≡ true → q.state ≡ p.state)

  message_body :
      (db db' : Db Blob) (g : Genesis) (e : CommittedEvent) (raw : Blob) (body : EventBody)
      → is_message body ≡ true
      → apply_projection db g e raw body ≡ ok db'
      → (text : Bytes) × (insert_message db e text raw ≡ ok db')
  unfolding apply_projection is_message
  message_body db db' g e raw (EventBody.message text) m h = (text, h)
  message_body db db' g e raw _ m h = cc

  -- Both sides take an event in step.
  pub apply_projection-Settles :
      (db db' : Db Blob) (p : Projection) (e : CommittedEvent) (raw : Blob) (hash : Bytes)
      → Shows db p.messages p.state
      → (is_message e.proposal.body ≡ true → (e.message_id ≡ e.seqno) × (1 ≤ e.seqno))
      → apply_projection db p.genesis e raw e.proposal.body ≡ ok db'
      → Settles db' p e hash
  apply_projection-Settles db db' p e raw hash v ids h =
      elim (Bool-cases (is_message e.proposal.body)) [
        | inl m ↦
            let (id, positive) = ids m in
            let (text, inserted) = message_body db db' p.genesis e raw e.proposal.body m h in
            (
              record p {
                head_seq = e.seqno;
                head_hash = hash;
                messages = add_message e.message_id p.messages;
              },
              settle_message p e hash m id positive,
              message-Shows db db' p.messages p.state e text raw v inserted,
              refl,
              refl,
              refl,
              λ _. refl,
            )
        | inr m ↦
            let (t, applied, w) =
              apply_projection-Projects db p.messages p.state v p.genesis e raw e.proposal.body db'
                m h in
            (
              record p {
                head_seq = e.seqno;
                head_hash = hash;
                state = record t { revision_seqno = e.seqno; revision_hash = hash };
              },
              settle_state p e hash t m applied,
              Shows-frame db' p.messages t db'.events db'.nonces db'.head e.seqno hash w,
              refl,
              refl,
              refl,
              λ k. absurd (false≢true (sym m ∙ k)),
            )
      ]
