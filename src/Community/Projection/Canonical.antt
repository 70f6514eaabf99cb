-- ===== src/Community/Projection/Canonical.antt =====
-- The invariant of a projection, from `NewProjection` of internal/community/projection.go through
-- every `Apply`.
use tonnet_messenger.Base.{
  ℕ, ◌+◌, ◌≤◌, ◌≡◌, refl, ap, subst, true, false, ◌||◌, List, [], arith, length, ltb, ◌==◌,
  Bool-cases, inl, inr, ok, >>=-eq-ok, ok-injective, if◌then◌else◌,
}
use tonnet_messenger.Base.Bytes.{Bytes, bytes_ordered}
use tonnet_messenger.Base.Ordered.{contains, nat_ordered}
use tonnet_messenger.Community.Types.{Boxed, Genesis, RoomState, CommittedEvent}
use tonnet_messenger.Community.Platform.{Platform, IsLawful, key_size, hash_size}
use tonnet_messenger.Community.Canonical.{canonical_keys-elim}
use tonnet_messenger.Community.Validate.{
  max_moderators, canonical_keys, max_initial_admins, validate_metadata, validate_genesis,
}
use tonnet_messenger.Community.Sign.{
  is_message, commit_hash, hash_boxed, encode, verify_genesis, genesis_hash,
}
use tonnet_messenger.Community.Projection.{
  Projection, add_message, apply_projected_state_body, apply, new_projection,
}
use tonnet_messenger.Community.Projection.Steps.{Accepts, apply-Accepts, settle}
use tonnet_messenger.Community.Projection.RoleLists.{IsRoleList, IsPinList}
use tonnet_messenger.Community.Projection.Invariant.{IsCanonical}
use tonnet_messenger.Community.Projection.Bodies.{body-IsCanonical, validate_body_of_verify}

pub record IsValid (p : Projection) : Type 0 where
  pub canonical : IsCanonical p.genesis.room_key p.messages p.state
  pub hashed : length p.state.revision_hash ≡ hash_size
  pub positive : contains 0 p.messages ≡ false
  pub reached : p.state.revision_seqno ≤ p.head_seq

pub contains-add_message :
    (n id : ℕ) (messages : List ℕ)
    → contains n (add_message id messages) ≡ (id == n || contains n messages)
unfolding contains
contains-add_message n id messages = elim (Bool-cases (contains id messages)) [
  | inl e ↦ rw e (ground (arith, e))
  | inr e ↦ rw e (ground arith)
]

add_message-IsPinList :
    (id : ℕ) (messages pins : List ℕ)
    → IsPinList messages pins
    → IsPinList (add_message id messages) pins
add_message-IsPinList id messages pins v = record {
  sorted = v.sorted;
  bounded = v.bounded;
  known = λ n h. ground (arith, contains-add_message n id messages, v.known n h);
}

abbrev message_settled : Projection → CommittedEvent → Bytes → Projection
message_settled p e hash = record p {
  head_seq = e.seqno;
  head_hash = hash;
  messages = if ltb 0 e.message_id then add_message e.message_id p.messages else p.messages;
}

message_settled-IsValid :
    (p : Projection) (e : CommittedEvent) (hash : Bytes)
    → IsValid p
    → e.seqno ≡ p.head_seq + 1
    → IsValid (message_settled p e hash)
message_settled-IsValid p e hash v f = elim (Bool-cases (ltb 0 e.message_id)) [
  | inl t ↦ rw t (record {
    canonical = record {
      admins = v.canonical.admins;
      moderators = v.canonical.moderators;
      pins = add_message-IsPinList e.message_id p.messages _ v.canonical.pins;
      metadata = v.canonical.metadata;
      identified = v.canonical.identified;
    };
    hashed = v.hashed;
    positive = ground (arith, contains-add_message 0 e.message_id p.messages, v.positive);
    reached = omega (arith, v.reached);
  })
  | inr t ↦ rw t (record {
    canonical = v.canonical;
    hashed = v.hashed;
    positive = v.positive;
    reached = omega (arith, v.reached);
  })
]

abbrev state_settled : Projection → CommittedEvent → Bytes → RoomState → Projection
state_settled p e hash next = record p {
  head_seq = e.seqno;
  head_hash = hash;
  state = record next { revision_seqno = e.seqno; revision_hash = hash };
}

state_settled_inv :
    (p q : Projection) (e : CommittedEvent) (hash : Bytes)
    → is_message e.proposal.body ≡ false
    → settle p e hash ≡ ok q
    → (next : RoomState) × (apply_projected_state_body p.genesis.room_key p.state p.messages
          e.proposal.body
        ≡ ok next)
      × (q ≡ state_settled p e hash next)
unfolding settle
state_settled_inv p q e hash m h = ground arith

state_settled-IsValid :
    (p : Projection) (e : CommittedEvent) (hash : Bytes) (next : RoomState)
    → IsValid p
    → e.seqno ≡ p.head_seq + 1
    → length hash ≡ hash_size
    → IsCanonical p.genesis.room_key p.messages next
    → IsValid (state_settled p e hash next)
state_settled-IsValid p e hash next v f size w = record {
  canonical = record {
    admins = w.admins;
    moderators = w.moderators;
    pins = w.pins;
    metadata = w.metadata;
    identified = w.identified;
  };
  hashed = size;
  positive = v.positive;
  reached = omega arith;
}

genesis_inv :
    (c : Platform) (g : Genesis) (now : ℕ)
    → verify_genesis c g now ≡ ok tt
    → (length g.room_key ≡ key_size)
      × (validate_metadata g.name g.description ≡ ok tt)
      × (length g.initial_admins ≤ max_initial_admins)
      × (canonical_keys g.initial_admins ≡ true)
      × (contains g.room_key g.initial_admins ≡ false)
unfolding verify_genesis validate_genesis
genesis_inv c g now h = ground arith

no_roles : (room_key : Bytes) → IsRoleList max_moderators room_key []
unfolding contains
no_roles room_key = record { sorted = tt; sized = tt; bounded = omega arith; unowned = refl }

no_pins : IsPinList [] []
unfolding contains
no_pins = record { sorted = tt; bounded = omega arith; known = λ id h. cc }

no_messages : contains {A = ℕ} 0 [] ≡ false
unfolding contains
no_messages = refl

module _ (c : Platform) (lawful : IsLawful c) where
  length-hash_boxed :
      (v : Boxed) (hash : Bytes) → hash_boxed c v ≡ ok hash → length hash ≡ hash_size
  unfolding hash_boxed
  length-hash_boxed v hash h =
      let (raw, _, e) = >>=-eq-ok (encode c v) _ h in
      cc (ap length (ok-injective e), lawful.length-sha256 raw)

  settle-IsValid :
      (p q : Projection) (e : CommittedEvent) (hash : Bytes)
      → IsValid p
      → Accepts c p e
      → length hash ≡ hash_size
      → settle p e hash ≡ ok q
      → IsValid q
  unfolding settle
  settle-IsValid p q e hash v a size h = elim (Bool-cases (is_message e.proposal.body)) [
    | inl m ↦
        let f : message_settled p e hash ≡ q = ground arith in
        subst IsValid f (message_settled-IsValid p e hash v a.follows)
    | inr m ↦
        let (next, b, f) = state_settled_inv p q e hash m h in
        rw f (
          state_settled-IsValid p e hash next v a.follows size (
            body-IsCanonical p.genesis.room_key p.messages p.state next v.canonical e.proposal.body
              (validate_body_of_verify c e p.genesis.room_key p.genesis.node_key a.verified) b))
  ]

  -- On a platform that keeps its laws, applying an event to a valid projection gives a valid
  -- projection: roles and pins in strictly rising order, of the right sizes, within their limits
  -- and without the owner, pins only of known messages, metadata that passes its checks, and a
  -- revision that is not ahead of the head.
  pub apply-IsValid :
      (p q : Projection) (e : CommittedEvent) → IsValid p → apply c p e ≡ ok q → IsValid q
  unfolding commit_hash
  apply-IsValid p q e v h =
      let (a, hash, k, s) = apply-Accepts c p q e h in
      settle-IsValid p q e hash v a (length-hash_boxed (Boxed.commit e) hash k) s

  -- On a platform that keeps its laws, every projection that `NewProjection` returns is valid.
  pub new_projection-IsValid :
      (address now : ℕ) (g : Genesis) (p : Projection)
      → new_projection c address g now ≡ ok p
      → IsValid p
  unfolding new_projection genesis_hash
  new_projection-IsValid address now g p h =
      let (u, verified, h₁) = >>=-eq-ok (verify_genesis c g now) _ h in
      let (hash, hashed, h₂) = >>=-eq-ok (genesis_hash c g) _ h₁ in
      let (size, metadata, few, rising, unowned) = genesis_inv c g now verified in
      let (sorted, sized) = canonical_keys-elim g.initial_admins rising in
      subst IsValid (ok-injective h₂) (record {
        canonical = record {
          admins = record {
            sorted = sorted;
            sized = sized;
            bounded = omega (arith, few);
            unowned = unowned;
          };
          moderators = no_roles g.room_key;
          pins = no_pins;
          metadata = metadata;
          identified = size;
        };
        hashed = length-hash_boxed (Boxed.genesis g) hash hashed;
        positive = no_messages;
        reached = omega arith;
      })
