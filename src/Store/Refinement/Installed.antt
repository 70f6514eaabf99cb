-- ===== src/Store/Refinement/Installed.antt =====
-- `InstallReplicaState` of internal/store/replica.go: a signed state that a relay accepts.
use mathlib.Core.Bool.{xor}
use tonnet_messenger.Base.{
  ℕ, ◌≡◌, refl, ap, sym, ◌∙◌, subst, true, false, not, ◌||◌, List, [], ◌∷◌, arith, ltb, ok,
  >>=-eq-ok, ok-injective, map_err, map_err-eq-ok, fail_if, fail_if-eq-ok, or_err,
}
use mathlib.Core.Option
use tonnet_messenger.Base.Bytes.{Bytes, equal, equal→eq, bytes_ordered}
use tonnet_messenger.Base.Ordered.{sort, nat_ordered}
use tonnet_messenger.Community.Types.{Error, Boxed, RoomState}
use tonnet_messenger.Community.Platform.{Platform, IsLawful}
use tonnet_messenger.Community.Sign.{encode, verify_room_state}
use tonnet_messenger.Community.Projection.Agreed.{xor-eq}
use tonnet_messenger.Community.Projection.{Projection}
use tonnet_messenger.Store.Tables.{Failure, Role, StateRow, Db}
use tonnet_messenger.Store.Sql.{subjects, pinned}
use tonnet_messenger.Store.Commit.{genesis_tx, projected_state, update_state}
use tonnet_messenger.Store.Replica.{
  equal_keys, equal_longs, revision_hash_at, install_replica_state,
}
use tonnet_messenger.Store.Refinement.Shows.{Mirrors, Tracks}
use tonnet_messenger.Store.Refinement.Record.{genesis_tx_cong, decode-encode_state, state_tx-raw}

pub equal_keys→eq : (xs ys : List Bytes) → equal_keys xs ys ≡ true → xs ≡ ys
unfolding equal_keys
equal_keys→eq [] [] h = refl
equal_keys→eq [] (y ∷ ys) h = cc
equal_keys→eq (x ∷ xs) [] h = cc
equal_keys→eq (x ∷ xs) (y ∷ ys) h = ground (arith, equal→eq x y, equal_keys→eq xs ys)

pub equal_longs→eq : (xs ys : List ℕ) → equal_longs xs ys ≡ true → xs ≡ ys
unfolding equal_longs
equal_longs→eq [] [] h = refl
equal_longs→eq [] (y ∷ ys) h = cc
equal_longs→eq (x ∷ xs) [] h = cc
equal_longs→eq (x ∷ xs) (y ∷ ys) h = ground (arith, equal_longs→eq xs ys)

-- The fields that an installed state shares with the projected one.
pub record Agrees (s t : RoomState) : Type 0 where
  pub name : s.name ≡ t.name
  pub description : s.description ≡ t.description
  pub policy : s.write_policy.anyone_can_write ≡ t.write_policy.anyone_can_write
  pub admins : s.admins ≡ t.admins
  pub moderators : s.moderators ≡ t.moderators
  pub pinned_messages : s.pinned_messages ≡ t.pinned_messages

Agrees-intro :
    (s t : RoomState)
    → (not (equal s.name t.name)
        || not (equal s.description t.description)
        || xor s.write_policy.anyone_can_write t.write_policy.anyone_can_write
        || not (equal_keys s.admins t.admins)
        || not (equal_keys s.moderators t.moderators)
        || not (equal_longs s.pinned_messages t.pinned_messages))
      ≡ false
    → Agrees s t
Agrees-intro s t h = record {
  name = ground (arith, h, equal→eq s.name t.name);
  description = ground (arith, h, equal→eq s.description t.description);
  policy =
      ground (arith, h, xor-eq s.write_policy.anyone_can_write t.write_policy.anyone_can_write);
  admins = ground (arith, h, equal_keys→eq s.admins t.admins);
  moderators = ground (arith, h, equal_keys→eq s.moderators t.moderators);
  pinned_messages = ground (arith, h, equal_longs→eq s.pinned_messages t.pinned_messages);
}

module _ (c : Platform) where
  open c use {Blob}

  -- What `projectedState` reads is what the tables show.
  projected_state-Agrees :
      (db : Db Blob) (q : Projection) (t : RoomState)
      → Mirrors c db q
      → projected_state c db ≡ ok t
      → Agrees t q.state
  unfolding projected_state
  projected_state-Agrees db q t m h =
      let v = m.shows in
      let made : t ≡ record {
        room_id = q.genesis.room_key;
        revision_seqno = 0;
        revision_hash = [];
        name = v.row.name;
        description = v.row.description;
        write_policy = record { anyone_can_write = v.row.anyone_can_write };
        admins = sort (subjects Role.admin db.roles);
        moderators = sort (subjects Role.moderator db.roles);
        pinned_messages = sort (pinned db.pins);
        signature = [];
      } =
        ground (arith, h, m.genesis, v.stored) in
      rw made (record {
        name = v.name;
        description = v.description;
        policy = v.policy;
        admins = v.admins.sorted;
        moderators = v.moderators.sorted;
        pinned_messages = v.pins.sorted;
      })

  Agrees-trans : (r s t : RoomState) → Agrees r s → Agrees s t → Agrees r t
  Agrees-trans r s t a b = record {
    name = a.name ∙ b.name;
    description = a.description ∙ b.description;
    policy = a.policy ∙ b.policy;
    admins = a.admins ∙ b.admins;
    moderators = a.moderators ∙ b.moderators;
    pinned_messages = a.pinned_messages ∙ b.pinned_messages;
  }

  abbrev installed : Db Blob → RoomState → Blob → Db Blob
  installed db state raw =
      update_state
        (λ r. record {
          revision_seqno = state.revision_seqno;
          revision_hash = state.revision_hash;
          raw_signed_state = raw;
          name = state.name;
          description = state.description;
          anyone_can_write = state.write_policy.anyone_can_write;
        })
        db

  -- What an installation went through.
  install_replica_state-inv :
      (db db' : Db Blob) (state : RoomState)
      → install_replica_state c db state ≡ ok db'
      → (t : RoomState) × (raw : Blob) × (verify_room_state c state ≡ ok tt)
        × (projected_state c db ≡ ok t)
        × Agrees state t
        × (encode c (Boxed.state state) ≡ ok raw)
        × (db' ≡ installed db state raw)
  unfolding install_replica_state
  install_replica_state-inv db db' state h =
      let (_, verified, h₁) =
        >>=-eq-ok (map_err Failure.community (verify_room_state c state)) _ h in
      let (g, _, h₂) = >>=-eq-ok (genesis_tx c db) _ h₁ in
      let (_, _, h₃) =
        >>=-eq-ok
          (fail_if (not (equal state.room_id g.0.room_key)) (Failure.community Error.wrong_room)) _
          h₂ in
      let (head, _, h₄) = >>=-eq-ok (or_err db.head Failure.no_rows) _ h₃ in
      let (_, _, h₅) =
        >>=-eq-ok (fail_if (ltb head.seqno state.revision_seqno) Failure.state_ahead) _ h₄ in
      let (expected, _, h₆) = >>=-eq-ok (revision_hash_at c db g.1 state.revision_seqno) _ h₅ in
      let (_, _, h₇) =
        >>=-eq-ok (fail_if (not (equal state.revision_hash expected)) Failure.revision_mismatch) _
          h₆ in
      let (t, projected, h₈) = >>=-eq-ok (projected_state c db) _ h₇ in
      let (_, same, h₉) =
        >>=-eq-ok
          (fail_if
            (not (equal state.name t.name)
              || not (equal state.description t.description)
              || xor state.write_policy.anyone_can_write t.write_policy.anyone_can_write
              || not (equal_keys state.admins t.admins)
              || not (equal_keys state.moderators t.moderators)
              || not (equal_longs state.pinned_messages t.pinned_messages))
            Failure.projections_disagree)
          _ h₈ in
      let (raw, encoded, done) =
        >>=-eq-ok (map_err Failure.community (encode c (Boxed.state state))) _ h₉ in
      (
        t,
        raw,
        map_err-eq-ok _ (verify_room_state c state) verified,
        projected,
        Agrees-intro state t (fail_if-eq-ok _ _ same),
        map_err-eq-ok _ (encode c (Boxed.state state)) encoded,
        sym (ok-injective done),
      )

  installed-Tracks :
      (lawful : IsLawful c) (db : Db Blob) (q : Projection) (state : RoomState) (raw : Blob)
      → Mirrors c db q
      → Agrees state q.state
      → encode c (Boxed.state state) ≡ ok raw
      → Tracks c (installed db state raw) q
  installed-Tracks lawful db q state raw m a encoded =
      let v = m.shows in
      record {
        mirrors = record {
          shows = record {
            known = v.known;
            admins = v.admins;
            moderators = v.moderators;
            pins = v.pins;
            row = _;
            stored =
                ap
                  (Option.map (λ (r : StateRow Blob). record {
                    revision_seqno = state.revision_seqno;
                    revision_hash = state.revision_hash;
                    raw_signed_state = raw;
                    name = state.name;
                    description = state.description;
                    anyone_can_write = state.write_policy.anyone_can_write;
                  }))
                  v.stored;
            name = a.name;
            description = a.description;
            policy = a.policy;
          };
          genesis_hash = m.genesis_hash;
          genesis = genesis_tx_cong c db (installed db state raw) refl ∙ m.genesis;
          head = m.head;
        };
        signed = state;
        snapshot =
            state_tx-raw c (installed db state raw)
            ∙ rw (v.stored)
                (ap (map_err Failure.community) (decode-encode_state c lawful state raw encoded));
        signed_policy = a.policy;
      }

  -- On a platform that keeps its laws, when `InstallReplicaState` succeeds on tables that mirror a
  -- projection, the installed state passes `RoomState.Verify`, has the name, the description, the
  -- write policy, the roles and the pins of the projected state, and the new tables track the
  -- projection.
  pub install_replica_state-Tracks :
      (lawful : IsLawful c) (db db' : Db Blob) (q : Projection) (state : RoomState)
      → Mirrors c db q
      → install_replica_state c db state ≡ ok db'
      → (verify_room_state c state ≡ ok tt) × Agrees state q.state × Tracks c db' q
  install_replica_state-Tracks lawful db db' q state m h =
      let (t, raw, verified, projected, same, encoded, result) =
        install_replica_state-inv db db' state h in
      let agrees = Agrees-trans state t q.state same (projected_state-Agrees db q t m projected) in
      (
        verified,
        agrees,
        subst (λ d. Tracks c d q) (sym result)
            (installed-Tracks lawful db q state raw m agrees encoded),
      )
