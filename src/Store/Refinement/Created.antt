-- ===== src/Store/Refinement/Created.antt =====
-- `Initialize` and `InitializeReplica`: the tables of a new room hold its new projection.
use tonnet_messenger.Base.{
  ℕ, ◌≡◌, refl, ap, sym, ◌∙◌, subst, true, false, not, ◌||◌, List, [], ◌∷◌, ◌++◌, arith, some, ok,
  >>=-eq-ok, ok-injective, map_err, map_err-eq-ok, fail_if, or_err, or_err-eq-ok, ◌>>=◌, length,
  ◌==◌,
}
use mathlib.Core.Option
use tonnet_messenger.Base.Bytes.{Bytes, equal, bytes_ordered}
use tonnet_messenger.Base.Ordered.{contains, sort, sort_onto, Sorted, Distinct}
use tonnet_messenger.Base.Sorting.{sort-eq_of_Sorted, Distinct-snoc}
use tonnet_messenger.Community.Types.{Error, Boxed, Genesis, RoomState}
use tonnet_messenger.Community.Platform.{Platform, IsLawful, key_size, hash_size, private_key_size}
use tonnet_messenger.Community.Canonical.{canonical_keys-elim}
use tonnet_messenger.Community.Validate.{validate_genesis, canonical_keys}
use tonnet_messenger.Community.Sign.{
  zero_256, encode, decode_genesis, decode_room_state, genesis_hash, verify_genesis,
  sign_room_state,
}
use tonnet_messenger.Community.Sign.RoundTrips.{sign_room_state_inv}
use tonnet_messenger.Community.Projection.{Projection, new_projection}
use tonnet_messenger.Store.Tables.{Failure, Role, RoleRow, Db}
use tonnet_messenger.Store.Sql.{subjects, insert_role, message_ids, pinned}
use tonnet_messenger.Store.Rows.{subjects-snoc}
use tonnet_messenger.Store.Commit.{genesis_tx}
use tonnet_messenger.Store.Open.{
  empty_tables, insert_admins, initial_state, insert_genesis, initialize, initialize_replica,
}
use tonnet_messenger.Store.Refinement.Shows.{Shows, Mirrors, Tracks}
use tonnet_messenger.Store.Refinement.Record.{decode-encode_state, state_tx-raw}

-- What the loop over the admins leaves.
record Inserted (keys : List Bytes) (rows out : List RoleRow) : Type 0 where
  admins : subjects Role.admin out ≡ subjects Role.admin rows ++ keys
  moderators : subjects Role.moderator out ≡ subjects Role.moderator rows
  distinct : Distinct (subjects Role.admin out)

insert_role-admin :
    (k room_key : Bytes) (rows out : List RoleRow)
    → Distinct (subjects Role.admin rows)
    → insert_role
        (record { subject_key = k; role = Role.admin; granted_seqno = 0; granted_by = room_key })
        rows
      ≡ ok out
    → Inserted (k ∷ []) rows out
unfolding insert_role
insert_role-admin k room_key rows out d h =
    let row : RoleRow = record {
      subject_key = k;
      role = Role.admin;
      granted_seqno = 0;
      granted_by = room_key;
    } in
    let (new, same) : (contains k (subjects Role.admin rows) ≡ false) × (out ≡ rows ++ row ∷ []) =
      ground (arith, h) in
    let e : subjects Role.admin out ≡ subjects Role.admin rows ++ k ∷ [] =
      ap (subjects Role.admin) same ∙ subjects-snoc Role.admin row rows in
    record {
      admins = e;
      moderators = ap (subjects Role.moderator) same ∙ subjects-snoc Role.moderator row rows;
      distinct = rw e (Distinct-snoc k (subjects Role.admin rows) new d);
    }

append_assoc : (xs ys zs : List Bytes) → (xs ++ ys) ++ zs ≡ xs ++ (ys ++ zs)
append_assoc [] ys zs = refl
append_assoc (x ∷ xs) ys zs = ap (◌∷◌ x) (append_assoc xs ys zs)

append_nil : (xs : List Bytes) → xs ++ [] ≡ xs
append_nil [] = refl
append_nil (x ∷ xs) = ap (◌∷◌ x) (append_nil xs)

insert_admins-Inserted :
    (keys : List Bytes) (room_key : Bytes) (rows out : List RoleRow)
    → Distinct (subjects Role.admin rows)
    → insert_admins keys room_key rows ≡ ok out
    → Inserted keys rows out
unfolding insert_admins
insert_admins-Inserted [] room_key rows out d h = record {
  admins =
      ap (subjects Role.admin) (sym (ok-injective h)) ∙ sym (append_nil (subjects Role.admin rows));
  moderators = ap (subjects Role.moderator) (sym (ok-injective h));
  distinct = subst (λ x. Distinct (subjects Role.admin x)) (ok-injective h) d;
}
insert_admins-Inserted (k ∷ ks) room_key rows out d h =
    let (next, first, h₁) =
      >>=-eq-ok
        (insert_role
          (record { subject_key = k; role = Role.admin; granted_seqno = 0; granted_by = room_key })
          rows)
        _ h in
    let v = insert_role-admin k room_key rows next d first in
    let w = insert_admins-Inserted ks room_key next out v.distinct h₁ in
    record {
      admins =
          w.admins
          ∙ ap (λ x. x ++ ks) v.admins
          ∙ append_assoc (subjects Role.admin rows) (k ∷ []) ks;
      moderators = w.moderators ∙ v.moderators;
      distinct = w.distinct;
    }

module _ (c : Platform) (lawful : IsLawful c) where
  open c use {Blob, public}

  rising : (g : Genesis) (now : ℕ) → verify_genesis c g now ≡ ok tt → Sorted g.initial_admins
  unfolding verify_genesis validate_genesis
  rising g now h =
      let k : canonical_keys g.initial_admins ≡ true = ground (arith, h) in
      (canonical_keys-elim g.initial_admins k).0

  decode-encode_genesis :
      (g : Genesis) (raw : Blob) → encode c (Boxed.genesis g) ≡ ok raw → decode_genesis c raw ≡ ok g
  unfolding encode decode_genesis
  decode-encode_genesis g raw h =
      let (rest, parsed, empty) =
        lawful.parse_genesis-serialize g raw (or_err-eq-ok (c.serialize (Boxed.genesis g)) _ h) in
      rw (parsed, empty)

  -- What `insert_genesis` leaves in empty tables.
  record Started (g : Genesis) (raw_genesis : Blob) (hash : Bytes) (raw_state : Blob) (db : Db Blob)
      : Type 0 where
    shows : Shows db [] (initial_state g hash)
    genesis : genesis_tx c db ≡ ok (g, hash)
    head : db.head ≡ some (record { seqno = 0; hash = zero_256 })
    raw : Option.map (λ r. r.raw_signed_state) db.state ≡ some raw_state

  insert_genesis-Started :
      (g : Genesis) (raw_genesis : Blob) (hash : Bytes) (raw_state : Blob) (db : Db Blob) (now : ℕ)
      → verify_genesis c g now ≡ ok tt
      → encode c (Boxed.genesis g) ≡ ok raw_genesis
      → insert_genesis c empty_tables g raw_genesis hash raw_state ≡ ok db
      → Started g raw_genesis hash raw_state db
  unfolding insert_genesis genesis_tx subjects pinned message_ids contains sort sort_onto
  insert_genesis-Started g raw_genesis hash raw_state db now verified encoded h =
      let (_, _, h₁) =
        >>=-eq-ok
          (fail_if
            (not (length hash == hash_size)
              || not (length g.room_key == key_size)
              || not (length g.node_key == key_size)
              || false
              || false)
            Failure.constraint)
          _ h in
      let (roles, inserted, done) = >>=-eq-ok (insert_admins g.initial_admins g.room_key []) _ h₁ in
      let w = insert_admins-Inserted g.initial_admins g.room_key [] roles tt inserted in
      subst (Started g raw_genesis hash raw_state) (ok-injective done) (record {
        shows = record {
          known = λ id. refl;
          admins = record {
            distinct = w.distinct;
            sorted = ap sort w.admins ∙ sort-eq_of_Sorted g.initial_admins (rising g now verified);
          };
          moderators = record {
            distinct = subst Distinct (sym w.moderators) tt;
            sorted = ap sort w.moderators;
          };
          pins = record { distinct = tt; sorted = refl };
          row = _;
          stored = refl;
          name = refl;
          description = refl;
          policy = refl;
        };
        genesis = rw (decode-encode_genesis g raw_genesis encoded);
        head = refl;
        raw = refl;
      })

  new_projection-made :
      (address : ℕ) (g : Genesis) (now : ℕ) (hash : Bytes)
      → verify_genesis c g now ≡ ok tt
      → genesis_hash c g ≡ ok hash
      → new_projection c address g now
        ≡ ok (record {
          address = address;
          genesis = g;
          state = initial_state g hash;
          head_seq = 0;
          head_hash = zero_256;
          messages = [];
        })
  unfolding new_projection
  new_projection-made address g now hash verified hashed = rw (verified, hashed)

  Started-Mirrors :
      (address : ℕ) (g : Genesis) (raw_genesis : Blob) (hash : Bytes) (raw_state : Blob)
      (db : Db Blob)
      → Started g raw_genesis hash raw_state db
      → Mirrors c db (record {
        address = address;
        genesis = g;
        state = initial_state g hash;
        head_seq = 0;
        head_hash = zero_256;
        messages = [];
      })
  Started-Mirrors address g raw_genesis hash raw_state db w = record {
    shows = w.shows;
    genesis_hash = hash;
    genesis = w.genesis;
    head = w.head;
  }

  -- On a platform that keeps its laws, when `InitializeReplica` succeeds on empty tables,
  -- `NewProjection` succeeds on the same genesis at the same time, and the new tables mirror the
  -- new projection.
  pub initialize_replica-Mirrors :
      (address : ℕ) (g : Genesis) (now : ℕ) (db : Db Blob)
      → initialize_replica c empty_tables g now ≡ ok db
      → (q : Projection) × (new_projection c address g now ≡ ok q) × Mirrors c db q
  unfolding initialize_replica
  initialize_replica-Mirrors address g now db h =
      let (_, verified, h₁) = >>=-eq-ok (map_err Failure.community (verify_genesis c g now)) _ h in
      let (raw, encoded, h₂) =
        >>=-eq-ok (map_err Failure.community (encode c (Boxed.genesis g))) _ h₁ in
      let (hash, hashed, h₃) = >>=-eq-ok (map_err Failure.community (genesis_hash c g)) _ h₂ in
      let (state, _, h₄) =
        >>=-eq-ok (map_err Failure.community (encode c (Boxed.state (initial_state g hash)))) _
          h₃ in
      let valid = map_err-eq-ok _ (verify_genesis c g now) verified in
      let w =
        insert_genesis-Started g raw hash state db now valid
          (map_err-eq-ok _ (encode c (Boxed.genesis g)) encoded) h₄ in
      (
        _,
        new_projection-made address g now hash valid (map_err-eq-ok _ (genesis_hash c g) hashed),
        Started-Mirrors address g raw hash state db w,
      )

  -- On a platform that keeps its laws, when `Initialize` succeeds on empty tables, `NewProjection`
  -- succeeds on the same genesis at the same time, and the new tables track the new projection.
  pub initialize-Tracks :
      (address : ℕ) (g : Genesis) (k : Bytes) (now : ℕ) (db : Db Blob)
      → initialize c empty_tables g k now ≡ ok db
      → (q : Projection) × (new_projection c address g now ≡ ok q) × Tracks c db q
  unfolding initialize
  initialize-Tracks address g k now db h =
      let (_, verified, h₁) = >>=-eq-ok (map_err Failure.community (verify_genesis c g now)) _ h in
      let (_, _, h₂) =
        >>=-eq-ok
          (fail_if (not (length k == private_key_size) || not (equal (public k) g.room_key))
            (Failure.community Error.wrong_room))
          _ h₁ in
      let (raw, encoded, h₃) =
        >>=-eq-ok (map_err Failure.community (encode c (Boxed.genesis g))) _ h₂ in
      let (hash, hashed, h₄) = >>=-eq-ok (map_err Failure.community (genesis_hash c g)) _ h₃ in
      let (state, sealed, h₅) =
        >>=-eq-ok (map_err Failure.community (sign_room_state c k (initial_state g hash))) _ h₄ in
      let (raw_state, written, h₆) =
        >>=-eq-ok (map_err Failure.community (encode c (Boxed.state state))) _ h₅ in
      let valid = map_err-eq-ok _ (verify_genesis c g now) verified in
      let w =
        insert_genesis-Started g raw hash raw_state db now valid
          (map_err-eq-ok _ (encode c (Boxed.genesis g)) encoded) h₆ in
      let (_, _, _, _, _, e) =
        sign_room_state_inv c k (initial_state g hash) state
          (map_err-eq-ok _ (sign_room_state c k (initial_state g hash)) sealed) in
      (
        _,
        new_projection-made address g now hash valid (map_err-eq-ok _ (genesis_hash c g) hashed),
        record {
          mirrors = Started-Mirrors address g raw hash raw_state db w;
          signed = state;
          snapshot =
              state_tx-raw c db
              ∙ ap
                  (λ o. or_err o Failure.no_rows >>= λ x.
                    map_err Failure.community (decode_room_state c x))
                  w.raw
              ∙ ap (map_err Failure.community) (
                  decode-encode_state c lawful state raw_state
                    (map_err-eq-ok _ (encode c (Boxed.state state)) written));
          signed_policy = ap (λ (s : RoomState). s.write_policy.anyone_can_write) e;
        },
      )
