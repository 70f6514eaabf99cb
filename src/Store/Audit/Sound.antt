-- ===== src/Store/Audit/Sound.antt =====
-- internal/store/audit.go: what an audit that passes says of the tables.
use mathlib.Core.Bool.{xor}
use tonnet_messenger.Base.{
  ℕ, ◌-◌, ◌≡◌, ap, sym, ◌∙◌, Bool, true, false, not, ◌||◌, List, [], ◌∷◌, arith, length, ltb, ◌==◌,
  Option, some, ok, fail_if, or_err, map_err, not-eq-false, ok-injective, >>=-eq-ok, map_err-eq-ok,
  or_err-eq-ok, fail_if-eq-ok,
}
use tonnet_messenger.Base.Bytes.{Bytes, equal, equal→eq, bytes_ordered}
use tonnet_messenger.Base.Ordered.{sort, nat_ordered}
use tonnet_messenger.Base.Keyed.{order_by}
use tonnet_messenger.Community.Types.{Genesis, RoomState, CommittedEvent}
use tonnet_messenger.Community.Platform.{Platform}
use tonnet_messenger.Community.Sign.{zero_256, verify_genesis, genesis_hash, verify_room_state}
use tonnet_messenger.Community.Projection.{Projection, new_projection, validate_projected_state}
use tonnet_messenger.Store.Tables.{Failure, Role, Head, StateRow, EventRow, Db}
use tonnet_messenger.Store.Sql.{subjects, pinned}
use tonnet_messenger.Store.Open.{stored_genesis, stored_state, stored_head}
use tonnet_messenger.Store.Replica.{equal_keys, equal_longs}
use tonnet_messenger.Store.Refinement.Installed.{equal_keys→eq, equal_longs→eq}
use tonnet_messenger.Community.Projection.Agreed.{xor-eq, projected_eq}
use tonnet_messenger.Store.Audit.{
  hash_at, Walk, audit_rows, audit_messages, audit_state_projection, audit_tables, audit,
}
use tonnet_messenger.Store.Audit.Walked.{replay, Stores, Level, audit_rows-Walked}

module _ (c : Platform) where
  open c use {Blob}

  -- Tables whose events replay from their genesis to a projection that agrees with their head, with
  -- the signed state, and with the metadata, the roles and the pins.
  pub record Audited (db : Db Blob) (now : ℕ) : Type 0 where
    pub genesis : Genesis
    pub hash : Bytes
    pub stored : stored_genesis c db ≡ ok (genesis, hash)
    pub hashed : genesis_hash c genesis ≡ ok hash
    pub start : Projection
    pub started : new_projection c 0 genesis now ≡ ok start
    pub events : List CommittedEvent
    pub stores : Stores c (order_by (λ (r : EventRow Blob). r.seqno) db.events) events
    pub projection : Projection
    pub replayed : replay c start events ≡ ok projection
    pub head : db.head ≡ some (record { seqno = projection.head_seq; hash = projection.head_hash })
    pub state : RoomState
    pub signed : stored_state c db ≡ ok state
    pub verified : verify_room_state c state ≡ ok tt
    pub agrees : state ≡ record projection.state { signature = state.signature }
    pub row : StateRow Blob
    pub at_row : db.state ≡ some row
    pub name : row.name ≡ state.name
    pub description : row.description ≡ state.description
    pub policy : row.anyone_can_write ≡ state.write_policy.anyone_can_write
    pub admins : sort (subjects Role.admin db.roles) ≡ state.admins
    pub moderators : sort (subjects Role.moderator db.roles) ≡ state.moderators
    pub pins : sort (pinned db.pins) ≡ state.pinned_messages

  record Shown (db : Db Blob) (state : RoomState) : Type 0 where
    row : StateRow Blob
    at_row : db.state ≡ some row
    name : row.name ≡ state.name
    description : row.description ≡ state.description
    policy : row.anyone_can_write ≡ state.write_policy.anyone_can_write
    admins : sort (subjects Role.admin db.roles) ≡ state.admins
    moderators : sort (subjects Role.moderator db.roles) ≡ state.moderators
    pins : sort (pinned db.pins) ≡ state.pinned_messages

  audit_state_projection-Shown :
      (same_blob : c.Blob → c.Blob → Bool) (db : Db Blob) (s : RoomState)
      → audit_state_projection c same_blob db s ≡ ok tt
      → Shown db s
  unfolding audit_state_projection
  audit_state_projection-Shown same_blob db s h =
      let (row, found, h₁) = >>=-eq-ok (or_err db.state Failure.no_rows) _ h in
      let (_, metadata, h₂) =
        >>=-eq-ok
          (fail_if
            (not (equal row.name s.name)
              || not (equal row.description s.description)
              || xor row.anyone_can_write s.write_policy.anyone_can_write)
            Failure.audit_mismatch)
          _ h₁ in
      let (name, description, policy) =
        none_of_three (equal row.name s.name) (equal row.description s.description)
          (xor row.anyone_can_write s.write_policy.anyone_can_write)
          (fail_if-eq-ok _ Failure.audit_mismatch metadata) in
      let admins = sort (subjects Role.admin db.roles) in
      let moderators = sort (subjects Role.moderator db.roles) in
      let pins = sort (pinned db.pins) in
      let (a, m, p) =
        none_of_three (equal_keys admins s.admins) (equal_keys moderators s.moderators)
          (not (equal_longs pins s.pinned_messages)) (fail_if-eq-ok _ Failure.audit_mismatch h₂) in
      record {
        row = row;
        at_row = or_err-eq-ok db.state _ found;
        name = equal→eq row.name s.name name;
        description = equal→eq row.description s.description description;
        policy = xor-eq row.anyone_can_write s.write_policy.anyone_can_write policy;
        admins = equal_keys→eq admins s.admins a;
        moderators = equal_keys→eq moderators s.moderators m;
        pins =
            equal_longs→eq pins s.pinned_messages
              (not-eq-false (equal_longs pins s.pinned_messages) p);
      }
    where
      none_of_three :
          (a b d : Bool) → (not a || not b || d) ≡ false → (a ≡ true) × (b ≡ true) × (d ≡ false)
      none_of_three a b d t = ground (arith, t)

  module _ (same_blob : c.Blob → c.Blob → Bool) where
    -- What the checks behind the loop say.
    record Settled (db : Db Blob) (w : Walk c same_blob) : Type 0 where
      head : db.head ≡ some (record { seqno = w.expected_seqno - 1; hash = w.expected_previous })
      state : RoomState
      signed : stored_state c db ≡ ok state
      verified : verify_room_state c state ≡ ok tt
      agrees : state ≡ record w.projection.state { signature = state.signature }
      shown : Shown db state

    audit_tables-Settled :
        (db : Db Blob) (g : Genesis) (w : Walk c same_blob)
        → audit_tables c same_blob db g w ≡ ok tt
        → Settled db w
    unfolding audit_tables stored_head
    audit_tables-Settled db g w h =
        let (_, _, h₁) = >>=-eq-ok (audit_messages c same_blob db w.messages) _ h in
        let (_, _, h₂) =
          >>=-eq-ok (fail_if (not (length db.messages == length w.messages)) Failure.audit_mismatch)
            _ h₁ in
        let (head, found, h₃) = >>=-eq-ok (or_err db.head Failure.not_initialized) _ h₂ in
        let (_, level, h₄) =
          >>=-eq-ok
            (fail_if
              (not (head.seqno == w.expected_seqno - 1)
                || not (equal head.hash w.expected_previous))
              Failure.audit_mismatch)
            _ h₃ in
        let (state, signed, h₅) = >>=-eq-ok (stored_state c db) _ h₄ in
        let (_, verified, h₆) =
          >>=-eq-ok (map_err Failure.community (verify_room_state c state)) _ h₅ in
        let (_, agrees, h₇) =
          >>=-eq-ok (map_err Failure.community (validate_projected_state c w.projection state)) _
            h₆ in
        let (_, _, shown) =
          >>=-eq-ok
            (fail_if
              (not (equal state.room_id g.room_key)
                || ltb head.seqno state.revision_seqno
                || not (equal state.revision_hash (hash_at state.revision_seqno w.hashes)))
              Failure.audit_mismatch)
            _ h₇ in
        record {
          head =
              or_err-eq-ok db.head _ found
              ∙ ap (λ x. some x)
                  (at_head head (w.expected_seqno - 1) w.expected_previous
                    (fail_if-eq-ok _ Failure.audit_mismatch level));
          state = state;
          signed = signed;
          verified = map_err-eq-ok _ (verify_room_state c state) verified;
          agrees =
              projected_eq c w.projection state
                (map_err-eq-ok _ (validate_projected_state c w.projection state) agrees);
          shown = audit_state_projection-Shown same_blob db state shown;
        }
      where
        at_head :
            (x : Head) (seqno : ℕ) (hash : Bytes)
            → (not (x.seqno == seqno) || not (equal x.hash hash)) ≡ false
            → x ≡ record { seqno = seqno; hash = hash }
        at_head x seqno hash t = ground (arith, t, equal→eq x.hash hash)

    start_of :
        (g : Genesis) (now : ℕ) (p : Projection)
        → new_projection c 0 g now ≡ ok p
        → (p.head_seq ≡ 0) × (p.head_hash ≡ zero_256)
    unfolding new_projection
    start_of g now p h =
        let (_, _, h₁) = >>=-eq-ok (verify_genesis c g now) _ h in
        let (hash, _, h₂) = >>=-eq-ok (genesis_hash c g) _ h₁ in
        (
          ap (λ (x : Projection). x.head_seq) (sym (ok-injective h₂)),
          ap (λ (x : Projection). x.head_hash) (sym (ok-injective h₂)),
        )

    -- When `Audit` passes, the stored events, in the order of their seqnos, replay from the stored
    -- genesis to a projection whose head is the stored head; the signed state passes
    -- `RoomState.Verify` and is, but for its signature, the state of that projection; and the
    -- stored metadata, roles and pins are those of the signed state.
    pub audit-Audited :
        (db : Db Blob) (intact : Bool) (now : ℕ)
        → audit c same_blob db intact now ≡ ok tt
        → Audited db now
    unfolding audit
    audit-Audited db intact now h =
        let (_, _, h₁) = >>=-eq-ok (fail_if (not intact) Failure.audit_mismatch) _ h in
        let ((g, stored), found, h₂) = >>=-eq-ok (stored_genesis c db) _ h₁ in
        let (_, _, h₃) = >>=-eq-ok (map_err Failure.community (verify_genesis c g now)) _ h₂ in
        let (hash, hashed, h₄) =
          >>=-eq-ok (map_err (λ _. Failure.audit_mismatch) (genesis_hash c g)) _ h₃ in
        let (_, same, h₅) =
          >>=-eq-ok (fail_if (not (equal stored hash)) Failure.audit_mismatch) _ h₄ in
        let (start, started, h₆) =
          >>=-eq-ok (map_err Failure.community (new_projection c 0 g now)) _ h₅ in
        let first : Walk c same_blob = record {
          projection = start;
          expected_seqno = 1;
          expected_previous = zero_256;
          hashes = (0, hash) ∷ [];
          messages = [];
        } in
        let rows = order_by (λ (r : EventRow Blob). r.seqno) db.events in
        let (last, walked, done) = >>=-eq-ok (audit_rows c same_blob g first rows) _ h₆ in
        let made = map_err-eq-ok _ (new_projection c 0 g now) started in
        let (seqno, previous) = start_of g now start made in
        let level : Level c same_blob first = record {
          seqno = omega (arith, seqno);
          previous = sym previous;
        } in
        let w = audit_rows-Walked c same_blob g rows first last level walked in
        let t = audit_tables-Settled db g last done in
        let s = t.shown in
        let one : stored ≡ hash =
          equal→eq stored hash
            (not-eq-false (equal stored hash) (fail_if-eq-ok _ Failure.audit_mismatch same)) in
        record {
          genesis = g;
          hash = stored;
          stored = found;
          hashed = map_err-eq-ok _ (genesis_hash c g) hashed ∙ ap (λ x. ok x) (sym one);
          start = start;
          started = made;
          events = w.events;
          stores = w.stores;
          projection = last.projection;
          replayed = w.replayed;
          head = t.head ∙ head_of last w.level;
          state = t.state;
          signed = t.signed;
          verified = t.verified;
          agrees = t.agrees;
          row = s.row;
          at_row = s.at_row;
          name = s.name;
          description = s.description;
          policy = s.policy;
          admins = s.admins;
          moderators = s.moderators;
          pins = s.pins;
        }
      where
        head_of :
            (w : Walk c same_blob)
            → Level c same_blob w
            → ◌≡◌ {A = Option Head}
                (some (record { seqno = w.expected_seqno - 1; hash = w.expected_previous }))
                (some (record { seqno = w.projection.head_seq; hash = w.projection.head_hash }))
        head_of w l = ground (arith, l.seqno, l.previous)
