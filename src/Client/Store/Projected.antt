-- ===== src/Client/Store/Projected.antt =====
-- internal/client/store.go: the projection that the client keeps in memory is the one that its cache
-- replays to.
use mathlib.Core.Bool.{false≢true}
use tonnet_messenger.Base.{
  ℕ, ◌+◌, ◌≡◌, refl, ap, sym, ◌∙◌, subst, Bool, true, false, not, ◌||◌, List, [], ◌∷◌, ◌++◌, arith,
  length, leb, ◌==◌, Option, some, if◌then◌else◌, ok, fail_if, or_err, map_err, ok-injective,
  >>=-eq-ok, map_err-eq-ok, or_err-eq-ok, fail_if-eq-ok, length-append,
}
use tonnet_messenger.Base.Bytes.{Bytes, equal, equal_refl, equal→eq}
use tonnet_messenger.Base.Dict.{Dict, find, set}
use tonnet_messenger.Base.Dict.Laws.{find-set}
use tonnet_messenger.Base.Keyed.{order_by, Numbered, Numbered-snoc, order_by-Numbered}
use tonnet_messenger.Community.Types.{Boxed, Genesis, CommittedEvent}
use tonnet_messenger.Community.Platform.{Platform, IsLawful}
use tonnet_messenger.Community.Sign.{encode, decode_committed_event, proposal_id, commit_hash}
use tonnet_messenger.Community.Projection.{Projection, new_projection, apply}
use tonnet_messenger.Community.Projection.Steps.{apply-Accepts}
use tonnet_messenger.Store.Tables.{Failure}
use tonnet_messenger.Store.Audit.Walked.{settle-head}
use tonnet_messenger.Client.Store.{
  CachedEvent, JoinedRoom, cached_seqno, insert_cached, settle_pending, project_rows, project_room,
  append_known, append_next, append_event,
}

some_injective : {A : Type 0} {a b : A} → ◌≡◌ {A = Option A} (some a) (some b) → a ≡ b
some_injective e = cc

module _ (c : Platform) where
  open c use {Blob}

  -- A room whose events are numbered from 1 to its head.
  pub record IsCached (room : JoinedRoom Blob) : Type 0 where
    pub numbered : Numbered cached_seqno 1 room.events
    pub counted : room.head_seqno ≡ length room.events

  commit_decoded :
      (lawful : IsLawful c) (e : CommittedEvent) (raw : Blob)
      → encode c (Boxed.commit e) ≡ ok raw
      → decode_committed_event c raw ≡ ok e
  unfolding encode decode_committed_event
  commit_decoded lawful e raw h =
      let (rest, parsed, empty) =
        lawful.parse_commit-serialize e raw (or_err-eq-ok (c.serialize (Boxed.commit e)) _ h) in
      rw (parsed, empty)

  module _ (same_blob : c.Blob → c.Blob → Bool) where
    project_rows-snoc :
        (rows : List (CachedEvent Blob)) (row : CachedEvent Blob) (p q last : Projection)
        (e : CommittedEvent)
        → project_rows c same_blob p rows ≡ ok q
        → decode_committed_event c row.raw_event ≡ ok e
        → apply c q e ≡ ok last
        → project_rows c same_blob p (rows ++ row ∷ []) ≡ ok last
    unfolding project_rows
    project_rows-snoc [] row p q last e h d a = rw d (rw (ok-injective h) (rw a refl))
    project_rows-snoc (r ∷ rs) row p q last e h d a =
        let (event, decoded, h₁) =
          >>=-eq-ok (map_err Failure.community (decode_committed_event c r.raw_event)) _ h in
        let (next, applied, h₂) = >>=-eq-ok (map_err Failure.community (apply c p event)) _ h₁ in
        rw
          (
            map_err-eq-ok Failure.community (decode_committed_event c r.raw_event) decoded,
            map_err-eq-ok Failure.community (apply c p event) applied,
          )
          (project_rows-snoc rs row next q last e h₂ d a)

    record Extends (room : JoinedRoom Blob) (e : CommittedEvent) (raw : Blob) (hash : Bytes)
        (next : JoinedRoom Blob) : Type 0 where
      row : CachedEvent Blob
      row_seqno : row.seqno ≡ e.seqno
      row_raw : row.raw_event ≡ raw
      follows : e.seqno ≡ room.head_seqno + 1
      events : next.events ≡ room.events ++ row ∷ []
      seqno : next.head_seqno ≡ e.seqno
      last : next.head_hash ≡ hash

    insert_cached-snoc :
        (r : CachedEvent Blob) (rs events : List (CachedEvent Blob))
        → insert_cached r rs ≡ ok events
        → events ≡ rs ++ r ∷ []
    unfolding insert_cached
    insert_cached-snoc r rs events h = ground (arith, h)

    append_next-Extends :
        (room next : JoinedRoom Blob) (e : CommittedEvent) (raw : Blob) (id hash : Bytes)
        (new : Bool)
        → append_next c same_blob room e raw id hash ≡ ok (next, new)
        → Extends room e raw hash next
    unfolding append_next
    append_next-Extends room next e raw id hash new h =
        let (_, tested, h₁) =
          >>=-eq-ok
            (fail_if
              (not (e.seqno == room.head_seqno + 1) || not (equal e.previous_hash room.head_hash))
              Failure.gap)
            _ h in
        let row : CachedEvent Blob = record {
          seqno = e.seqno;
          event_id = id;
          message_id = e.message_id;
          raw_event = raw;
        } in
        let (events, inserted, h₂) = >>=-eq-ok (insert_cached row room.events) _ h₁ in
        let made : next ≡ record room {
          events = events;
          head_seqno = e.seqno;
          head_hash = hash;
          pending = settle_pending raw id room.pending;
        } =
          ap (λ (x : JoinedRoom Blob × Bool). x.0) (sym (ok-injective h₂)) in
        record {
          row = row;
          row_seqno = refl;
          row_raw = refl;
          follows =
              first_of e.seqno (room.head_seqno + 1) (not (equal e.previous_hash room.head_hash))
                (fail_if-eq-ok _ Failure.gap tested);
          events =
              ap (λ (x : JoinedRoom Blob). x.events) made
              ∙ insert_cached-snoc row room.events events inserted;
          seqno = ap (λ (x : JoinedRoom Blob). x.head_seqno) made;
          last = ap (λ (x : JoinedRoom Blob). x.head_hash) made;
        }
      where
        first_of : (a b : ℕ) (x : Bool) → (not (a == b) || x) ≡ false → a ≡ b
        first_of a b x t = ground (arith, t)

    append_next_new :
        (room next : JoinedRoom Blob) (e : CommittedEvent) (raw : Blob) (id hash : Bytes)
        (new : Bool)
        → append_next c same_blob room e raw id hash ≡ ok (next, new)
        → new ≡ true
    unfolding append_next
    append_next_new room next e raw id hash new h = ground (arith, h)

    append_known_old :
        (room next : JoinedRoom Blob) (e : CommittedEvent) (raw : Blob) (id : Bytes) (new : Bool)
        → append_known c same_blob room e raw id ≡ ok (next, new)
        → (new ≡ false)
          × (next.events ≡ room.events)
          × (next.head_seqno ≡ room.head_seqno)
          × (next.head_hash ≡ room.head_hash)
    unfolding append_known
    append_known_old room next e raw id new h = ground (arith, h)

    -- What a projection of a cached room goes through.
    record Replayed (rooms : Dict (JoinedRoom Blob)) (room_key : Bytes) (room : JoinedRoom Blob)
        (g : Genesis) (now : ℕ) (p : Projection) : Type 0 where
      start : Projection
      started : new_projection c 0 g now ≡ ok start
      replayed : project_rows c same_blob start (order_by cached_seqno room.events) ≡ ok p
      seqno : p.head_seq ≡ room.head_seqno
      hash : p.head_hash ≡ room.head_hash

    project_room-Replayed :
        (rooms : Dict (JoinedRoom Blob)) (room_key : Bytes) (room : JoinedRoom Blob) (g : Genesis)
        (now : ℕ) (p : Projection)
        → find room_key rooms ≡ some room
        → project_room c same_blob rooms room_key g now ≡ ok p
        → Replayed rooms room_key room g now p
    unfolding project_room
    project_room-Replayed rooms room_key room g now p found h =
        let (start, started, h₁) =
          >>=-eq-ok (map_err Failure.community (new_projection c 0 g now)) _ h in
        let (other, there, h₂) = >>=-eq-ok (or_err (find room_key rooms) Failure.no_rows) _ h₁ in
        let same : other ≡ room =
          some_injective (sym (or_err-eq-ok (find room_key rooms) Failure.no_rows there) ∙ found) in
        let (q, replayed, h₃) =
          >>=-eq-ok (project_rows c same_blob start (order_by cached_seqno other.events)) _ h₂ in
        let (_, tested, h₄) =
          >>=-eq-ok
            (fail_if
              (not (q.head_seq == other.head_seqno) || not (equal q.head_hash other.head_hash))
              Failure.projections_disagree)
            _ h₃ in
        let one : q ≡ p = ok-injective h₄ in
        let (seqno, hash) =
          heads_of q.head_seq other.head_seqno q.head_hash other.head_hash
            (fail_if-eq-ok _ Failure.projections_disagree tested) in
        record {
          start = start;
          started = map_err-eq-ok Failure.community (new_projection c 0 g now) started;
          replayed =
              ap
                (λ (x : JoinedRoom Blob).
                  project_rows c same_blob start (order_by cached_seqno x.events))
                (sym same)
              ∙ replayed
              ∙ ap (λ x. ok x) one;
          seqno =
              ap (λ (x : Projection). x.head_seq) (sym one)
              ∙ seqno
              ∙ ap (λ (x : JoinedRoom Blob). x.head_seqno) same;
          hash =
              ap (λ (x : Projection). x.head_hash) (sym one)
              ∙ hash
              ∙ ap (λ (x : JoinedRoom Blob). x.head_hash) same;
        }
      where
        heads_of :
            (a b : ℕ) (x y : Bytes) → (not (a == b) || not (equal x y)) ≡ false → (a ≡ b) × (x ≡ y)
        heads_of a b x y t = ground (arith, t, equal→eq x y)

    Replayed-project_room :
        (rooms : Dict (JoinedRoom Blob)) (room_key : Bytes) (room : JoinedRoom Blob) (g : Genesis)
        (now : ℕ) (p : Projection)
        → find room_key rooms ≡ some room
        → Replayed rooms room_key room g now p
        → project_room c same_blob rooms room_key g now ≡ ok p
    unfolding project_room
    Replayed-project_room rooms room_key room g now p found r =
        rw (r.started, found, r.replayed, r.seqno, r.hash)
          (ground (arith, equal_refl room.head_hash))

    -- A cache behind an append: it is numbered still, and replays to the new projection.
    pub record Continues (next : Dict (JoinedRoom Blob)) (room_key : Bytes) (g : Genesis) (now : ℕ)
        (p : Projection) (e : CommittedEvent) (inserted : Bool) : Type 0 where
      pub room : JoinedRoom Blob
      pub found : find room_key next ≡ some room
      pub cached : IsCached room
      pub appended :
          inserted ≡ true
          → (q : Projection) → apply c p e ≡ ok q
          → project_room c same_blob next room_key g now ≡ ok q
      pub kept : inserted ≡ false → project_room c same_blob next room_key g now ≡ ok p

    known-Continues :
        (rooms : Dict (JoinedRoom Blob)) (room_key : Bytes) (room last : JoinedRoom Blob)
        (g : Genesis) (now : ℕ) (p : Projection) (e : CommittedEvent) (raw : Blob) (id : Bytes)
        (inserted : Bool)
        → IsCached room
        → Replayed rooms room_key room g now p
        → append_known c same_blob room e raw id ≡ ok (last, inserted)
        → Continues (set room_key last rooms) room_key g now p e inserted
    known-Continues rooms room_key room last g now p e raw id inserted v r h =
        let (old, events, seqno, hash) = append_known_old room last e raw id inserted h in
        let found = find-set room_key last rooms in
        record {
          room = last;
          found = found;
          cached = record {
            numbered = subst (λ l. Numbered cached_seqno 1 l) (sym events) v.numbered;
            counted = seqno ∙ v.counted ∙ ap (λ l. length l) (sym events);
          };
          appended = λ new q a. absurd (false≢true (sym old ∙ new));
          kept = λ o.
              Replayed-project_room (set room_key last rooms) room_key last g now p found (record {
                start = r.start;
                started = r.started;
                replayed =
                    ap (λ l. project_rows c same_blob r.start (order_by cached_seqno l)) events
                    ∙ r.replayed;
                seqno = r.seqno ∙ sym seqno;
                hash = r.hash ∙ sym hash;
              });
        }

    next-Continues :
        (lawful : IsLawful c) (rooms : Dict (JoinedRoom Blob)) (room_key : Bytes)
        (room last : JoinedRoom Blob) (g : Genesis) (now : ℕ) (p : Projection) (e : CommittedEvent)
        (raw : Blob) (id hash : Bytes) (inserted : Bool)
        → IsCached room
        → Replayed rooms room_key room g now p
        → encode c (Boxed.commit e) ≡ ok raw
        → commit_hash c e ≡ ok hash
        → append_next c same_blob room e raw id hash ≡ ok (last, inserted)
        → Continues (set room_key last rooms) room_key g now p e inserted
    next-Continues lawful rooms room_key room last g now p e raw id hash inserted v r encoded hashed
          h =
        let x = append_next-Extends room last e raw id hash inserted h in
        let found = find-set room_key last rooms in
        let numbered =
          Numbered-snoc cached_seqno 1 room.events x.row v.numbered
            (omega (arith, x.row_seqno, x.follows, v.counted)) in
        let decoded : decode_committed_event c x.row.raw_event ≡ ok e =
          ap (λ b. decode_committed_event c b) x.row_raw ∙ commit_decoded lawful e raw encoded in
        let before : project_rows c same_blob r.start room.events ≡ ok p =
          ap (λ l. project_rows c same_blob r.start l)
            (sym (order_by-Numbered cached_seqno 1 room.events v.numbered))
          ∙ r.replayed in
        record {
          room = last;
          found = found;
          cached = record {
            numbered = subst (λ l. Numbered cached_seqno 1 l) (sym x.events) numbered;
            counted =
                x.seqno
                ∙ omega (arith, x.follows, v.counted, length-append room.events (x.row ∷ []))
                ∙ ap (λ l. length l) (sym x.events);
          };
          appended = λ new q a.
              let (_, other, same, settled) = apply-Accepts c p q e a in
              let (seqno, head) = settle-head p q e other settled in
              Replayed-project_room (set room_key last rooms) room_key last g now q found (record {
                start = r.start;
                started = r.started;
                replayed =
                    ap (λ l. project_rows c same_blob r.start (order_by cached_seqno l)) x.events
                    ∙ ap (λ l. project_rows c same_blob r.start l)
                        (order_by-Numbered cached_seqno 1 (room.events ++ x.row ∷ []) numbered)
                    ∙ project_rows-snoc room.events x.row r.start p q e before decoded a;
                seqno = seqno ∙ sym x.seqno;
                hash = head ∙ ok-injective (sym same ∙ hashed) ∙ sym x.last;
              });
          kept = λ old.
              absurd (false≢true (sym old ∙ append_next_new room last e raw id hash inserted h));
        }

    either-Continues :
        (lawful : IsLawful c) (rooms : Dict (JoinedRoom Blob)) (room_key : Bytes)
        (room last : JoinedRoom Blob) (g : Genesis) (now : ℕ) (p : Projection) (e : CommittedEvent)
        (raw : Blob) (id hash : Bytes) (inserted known : Bool)
        → IsCached room
        → Replayed rooms room_key room g now p
        → encode c (Boxed.commit e) ≡ ok raw
        → commit_hash c e ≡ ok hash
        → (if known
            then append_known c same_blob room e raw id
            else append_next c same_blob room e raw id hash)
          ≡ ok (last, inserted)
        → Continues (set room_key last rooms) room_key g now p e inserted
    either-Continues lawful rooms room_key room last g now p e raw id hash inserted true v r encoded
          hashed h =
        known-Continues rooms room_key room last g now p e raw id inserted v r h
    either-Continues lawful rooms room_key room last g now p e raw id hash inserted false v r
          encoded hashed h =
        next-Continues lawful rooms room_key room last g now p e raw id hash inserted v r encoded
          hashed h

    -- On a platform that keeps its laws, when `appendEvent` succeeds on a cached room whose events
    -- are numbered from 1 to its head and that `projectRoom` projects, the events are numbered so
    -- still; when the event is new, every projection that applying it to the old one gives is what
    -- `projectRoom` returns from then on, and when it is not, `projectRoom` returns the old one.
    pub append_event-Continues :
        (lawful : IsLawful c) (rooms next : Dict (JoinedRoom Blob)) (room_key : Bytes)
        (room : JoinedRoom Blob) (g : Genesis) (now : ℕ) (p : Projection) (e : CommittedEvent)
        (inserted : Bool)
        → find room_key rooms ≡ some room
        → IsCached room
        → project_room c same_blob rooms room_key g now ≡ ok p
        → append_event c same_blob rooms room_key e ≡ ok (next, inserted)
        → Continues next room_key g now p e inserted
    unfolding append_event
    append_event-Continues lawful rooms next room_key room g now p e inserted found v h a =
        let r = project_room-Replayed rooms room_key room g now p found h in
        let (raw, encoded, h₁) =
          >>=-eq-ok (map_err Failure.community (encode c (Boxed.commit e))) _ a in
        let (id, _, h₂) = >>=-eq-ok (map_err Failure.community (proposal_id c e.proposal)) _ h₁ in
        let (hash, hashed, h₃) = >>=-eq-ok (map_err Failure.community (commit_hash c e)) _ h₂ in
        let (other, there, h₄) = >>=-eq-ok (or_err (find room_key rooms) Failure.no_rows) _ h₃ in
        let same : other ≡ room =
          some_injective (sym (or_err-eq-ok (find room_key rooms) Failure.no_rows there) ∙ found) in
        let ((last, new), stored, h₅) =
          >>=-eq-ok
            (if leb e.seqno other.head_seqno
              then append_known c same_blob other e raw id
              else append_next c same_blob other e raw id hash)
            _ h₄ in
        let made : (set room_key last rooms, new) ≡ (next, inserted) = ok-injective h₅ in
        subst (λ (y : Dict (JoinedRoom Blob) × Bool). Continues y.0 room_key g now p e y.1) made
          (either-Continues lawful rooms room_key room last g now p e raw id hash new
            (leb e.seqno room.head_seqno) v r
            (map_err-eq-ok Failure.community (encode c (Boxed.commit e)) encoded)
            (map_err-eq-ok Failure.community (commit_hash c e) hashed)
            (subst
              (λ (x : JoinedRoom Blob).
                (if leb e.seqno x.head_seqno
                  then append_known c same_blob x e raw id
                  else append_next c same_blob x e raw id hash)
                ≡ ok (last, new))
              same stored))
