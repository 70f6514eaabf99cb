-- ===== src/Store/Audit/Walked.antt =====
-- internal/store/audit.go: what the loop over the stored events checks, row by row.
use tonnet_messenger.Base.{
  ℕ, ◌+◌, ◌≡◌, ap, sym, ◌∙◌, subst, Bool, false, not, ◌||◌, List, [], ◌∷◌, arith, ◌==◌, Result, ok,
  ◌>>=◌, fail_if, map_err, Bool-cases, inl, inr, ok-injective, >>=-eq-ok, map_err-eq-ok,
  fail_if-eq-ok,
}
use tonnet_messenger.Base.Bytes.{Bytes, equal, bytes_ordered}
use tonnet_messenger.Base.Ordered.{nat_ordered}
use tonnet_messenger.Community.Types.{Error, Genesis, CommittedEvent}
use tonnet_messenger.Community.Platform.{Platform}
use tonnet_messenger.Community.Sign.{
  is_message, decode_committed_event, verify_commit, proposal_id, commit_hash,
}
use tonnet_messenger.Community.Projection.{Projection, apply}
use tonnet_messenger.Community.Projection.Steps.{settle, apply-Accepts}
use tonnet_messenger.Store.Tables.{Failure, EventRow}
use tonnet_messenger.Store.Audit.{or_nil, Walk, audit_row, audit_rows}

pub settle-head :
    (p q : Projection) (e : CommittedEvent) (hash : Bytes)
    → settle p e hash ≡ ok q
    → (q.head_seq ≡ e.seqno) × (q.head_hash ≡ hash)
unfolding settle
settle-head p q e hash h = elim (Bool-cases (is_message e.proposal.body)) [
  | inl b ↦ ground (arith, h, b)
  | inr b ↦ ground (arith, h, b)
]

module _ (c : Platform) where
  open c use {Blob}

  -- The projection behind a list of events.
  unfoldable pub replay : Projection → List CommittedEvent → Result Error Projection
  replay p [] = ok p
  replay p (e ∷ es) = apply c p e >>= λ next. replay next es

  -- The rows hold the events, under their own seqnos.
  abbrev pub Stores : List (EventRow Blob) → List CommittedEvent → Type 0
  Stores [] [] = Unit {0}
  Stores [] (e ∷ es) = ⊥
  Stores (r ∷ rs) [] = ⊥
  Stores (r ∷ rs) (e ∷ es) =
      (decode_committed_event c r.raw_commit ≡ ok e) × (r.seqno ≡ e.seqno) × Stores rs es

  module _ (same_blob : c.Blob → c.Blob → Bool) where
    -- The loop expects what the projection expects.
    pub record Level (w : Walk c same_blob) : Type 0 where
      pub seqno : w.expected_seqno ≡ w.projection.head_seq + 1
      pub previous : w.expected_previous ≡ w.projection.head_hash

    pub record Step (w : Walk c same_blob) (row : EventRow Blob) (next : Walk c same_blob)
        : Type 0 where
      pub event : CommittedEvent
      pub decoded : decode_committed_event c row.raw_commit ≡ ok event
      pub applied : apply c w.projection event ≡ ok next.projection
      pub numbered : row.seqno ≡ event.seqno
      pub expected : next.expected_seqno ≡ w.expected_seqno + 1
      pub previous : next.expected_previous ≡ or_nil (commit_hash c event)

    audit_row-Step :
        (g : Genesis) (w next : Walk c same_blob) (row : EventRow Blob)
        → audit_row c same_blob g w row ≡ ok next
        → Step w row next
    unfolding audit_row
    audit_row-Step g w next row h =
        let (event, decoded, h₁) =
          >>=-eq-ok
            (map_err (λ _. Failure.audit_mismatch) (decode_committed_event c row.raw_commit)) _ h in
        let (_, _, h₂) =
          >>=-eq-ok
            (map_err (λ _. Failure.audit_mismatch) (verify_commit c event g.room_key g.node_key)) _
            h₁ in
        let (projection, applied, h₃) =
          >>=-eq-ok (map_err Failure.community (apply c w.projection event)) _ h₂ in
        let (_, tested, done) =
          >>=-eq-ok
            (fail_if
              (not (row.seqno == w.expected_seqno)
                || not (event.seqno == row.seqno)
                || not (equal row.previous_hash w.expected_previous)
                || not (equal event.previous_hash w.expected_previous)
                || not (equal row.event_id (or_nil (proposal_id c event.proposal)))
                || not (equal row.commit_hash (or_nil (commit_hash c event))))
              Failure.audit_mismatch)
            _ h₃ in
        let made = sym (ok-injective done) in
        record {
          event = event;
          decoded = map_err-eq-ok _ (decode_committed_event c row.raw_commit) decoded;
          applied =
              map_err-eq-ok Failure.community (apply c w.projection event) applied
              ∙ ap (λ (x : Walk c same_blob). ok x.projection) (sym made);
          numbered =
              numbered_of row.seqno w.expected_seqno event.seqno _ _ _ _ (fail_if-eq-ok _ _ tested);
          expected = ap (λ (x : Walk c same_blob). x.expected_seqno) made;
          previous = ap (λ (x : Walk c same_blob). x.expected_previous) made;
        }
      where
        numbered_of :
            (a b d : ℕ) (x y z u : Bool)
            → (not (a == b) || not (d == a) || x || y || z || u) ≡ false
            → a ≡ d
        numbered_of a b d x y z u t = ground (arith, t)

    Step-Level :
        (w next : Walk c same_blob) (row : EventRow Blob) → Level w → Step w row next → Level next
    Step-Level w next row l s =
        let (a, hash, hashed, settled) =
          apply-Accepts c w.projection next.projection s.event s.applied in
        let (seqno, last) = settle-head w.projection next.projection s.event hash settled in
        record {
          seqno = omega (arith, s.expected, l.seqno, seqno, a.follows);
          previous = s.previous ∙ ap (λ r. or_nil r) hashed ∙ sym last;
        }

    pub record Walked (w : Walk c same_blob) (rows : List (EventRow Blob)) (next : Walk c same_blob)
        : Type 0 where
      pub events : List CommittedEvent
      pub stores : Stores rows events
      pub replayed : replay w.projection events ≡ ok next.projection
      pub level : Level next

    pub audit_rows-Walked :
        (g : Genesis) (rows : List (EventRow Blob)) (w last : Walk c same_blob)
        → Level w
        → audit_rows c same_blob g w rows ≡ ok last
        → Walked w rows last
    unfolding audit_rows replay
    audit_rows-Walked g [] w last l h = record {
      events = [];
      stores = tt;
      replayed = ap (λ (x : Walk c same_blob). ok x.projection) (ok-injective h);
      level = subst Level (ok-injective h) l;
    }
    audit_rows-Walked g (row ∷ rows) w last l h =
        let (next, first, rest) = >>=-eq-ok (audit_row c same_blob g w row) _ h in
        let s = audit_row-Step g w next row first in
        let t = audit_rows-Walked g rows next last (Step-Level w next row l s) rest in
        record {
          events = s.event ∷ t.events;
          stores = (s.decoded, s.numbered, t.stores);
          replayed = rw s.applied t.replayed;
          level = t.level;
        }
