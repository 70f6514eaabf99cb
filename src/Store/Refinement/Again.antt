-- ===== src/Store/Refinement/Again.antt =====
-- `Commit` of internal/store/commit.go, asked for the same proposal twice.
use tonnet_messenger.Base.{
  ℕ, ◌≡◌, refl, ap, sym, ◌∙◌, Bool, true, false, List, [], ◌∷◌, ◌++◌, arith, none, some, ok, inl,
  inr, ok-injective, map_err-eq-ok, or_err-eq-ok, if◌then◌else◌,
}
use tonnet_messenger.Base.Bytes.{Bytes, equal_refl}
use tonnet_messenger.Community.Types.{Boxed, EventProposal, CommittedEvent}
use tonnet_messenger.Community.Platform.{Platform, IsLawful}
use tonnet_messenger.Community.Sign.{encode, decode_committed_event, proposal_id}
use tonnet_messenger.Store.Tables.{Code, EventRow, Db, CommitResult}
use tonnet_messenger.Store.Sql.{event_with_id, insert_event}
use tonnet_messenger.Store.Commit.{
  rejecting, event_row, state_changing, persist_state_snapshot, find_event_by_id, commit_new,
  commit_unless, commit,
}
use tonnet_messenger.Store.Refinement.Settle.{apply_projection-Keeps}
use tonnet_messenger.Store.Refinement.Record.{record_commit-Recorded, persist-Saved}
use tonnet_messenger.Store.Refinement.Commit.{fresh_at, commit_new-Committed}
use tonnet_messenger.Store.Refinement.Sequencer.{commit-Outcome}

event_with_id-snoc :
    {Blob : Type 0} (id : Bytes) (r : EventRow Blob) (rs : List (EventRow Blob))
    → event_with_id id rs ≡ none
    → r.event_id ≡ id
    → event_with_id id (rs ++ r ∷ []) ≡ some r
unfolding event_with_id
event_with_id-snoc id r [] h e = ground (arith, equal_refl id)
event_with_id-snoc id r (x ∷ rs) h e = ground (arith, event_with_id-snoc id r rs)

insert_event-snoc :
    {Blob : Type 0} (r : EventRow Blob) (rs out : List (EventRow Blob))
    → insert_event r rs ≡ ok out
    → out ≡ rs ++ r ∷ []
unfolding insert_event
insert_event-snoc r rs out h = ground arith

module _ (c : Platform) (lawful : IsLawful c) where
  open c use {Blob}

  not_found :
      (db : Db Blob) (id : Bytes)
      → find_event_by_id c db id ≡ ok none
      → event_with_id id db.events ≡ none
  unfolding find_event_by_id
  not_found db id h = ground arith

  found_again :
      (db : Db Blob) (id : Bytes) (row : EventRow Blob) (e : CommittedEvent)
      → event_with_id id db.events ≡ some row
      → encode c (Boxed.commit e) ≡ ok row.raw_commit
      → find_event_by_id c db id ≡ ok (some e)
  unfolding find_event_by_id encode decode_committed_event
  found_again db id row e h k =
      let (rest, parsed, empty) =
        lawful.parse_commit-serialize e row.raw_commit
          (or_err-eq-ok (c.serialize (Boxed.commit e)) _ k) in
      ground (arith, h, parsed, empty)

  saved-events :
      (projected saved : Db Blob) (k : Bytes) (seqno : ℕ) (hash : Bytes) (changing : Bool)
      → (if changing
          then rejecting Code.persistence_failure (persist_state_snapshot c projected k seqno hash)
          else ok projected)
        ≡ ok saved
      → saved.events ≡ projected.events
  saved-events projected saved k seqno hash true h =
      let w =
        persist-Saved c projected saved k seqno hash
          (map_err-eq-ok _ (persist_state_snapshot c projected k seqno hash) h) in
      ap (λ (d : Db Blob). d.events) w.result
  saved-events projected saved k seqno hash false h =
      ap (λ (d : Db Blob). d.events) (sym (ok-injective h))

  commit_new-found :
      (db db' : Db Blob) (p : EventProposal) (k : Bytes) (now : ℕ) (id : Bytes) (raw : Blob)
      (r : CommitResult)
      → find_event_by_id c db id ≡ ok none
      → commit_new c db p k now id raw ≡ ok (db', r)
      → find_event_by_id c db' id ≡ ok (some r.event)
  commit_new-found db db' p k now id raw r f h =
      let w = commit_new-Committed c db db' p k now id raw r h in
      let fresh : Db Blob = fresh_at c db now in
      let x = record_commit-Recorded c fresh db' w.genesis k now id raw r.event w.recorded in
      let row : EventRow Blob = event_row c r.event id x.hash x.type raw x.raw_commit in
      let inside : Db Blob = record fresh { events = x.events } in
      let keeps =
        apply_projection-Keeps inside x.projected w.genesis r.event x.raw_commit _ x.applied in
      let same : db'.events ≡ db.events ++ row ∷ [] =
        ap (λ (d : Db Blob). d.events) x.result
        ∙ saved-events x.projected x.saved k r.event.seqno x.hash (state_changing x.type) x.snapshot
        ∙ keeps.events
        ∙ insert_event-snoc row db.events x.events x.inserted in
      found_again db' id row r.event
        (ap (event_with_id id) same ∙ event_with_id-snoc id row db.events (not_found db id f) refl)
        x.encoded

  commit_found :
      (db : Db Blob) (p : EventProposal) (k : Bytes) (now : ℕ) (id : Bytes) (raw : Blob)
      (e : CommittedEvent)
      → proposal_id c p ≡ ok id
      → encode c (Boxed.proposal p) ≡ ok raw
      → find_event_by_id c db id ≡ ok (some e)
      → commit c db p k now ≡ ok (db, record { event = e; duplicate = true })
  unfolding commit commit_unless
  commit_found db p k now id raw e named encoded found = rw (encoded, named, found)

  -- On a platform that keeps its laws, once a `Commit` of a proposal has succeeded, a second one on
  -- the new tables, with any key and at any time, returns the event of the first as a duplicate and
  -- leaves the tables as they are.
  pub commit-again :
      (db db' : Db Blob) (p : EventProposal) (k k' : Bytes) (now later : ℕ) (r : CommitResult)
      → commit c db p k now ≡ ok (db', r)
      → commit c db' p k' later ≡ ok (db', record { event = r.event; duplicate = true })
  commit-again db db' p k k' now later r h =
      let (id, raw, named, encoded, outcome) = commit-Outcome c lawful db db' p k now r h in
      elim outcome [
        | inl (_, same, found) ↦
            commit_found db' p k' later id raw r.event named encoded
              (ap (λ (d : Db Blob). find_event_by_id c d id) same ∙ found)
        | inr (missing, made) ↦
            commit_found db' p k' later id raw r.event named encoded
              (commit_new-found db db' p k now id raw r missing made)
      ]
