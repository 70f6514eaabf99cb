-- ===== src/Store/Refinement/Nonces.antt =====
-- The table of request nonces of internal/store/commit.go: no author's nonce is accepted twice while
-- it is kept.
use tonnet_messenger.Base.{
  ℕ, ◌+◌, ◌≤◌, ◌<◌, ◌≡◌, refl, ap, sym, ◌∙◌, subst, Bool, true, false, ◌&&◌, ◌||◌, List, [], ◌∷◌,
  ◌++◌, arith, ltb, Result, ok, err, inl, inr, ◌⊎◌, ok-injective, map_err-eq-ok, if◌then◌else◌,
}
use tonnet_messenger.Base.Bytes.{Bytes, equal, equal_refl}
use tonnet_messenger.Community.Types.{Boxed, EventProposal, CommittedEvent}
use tonnet_messenger.Community.Platform.{Platform, IsLawful}
use tonnet_messenger.Community.Validate.{nonce_retention}
use tonnet_messenger.Community.Sign.{unix, encode, proposal_id}
use tonnet_messenger.Community.Sign.RoundTrips.{sign_commit_inv}
use tonnet_messenger.Store.Tables.{Code, Failure, NonceRow, Db, CommitResult}
use tonnet_messenger.Store.Sql.{expire_nonces, live_nonce, insert_nonce}
use tonnet_messenger.Store.Commit.{
  rejecting, state_changing, persist_state_snapshot, commit_new, commit, after_commit,
}
use tonnet_messenger.Store.Refinement.Settle.{apply_projection-Keeps}
use tonnet_messenger.Store.Refinement.Record.{nonce_row, record_commit-Recorded, persist-Saved}
use tonnet_messenger.Store.Refinement.Commit.{fresh_at, commit_new-Committed}
use tonnet_messenger.Store.Refinement.Sequencer.{commit-Outcome, Outcome}

live_nonce-expire :
    (author nonce : Bytes) (now t : ℕ) (rows : List NonceRow)
    → now ≤ t
    → live_nonce author nonce t (expire_nonces now rows) ≡ live_nonce author nonce t rows
unfolding live_nonce expire_nonces
live_nonce-expire author nonce now t [] h = refl
live_nonce-expire author nonce now t (r ∷ rs) h =
    ground (arith, live_nonce-expire author nonce now t rs h)

live_nonce-snoc :
    (author nonce : Bytes) (t : ℕ) (r : NonceRow) (rows : List NonceRow)
    → live_nonce author nonce t (rows ++ r ∷ []) ≡ (
        live_nonce author nonce t rows
        || ((equal r.author_key author && equal r.nonce nonce) && ltb t r.expires_at))
unfolding live_nonce
live_nonce-snoc author nonce t r [] = ground arith
live_nonce-snoc author nonce t r (x ∷ rs) = ground (arith, live_nonce-snoc author nonce t r rs)

insert_nonce-snoc :
    (r : NonceRow) (rows out : List NonceRow) → insert_nonce r rows ≡ ok out → out ≡ rows ++ r ∷ []
unfolding insert_nonce
insert_nonce-snoc r rows out h = ground arith

-- The row that `Commit` adds for a proposal.
abbrev used_row : EventProposal → ℕ → NonceRow
used_row p now = record {
  author_key = p.author_key;
  nonce = p.nonce;
  accepted_at = unix now;
  expires_at = unix (now + nonce_retention);
}

module _ (c : Platform) where
  open c use {Blob}

  -- Commits one after the other.
  unfoldable pub after_commits : Db Blob → List (EventProposal × Bytes × ℕ) → Db Blob
  after_commits db [] = db
  after_commits db ((p, k, now) ∷ rest) = after_commits (after_commit c db p k now) rest

  -- Every commit of the list is made at `t` or before.
  abbrev pub Before : ℕ → List (EventProposal × Bytes × ℕ) → Type 0
  Before t [] = Unit {0}
  Before t ((p, k, now) ∷ rest) = (unix now ≤ t) × Before t rest

module _ (c : Platform) (lawful : IsLawful c) where
  open c use {Blob}

  saved-nonces :
      (projected saved : Db Blob) (k : Bytes) (seqno : ℕ) (hash : Bytes) (changing : Bool)
      → (if changing
          then rejecting Code.persistence_failure (persist_state_snapshot c projected k seqno hash)
          else ok projected)
        ≡ ok saved
      → saved.nonces ≡ projected.nonces
  saved-nonces projected saved k seqno hash true h =
      let w =
        persist-Saved c projected saved k seqno hash
          (map_err-eq-ok _ (persist_state_snapshot c projected k seqno hash) h) in
      ap (λ (d : Db Blob). d.nonces) w.result
  saved-nonces projected saved k seqno hash false h =
      ap (λ (d : Db Blob). d.nonces) (sym (ok-injective h))

  -- The nonces behind a new commit.
  commit_new-nonces :
      (db db' : Db Blob) (p : EventProposal) (k : Bytes) (now : ℕ) (id : Bytes) (raw : Blob)
      (r : CommitResult)
      → commit_new c db p k now id raw ≡ ok (db', r)
      → (db'.nonces ≡ expire_nonces (unix now) db.nonces ++ used_row p now ∷ [])
        × (live_nonce p.author_key p.nonce (unix now) (expire_nonces (unix now) db.nonces) ≡ false)
  commit_new-nonces db db' p k now id raw r h =
      let w = commit_new-Committed c db db' p k now id raw r h in
      let fresh : Db Blob = fresh_at c db now in
      let x = record_commit-Recorded c fresh db' w.genesis k now id raw r.event w.recorded in
      let inside : Db Blob = record fresh { events = x.events } in
      let keeps =
        apply_projection-Keeps inside x.projected w.genesis r.event x.raw_commit _ x.applied in
      let (_, _, _, _, _, _, shape) =
        sign_commit_inv c k w.head.hash p (w.head.seqno + 1) now r.event w.signed in
      let same : r.event.proposal ≡ p = ap (λ (y : CommittedEvent). y.proposal) shape in
      let kept : x.saved.nonces ≡ fresh.nonces =
        saved-nonces x.projected x.saved k r.event.seqno x.hash (state_changing x.type) x.snapshot
        ∙ keeps.nonces in
      (
        ap (λ (d : Db Blob). d.nonces) x.result
            ∙ insert_nonce-snoc (nonce_row c r.event now) x.saved.nonces x.nonces x.kept
            ∙ ap (λ rows. rows ++ nonce_row c r.event now ∷ []) kept
            ∙ ap (λ y. expire_nonces (unix now) db.nonces ++ used_row y now ∷ []) same,
        w.unused,
      )

  commit-cases :
      (r : Result Failure (Db Blob × CommitResult))
      → ((x : Db Blob × CommitResult) × (r ≡ ok x)) ⊎ ((f : Failure) × (r ≡ err f))
  commit-cases (ok x) = inl (x, refl)
  commit-cases (err f) = inr (f, refl)

  -- A live nonce stays live through another commit.
  commit-keeps_nonce :
      (author nonce : Bytes) (t : ℕ) (db : Db Blob) (p : EventProposal) (k : Bytes) (now : ℕ)
      → unix now ≤ t
      → live_nonce author nonce t db.nonces ≡ true
      → live_nonce author nonce t (after_commit c db p k now).nonces ≡ true
  unfolding after_commit
  commit-keeps_nonce author nonce t db p k now early live =
      elim (commit-cases (commit c db p k now)) [
        | inl (r, e) ↦ rw (after_commit, e) (kept r e)
        | inr (f, e) ↦ rw (after_commit, e) live
      ]
    where
      kept :
          (r : Db Blob × CommitResult)
          → commit c db p k now ≡ ok r
          → live_nonce author nonce t r.0.nonces ≡ true
      kept (db', r) h =
          let (id, raw, _, _, outcome) = commit-Outcome c lawful db db' p k now r h in
          elim outcome [
            | inl (_, same, _) ↦
                subst (λ (d : Db Blob). live_nonce author nonce t d.nonces ≡ true) (sym same) live
            | inr (_, made) ↦
                let (rows, _) = commit_new-nonces db db' p k now id raw r made in
                rw (rows) (
                  ground (
                    arith,
                    live,
                    live_nonce-snoc author nonce t (used_row p now)
                        (expire_nonces (unix now) db.nonces),
                    live_nonce-expire author nonce (unix now) t db.nonces early,
                  ))
          ]

  commits-keep_nonce :
      (author nonce : Bytes) (t : ℕ) (steps : List (EventProposal × Bytes × ℕ)) (db : Db Blob)
      → Before c t steps
      → live_nonce author nonce t db.nonces ≡ true
      → live_nonce author nonce t (after_commits c db steps).nonces ≡ true
  unfolding after_commits
  commits-keep_nonce author nonce t [] db early live = live
  commits-keep_nonce author nonce t ((p, k, now) ∷ rest) db early live =
      commits-keep_nonce author nonce t rest (after_commit c db p k now) early.1
        (commit-keeps_nonce author nonce t db p k now early.0 live)

  -- A live nonce is refused to every proposal that is not an event already.
  live_nonce-duplicate :
      (db db' : Db Blob) (p : EventProposal) (k : Bytes) (now : ℕ) (r : CommitResult)
      → live_nonce p.author_key p.nonce (unix now) db.nonces ≡ true
      → commit c db p k now ≡ ok (db', r)
      → r.duplicate ≡ true
  live_nonce-duplicate db db' p k now r live h =
      let (id, raw, _, _, outcome) = commit-Outcome c lawful db db' p k now r h in
      elim outcome [
        | inl (d, _, _) ↦ d
        | inr (_, made) ↦
            let (_, unused) = commit_new-nonces db db' p k now id raw r made in
            let dead : live_nonce p.author_key p.nonce (unix now) db.nonces ≡ false =
              sym (
                live_nonce-expire p.author_key p.nonce (unix now) (unix now) db.nonces
                  (omega arith))
              ∙ unused in
            cc (live, dead)
      ]

  -- On a platform that keeps its laws, when a `Commit` of a proposal has succeeded as no duplicate,
  -- then after any sequence of further commits made at the Unix second of `later` or before, with
  -- that second below the nonce's expiry, a commit at `later` of a proposal with the same author
  -- and the same nonce, if it succeeds, is answered as a duplicate.
  pub commit-nonce :
      (db db' last : Db Blob) (p q : EventProposal) (k k' : Bytes) (now later : ℕ)
      (steps : List (EventProposal × Bytes × ℕ)) (r s : CommitResult)
      → commit c db p k now ≡ ok (db', r)
      → r.duplicate ≡ false
      → q.author_key ≡ p.author_key
      → q.nonce ≡ p.nonce
      → Before c (unix later) steps
      → unix later < unix (now + nonce_retention)
      → commit c (after_commits c db' steps) q k' later ≡ ok (last, s)
      → s.duplicate ≡ true
  commit-nonce db db' last p q k k' now later steps r s h new author nonce early young h' =
      live_nonce-duplicate (after_commits c db' steps) last q k' later s
        (commits-keep_nonce q.author_key q.nonce (unix later) steps db' early
          (first (commit-Outcome c lawful db db' p k now r h)))
        h'
    where
      first :
          ((id : Bytes) × (raw : Blob) × (proposal_id c p ≡ ok id)
            × (encode c (Boxed.proposal p) ≡ ok raw)
            × Outcome c lawful db db' p k now id raw r)
          → live_nonce q.author_key q.nonce (unix later) db'.nonces ≡ true
      first (id, raw, _, _, inl (d, _, _)) = cc (d, new)
      first (id, raw, _, _, inr (_, made)) =
          let (rows, _) = commit_new-nonces db db' p k now id raw r made in
          rw (rows, author, nonce)
            (ground (
              arith,
              young,
              live_nonce-snoc p.author_key p.nonce (unix later) (used_row p now)
                  (expire_nonces (unix now) db.nonces),
              equal_refl p.author_key,
              equal_refl p.nonce,
            ))
