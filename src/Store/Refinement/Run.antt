-- ===== src/Store/Refinement/Run.antt =====
-- A room from its creation on: every sequence of calls of internal/store/commit.go or replica.go.
use tonnet_messenger.Base.{
  ℕ, ◌≤◌, ◌≡◌, refl, sym, subst, List, [], ◌∷◌, Result, ok, err, inl, inr, ◌⊎◌,
}
use tonnet_messenger.Base.Bytes.{Bytes}
use tonnet_messenger.Community.Types.{Genesis, EventProposal, CommittedEvent}
use tonnet_messenger.Community.Platform.{Platform, IsLawful}
use tonnet_messenger.Community.Validate.{second}
use tonnet_messenger.Community.Projection.{Projection}
use tonnet_messenger.Community.Projection.Canonical.{IsValid, apply-IsValid, new_projection-IsValid}
use tonnet_messenger.Store.Tables.{Failure, Db}
use tonnet_messenger.Store.Commit.{commit, after_commit}
use tonnet_messenger.Store.Open.{empty_tables, initialize, initialize_replica}
use tonnet_messenger.Store.Replica.{append_replica}
use tonnet_messenger.Store.Refinement.Shows.{Mirrors, Tracks}
use tonnet_messenger.Store.Refinement.Created.{initialize-Tracks, initialize_replica-Mirrors}
use tonnet_messenger.Store.Refinement.Sequencer.{commit-Tracks}
use tonnet_messenger.Store.Refinement.Relay.{append_replica-Mirrors}
use tonnet_messenger.Store.Refinement.Nonces.{after_commits}

ok-or-err :
    {A : Type 0} (r : Result Failure A) → ((x : A) × (r ≡ ok x)) ⊎ ((f : Failure) × (r ≡ err f))
ok-or-err (ok x) = inl (x, refl)
ok-or-err (err f) = inr (f, refl)

module _ (c : Platform) where
  open c use {Blob}

  -- The tables behind an append, which a failed one leaves alone.
  unfoldable pub after_append : Db Blob → CommittedEvent → Db Blob
  after_append db e = elim (append_replica c db e) [ ok r ↦ r.0 | err f ↦ db ]

  unfoldable pub after_appends : Db Blob → List CommittedEvent → Db Blob
  unfolding after_append
  after_appends db [] = db
  after_appends db (e ∷ rest) = after_appends (after_append db e) rest

  -- Every commit of the list is made one second after 1970 or later.
  abbrev pub Late : List (EventProposal × Bytes × ℕ) → Type 0
  Late [] = Unit {0}
  Late ((p, k, now) ∷ rest) = (second ≤ now) × Late rest

  -- The tables hold some valid projection.
  pub record TracksValid (db : Db Blob) : Type 0 where
    pub projection : Projection
    pub tracks : Tracks c db projection
    pub valid : IsValid projection

  pub record MirrorsValid (db : Db Blob) : Type 0 where
    pub projection : Projection
    pub mirrors : Mirrors c db projection
    pub valid : IsValid projection

module _ (c : Platform) (lawful : IsLawful c) where
  open c use {Blob}

  commit-TracksValid :
      (db : Db Blob) (p : EventProposal) (k : Bytes) (now : ℕ)
      → second ≤ now
      → TracksValid c db
      → TracksValid c (after_commit c db p k now)
  unfolding after_commit
  commit-TracksValid db p k now late t = elim (ok-or-err (commit c db p k now)) [
    | inl ((db', r), e) ↦
        rw (after_commit, e)
          (elim (commit-Tracks c lawful db db' t.projection p k now r late t.tracks e) [
            | inl (_, same) ↦ subst (TracksValid c) (sym same) t
            | inr (_, next, applied, tracks) ↦ record {
              projection = next;
              tracks = tracks;
              valid = apply-IsValid c lawful t.projection next r.event t.valid applied;
            }
          ])
    | inr (f, e) ↦ rw (after_commit, e) t
  ]

  commits-TracksValid :
      (steps : List (EventProposal × Bytes × ℕ)) (db : Db Blob)
      → Late c steps
      → TracksValid c db
      → TracksValid c (after_commits c db steps)
  unfolding after_commits
  commits-TracksValid [] db late t = t
  commits-TracksValid ((p, k, now) ∷ rest) db late t =
      commits-TracksValid rest (after_commit c db p k now) late.1
        (commit-TracksValid db p k now late.0 t)

  pub append-MirrorsValid :
      (db : Db Blob) (e : CommittedEvent) → MirrorsValid c db → MirrorsValid c (after_append c db e)
  unfolding after_append
  append-MirrorsValid db e m = elim (ok-or-err (append_replica c db e)) [
    | inl ((db', new), h) ↦
        rw (after_append, h)
          (elim (append_replica-Mirrors c db db' m.projection e new m.mirrors h) [
            | inl (_, same) ↦ subst (MirrorsValid c) (sym same) m
            | inr (_, next, applied, mirrors) ↦ record {
              projection = next;
              mirrors = mirrors;
              valid = apply-IsValid c lawful m.projection next e m.valid applied;
            }
          ])
    | inr (f, h) ↦ rw (after_append, h) m
  ]

  appends-MirrorsValid :
      (events : List CommittedEvent) (db : Db Blob)
      → MirrorsValid c db
      → MirrorsValid c (after_appends c db events)
  unfolding after_appends
  appends-MirrorsValid [] db m = m
  appends-MirrorsValid (e ∷ rest) db m =
      appends-MirrorsValid rest (after_append c db e) (append-MirrorsValid db e m)

  -- On a platform that keeps its laws, when `Initialize` succeeds on empty tables, then behind any
  -- sequence of commits, those that fail included, each made one second after 1970 or later, the
  -- tables track a valid projection.
  pub commits-initialize :
      (g : Genesis) (k : Bytes) (now : ℕ) (db : Db Blob) (steps : List (EventProposal × Bytes × ℕ))
      → initialize c empty_tables g k now ≡ ok db
      → Late c steps
      → TracksValid c (after_commits c db steps)
  commits-initialize g k now db steps h late =
      let (q, made, t) = initialize-Tracks c lawful 0 g k now db h in
      commits-TracksValid steps db late (record {
        projection = q;
        tracks = t;
        valid = new_projection-IsValid c lawful 0 now g q made;
      })

  -- On a platform that keeps its laws, when `InitializeReplica` succeeds on empty tables, then
  -- behind any sequence of `AppendReplica`, with any events and those that fail included, the
  -- tables mirror a valid projection.
  pub appends-initialize_replica :
      (g : Genesis) (now : ℕ) (db : Db Blob) (events : List CommittedEvent)
      → initialize_replica c empty_tables g now ≡ ok db
      → MirrorsValid c (after_appends c db events)
  appends-initialize_replica g now db events h =
      let (q, made, m) = initialize_replica-Mirrors c lawful 0 g now db h in
      appends-MirrorsValid events db (record {
        projection = q;
        mirrors = m;
        valid = new_projection-IsValid c lawful 0 now g q made;
      })
