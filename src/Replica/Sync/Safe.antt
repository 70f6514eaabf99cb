-- ===== src/Replica/Sync/Safe.antt =====
-- internal/replica/sync.go: whatever the sequencer answers, the relay's tables stay those of a valid
-- room, and a synchronisation that succeeds leaves a room that is ready and passes its audit.
use tonnet_messenger.Base.{
  ℕ, zero, suc, ◌+◌, ◌≡◌, refl, ap, sym, ◌∙◌, subst, Bool, not, ◌||◌, List, [], ◌∷◌, arith, length,
  ◌==◌, Result, ok, err, ◌>>◌, Bool-cases, Option-cases, inl, inr, ◌⊎◌, >>=-eq-ok, map_err-eq-ok,
}
use tonnet_messenger.Community.Types.{RoomState, CommittedEvent}
use tonnet_messenger.Community.Platform.{Platform, IsLawful}
use tonnet_messenger.Store.Tables.{Head, Db}
use tonnet_messenger.Store.Open.{stored_head}
use tonnet_messenger.Store.Query.{max_page_limit}
use tonnet_messenger.Store.Replica.{append_replica, install_replica_state, replica_ready}
use tonnet_messenger.Store.Refinement.Run.{
  MirrorsValid, TracksValid, after_append, append-MirrorsValid,
}
use tonnet_messenger.Store.Refinement.Installed.{install_replica_state-Tracks}
use tonnet_messenger.Store.Audit.{audit}
use tonnet_messenger.Store.Audit.Sound.{Audited, audit-Audited}
use tonnet_messenger.Replica.Sync.{
  Remote, Outcome, SyncError, node_role_sequencer, append_page, fetch, last_checks, finish,
  finish_fetch, sync,
}

pub result-cases :
    {E A : Type 0} (r : Result E A) → ((x : A) × (r ≡ ok x)) ⊎ ((e : E) × (r ≡ err e))
result-cases (ok x) = inl (x, refl)
result-cases (err e) = inr (e, refl)

module _ (c : Platform) (lawful : IsLawful c) where
  open c use {Blob}

  appended-MirrorsValid :
      (db next : Db Blob) (e : CommittedEvent) (new : Bool)
      → append_replica c db e ≡ ok (next, new)
      → MirrorsValid c db
      → MirrorsValid c next
  unfolding after_append
  appended-MirrorsValid db next e new h m =
      let same : after_append c db e ≡ next = rw (after_append, h) refl in
      subst (MirrorsValid c) same (append-MirrorsValid c lawful db e m)

  append_page-MirrorsValid :
      (events : List CommittedEvent) (db : Db Blob) (head : Head)
      → MirrorsValid c db
      → MirrorsValid c (append_page c db head events).0
  unfolding append_page
  append_page-MirrorsValid [] db head m = m
  append_page-MirrorsValid (e ∷ es) db head m = elim (result-cases (append_replica c db e)) [
    | inr (f, h) ↦ rw (append_page, h) m
    | inl ((next, new), h) ↦ elim (result-cases (stored_head c next)) [
      | inr (f, k) ↦ rw (append_page, h, k) (appended-MirrorsValid db next e new h m)
      | inl (last, k) ↦
          rw (append_page, h, k)
            (append_page-MirrorsValid es next last (appended-MirrorsValid db next e new h m))
    ]
  ]

  pub fetch-MirrorsValid :
      (fuel : ℕ) (remote : Remote) (n : ℕ) (db : Db Blob) (head : Head)
      → MirrorsValid c db
      → MirrorsValid c (fetch c fuel remote n db head).0
  unfolding fetch
  fetch-MirrorsValid zero remote n db head m = m
  fetch-MirrorsValid (suc fuel) remote n db head m =
      elim (Option-cases (remote.get_events n head.seqno max_page_limit)) [
        | inl e ↦ rw (fetch, e) m
        | inr (page, e) ↦
            let valid = append_page-MirrorsValid page.events db head m in
            elim (result-cases (append_page c db head page.events).1) [
              | inr (f, h) ↦ rw (fetch, e, h) valid
              | inl (last, h) ↦ elim (Bool-cases page.has_more) [
                | inr more ↦ rw (fetch, e, h, more) valid
                | inl more ↦ elim (Bool-cases (length page.events == 0)) [
                  | inl empty ↦ rw (fetch, e, h, more, empty) valid
                  | inr empty ↦
                      rw (fetch, e, h, more, empty)
                        (fetch-MirrorsValid fuel remote (n + 1)
                          (append_page c db head page.events).0 last valid)
                ]
              ]
            ]
      ]

  TracksValid-MirrorsValid : (db : Db Blob) → TracksValid c db → MirrorsValid c db
  TracksValid-MirrorsValid db t = record {
    projection = t.projection;
    mirrors = t.tracks.mirrors;
    valid = t.valid;
  }

  installed-TracksValid :
      (db next : Db Blob) (state : RoomState)
      → install_replica_state c db state ≡ ok next
      → MirrorsValid c db
      → TracksValid c next
  installed-TracksValid db next state h m =
      let (_, _, t) =
        install_replica_state-Tracks c lawful db next m.projection state m.mirrors h in
      record { projection = m.projection; tracks = t; valid = m.valid }

  finish-MirrorsValid :
      (same_blob : Blob → Blob → Bool) (db : Db Blob) (intact : Bool) (now : ℕ) (remote : Remote)
      → MirrorsValid c db
      → MirrorsValid c (finish c same_blob db intact now remote).0
  unfolding finish
  finish-MirrorsValid same_blob db intact now remote m = elim (Option-cases remote.get_room_state) [
    | inl e ↦ rw (finish, e) m
    | inr (answer, e) ↦
        elim (Bool-cases (not (answer.node_role == node_role_sequencer) || not answer.ready)) [
          | inl b ↦ rw (finish, e, b) m
          | inr b ↦ elim (result-cases (install_replica_state c db answer.state)) [
            | inr (f, h) ↦ rw (finish, e, b, h) m
            | inl (next, h) ↦
                rw (finish, e, b, h)
                  (TracksValid-MirrorsValid next (installed-TracksValid db next answer.state h m))
          ]
        ]
  ]

  -- A room that a relay may serve.
  pub record Served (db : Db Blob) (now : ℕ) (head : Head) : Type 0 where
    pub tracks : TracksValid c db
    pub ready : replica_ready c db ≡ ok tt
    pub audited : Audited c db now
    pub at_head : stored_head c db ≡ ok head

  checked :
      (same_blob : Blob → Blob → Bool) (next : Db Blob) (intact : Bool) (now : ℕ) (head : Head)
      → TracksValid c next
      → last_checks c same_blob next intact now ≡ ok head
      → Served next now head
  unfolding last_checks
  checked same_blob next intact now head t h =
      let rest = audit c same_blob next intact now >> stored_head c next in
      let (_, ready, h₁) =
        >>=-eq-ok (replica_ready c next) (λ _. rest)
          (map_err-eq-ok SyncError.store (replica_ready c next >> rest) h) in
      let (_, audited, at_head) = >>=-eq-ok (audit c same_blob next intact now) _ h₁ in
      record {
        tracks = t;
        ready = ready;
        audited = audit-Audited c same_blob next intact now audited;
        at_head = at_head;
      }

  transfer :
      (r s : Db Blob × Result SyncError Head) (now : ℕ) (head : Head)
      → r ≡ s
      → r.1 ≡ ok head
      → (s.1 ≡ ok head → Served s.0 now head)
      → Served r.0 now head
  transfer r s now head same h f =
      subst (λ (x : Db Blob × Result SyncError Head). Served x.0 now head) (sym same)
        (f (ap (λ (x : Db Blob × Result SyncError Head). x.1) (sym same) ∙ h))

  refused :
      (f : SyncError) (db : Db Blob) (now : ℕ) (head : Head)
      → ◌≡◌ {A = Result SyncError Head} (err f) (ok head)
      → Served db now head
  refused f db now head h = cc

  finish-Served :
      (same_blob : Blob → Blob → Bool) (db : Db Blob) (intact : Bool) (now : ℕ) (remote : Remote)
      (head : Head)
      → MirrorsValid c db
      → (finish c same_blob db intact now remote).1 ≡ ok head
      → Served (finish c same_blob db intact now remote).0 now head
  unfolding finish
  finish-Served same_blob db intact now remote head m done =
      elim (Option-cases remote.get_room_state) [
        | inl e ↦
            transfer _ (db, err SyncError.query) now head (rw (finish, e) refl) done
              (refused SyncError.query db now head)
        | inr (answer, e) ↦
            elim (Bool-cases (not (answer.node_role == node_role_sequencer) || not answer.ready)) [
              | inl b ↦
                  transfer _ (db, err SyncError.not_sequencer) now head (rw (finish, e, b) refl)
                    done (refused SyncError.not_sequencer db now head)
              | inr b ↦ elim (result-cases (install_replica_state c db answer.state)) [
                | inr (f, h) ↦
                    transfer _ (db, err (SyncError.store f)) now head (rw (finish, e, b, h) refl)
                      done (refused (SyncError.store f) db now head)
                | inl (next, h) ↦
                    transfer _ (next, last_checks c same_blob next intact now) now head
                      (rw (finish, e, b, h) refl) done
                      (checked same_blob next intact now head
                        (installed-TracksValid db next answer.state h m))
              ]
            ]
      ]

  finished_of :
      (r : Result SyncError Head) (head : Head)
      → elim r as (λ _. Outcome) [ ok h ↦ Outcome.done h | err e ↦ Outcome.failed e ]
        ≡ Outcome.done head
      → r ≡ ok head
  finished_of (ok h) head e = ground (arith, e)
  finished_of (err f) head e = cc

  finish_fetch-Served :
      (same_blob : Blob → Blob → Bool) (db : Db Blob) (o : Outcome) (intact : Bool) (now : ℕ)
      (remote : Remote) (head : Head)
      → MirrorsValid c db
      → (finish_fetch c same_blob db o intact now remote).1 ≡ Outcome.done head
      → Served (finish_fetch c same_blob db o intact now remote).0 now head
  unfolding finish_fetch
  finish_fetch-Served same_blob db (Outcome.failed e) intact now remote head m h = cc
  finish_fetch-Served same_blob db Outcome.spent intact now remote head m h = cc
  finish_fetch-Served same_blob db (Outcome.done last) intact now remote head m h =
      finish-Served same_blob db intact now remote head m
        (finished_of (finish c same_blob db intact now remote).1 head h)

  finish_fetch-MirrorsValid :
      (same_blob : Blob → Blob → Bool) (db : Db Blob) (o : Outcome) (intact : Bool) (now : ℕ)
      (remote : Remote)
      → MirrorsValid c db
      → MirrorsValid c (finish_fetch c same_blob db o intact now remote).0
  unfolding finish_fetch
  finish_fetch-MirrorsValid same_blob db (Outcome.failed e) intact now remote m = m
  finish_fetch-MirrorsValid same_blob db Outcome.spent intact now remote m = m
  finish_fetch-MirrorsValid same_blob db (Outcome.done last) intact now remote m =
      finish-MirrorsValid same_blob db intact now remote m

  -- On a platform that keeps its laws, when `Sync` starts on tables that mirror a valid projection,
  -- then whatever the sequencer answers and however `Sync` ends, the tables mirror a valid
  -- projection; and when it returns a head, they track a valid projection, pass `ReplicaReady`,
  -- replay in full from their genesis as an audit asks, and have that head.
  pub sync-Served :
      (same_blob : Blob → Blob → Bool) (fuel : ℕ) (db : Db Blob) (intact : Bool) (now : ℕ)
      (remote : Remote)
      → MirrorsValid c db
      → MirrorsValid c (sync c same_blob fuel db intact now remote).0
        × ((head : Head)
            → (sync c same_blob fuel db intact now remote).1 ≡ Outcome.done head
            → Served (sync c same_blob fuel db intact now remote).0 now head)
  unfolding sync
  sync-Served same_blob fuel db intact now remote m = elim (result-cases (stored_head c db)) [
    | inr (f, h) ↦ rw (sync, h) (m, λ head d. cc)
    | inl (start, h) ↦
        let fetched = fetch c fuel remote 0 db start in
        let valid = fetch-MirrorsValid fuel remote 0 db start m in
        rw (sync, h)
          (
            finish_fetch-MirrorsValid same_blob fetched.0 fetched.1 intact now remote valid,
            λ head d.
                finish_fetch-Served same_blob fetched.0 fetched.1 intact now remote head valid d,
          )
  ]
