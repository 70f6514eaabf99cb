-- ===== src/Replica/Sync.antt =====
-- internal/replica/sync.go: a relay fetches the sequencer's events page by page. The sequencer is a
-- parameter that may answer anything; `n` counts the queries. Each append and the final state are
-- transactions of their own, so the tables are part of the outcome when the code stops on an error.
-- The loop runs on fuel, and `spent` is the outcome of a loop that is cut off.
pub mod Safe
pub mod Ends
use tonnet_messenger.Base.{
  ℕ, zero, suc, ◌+◌, Bool, true, false, not, ◌||◌, List, [], ◌∷◌, length, ◌==◌, Option, none, some,
  if◌then◌else◌, Result, ok, err, ◌>>=◌, ◌>>◌, fail_if, map_err,
}
use tonnet_messenger.Base.Bytes.{Bytes}
use tonnet_messenger.Community.Types.{Genesis, RoomState, CommittedEvent}
use tonnet_messenger.Community.Platform.{Platform}
use tonnet_messenger.Store.Tables.{Failure, Head, Db}
use tonnet_messenger.Store.Open.{stored_head}
use tonnet_messenger.Store.Query.{EventList, max_page_limit}
use tonnet_messenger.Store.Replica.{append_replica, install_replica_state, replica_ready}
use tonnet_messenger.Store.Audit.{audit}

abbrev pub node_role_sequencer : ℕ
node_role_sequencer = 1

-- internal/community/types.go, as far as the code reads it.
pub record RoomStateResult : Type 0 where
  pub state : RoomState
  pub node_role : ℕ
  pub ready : Bool

pub data SyncError : Type 0 where
  query empty_page not_sequencer : SyncError
  store : Failure → SyncError

-- The sequencer at the other end; none is a query that fails.
pub record Remote : Type 0 where
  pub get_events : ℕ → ℕ → ℕ → Option EventList
  pub get_room_state : Option RoomStateResult

pub data Outcome : Type 0 where
  done : Head → Outcome
  failed : SyncError → Outcome
  spent : Outcome

module _ (c : Platform) where
  open c use {Blob}

  -- The loop over the events of a page.
  unfoldable pub append_page :
      Db Blob → Head → List CommittedEvent → Db Blob × Result SyncError Head
  append_page db head [] = (db, ok head)
  append_page db head (event ∷ events) = elim (append_replica c db event) [
    | err f ↦ (db, err (SyncError.store f))
    | ok (next, new) ↦ elim (stored_head c next) [
      | err f ↦ (next, err (SyncError.store f))
      | ok last ↦ append_page next last events
    ]
  ]

  -- The loop over the pages.
  unfoldable pub fetch : ℕ → Remote → ℕ → Db Blob → Head → Db Blob × Outcome
  fetch zero remote n db head = (db, Outcome.spent)
  fetch (suc fuel) remote n db head = elim (remote.get_events n head.seqno max_page_limit) [
    | none ↦ (db, Outcome.failed SyncError.query)
    | some page ↦
        let (next, appended) = append_page db head page.events in
        elim appended [
          | err e ↦ (next, Outcome.failed e)
          | ok last ↦
              if not page.has_more
              then (next, Outcome.done last)
              else if length page.events == 0
              then (next, Outcome.failed SyncError.empty_page)
              else fetch fuel remote (n + 1) next last
        ]
  ]

  unfoldable pub last_checks : (Blob → Blob → Bool) → Db Blob → Bool → ℕ → Result SyncError Head
  last_checks same_blob db intact now =
      map_err SyncError.store
        (do replica_ready c db; audit c same_blob db intact now; stored_head c db)

  -- Behind the loop: the sequencer's state, and the last checks.
  unfoldable pub finish :
      (Blob → Blob → Bool) → Db Blob → Bool → ℕ → Remote → Db Blob × Result SyncError Head
  finish same_blob db intact now remote = elim remote.get_room_state [
    | none ↦ (db, err SyncError.query)
    | some answer ↦
        if not (answer.node_role == node_role_sequencer) || not answer.ready
        then (db, err SyncError.not_sequencer)
        else elim (install_replica_state c db answer.state) [
          | err f ↦ (db, err (SyncError.store f))
          | ok next ↦ (next, last_checks same_blob next intact now)
        ]
  ]

  -- What `Sync` does with the outcome of its loop.
  unfoldable pub finish_fetch :
      (Blob → Blob → Bool) → Db Blob → Outcome → Bool → ℕ → Remote → Db Blob × Outcome
  finish_fetch same_blob db (Outcome.failed e) intact now remote = (db, Outcome.failed e)
  finish_fetch same_blob db Outcome.spent intact now remote = (db, Outcome.spent)
  finish_fetch same_blob db (Outcome.done last) intact now remote =
      let (final, result) = finish same_blob db intact now remote in
      (final, elim result [ ok head ↦ Outcome.done head | err e ↦ Outcome.failed e ])

  unfoldable pub sync : (Blob → Blob → Bool) → ℕ → Db Blob → Bool → ℕ → Remote → Db Blob × Outcome
  sync same_blob fuel db intact now remote = elim (stored_head c db) [
    | err f ↦ (db, Outcome.failed (SyncError.store f))
    | ok head ↦
        let (next, outcome) = fetch fuel remote 0 db head in
        finish_fetch same_blob next outcome intact now remote
  ]
