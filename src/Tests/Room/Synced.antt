-- ===== src/Tests/Room/Synced.antt =====
-- A relay that follows the sequencer of the small room, and the theorems applied to it.
use tonnet_messenger.Base.{◌≡◌, ◌≢◌, refl, Bool, true, List, [], ◌∷◌, arith, drop, none, some, ok}
use tonnet_messenger.Base.Bytes.{equal}
use tonnet_messenger.Base.Keyed.{insert_by, order_by, filter}
use tonnet_messenger.Community.Types.{CommittedEvent}
use tonnet_messenger.Community.Projection.{
  validate_projected_state, equal_projected_keys, equal_projected_longs,
}
use tonnet_messenger.Store.Tables.{Head}
use tonnet_messenger.Store.Open.{stored_state, stored_head, stored_genesis}
use tonnet_messenger.Store.Query.{normalize_limit, decode_rows, raw_events, events_after, events}
use tonnet_messenger.Store.Query.Pages.{IsChain, read_from, read_from_lem}
use tonnet_messenger.Store.Audit.{
  audit, hash_at, audit_row, audit_rows, message_at, audit_messages, audit_state_projection,
  audit_tables,
}
use tonnet_messenger.Store.Audit.Sound.{Audited, audit-Audited}
use tonnet_messenger.Store.Refinement.Run.{MirrorsValid, after_appends, appends-initialize_replica}
use tonnet_messenger.Replica.Connect.{Target, acceptable, connect, Choice, connect-Choice}
use tonnet_messenger.Replica.Sync.{
  Remote, Outcome, append_page, fetch, last_checks, finish, finish_fetch, sync,
}
use tonnet_messenger.Replica.Sync.Safe.{Served, sync-Served}
use tonnet_messenger.Replica.Sync.Ends.{Follows, Serves, from_tables, events-Serves, fetch-ends}
use tonnet_messenger.Tests.{Wire, platform, platform-IsLawful, digest}
use tonnet_messenger.Tests.Room.{
  program, now, value, owner, admin, node, room_genesis, run_1, run_2, replica_0, copied,
  signed_state,
}

sync_program : Unit {0}
unfolding insert_by order_by filter validate_projected_state equal_projected_keys
    equal_projected_longs stored_state stored_head stored_genesis normalize_limit decode_rows
    raw_events events_after events read_from hash_at audit_row audit_rows message_at audit_messages
    audit_state_projection audit_tables audit append_page fetch last_checks finish finish_fetch sync
    after_appends acceptable connect
sync_program = tt

abbrev both : List CommittedEvent
both = run_1.1.event ∷ run_2.1.event ∷ []

both-IsChain : IsChain platform run_2.0 both
unfolding program sync_program
both-IsChain = record { numbered = (refl, (refl, tt)); decoded = refl }

read_from_lem_example : read_from platform 3 run_2.0 0 1 ≡ ok (drop 0 both)
read_from_lem_example =
    read_from_lem platform 3 run_2.0 both 0 1 both-IsChain (omega arith) (omega arith) (omega arith)
      (omega arith)

abbrev same_blob : Wire → Wire → Bool
same_blob a b = equal (digest a) (digest b)

passed : audit platform same_blob run_2.0 true now ≡ ok tt
unfolding program sync_program
passed = refl

audit-Audited_example : Audited platform run_2.0 now
audit-Audited_example = audit-Audited platform same_blob run_2.0 true now passed

abbrev start_head : Head
start_head = value (record { seqno = 9; hash = [] }) (stored_head platform replica_0)

replica_0-Follows : Follows platform replica_0 start_head
unfolding program sync_program
replica_0-Follows = record { numbered = tt; at_head = refl; counted = refl }

both-Serves : Serves platform (from_tables platform run_2.0) 2
unfolding program sync_program
both-Serves = events-Serves platform run_2.0 both both-IsChain (refl, (refl, tt))

starts : start_head.seqno ≡ 0
unfolding program sync_program
starts = refl

fetch-ends_example :
    (fetch platform 3 (from_tables platform run_2.0) 0 replica_0 start_head).1 ≢ Outcome.spent
fetch-ends_example =
    fetch-ends platform 3 (from_tables platform run_2.0) 0 2 replica_0 start_head both-Serves
      replica_0-Follows (omega (arith, starts)) (omega (arith, starts))

-- The sequencer of the room, with its signed state.
abbrev sequencer : Remote
sequencer = record (from_tables platform run_2.0) {
  get_room_state = some (record {
    state = value signed_state (stored_state platform run_2.0);
    node_role = 1;
    ready = true;
  });
}

replica_0-MirrorsValid : MirrorsValid platform (after_appends platform replica_0 [])
replica_0-MirrorsValid =
    appends-initialize_replica platform platform-IsLawful room_genesis now replica_0 [] copied

replica_0_valid : MirrorsValid platform replica_0
unfolding sync_program
replica_0_valid = replica_0-MirrorsValid

synced_head :
    (sync platform same_blob 3 replica_0 true now sequencer).1
    ≡ Outcome.done (value (record { seqno = 9; hash = [] }) (stored_head platform run_2.0))
unfolding program sync_program
synced_head = refl

sync-Served_example :
    MirrorsValid platform (sync platform same_blob 3 replica_0 true now sequencer).0
    × ((head : Head)
        → (sync platform same_blob 3 replica_0 true now sequencer).1 ≡ Outcome.done head
        → Served platform platform-IsLawful
            (sync platform same_blob 3 replica_0 true now sequencer).0
            now
            head)
sync-Served_example =
    sync-Served platform platform-IsLawful same_blob 3 replica_0 true now sequencer replica_0_valid

-- An endpoint that is silent, one with another key than its genesis names, and the sequencer.
abbrev endpoints : List Target
endpoints =
    record { public = admin; answer = none }
    ∷ record { public = admin; answer = some room_genesis }
    ∷ record { public = node; answer = some room_genesis }
    ∷ []

connect-Choice_example :
    Choice platform owner none true now endpoints (connect platform owner none true now endpoints)
connect-Choice_example = connect-Choice platform owner none true now endpoints

connected :
    connect platform owner none true now endpoints
    ≡ some (record { public = node; answer = some room_genesis }, room_genesis)
unfolding program sync_program
connected = refl
