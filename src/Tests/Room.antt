-- ===== src/Tests/Room.antt =====
-- A small room, from its genesis through a few events, and the theorems applied to it.
mod Synced
mod Cached
mod Submitted
mod Signed
use tonnet_messenger.Base.{
  ℕ, ◌+◌, ◌*◌, ◌≡◌, refl, sym, ◌∙◌, subst, ok-injective, Bool, true, false, List, [], ◌∷◌, arith,
  length, replicate, Result, ok, err, ◌⊎◌,
}
use tonnet_messenger.Base.Bytes.{Bytes, equal, less}
use tonnet_messenger.Base.Ordered.{contains, remove, insert, sort, sort_onto}
use tonnet_messenger.Community.Types.{
  Error, Genesis, RoomState, EventBody, EventProposal, CommittedEvent,
}
use tonnet_messenger.Community.Text.{
  continuations, valid_from, valid_utf8_limit, has_control, has_byte,
}
use tonnet_messenger.Community.Validate.{
  second, validate_metadata, validate_message, validate_body, canonical_keys_from, canonical_keys,
  canonical_longs_from, canonical_longs, validate_genesis, validate_state, validate_author_profile,
  validate_proposal,
}
use tonnet_messenger.Community.Sign.{
  is_message, encode, hash_boxed, decode_genesis, decode_room_state, decode_committed_event,
  genesis_hash, verify_genesis, sign_room_state, verify_room_state, proposal_digest, proposal_id,
  sign_proposal, verify_proposal, verify_proposal_at, commit_digest, commit_hash, sign_commit,
  verify_commit,
}
use tonnet_messenger.Community.Sign.RoundTrips.{
  verify-sign_room_state, verify-sign_proposal, verify-sign_commit,
}
use tonnet_messenger.Community.Projection.{
  Projection, Transition, projection_authorized, grant_projected_role, revoke_projected_role,
  pin_projected, unpin_projected, apply_projected_state_body, new_projection, prepare_delta,
  prepare, apply,
}
use tonnet_messenger.Community.Projection
use tonnet_messenger.Community.Projection.Canonical.{IsValid, apply-IsValid, new_projection-IsValid}
use tonnet_messenger.Community.Projection.Transitions.{apply-admins, commit-stale}
use tonnet_messenger.Store.Tables.{Code, Failure, Db, CommitResult}
use tonnet_messenger.Store.Sql.{
  subjects, delete_role, insert_role, pinned, delete_pin, message_ids, creation_seqnos, insert_pin,
  insert_message_row, event_with_id, event_at, event_clashes, insert_event, expire_nonces,
  live_nonce, known_nonce, insert_nonce, insert_or_ignore_nonce,
}
use tonnet_messenger.Store.Commit.{
  body_type, allowed, has_role, authorize, insert_message, pin, unpin, grant_role, revoke_role,
  apply_projection, genesis_tx, state_tx, find_event_by_id, projected_state, persist_state_snapshot,
  record_commit, commit_new, commit_unless, commit, after_commit,
}
use tonnet_messenger.Store.Open.{
  empty_tables, insert_admins, insert_genesis, initialize, initialize_replica,
}
use tonnet_messenger.Store.Replica.{
  append_new, append_unless, append_replica, equal_keys, equal_longs, is_message_type,
  latest_state_event, revision_hash_at, install_replica_state, replica_ready,
}
use mathlib.Core.Bool.{xor}
use tonnet_messenger.Store.Refinement.Run.{
  TracksValid, MirrorsValid, after_appends, commits-initialize, appends-initialize_replica,
}
use tonnet_messenger.Store.Refinement.Installed.{Agrees, install_replica_state-Tracks}
use tonnet_messenger.Store.Open.{stored_genesis, stored_state, stored_head}
use tonnet_messenger.Store.Refinement.Shows.{Mirrors, Tracks}
use tonnet_messenger.Store.Refinement.Created.{initialize-Tracks, initialize_replica-Mirrors}
use tonnet_messenger.Store.Refinement.Sequencer.{commit-Tracks}
use tonnet_messenger.Store.Refinement.Relay.{append_replica-Mirrors}
use tonnet_messenger.Store.Refinement.Again.{commit-again}
use tonnet_messenger.Store.Refinement.Nonces.{commit-nonce, after_commits}
use tonnet_messenger.Tests.{Wire, platform, platform-IsLawful}

program : Unit {0}
unfolding equal less contains remove insert sort sort_onto continuations valid_from valid_utf8_limit
    has_control has_byte validate_metadata validate_message validate_body canonical_keys_from
    canonical_keys canonical_longs_from canonical_longs validate_genesis validate_state
    validate_author_profile validate_proposal is_message encode hash_boxed decode_genesis
    decode_room_state decode_committed_event genesis_hash verify_genesis sign_room_state
    verify_room_state proposal_digest proposal_id sign_proposal verify_proposal verify_proposal_at
    commit_digest commit_hash sign_commit verify_commit projection_authorized grant_projected_role
    revoke_projected_role pin_projected unpin_projected apply_projected_state_body new_projection
    prepare_delta prepare apply Projection.commit subjects delete_role insert_role pinned delete_pin
    message_ids creation_seqnos insert_pin insert_message_row event_with_id event_at event_clashes
    insert_event expire_nonces live_nonce known_nonce insert_nonce insert_or_ignore_nonce body_type
    allowed has_role authorize insert_message pin unpin grant_role revoke_role apply_projection
    genesis_tx state_tx find_event_by_id projected_state persist_state_snapshot record_commit
    commit_new commit_unless commit after_commit insert_admins insert_genesis initialize
    initialize_replica append_new append_unless append_replica after_commits equal_keys equal_longs
    is_message_type latest_state_event revision_hash_at install_replica_state replica_ready
    stored_genesis stored_state stored_head xor
program = tt

abbrev now : ℕ
now = 1_700_000_000 * second

abbrev owner_private : Bytes
owner_private = replicate 64 7

abbrev owner : Bytes
owner = replicate 32 7

abbrev node : Bytes
node = replicate 32 9

abbrev admin : Bytes
admin = replicate 32 3

abbrev room_name : Bytes
room_name = b'r' ∷ b'o' ∷ b'o' ∷ b'm' ∷ []

abbrev room_genesis : Genesis
room_genesis = record {
  room_key = owner;
  node_key = node;
  created_at = 1_700_000_000;
  name = room_name;
  description = [];
  write_policy = record { anyone_can_write = true };
  initial_admins = admin ∷ [];
  signature = replicate 64 0;
}

-- A proposal; the author's name tells the proposals apart.
abbrev propose : Bytes → Bytes → ℕ → EventBody → EventProposal
propose author name nonce body = record {
  room_id = owner;
  author_key = author;
  author_name = name;
  author_domain = [];
  nonce = replicate 32 nonce;
  timestamp = 1_700_000_000;
  body = body;
  signature = replicate 64 0;
}

abbrev hello : EventProposal
hello = propose admin [] 1 (EventBody.message room_name)

abbrev promote : EventProposal
promote = propose owner (b'o' ∷ []) 2 (EventBody.admin_grant (replicate 32 4))

abbrev value : {E A : Type 0} → A → Result E A → A
value a (ok b) = b
value a (err e) = a

-- The sequencer's tables: at first, and after one event and after two.
abbrev tables_0 : Db Wire
tables_0 = value empty_tables (initialize platform empty_tables room_genesis owner_private now)

abbrev no_event : CommittedEvent
no_event = record {
  seqno = 0;
  message_id = 0;
  previous_hash = [];
  proposal = hello;
  committed_at = 0;
  signature = [];
}

abbrev run_1 : Db Wire × CommitResult
run_1 =
    value (empty_tables, record { event = no_event; duplicate = true })
      (commit platform tables_0 hello owner_private now)

abbrev run_2 : Db Wire × CommitResult
run_2 =
    value (empty_tables, record { event = no_event; duplicate = true })
      (commit platform run_1.0 promote owner_private now)

created : initialize platform empty_tables room_genesis owner_private now ≡ ok tables_0
unfolding program
created = refl

committed_1 : commit platform tables_0 hello owner_private now ≡ ok run_1
unfolding program
committed_1 = refl

committed_2 : commit platform run_1.0 promote owner_private now ≡ ok run_2
unfolding program
committed_2 = refl

second_seqno : (run_2.1.event.seqno ≡ 2) × (length run_2.0.roles ≡ 2)
unfolding program
second_seqno = (refl, refl)

-- The projection of the room, and what the relay holds.
abbrev empty_projection : Projection
empty_projection = record {
  address = 0;
  genesis = room_genesis;
  state = Projection.empty_state;
  head_seq = 0;
  head_hash = [];
  messages = [];
}

abbrev projection_0 : Projection
projection_0 = value empty_projection (new_projection platform 0 room_genesis now)

abbrev projection_1 : Projection
projection_1 = value empty_projection (apply platform projection_0 run_1.1.event)

abbrev replica_0 : Db Wire
replica_0 = value empty_tables (initialize_replica platform empty_tables room_genesis now)

abbrev replica_1 : Db Wire × Bool
replica_1 = value (empty_tables, false) (append_replica platform replica_0 run_1.1.event)

projected_0 : new_projection platform 0 room_genesis now ≡ ok projection_0
unfolding program
projected_0 = refl

projected_1 : apply platform projection_0 run_1.1.event ≡ ok projection_1
unfolding program
projected_1 = refl

copied : initialize_replica platform empty_tables room_genesis now ≡ ok replica_0
unfolding program
copied = refl

appended : append_replica platform replica_0 run_1.1.event ≡ ok replica_1
unfolding program
appended = refl

projection_0-IsValid : IsValid projection_0
projection_0-IsValid =
    new_projection-IsValid platform platform-IsLawful 0 now room_genesis projection_0 projected_0

initialize-Tracks_example :
    (q : Projection) × (new_projection platform 0 room_genesis now ≡ ok q)
    × Tracks platform tables_0 q
initialize-Tracks_example =
    initialize-Tracks platform platform-IsLawful 0 room_genesis owner_private now tables_0 created

initialize_replica-Mirrors_example :
    (q : Projection) × (new_projection platform 0 room_genesis now ≡ ok q)
    × Mirrors platform replica_0 q
initialize_replica-Mirrors_example =
    initialize_replica-Mirrors platform platform-IsLawful 0 room_genesis now replica_0 copied

tracked_0 : Tracks platform tables_0 projection_0
tracked_0 =
    let (q, made, t) =
      initialize-Tracks platform platform-IsLawful 0 room_genesis owner_private now tables_0
        created in
    subst (Tracks platform tables_0) (ok-injective (sym made ∙ projected_0)) t

mirrored_0 : Mirrors platform replica_0 projection_0
mirrored_0 =
    let (q, made, m) =
      initialize_replica-Mirrors platform platform-IsLawful 0 room_genesis now replica_0 copied in
    subst (Mirrors platform replica_0) (ok-injective (sym made ∙ projected_0)) m

commit-Tracks_example :
    ((run_1.1.duplicate ≡ true) × (run_1.0 ≡ tables_0))
    ⊎ ((run_1.1.duplicate ≡ false)
        × (next : Projection) × (apply platform projection_0 run_1.1.event ≡ ok next)
        × Tracks platform run_1.0 next)
commit-Tracks_example =
    commit-Tracks platform platform-IsLawful tables_0 run_1.0 projection_0 hello owner_private now
      run_1.1 (omega arith) tracked_0 committed_1

append_replica-Mirrors_example :
    ((replica_1.1 ≡ false) × (replica_1.0 ≡ replica_0))
    ⊎ ((replica_1.1 ≡ true)
        × (next : Projection) × (apply platform projection_0 run_1.1.event ≡ ok next)
        × Mirrors platform replica_1.0 next)
append_replica-Mirrors_example =
    append_replica-Mirrors platform replica_0 replica_1.0 projection_0 run_1.1.event replica_1.1
      mirrored_0 appended

commit-again_example :
    commit platform run_1.0 hello [] (now * 2)
    ≡ ok (run_1.0, record { event = run_1.1.event; duplicate = true })
commit-again_example =
    commit-again platform platform-IsLawful tables_0 run_1.0 hello owner_private [] now (now * 2)
      run_1.1 committed_1

-- The first proposal again, after the second one.
abbrev between : List (EventProposal × Bytes × ℕ)
between = (promote, owner_private, now) ∷ []

abbrev again : CommitResult
again = record { event = run_1.1.event; duplicate = true }

new_1 : run_1.1.duplicate ≡ false
unfolding program
new_1 = refl

repeated :
    commit platform (after_commits platform run_1.0 between) hello [] (now + second)
    ≡ ok (run_2.0, again)
unfolding program
repeated = refl

commit-nonce_example : again.duplicate ≡ true
commit-nonce_example =
    commit-nonce platform platform-IsLawful tables_0 run_1.0 run_2.0 hello hello owner_private []
      now (now + second) between run_1.1 again committed_1 new_1 refl refl (omega arith, tt)
      (omega arith) repeated

-- Another proposal under a nonce that is live is refused.
reused :
    commit platform run_1.0 (propose admin room_name 1 (EventBody.message [])) owner_private now
    ≡ err (Failure.reject Code.reused_nonce)
unfolding program
reused = refl

abbrev signed_state : RoomState
signed_state =
    value Projection.empty_state (sign_room_state platform owner_private projection_0.state)

state_signed : sign_room_state platform owner_private projection_0.state ≡ ok signed_state
unfolding program
state_signed = refl

verify-sign_room_state_example : verify_room_state platform signed_state ≡ ok tt
verify-sign_room_state_example =
    verify-sign_room_state platform platform-IsLawful owner_private projection_0.state signed_state
      state_signed

abbrev signed_proposal : EventProposal
signed_proposal = value hello (sign_proposal platform owner_private node hello)

proposal_signed : sign_proposal platform owner_private node hello ≡ ok signed_proposal
unfolding program
proposal_signed = refl

verify-sign_proposal_example : verify_proposal platform signed_proposal node now ≡ ok tt
verify-sign_proposal_example =
    verify-sign_proposal platform platform-IsLawful owner_private node hello signed_proposal now
      proposal_signed (omega arith) (omega arith)

abbrev signed_commit : CommittedEvent
signed_commit = value no_event (sign_commit platform owner_private hello 1 (replicate 32 0) now)

commit_signed : sign_commit platform owner_private hello 1 (replicate 32 0) now ≡ ok signed_commit
unfolding program
commit_signed = refl

proposal_verified : verify_proposal_at platform hello node ≡ ok tt
unfolding program
proposal_verified = refl

verify-sign_commit_example : verify_commit platform signed_commit owner node ≡ ok tt
verify-sign_commit_example =
    verify-sign_commit platform platform-IsLawful owner_private (replicate 32 0) node hello 1 now
      signed_commit commit_signed proposal_verified refl (omega arith)

new_projection-IsValid_example : IsValid projection_0
new_projection-IsValid_example =
    new_projection-IsValid platform platform-IsLawful 0 now room_genesis projection_0 projected_0

apply-IsValid_example : IsValid projection_1
apply-IsValid_example =
    apply-IsValid platform platform-IsLawful projection_0 projection_1 run_1.1.event
      projection_0-IsValid projected_1

apply-admins_example : (projection_1.state.admins ≡ projection_0.state.admins) ⊎ (admin ≡ owner)
unfolding program
apply-admins_example = apply-admins platform projection_0 projection_1 run_1.1.event projected_1

-- Two events that both follow the genesis.
abbrev rival : CommittedEvent
rival = value no_event (sign_commit platform owner_private promote 1 (replicate 32 0) now)

abbrev no_transition : Transition
no_transition = record {
  owner = 0;
  base_seq = 0;
  base_hash = [];
  next_seq = 0;
  next_hash = [];
  state_changed = false;
  next_state = Projection.empty_state;
  message_id = 0;
}

abbrev transition_1 : Transition
transition_1 = value no_transition (prepare platform projection_0 run_1.1.event)

abbrev transition_2 : Transition
transition_2 = value no_transition (prepare platform projection_0 rival)

prepared_1 : prepare platform projection_0 run_1.1.event ≡ ok transition_1
unfolding program
prepared_1 = refl

prepared_2 : prepare platform projection_0 rival ≡ ok transition_2
unfolding program
prepared_2 = refl

transition_committed : Projection.commit projection_0 transition_1 ≡ ok projection_1
unfolding program
transition_committed = refl

commit-stale_example : Projection.commit projection_1 transition_2 ≡ err Error.stale_transition
commit-stale_example =
    commit-stale platform projection_0 projection_1 run_1.1.event rival transition_1 transition_2
      prepared_1 prepared_2 transition_committed

commits-initialize_example : TracksValid platform (
    after_commits platform tables_0
      ((hello, owner_private, now) ∷ (promote, owner_private, now) ∷ []))
commits-initialize_example =
    commits-initialize platform platform-IsLawful room_genesis owner_private now tables_0
      ((hello, owner_private, now) ∷ (promote, owner_private, now) ∷ []) created
      (omega arith, (omega arith, tt))

appends-initialize_replica_example :
    MirrorsValid platform
      (after_appends platform replica_0 (run_1.1.event ∷ run_2.1.event ∷ run_1.1.event ∷ []))
appends-initialize_replica_example =
    appends-initialize_replica platform platform-IsLawful room_genesis now replica_0
      (run_1.1.event ∷ run_2.1.event ∷ run_1.1.event ∷ []) copied

abbrev ready_replica : Db Wire
ready_replica = value empty_tables (install_replica_state platform replica_0 signed_state)

state_installed : install_replica_state platform replica_0 signed_state ≡ ok ready_replica
unfolding program
state_installed = refl

ready : replica_ready platform ready_replica ≡ ok tt
unfolding program
ready = refl

install_replica_state-Tracks_example :
    (verify_room_state platform signed_state ≡ ok tt)
    × Agrees signed_state projection_0.state
    × Tracks platform ready_replica projection_0
install_replica_state-Tracks_example =
    install_replica_state-Tracks platform platform-IsLawful replica_0 ready_replica projection_0
      signed_state mirrored_0 state_installed
