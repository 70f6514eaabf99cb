-- ===== src/Node/Submit.antt =====
-- internal/node/community.go: how a sequencer answers the queries of its peers. What the lookup of
-- an identity domain answers is an argument; no other call changes the store between the steps of
-- one, so the second look for a committed event finds what the first one found.
pub mod Bound
use tonnet_messenger.Base.{
  ℕ, Bool, true, false, not, ◌&&◌, ◌||◌, [], ◌∷◌, Option, none, some, length, ltb, ◌==◌,
  if◌then◌else◌, is_some, Result, ok, err, ◌>>=◌, ◌>>◌, fail_if, map_err,
}
use tonnet_messenger.Base.Bytes.{Bytes, equal}
use tonnet_messenger.Community.Types.{Error, Genesis, EventProposal, CommittedEvent}
use tonnet_messenger.Community.Platform.{Platform}
use tonnet_messenger.Community.Sign.{proposal_id, verify_proposal}
use tonnet_messenger.Store.Tables.{Code, Failure, Db, CommitResult}
use tonnet_messenger.Store.Commit.{rejecting, find_event_by_id, commit}
use tonnet_messenger.Store.Query.{EventList, MessageList, events, messages_recent, messages_older}
use tonnet_messenger.Node.Peers.{
  Peer, PeerTable, is_leaf, is_healthy, is_healthy_node, accepts_author,
}

-- internal/community/types.go: SubmitAccepted, SubmitDuplicate and SubmitRejected, the last by its
-- code.
pub data Reply : Type 0 where
  submit_accepted : CommittedEvent → Reply
  submit_duplicate : CommittedEvent → Reply
  submit_rejected : Code → Reply

-- `errors.As(err, &rejection)`
abbrev pub rejection_code : Failure → Code
rejection_code (Failure.reject code) = code
rejection_code _ = Code.persistence_failure

abbrev pub submit_code : Error → Code
submit_code Error.timestamp = Code.timestamp
submit_code _ = Code.invalid_signature

abbrev pub reply_to : CommitResult → Reply
reply_to r = if r.duplicate then Reply.submit_duplicate r.event else Reply.submit_accepted r.event

module _ {Signed : Type 0} where
  -- A nil peer is none. The fields of the peer are read as they are, without a look at the table.
  unfoldable pub require_read_identity : PeerTable Signed → Option (Peer Signed) → Bool
  require_read_identity t none = false
  require_read_identity t (some p) =
      is_healthy_node t (some p)
      || (is_leaf p.kind && p.member && is_healthy p.state && is_some p.conn)

module _ (c : Platform) where
  open c use {Blob}

  -- A proposal that is not in the store yet.
  unfoldable pub commit_unknown :
      Genesis → Bytes → Bool → Db Blob → EventProposal → ℕ → Result Failure (Db Blob × CommitResult)
  commit_unknown g room_private domain_verified db p now = do
    fail_if (not (equal p.room_id g.room_key)) (Failure.reject Code.wrong_room)
    map_err (λ e. Failure.reject (submit_code e)) (verify_proposal c p g.node_key now)
    fail_if (not (length p.author_domain == 0) && not domain_verified)
        (Failure.reject Code.invalid_identity_domain)
    commit c db p room_private now

  unfoldable pub commit_proposal :
      Genesis → Bytes → Bool → Db Blob → EventProposal → ℕ → Result Failure (Db Blob × CommitResult)
  commit_proposal g room_private domain_verified db p now = do
    id ← rejecting Code.malformed_request (proposal_id c p)
    found ← find_event_by_id c db id
    elim found [
      | some event ↦ ok (db, record { event = event; duplicate = true })
      | none ↦ commit_unknown g room_private domain_verified db p now
    ]

module _ (c : Platform) {Signed : Type 0} where
  open c use {Blob}

  -- The answers to the queries that read; none is a query that is passed over in silence.
  unfoldable pub answer_events :
      PeerTable Signed → Option (Peer Signed) → Db Blob → ℕ → ℕ → Option (Result Failure EventList)
  answer_events t p db after_seqno limit =
      if not (require_read_identity t p) then none else some (events c db after_seqno limit)

  unfoldable pub answer_recent :
      PeerTable Signed → Option (Peer Signed) → Db Blob → ℕ → Option (Result Failure MessageList)
  answer_recent t p db limit =
      if not (require_read_identity t p) then none else some (messages_recent c db limit)

  unfoldable pub answer_before :
      PeerTable Signed
      → Option (Peer Signed)
      → Db Blob
      → ℕ
      → ℕ
      → Option (Result Failure MessageList)
  answer_before t p db message_id limit =
      if not (require_read_identity t p) then none else some (messages_older c db message_id limit)

  -- `answerSubmit` on the sequencer, without the broadcast behind an event that is new.
  unfoldable pub answer_submit :
      Genesis
      → Bytes
      → Bool
      → PeerTable Signed
      → Option (Peer Signed)
      → Db Blob
      → EventProposal
      → ℕ
      → Db Blob × Reply
  answer_submit g room_private domain_verified t p db proposal now =
      if not (accepts_author t p proposal.author_key)
      then (db, Reply.submit_rejected Code.permission_denied)
      else elim (commit_proposal c g room_private domain_verified db proposal now) [
        | err f ↦ (db, Reply.submit_rejected (rejection_code f))
        | ok (next, r) ↦ (next, reply_to r)
      ]
