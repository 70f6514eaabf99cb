-- ===== src/Tests/Room/Submitted.antt =====
-- Proposals that arrive at the sequencer of the small room, and the theorem applied to one.
use tonnet_messenger.Base.{ℕ, ◌≡◌, refl, true, [], ◌∷◌, arith, Option, some}
use tonnet_messenger.Base.Bytes.{Bytes}
use tonnet_messenger.Base.Dict.{find, has, set, collect, count}
use tonnet_messenger.Store.Tables.{Code}
use tonnet_messenger.Node.Peers.{
  Peer, PeerTable, member_leaf_count_locked, pending_count_locked, owns, accepts_author,
}
use tonnet_messenger.Node.Peers.Table.{
  new_peer_table, new_peer, put_new, add_inbound, good, accept_inbound,
}
use tonnet_messenger.Node.Submit.{Reply, commit_unknown, commit_proposal, answer_submit}
use tonnet_messenger.Node.Submit.Bound.{Answered, answer_submit-Answered}
use tonnet_messenger.Tests.{platform, platform-IsLawful}
use tonnet_messenger.Tests.Room.{
  program, now, owner_private, admin, room_genesis, hello, promote, tables_0, run_1, projection_0,
  tracked_0,
}

submit_program : Unit {0}
unfolding find has set collect count member_leaf_count_locked pending_count_locked owns
    accepts_author new_peer_table new_peer put_new add_inbound good accept_inbound commit_unknown
    commit_proposal answer_submit
submit_program = tt

abbrev leaf : Bytes
leaf = 5 ∷ []

-- A member that is connected under the admin's key.
abbrev connected : PeerTable ℕ
connected =
    (add_inbound (new_peer_table 9) now leaf (some (record { address = 1; public_key = admin }))).0

abbrev peers : PeerTable ℕ
peers = (accept_inbound connected (find leaf connected.m) now).0

abbrev peer : Option (Peer ℕ)
peer = find leaf peers.m

-- Its own message is accepted, the owner's grant is not taken from it.
answers :
    ((answer_submit platform room_genesis owner_private true peers peer tables_0 hello now).1
      ≡ Reply.submit_accepted run_1.1.event)
    × (answer_submit platform room_genesis owner_private true peers peer tables_0 promote now
        ≡ (tables_0, Reply.submit_rejected Code.permission_denied))
unfolding program submit_program
answers = (refl, refl)

answer_submit-Answered_example :
    Answered platform platform-IsLawful peers peer hello.author_key projection_0 tables_0
      (answer_submit platform room_genesis owner_private true peers peer tables_0 hello now)
answer_submit-Answered_example =
    answer_submit-Answered platform platform-IsLawful room_genesis owner_private true peers peer
      tables_0 hello now projection_0 (omega arith) tracked_0
