-- ===== src/Store/Refinement/Shows.antt =====
-- The relation between the tables and a projected room state.
use tonnet_messenger.Base.{ℕ, ◌≡◌, List, some}
use tonnet_messenger.Base.Bytes.{Bytes}
use tonnet_messenger.Base.Ordered.{contains, nat_ordered}
use tonnet_messenger.Base.{ok}
use tonnet_messenger.Community.Types.{RoomState}
use tonnet_messenger.Community.Platform.{Platform}
use tonnet_messenger.Community.Projection.{Projection}
use tonnet_messenger.Store.Tables.{Role, StateRow, Db}
use tonnet_messenger.Store.Sql.{message_ids}
use tonnet_messenger.Store.Rows.{Holds, HoldsPins}
use tonnet_messenger.Store.Commit.{genesis_tx, state_tx}

-- The roles, pins, messages and metadata in the tables are those of the state.
pub record Shows {Blob : Type 0} (db : Db Blob) (messages : List ℕ) (s : RoomState) : Type 0 where
  pub known : (id : ℕ) → contains id (message_ids db.messages) ≡ contains id messages
  pub admins : Holds Role.admin db.roles s.admins
  pub moderators : Holds Role.moderator db.roles s.moderators
  pub pins : HoldsPins db.pins s.pinned_messages
  pub row : StateRow Blob
  pub stored : db.state ≡ some row
  pub name : row.name ≡ s.name
  pub description : row.description ≡ s.description
  pub policy : row.anyone_can_write ≡ s.write_policy.anyone_can_write

-- The tables also hold the projection's genesis and its head.
pub record Mirrors (c : Platform) (db : Db c.Blob) (p : Projection) : Type 0 where
  pub shows : Shows db p.messages p.state
  pub genesis_hash : Bytes
  pub genesis : genesis_tx c db ≡ ok (p.genesis, genesis_hash)
  pub head : db.head ≡ some (record { seqno = p.head_seq; hash = p.head_hash })

-- On the sequencer the signed state that `Commit` reads has the projected write policy.
pub record Tracks (c : Platform) (db : Db c.Blob) (p : Projection) : Type 0 where
  pub mirrors : Mirrors c db p
  pub signed : RoomState
  pub snapshot : state_tx c db ≡ ok signed
  pub signed_policy : signed.write_policy.anyone_can_write ≡ p.state.write_policy.anyone_can_write
