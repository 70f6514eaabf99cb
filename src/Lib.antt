-- ===== src/Lib.antt =====
-- tonnet-messenger: group rooms on the TON network. A room has one sequencer, which signs a chain of
-- events, and relays, which hold copies of it. This library models the rooms themselves: what an
-- event is, who may send it, what state the chain amounts to, and the two SQLite stores that hold a
-- chain and its state.
--
-- The parts, and the files that model them:
-- * `Base` is shared: results with their early returns, lists measured by native numbers, byte
--   strings, and strictly rising lists (insertion, removal, sorting).
-- * `Community.Types`, `Text`, `Validate` and `Sign` are internal/community/types.go, crypto.go and
--   codec.go: the data, the field checks, and signing, verifying and hashing. A method
--   `validateFields` is `validate_genesis`, `validate_state` or `validate_proposal`, by its receiver;
--   a method `Verify` is `verify_genesis`, `verify_room_state`, `verify_proposal` or `verify_commit`.
-- * `Community.Fields` says what the checks of the fields of a room state ask, without their code.
-- * `Community.Platform` is a parameter: the TL codec of tonutils-go, SHA-256, Ed25519 and
--   `strings.ToLower`. `IsLawful` states what the theorems use of them: a parse gives back what was
--   serialized, a digest and a signature have their sizes, and a signature verifies under the key's
--   public half. A private key of 64 bytes is one whose two halves belong together, as all are that
--   Ed25519 generates. Nothing is assumed about collisions or forgery.
-- * `Community.Projection` is internal/community/projection.go: `Prepare`, `Commit` and `Apply`.
-- * `Store.Tables`, `Sql` and `Open` are internal/store/store.go: the tables as lists of rows, each
--   statement with the constraints of the schema, and `Initialize`.
-- * `Store.Commit` is internal/store/commit.go, the sequencer's transaction; `Store.Replica` is
--   internal/store/replica.go, the relay's. Both rewrite the tables row by row.
-- * `Store.Refinement` relates the tables to the projection. `Mirrors`: roles, pins, messages,
--   metadata, genesis and head in the tables are those of the projection. `Tracks` adds that the
--   signed state that the sequencer reads has the projected write policy.
-- * `Overlay.Dedup` is internal/overlay/dedup.go: which broadcasts were delivered.
-- * `Store.Query` is internal/store/query.go, the pages of events and messages; `Store.Audit` is
--   internal/store/audit.go, the replay of a stored chain.
-- * `Replica.Sync` is the loop of internal/replica/sync.go, by which a relay fetches its sequencer's
--   events through `AppendReplica` and checks itself with `ReplicaReady` and `Audit`;
--   `Replica.Connect` is the choice of an endpoint there. The sequencer may answer anything.
-- * `Node.Peers` is the peer table of internal/node/peers.go. A pointer is an address; `Steps` has the
--   calls that the relay makes. `Node.Penalties` is the penalty box of internal/node/limits.go. Both
--   keep Go maps, which `Base.Dict` models for every order of iteration.
-- * `Node.Submit` is internal/node/community.go on a sequencer: who may read, and whose proposals reach
--   `Store.Commit`. It joins the peer table and the store.
-- * `Client.Replay` is internal/client/dm_replay.go: no direct message is shown twice.
-- * `Client.Store` is internal/client/store.go, the client's cache of a room's events and state.
-- * `Tests` runs the code on a small platform and a small room.
--
-- Conventions. A method that changes its receiver returns the new one; a failed call returns its
-- error, and the transaction leaves the tables alone (`after_commit`). An `int64` that the code
-- keeps at 0 or above is a natural number; the counts and times here stay far below 2 ^ 63. A
-- `time.Time` is its nanoseconds since 1970, at 1970 or later. A pointer to a body and the body are
-- one value; `unsupported` is every other value. A wrapped error is the error it wraps, or its
-- reject code. Loops are structural recursion, but for the loop over pages in `Replica.Sync`, which
-- has fuel: one page more than there are events to fetch is enough.
--
-- Not modelled: failures of the database driver (every one is an error and a rollback), the locks
-- (each call is one step), files, the network, the node's and the client's goroutines, the terminal
-- interfaces, and the level of the token buckets, which count in float64.
pub mod Base
pub mod Community
pub mod Store
pub mod Overlay
pub mod Node
pub mod Client
pub mod Replica
pub mod Tests
