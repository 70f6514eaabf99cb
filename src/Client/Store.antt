-- ===== src/Client/Store.antt =====
-- internal/client/store.go: the client's cache of the rooms it has joined. The rows of the tables
-- room_events and pending_operations stand with their room, since every statement names one. A
-- statement without a row fails as `no_rows`; `bytes.Equal` on two blobs is an argument. The file,
-- its migration, the settings and the repair of rooms at the start are left out.
pub mod Projected
use tonnet_messenger.Base.{
  ℕ, ◌+◌, Bool, true, false, not, ◌&&◌, ◌||◌, List, [], ◌∷◌, ◌++◌, length, take, drop, ltb, leb,
  ◌==◌, Option, none, some, if◌then◌else◌, Result, ok, err, ◌>>=◌, ◌>>◌, fail_if, or_err, map_err,
  is_some,
}
use mathlib.Core.Option
use tonnet_messenger.Base.Bytes.{Bytes, equal}
use tonnet_messenger.Base.Dict.{Dict, find, delete, set}
use tonnet_messenger.Base.Keyed.{order_by, filter}
use tonnet_messenger.Community.Types.{Error, Boxed, Genesis, RoomState, CommittedEvent}
use tonnet_messenger.Community.Platform.{Platform, hash_size, key_size}
use tonnet_messenger.Community.Sign.{
  zero_256, encode, decode_genesis, decode_room_state, decode_committed_event, verify_genesis,
  proposal_id, commit_hash,
}
use tonnet_messenger.Community.Projection.{
  Projection, new_projection, apply, validate_projected_state,
}
use tonnet_messenger.Store.Tables.{Failure}
use tonnet_messenger.Store.Query.{default_page_limit, max_page_limit, last_by, decode_rows}

pub record CachedEvent (Blob : Type 0) : Type 0 where
  pub seqno : ℕ
  pub event_id : Bytes
  pub message_id : ℕ
  pub raw_event : Blob

pub record PendingOperation (Blob : Type 0) : Type 0 where
  pub event_id : Bytes
  pub genesis_hash : Bytes
  pub raw_proposal : Blob
  pub raw_commit : Option Blob

-- A row of joined_rooms with what refers to it.
pub record JoinedRoom (Blob : Type 0) : Type 0 where
  pub reference : Bytes
  pub bootstrap : Option Bytes
  pub raw_genesis : Option Blob
  pub raw_state : Option Blob
  pub head_seqno : ℕ
  pub head_hash : Bytes
  pub events : List (CachedEvent Blob)
  pub pending : Option (PendingOperation Blob)

abbrev pub cached_seqno : {Blob : Type 0} → CachedEvent Blob → ℕ
cached_seqno r = r.seqno

abbrev pub nullable_bytes : Bytes → Option Bytes
nullable_bytes [] = none
nullable_bytes (b ∷ bs) = some (b ∷ bs)

module _ {Blob : Type 0} where
  -- INSERT INTO joined_rooms … ON CONFLICT DO UPDATE
  unfoldable pub add_room :
      Dict (JoinedRoom Blob) → Bytes → Bytes → Bytes → Result Failure (Dict (JoinedRoom Blob))
  add_room rooms room_key reference bootstrap = do
    fail_if (not (length room_key == key_size)) Failure.constraint
    ok (
        set room_key
          (elim (find room_key rooms) [
            | none ↦ record {
              reference = reference;
              bootstrap = nullable_bytes bootstrap;
              raw_genesis = none;
              raw_state = none;
              head_seqno = 0;
              head_hash = zero_256;
              events = [];
              pending = none;
            }
            | some room ↦ record room {
              reference = reference;
              bootstrap = nullable_bytes bootstrap;
            }
          ])
          rooms)

  -- SELECT raw_event FROM room_events WHERE seqno=?
  unfoldable pub cached_at : ℕ → List (CachedEvent Blob) → Option Blob
  cached_at seqno [] = none
  cached_at seqno (r ∷ rs) = if r.seqno == seqno then some r.raw_event else cached_at seqno rs

  unfoldable pub cached_clashes : CachedEvent Blob → List (CachedEvent Blob) → Bool
  cached_clashes r [] = false
  cached_clashes r (x ∷ xs) =
      x.seqno == r.seqno || equal x.event_id r.event_id || cached_clashes r xs

  -- INSERT INTO room_events
  unfoldable pub insert_cached :
      CachedEvent Blob → List (CachedEvent Blob) → Result Failure (List (CachedEvent Blob))
  insert_cached r rs = do
    fail_if (cached_clashes r rs || not (length r.event_id == hash_size)) Failure.constraint
    ok (rs ++ r ∷ [])

  -- UPDATE pending_operations SET raw_commit=? WHERE event_id=?
  unfoldable pub settle_pending :
      Blob → Bytes → Option (PendingOperation Blob) → Option (PendingOperation Blob)
  settle_pending raw id none = none
  settle_pending raw id (some p) =
      if equal p.event_id id then some (record p { raw_commit = some raw }) else some p

  unfoldable pub raw_cached : List (CachedEvent Blob) → List Blob
  raw_cached [] = []
  raw_cached (r ∷ rs) = r.raw_event ∷ raw_cached rs

  -- `deleteRoom`: the events go with their room; a pending operation holds on to it.
  unfoldable pub delete_room :
      Dict (JoinedRoom Blob) → Bytes → Result Failure (Dict (JoinedRoom Blob))
  delete_room rooms room_key = elim (find room_key rooms) [
    | none ↦ ok rooms
    | some room ↦
        if is_some room.pending then err Failure.constraint else ok (delete room_key rooms)
  ]

  unfoldable pub clear_room_state : Dict (JoinedRoom Blob) → Bytes → Dict (JoinedRoom Blob)
  clear_room_state rooms room_key = elim (find room_key rooms) [
    | none ↦ rooms
    | some room ↦ set room_key (record room { raw_state = none }) rooms
  ]

abbrev decoded :
    {Blob : Type 0} {A : Type 0} → (Blob → Result Error A) → Option Blob → Result Failure (Option A)
decoded decode none = ok none
decoded decode (some raw) = map_err Failure.community (decode raw) >>= λ value. ok (some value)

module _ (c : Platform) (same_blob : c.Blob → c.Blob → Bool) where
  open c use {Blob}

  unfoldable pub pin_genesis :
      Dict (JoinedRoom Blob) → Bytes → Genesis → ℕ → Result Failure (Dict (JoinedRoom Blob))
  pin_genesis rooms room_key g now = do
    map_err Failure.community (verify_genesis c g now)
    raw ← map_err Failure.community (encode c (Boxed.genesis g))
    fail_if (not (equal g.room_key room_key)) (Failure.community Error.wrong_room)
    room ← or_err (find room_key rooms) Failure.no_rows
    elim room.raw_genesis [
      | some pinned ↦ if same_blob pinned raw then ok rooms else err Failure.genesis_mismatch
      | none ↦ ok (set room_key (record room { raw_genesis = some raw }) rooms)
    ]

  -- `queryRoom`, of which the code reads on what the row does not hold as it is.
  unfoldable pub query_room :
      Dict (JoinedRoom Blob)
      → Bytes
      → Result Failure (JoinedRoom Blob × (Option Genesis × Option RoomState))
  query_room rooms room_key = do
    room ← or_err (find room_key rooms) Failure.no_rows
    g ← decoded (decode_genesis c) room.raw_genesis
    state ← decoded (decode_room_state c) room.raw_state
    ok (room, (g, state))

  -- The timeline below `before`, or from the end when that is 0. A limit of zero or less is 0.
  unfoldable pub timeline :
      Dict (JoinedRoom Blob) → Bytes → ℕ → ℕ → Result Failure (List CommittedEvent × Bool)
  timeline rooms room_key before asked = do
    let limit = if asked == 0 || ltb max_page_limit asked then default_page_limit else asked
    let cached : List (CachedEvent Blob) = elim (find room_key rooms) [
      | none ↦ []
      | some room ↦ room.events
    ]
    let rows = if ltb 0 before then filter (λ r. ltb (cached_seqno r) before) cached else cached
    found ← decode_rows c (raw_cached (last_by cached_seqno (limit + 1) rows))
    let has_more = ltb limit (length found)
    ok (if has_more then drop 1 found else found, has_more)

  unfoldable pub validate_pinned_genesis :
      Dict (JoinedRoom Blob) → Bytes → Blob → Result Failure (Unit {0})
  validate_pinned_genesis rooms room_key expected = do
    room ← or_err (find room_key rooms) Failure.no_rows
    elim room.raw_genesis [
      | none ↦ err Failure.genesis_mismatch
      | some pinned ↦ fail_if (not (same_blob pinned expected)) Failure.genesis_mismatch
    ]

  -- A nil projection is none.
  unfoldable pub validate_room_state :
      Dict (JoinedRoom Blob)
      → Bytes
      → Genesis
      → Option Projection
      → RoomState
      → Result Failure (Unit {0})
  validate_room_state rooms room_key g projection state = do
    fail_if (not (equal g.room_key room_key) || not (equal state.room_id room_key))
        (Failure.community Error.wrong_room)
    raw ← map_err Failure.community (encode c (Boxed.genesis g))
    validate_pinned_genesis rooms room_key raw
    (room, _) ← query_room rooms room_key
    p ← or_err projection Failure.projections_disagree
    fail_if (not (p.head_seq == room.head_seqno) || not (equal p.head_hash room.head_hash))
        Failure.projections_disagree
    map_err Failure.community (validate_projected_state c p state)

  -- `installRoom` and `updateState` have the same body.
  unfoldable pub update_room :
      Dict (JoinedRoom Blob)
      → Bytes
      → Genesis
      → Option Projection
      → RoomState
      → Result Failure (Dict (JoinedRoom Blob))
  update_room rooms room_key g projection state = do
    raw ← map_err Failure.community (encode c (Boxed.state state))
    validate_room_state rooms room_key g projection state
    room ← or_err (find room_key rooms) Failure.no_rows
    ok (set room_key (record room { raw_state = some raw }) rooms)

  -- The loop of `projectRoom` over the rows.
  unfoldable pub project_rows : Projection → List (CachedEvent Blob) → Result Failure Projection
  project_rows p [] = ok p
  project_rows p (r ∷ rs) =
      map_err Failure.community (decode_committed_event c r.raw_event) >>= λ event.
      map_err Failure.community (apply c p event) >>= λ next. project_rows next rs

  unfoldable pub project_room :
      Dict (JoinedRoom Blob) → Bytes → Genesis → ℕ → Result Failure Projection
  project_room rooms room_key g now = do
    start ← map_err Failure.community (new_projection c 0 g now)
    room ← or_err (find room_key rooms) Failure.no_rows
    p ← project_rows start (order_by cached_seqno room.events)
    fail_if (not (p.head_seq == room.head_seqno) || not (equal p.head_hash room.head_hash))
        Failure.projections_disagree
    ok p

  -- An event at or below the head.
  unfoldable pub append_known :
      JoinedRoom Blob → CommittedEvent → Blob → Bytes → Result Failure (JoinedRoom Blob × Bool)
  append_known room e raw id = do
    existing ← or_err (cached_at e.seqno room.events) Failure.no_rows
    fail_if (not (same_blob existing raw)) Failure.fork
    ok (record room { pending = settle_pending raw id room.pending }, false)

  -- An event behind the head.
  unfoldable pub append_next :
      JoinedRoom Blob
      → CommittedEvent
      → Blob
      → Bytes
      → Bytes
      → Result Failure (JoinedRoom Blob × Bool)
  append_next room e raw id hash = do
    fail_if (not (e.seqno == room.head_seqno + 1) || not (equal e.previous_hash room.head_hash))
        Failure.gap
    events ←
        insert_cached
          (record { seqno = e.seqno; event_id = id; message_id = e.message_id; raw_event = raw })
          room.events
    ok (
      record room {
        events = events;
        head_seqno = e.seqno;
        head_hash = hash;
        pending = settle_pending raw id room.pending;
      },
      true,
    )

  unfoldable pub append_event :
      Dict (JoinedRoom Blob)
      → Bytes
      → CommittedEvent
      → Result Failure (Dict (JoinedRoom Blob) × Bool)
  append_event rooms room_key e = do
    raw ← map_err Failure.community (encode c (Boxed.commit e))
    id ← map_err Failure.community (proposal_id c e.proposal)
    hash ← map_err Failure.community (commit_hash c e)
    room ← or_err (find room_key rooms) Failure.no_rows
    (next, inserted) ←
        if leb e.seqno room.head_seqno
        then append_known room e raw id
        else append_next room e raw id hash
    ok (set room_key next rooms, inserted)

  unfoldable pub has_event : Dict (JoinedRoom Blob) → Bytes → CommittedEvent → Result Failure Bool
  has_event rooms room_key e = do
    raw ← map_err Failure.community (encode c (Boxed.commit e))
    let stored = Option.bind (find room_key rooms) (λ room. cached_at e.seqno room.events)
    elim stored [
      | none ↦ ok false
      | some found ↦ if same_blob found raw then ok true else err Failure.fork
    ]
