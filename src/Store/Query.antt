-- ===== src/Store/Query.antt =====
-- internal/store/query.go: the pages of events and of messages. `Checkpoint` and `IntegrityCheck` are
-- calls of SQLite.
pub mod Pages
use tonnet_messenger.Base.{
  ℕ, ◌+◌, ◌-◌, Bool, true, false, not, ◌||◌, List, [], ◌∷◌, length, take, drop, ltb, leb, ◌==◌,
  if◌then◌else◌, Result, ok, err, ◌>>=◌, ◌>>◌, fail_if, map_err,
}
use tonnet_messenger.Base.Keyed.{order_by, filter}
use tonnet_messenger.Community.Types.{CommittedEvent}
use tonnet_messenger.Community.Platform.{Platform}
use tonnet_messenger.Community.Sign.{decode_committed_event}
use tonnet_messenger.Store.Tables.{Failure, EventRow, MessageRow, Db}

abbrev pub default_page_limit : ℕ
default_page_limit = 100

abbrev pub max_page_limit : ℕ
max_page_limit = 256

-- internal/community/types.go: `EventList` and `MessageList`.
pub record EventList : Type 0 where
  pub events : List CommittedEvent
  pub has_more : Bool

pub record MessageList : Type 0 where
  pub messages : List CommittedEvent
  pub has_more : Bool

abbrev pub seqno_of : {Blob : Type 0} → EventRow Blob → ℕ
seqno_of r = r.seqno

-- A limit below 0 is refused like one that is too large, and is left out.
unfoldable pub normalize_limit : ℕ → Result Failure ℕ
normalize_limit limit =
    if limit == 0
    then ok default_page_limit
    else if ltb max_page_limit limit
    then err Failure.page_limit
    else ok limit

module _ {A : Type 0} where
  -- SELECT … FROM (SELECT … ORDER BY key DESC LIMIT n) ORDER BY key ASC
  unfoldable pub last_by : (A → ℕ) → ℕ → List A → List A
  last_by key n rows =
      let ordered = order_by key rows in
      if leb (length ordered) n then ordered else drop (length ordered - n) ordered

module _ (c : Platform) where
  open c use {Blob}

  unfoldable pub decode_rows : List Blob → Result Failure (List CommittedEvent)
  decode_rows [] = ok []
  decode_rows (raw ∷ raws) = do
    event ← map_err Failure.community (decode_committed_event c raw)
    rest ← decode_rows raws
    ok (event ∷ rest)

  unfoldable pub raw_events : List (EventRow Blob) → List Blob
  raw_events [] = []
  raw_events (r ∷ rs) = r.raw_commit ∷ raw_events rs

  unfoldable pub raw_messages : List (MessageRow Blob) → List Blob
  raw_messages [] = []
  raw_messages (r ∷ rs) = r.raw_commit ∷ raw_messages rs

  -- SELECT raw_commit FROM events WHERE seqno>? ORDER BY seqno ASC LIMIT ?
  unfoldable pub events_after : Db Blob → ℕ → ℕ → List (EventRow Blob)
  events_after db after limit =
      take limit (order_by seqno_of (filter (λ r. ltb after r.seqno) db.events))

  unfoldable pub events : Db Blob → ℕ → ℕ → Result Failure EventList
  events db after_seqno asked = do
    limit ← normalize_limit asked
    found ← decode_rows (raw_events (events_after db after_seqno (limit + 1)))
    let has_more = ltb limit (length found)
    ok (record { events = if has_more then take limit found else found; has_more = has_more })

  unfoldable pub messages_before : Db Blob → ℕ → ℕ → Bool → Result Failure MessageList
  messages_before db message_id asked recent = do
    limit ← normalize_limit asked
    let rows =
        if recent
        then db.messages
        else filter (λ (r : MessageRow Blob). ltb r.message_id message_id) db.messages
    found ←
        decode_rows
          (raw_messages (last_by (λ (r : MessageRow Blob). r.message_id) (limit + 1) rows))
    let has_more = ltb limit (length found)
    ok (record { messages = if has_more then drop 1 found else found; has_more = has_more })

  unfoldable pub messages_recent : Db Blob → ℕ → Result Failure MessageList
  messages_recent db limit = messages_before db 0 limit true

  -- `MessagesBefore`, whose message id is below 1 when it is 0 here.
  unfoldable pub messages_older : Db Blob → ℕ → ℕ → Result Failure MessageList
  messages_older db message_id limit = do
    fail_if (ltb message_id 1) Failure.bad_message_id
    messages_before db message_id limit false
