-- ===== src/Tests/Room/Cached.antt =====
-- A client that has joined the small room, and the theorem applied to it.
use tonnet_messenger.Base.{◌≡◌, refl, Bool, true, false, [], ◌∷◌, Option, none, some, ok, err}
use tonnet_messenger.Base.Bytes.{equal}
use tonnet_messenger.Base.Dict.{Dict, find, set, delete}
use tonnet_messenger.Base.Keyed.{insert_by, order_by, filter}
use tonnet_messenger.Store.Tables.{Failure}
use tonnet_messenger.Store.Query.{last_by, decode_rows}
use tonnet_messenger.Client.Store.{
  JoinedRoom, add_room, cached_at, cached_clashes, insert_cached, settle_pending, raw_cached,
  delete_room, pin_genesis, project_rows, project_room, append_known, append_next, append_event,
  has_event, timeline,
}
use tonnet_messenger.Client.Store.Projected.{IsCached, Continues, append_event-Continues}
use tonnet_messenger.Tests.{Wire, platform, platform-IsLawful, digest}
use tonnet_messenger.Tests.Room.{
  program, now, value, owner, room_genesis, run_1, run_2, projection_0,
}

cache_program : Unit {0}
unfolding find set delete insert_by order_by filter last_by decode_rows add_room cached_at
    cached_clashes insert_cached settle_pending raw_cached delete_room pin_genesis project_rows
    project_room append_known append_next append_event has_event timeline
cache_program = tt

abbrev same_blob : Wire → Wire → Bool
same_blob a b = equal (digest a) (digest b)

abbrev rooms_0 : Dict (JoinedRoom Wire)
rooms_0 =
    value []
      (pin_genesis platform same_blob (value [] (add_room [] owner [] [])) owner room_genesis now)

abbrev empty_room : JoinedRoom Wire
empty_room = record {
  reference = [];
  bootstrap = none;
  raw_genesis = none;
  raw_state = none;
  head_seqno = 7;
  head_hash = [];
  events = [];
  pending = none;
}

abbrev some_room : Option (JoinedRoom Wire) → JoinedRoom Wire
some_room none = empty_room
some_room (some room) = room

abbrev room_0 : JoinedRoom Wire
room_0 = some_room (find owner rooms_0)

room_0_found : find owner rooms_0 ≡ some room_0
unfolding program cache_program
room_0_found = refl

room_0-IsCached : IsCached platform room_0
unfolding program cache_program
room_0-IsCached = record { numbered = tt; counted = refl }

room_0_projected : project_room platform same_blob rooms_0 owner room_genesis now ≡ ok projection_0
unfolding program cache_program
room_0_projected = refl

abbrev rooms_1 : Dict (JoinedRoom Wire) × Bool
rooms_1 = value ([], false) (append_event platform same_blob rooms_0 owner run_1.1.event)

appended_1 : append_event platform same_blob rooms_0 owner run_1.1.event ≡ ok rooms_1
unfolding program cache_program
appended_1 = refl

new_1 : rooms_1.1 ≡ true
unfolding program cache_program
new_1 = refl

-- An event twice, an event out of turn, and what the cache shows.
again : append_event platform same_blob rooms_1.0 owner run_1.1.event ≡ ok (rooms_1.0, false)
unfolding program cache_program
again = refl

out_of_turn : append_event platform same_blob rooms_0 owner run_2.1.event ≡ err Failure.gap
unfolding program cache_program
out_of_turn = refl

shown : timeline platform same_blob rooms_1.0 owner 0 1 ≡ ok (run_1.1.event ∷ [], false)
unfolding program cache_program
shown = refl

append_event-Continues_example :
    Continues platform same_blob rooms_1.0 owner room_genesis now projection_0 run_1.1.event
      rooms_1.1
append_event-Continues_example =
    append_event-Continues platform same_blob platform-IsLawful rooms_0 rooms_1.0 owner room_0
      room_genesis now projection_0 run_1.1.event rooms_1.1 room_0_found room_0-IsCached
      room_0_projected appended_1
