-- ===== src/Store/Query/Pages.antt =====
-- internal/store/query.go: the pages of a chain of events, put together.
use tonnet_messenger.Base.{
  ℕ, zero, suc, ◌+◌, ◌≤◌, ◌<◌, ◌≡◌, refl, ap, sym, ◌∙◌, Bool, List, [], ◌∷◌, ◌++◌, arith, length,
  take, drop, ltb, if◌then◌else◌, Result, ok, err, ◌>>=◌, map_err, Bool-cases, inl, inr, >>=-eq-ok,
  ok-injective,
}
use tonnet_messenger.Base.Keyed.{
  order_by, Numbered, order_by-Numbered, filter-drop, Numbered-drop, take-short, length-take_eq,
  take-drop, drop-drop, length-drop, page_more, page_cut,
}
use tonnet_messenger.Community.Types.{CommittedEvent}
use tonnet_messenger.Community.Platform.{Platform}
use tonnet_messenger.Community.Sign.{decode_committed_event}
use tonnet_messenger.Store.Tables.{Failure, EventRow, Db}
use tonnet_messenger.Store.Query.{
  EventList, seqno_of, max_page_limit, normalize_limit, decode_rows, raw_events, events_after,
  events,
}

module _ (c : Platform) where
  open c use {Blob}

  length-decode_rows :
      (rows : List (EventRow Blob)) (all : List CommittedEvent)
      → decode_rows c (raw_events c rows) ≡ ok all
      → length all ≡ length rows
  unfolding decode_rows raw_events
  length-decode_rows [] all h = ground (arith, h)
  length-decode_rows (r ∷ rs) all h =
      let (e, first, h₁) =
        >>=-eq-ok (map_err Failure.community (decode_committed_event c r.raw_commit)) _ h in
      let (rest, later, h₂) = >>=-eq-ok (decode_rows c (raw_events c rs)) _ h₁ in
      ground (arith, ok-injective h₂, length-decode_rows rs rest later)

  decode_rows-take :
      (n : ℕ) (rows : List (EventRow Blob)) (all : List CommittedEvent)
      → decode_rows c (raw_events c rows) ≡ ok all
      → decode_rows c (raw_events c (take n rows)) ≡ ok (take n all)
  unfolding decode_rows raw_events
  decode_rows-take zero rows all h = refl
  decode_rows-take (suc n) [] all h = ap (λ l. ok (take (suc n) l)) (ok-injective h)
  decode_rows-take (suc n) (r ∷ rs) all h =
      let (e, first, h₁) =
        >>=-eq-ok (map_err Failure.community (decode_committed_event c r.raw_commit)) _ h in
      let (rest, later, h₂) = >>=-eq-ok (decode_rows c (raw_events c rs)) _ h₁ in
      rw (first, decode_rows-take n rs rest later) (ap (λ l. ok (take (suc n) l)) (ok-injective h₂))

  decode_rows-drop :
      (n : ℕ) (rows : List (EventRow Blob)) (all : List CommittedEvent)
      → decode_rows c (raw_events c rows) ≡ ok all
      → decode_rows c (raw_events c (drop n rows)) ≡ ok (drop n all)
  unfolding decode_rows raw_events
  decode_rows-drop zero rows all h = h
  decode_rows-drop (suc n) [] all h = ap (λ l. ok (drop (suc n) l)) (ok-injective h)
  decode_rows-drop (suc n) (r ∷ rs) all h =
      let (e, first, h₁) =
        >>=-eq-ok (map_err Failure.community (decode_committed_event c r.raw_commit)) _ h in
      let (rest, later, h₂) = >>=-eq-ok (decode_rows c (raw_events c rs)) _ h₁ in
      decode_rows-drop n rs rest later ∙ ap (λ l. ok (drop (suc n) l)) (ok-injective h₂)

  -- A chain of events, from seqno 1 on, that all decode.
  pub record IsChain (db : Db Blob) (all : List CommittedEvent) : Type 0 where
    pub numbered : Numbered seqno_of 1 db.events
    pub decoded : decode_rows c (raw_events c db.events) ≡ ok all

  events_after-drop :
      (db : Db Blob) (after limit : ℕ)
      → Numbered seqno_of 1 db.events
      → events_after c db after limit ≡ take limit (drop after db.events)
  unfolding events_after
  events_after-drop db after limit h =
      ap (λ l. take limit (order_by seqno_of l))
        (filter-drop seqno_of 1 after after db.events h (omega arith))
      ∙ ap (λ l. take limit l)
          (order_by-Numbered seqno_of (1 + after) (drop after db.events)
            (Numbered-drop seqno_of 1 after db.events h))

  -- One page of a chain.
  pub events_lem :
      (db : Db Blob) (all : List CommittedEvent) (after limit : ℕ)
      → IsChain db all
      → 1 ≤ limit
      → limit ≤ max_page_limit
      → events c db after limit
        ≡ ok (record {
          events = take limit (drop after all);
          has_more = ltb limit (length (drop after all));
        })
  unfolding events normalize_limit
  events_lem db all after limit v low high =
      let found : decode_rows c (raw_events c (events_after c db after (limit + 1)))
          ≡ ok (take (limit + 1) (drop after all)) =
        ap (λ l. decode_rows c (raw_events c l)) (events_after-drop db after (limit + 1) v.numbered)
        ∙ decode_rows-take (limit + 1) (drop after db.events) (drop after all)
            (decode_rows-drop after db.events all v.decoded) in
      page_of (drop after all) found
    where
      allowed : normalize_limit limit ≡ ok limit
      allowed = ground (arith, low, high)

      cut : List CommittedEvent → Bool → EventList
      cut rest more = record {
        events = if more then take limit (take (limit + 1) rest) else take (limit + 1) rest;
        has_more = more;
      }

      page_of :
          (rest : List CommittedEvent)
          → decode_rows c (raw_events c (events_after c db after (limit + 1)))
            ≡ ok (take (limit + 1) rest)
          → events c db after limit
            ≡ ok (record { events = take limit rest; has_more = ltb limit (length rest) })
      page_of rest found =
          rw (events, allowed, found)
            (ap (λ more. ok (cut rest more)) (page_more limit rest)
              ∙ ap (λ l. ok (record { events = l; has_more = ltb limit (length rest) }))
                  (page_cut limit rest))

  -- A reader that asks for page after page, each from the end of the one before.
  unfoldable pub read_from : ℕ → Db Blob → ℕ → ℕ → Result Failure (List CommittedEvent)
  read_from zero db after limit = err Failure.no_rows
  read_from (suc fuel) db after limit = do
    page ← events c db after limit
    let rest = read_from fuel db (after + length page.events) limit
    if page.has_more then (do more ← rest; ok (page.events ++ more)) else ok page.events

  -- On a table whose events are numbered from 1 and decode, a reader that asks `Events` for page
  -- after page, each from the end of the one before, with any limit of a page that is allowed,
  -- reads exactly the events behind its start, once each and in order, and needs no more pages than
  -- events and one.
  pub read_from_lem :
      (fuel : ℕ) (db : Db Blob) (all : List CommittedEvent) (after limit : ℕ)
      → IsChain db all
      → 1 ≤ limit
      → limit ≤ max_page_limit
      → after ≤ length all
      → length all < after + fuel
      → read_from fuel db after limit ≡ ok (drop after all)
  unfolding read_from
  read_from_lem zero db all after limit v low high reach enough = ground (arith, reach, enough)
  read_from_lem (suc fuel) db all after limit v low high reach enough =
      elim (Bool-cases (ltb limit (length (drop after all)))) [
        | inl e ↦
            let left = length-drop after all reach in
            let full : length (take limit (drop after all)) ≡ limit =
              length-take_eq limit (drop after all) (ground (arith, e)) in
            let rest =
              ap (λ n. read_from fuel db (after + n) limit) full
              ∙ read_from_lem fuel db all (after + limit) limit v low high (ground (arith, e, left))
                  (omega (arith, low, enough)) in
            rw (read_from, events_lem db all after limit v low high, e, rest)
              (ap (λ l. ok (take limit (drop after all) ++ l)) (sym (drop-drop after limit all))
                ∙ ap (λ l. ok l) (take-drop limit (drop after all)))
        | inr e ↦
            rw (read_from, events_lem db all after limit v low high, e)
              (ap (λ l. ok l) (take-short limit (drop after all) (ground (arith, e))))
      ]
