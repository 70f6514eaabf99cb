-- ===== src/Replica/Sync/Ends.antt =====
-- internal/replica/sync.go: the fetch ends when the sequencer serves one finite chain.
use mathlib.Core.Option
use tonnet_messenger.Base.{
  ℕ, zero, suc, ◌+◌, ◌≤◌, ◌<◌, ◌≡◌, ◌≢◌, refl, ap, sym, ◌∙◌, subst, Bool, List, [], ◌∷◌, ◌++◌,
  arith, length, take, drop, ltb, ◌==◌, Option, none, some, Result, ok, err, map_err, Bool-cases,
  Option-cases, inl, inr, ok-injective, >>=-eq-ok, length-append,
}
use tonnet_messenger.Base.Bytes.{Bytes}
use tonnet_messenger.Base.Keyed.{
  Numbered, length-take_le, length-drop, Numbered-drop, Numbered-take, Numbered-snoc,
}
use tonnet_messenger.Community.Types.{Genesis, CommittedEvent}
use tonnet_messenger.Community.Platform.{Platform}
use tonnet_messenger.Community.Sign.{verify_commit, commit_hash}
use tonnet_messenger.Store.Tables.{Failure, EventRow, Head, Db}
use tonnet_messenger.Store.Sql.{event_at, insert_event}
use tonnet_messenger.Store.Open.{stored_head}
use tonnet_messenger.Store.Commit.{genesis_tx}
use tonnet_messenger.Store.Query.{EventList, seqno_of, max_page_limit, events}
use tonnet_messenger.Store.Query.Pages.{IsChain, events_lem}
use tonnet_messenger.Store.Replica.{append_replica, append_unless}
use tonnet_messenger.Store.Refinement.Settle.{apply_projection-Keeps}
use tonnet_messenger.Store.Refinement.Relay.{append_new-Appended}
use tonnet_messenger.Replica.Sync.{Remote, Outcome, SyncError, append_page, fetch}
use tonnet_messenger.Replica.Sync.Safe.{result-cases}

event_at-missing :
    {Blob : Type 0} (rows : List (EventRow Blob)) (n k : ℕ)
    → Numbered seqno_of n rows
    → n + length rows ≤ k
    → event_at k rows ≡ none
unfolding event_at
event_at-missing [] n k h l = refl
event_at-missing (r ∷ rs) n k h l =
    ground (arith, h.0, l, event_at-missing rs (n + 1) k h.1 (omega (arith, l)))

insert_event-snoc :
    {Blob : Type 0} (row : EventRow Blob) (rows events : List (EventRow Blob))
    → insert_event row rows ≡ ok events
    → events ≡ rows ++ row ∷ []
unfolding insert_event
insert_event-snoc row rows events h = ground (arith, h)

-- A query is answered or it fails.
abbrev answered : Result Failure EventList → Option EventList
answered (ok page) = some page
answered (err f) = none

module _ (c : Platform) where
  open c use {Blob}

  -- A relay's events are numbered from 1 to its head.
  pub record Follows (db : Db Blob) (head : Head) : Type 0 where
    pub numbered : Numbered seqno_of 1 db.events
    pub at_head : db.head ≡ some head
    pub counted : head.seqno ≡ length db.events

  append_unless-none :
      (found : Option (EventRow Blob)) (db next : Db Blob) (g : Genesis) (e : CommittedEvent)
      (hash : Bytes) (new : Bool) (head : Head)
      → found ≡ none
      → Follows db head
      → append_unless c found db g e hash ≡ ok (next, new)
      → (last : Head) × Follows next last × (last.seqno ≡ head.seqno + 1)
  unfolding append_unless
  append_unless-none (some row) db next g e hash new head missing v h = cc
  append_unless-none none db next g e hash new head missing v h =
      let w = append_new-Appended c db next g e hash new h in
      let keeps =
        apply_projection-Keeps (record db { events = w.events }) w.after g e w.raw _ w.applied in
      let events = insert_event-snoc w.row db.events w.events w.inserted in
      let same : w.head ≡ head = some_injective (sym w.at_head ∙ v.at_head) in
      let next_seqno : e.seqno ≡ head.seqno + 1 = w.follows ∙ ap (λ (x : Head). x.seqno + 1) same in
      let rows : next.events ≡ db.events ++ w.row ∷ [] =
        ap (λ (x : Db Blob). x.events) w.result ∙ keeps.events ∙ events in
      (
        record { seqno = e.seqno; hash = hash },
        record {
          numbered =
              subst (λ l. Numbered seqno_of 1 l) (sym rows)
                (Numbered-snoc seqno_of 1 db.events w.row v.numbered
                  (omega (arith, w.row_seqno, next_seqno, v.counted)));
          at_head =
              ap (λ (x : Db Blob). x.head) w.result
              ∙ ap (Option.map (λ (x : Head). record { seqno = e.seqno; hash = hash }))
                  (keeps.head ∙ v.at_head);
          counted =
              next_seqno
              ∙ omega (arith, v.counted, length-append db.events (w.row ∷ []))
              ∙ ap (λ l. length l) (sym rows);
        },
        next_seqno,
      )
    where
      some_injective : {A : Type 0} {a b : A} → ◌≡◌ {A = Option A} (some a) (some b) → a ≡ b
      some_injective h = cc

  -- The event behind the head is appended, or the append fails.
  append_replica-Follows :
      (db next : Db Blob) (e : CommittedEvent) (new : Bool) (head : Head)
      → Follows db head
      → e.seqno ≡ head.seqno + 1
      → append_replica c db e ≡ ok (next, new)
      → (last : Head) × Follows next last × (last.seqno ≡ head.seqno + 1)
  unfolding append_replica
  append_replica-Follows db next e new head v step h =
      let ((g, genesis_hash), _, h₁) = >>=-eq-ok (genesis_tx c db) _ h in
      let (_, _, h₂) =
        >>=-eq-ok (map_err Failure.community (verify_commit c e g.room_key g.node_key)) _ h₁ in
      let (hash, _, h₃) = >>=-eq-ok (map_err Failure.community (commit_hash c e)) _ h₂ in
      append_unless-none (event_at e.seqno db.events) db next g e hash new head
        (event_at-missing db.events 1 e.seqno v.numbered (omega (arith, step, v.counted))) v h₃

  -- A page of the events behind the head, as far as it is appended.
  append_page-Follows :
      (events : List CommittedEvent) (db : Db Blob) (head last : Head)
      → Follows db head
      → Numbered (λ (e : CommittedEvent). e.seqno) (head.seqno + 1) events
      → (append_page c db head events).1 ≡ ok last
      → Follows (append_page c db head events).0 last × (last.seqno ≡ head.seqno + length events)
  unfolding append_page stored_head
  append_page-Follows [] db head last v numbered h =
      let same : head ≡ last = ok-injective h in
      (subst (Follows db) same v, ap (λ (x : Head). x.seqno) (sym same) ∙ omega arith)
  append_page-Follows (e ∷ es) db head last v numbered h =
      elim (result-cases (append_replica c db e)) [
        | inr (f, k) ↦
            let no : ◌≡◌ {A = Result SyncError Head} (err (SyncError.store f)) (ok last) =
              rw (append_page, k) at h in
            cc
        | inl ((next, new), k) ↦
            let (middle, w, step) = append_replica-Follows db next e new head v numbered.0 k in
            let (follows, seqno) =
              append_page-Follows es next middle last w
                (subst (λ n. Numbered (λ (x : CommittedEvent). x.seqno) (n + 1) es) (sym step)
                  numbered.1)
                (rw (append_page, k, w.at_head) at h) in
            rw (append_page, k, w.at_head) (follows, omega (arith, seqno, step))
      ]

  -- The sequencer serves a chain of `total` events: a page continues the chain.
  pub record Serves (remote : Remote) (total : ℕ) : Type 0 where
    pub pages :
        (n after : ℕ) (page : EventList)
        → after ≤ total
        → remote.get_events n after max_page_limit ≡ some page
        → Numbered (λ (e : CommittedEvent). e.seqno) (after + 1) page.events
          × (after + length page.events ≤ total)

  -- A sequencer that answers from its own tables.
  abbrev pub from_tables : Db Blob → Remote
  from_tables db = record {
    get_events = λ n after limit. answered (events c db after limit);
    get_room_state = none;
  }

  pub events-Serves :
      (db : Db Blob) (all : List CommittedEvent)
      → IsChain c db all
      → Numbered (λ (e : CommittedEvent). e.seqno) 1 all
      → Serves (from_tables db) (length all)
  events-Serves db all v numbered = record {
    pages = λ n after page reach h. page_of after page reach (
        sym h
        ∙ ap (λ r. answered r)
            (events_lem c db all after max_page_limit v (omega arith) (omega arith)));
  }
    where
      page_of :
          (after : ℕ) (page : EventList)
          → after ≤ length all
          → some page
            ≡ some (record {
              events = take max_page_limit (drop after all);
              has_more = ltb max_page_limit (length (drop after all));
            })
          → Numbered (λ (e : CommittedEvent). e.seqno) (after + 1) page.events
            × (after + length page.events ≤ length all)
      page_of after page reach h =
          let rest = drop after all in
          let same : page.events ≡ take max_page_limit rest = ground (arith, h) in
          let first : Numbered (λ (e : CommittedEvent). e.seqno) (after + 1) rest =
            subst (λ m. Numbered (λ (e : CommittedEvent). e.seqno) m rest) (omega arith)
              (Numbered-drop (λ (e : CommittedEvent). e.seqno) 1 after all numbered) in
          rw same (
            Numbered-take (λ (e : CommittedEvent). e.seqno) (after + 1) max_page_limit rest first,
            omega (arith, length-take_le max_page_limit rest, length-drop after all reach),
          )

  -- When every page of the sequencer continues a chain of `total` events, and the relay's events
  -- are numbered from 1 to its head, which is no more than `total`, the loop of `Sync` ends, in an
  -- error or not, before its fuel runs out, if there is more fuel than events between the head and
  -- `total`.
  pub fetch-ends :
      (fuel : ℕ) (remote : Remote) (n total : ℕ) (db : Db Blob) (head : Head)
      → Serves remote total
      → Follows db head
      → head.seqno ≤ total
      → total < head.seqno + fuel
      → (fetch c fuel remote n db head).1 ≢ Outcome.spent
  unfolding fetch
  fetch-ends zero remote n total db head s v low enough = λ h. omega (arith, low, enough)
  fetch-ends (suc fuel) remote n total db head s v low enough =
      elim (Option-cases (remote.get_events n head.seqno max_page_limit)) [
        | inl e ↦ rw (fetch, e) (λ h. cc)
        | inr (page, e) ↦
            let (numbered, bound) = s.pages n head.seqno page low e in
            elim (result-cases (append_page c db head page.events).1) [
              | inr (f, h) ↦ rw (fetch, e, h) (λ k. cc)
              | inl (last, h) ↦
                  let (w, seqno) = append_page-Follows page.events db head last v numbered h in
                  elim (Bool-cases page.has_more) [
                    | inr more ↦ rw (fetch, e, h, more) (λ k. cc)
                    | inl more ↦ elim (Bool-cases (length page.events == 0)) [
                      | inl empty ↦ rw (fetch, e, h, more, empty) (λ k. cc)
                      | inr empty ↦
                          rw (fetch, e, h, more, empty)
                            (fetch-ends fuel remote (n + 1) total
                              (append_page c db head page.events).0 last s w
                              (omega (arith, seqno, bound)) (ground (arith, seqno, enough, empty)))
                    ]
                  ]
            ]
      ]
