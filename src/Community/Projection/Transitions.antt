-- ===== src/Community/Projection/Transitions.antt =====
-- `Prepare` and `Commit` of internal/community/projection.go: transitions and the owner's rights.
use tonnet_messenger.Base.{
  ℕ, ◌≡◌, ap, sym, ◌∙◌, Bool, true, List, arith, ok, err, ◌⊎◌, inl, inr, Bool-cases, >>=-eq-ok,
  ok-injective,
}
use tonnet_messenger.Base.Bytes.{Bytes, equal, equal→eq}
use tonnet_messenger.Community.Types.{Error, RoomState, EventBody, CommittedEvent}
use tonnet_messenger.Community.Platform.{Platform}
use tonnet_messenger.Community.Sign.{is_message}
use tonnet_messenger.Community.Projection.{
  Projection, Transition, authorized, projection_authorized, grant_projected_role,
  revoke_projected_role, pin_projected, unpin_projected, apply_projected_state_body, commit,
  prepare_delta, prepare, apply,
}
use tonnet_messenger.Community.Projection.Steps.{settle, prepare-Accepts, apply-Accepts}

-- A body that only the owner may send, or that leaves the admins alone.
kept_or_owned :
    (room_key : Bytes) (s t : RoomState) (messages : List ℕ) (body : EventBody)
    (anyone owner admin moderator : Bool)
    → authorized anyone owner admin moderator body ≡ true
    → apply_projected_state_body room_key s messages body ≡ ok t
    → (t.admins ≡ s.admins) ⊎ (owner ≡ true)
unfolding apply_projected_state_body grant_projected_role revoke_projected_role pin_projected
    unpin_projected
kept_or_owned room_key s t messages (EventBody.message text) anyone owner admin moderator a h = cc
kept_or_owned room_key s t messages (EventBody.metadata n d) anyone owner admin moderator a h =
    inl (ground arith)
kept_or_owned room_key s t messages (EventBody.write_policy w) anyone owner admin moderator a h =
    inl (ground arith)
kept_or_owned room_key s t messages (EventBody.pin id) anyone owner admin moderator a h =
    inl (ground arith)
kept_or_owned room_key s t messages (EventBody.unpin id) anyone owner admin moderator a h =
    inl (ground arith)
kept_or_owned room_key s t messages (EventBody.admin_grant k) anyone owner admin moderator a h =
    inr a
kept_or_owned room_key s t messages (EventBody.admin_revoke k) anyone owner admin moderator a h =
    inr a
kept_or_owned room_key s t messages (EventBody.moderator_grant k) anyone owner admin moderator a h =
    inl (ground arith)
kept_or_owned room_key s t messages (EventBody.moderator_revoke k) anyone owner admin moderator a
      h =
    inl (ground arith)
kept_or_owned room_key s t messages EventBody.unsupported anyone owner admin moderator a h = cc

settle-admins :
    (p q : Projection) (e : CommittedEvent) (hash : Bytes)
    → settle p e hash ≡ ok q
    → projection_authorized p.genesis.room_key p.state e.proposal ≡ true
    → (q.state.admins ≡ p.state.admins) ⊎ (equal e.proposal.author_key p.genesis.room_key ≡ true)
unfolding settle projection_authorized
settle-admins p q e hash h a = elim (Bool-cases (is_message e.proposal.body)) [
  | inl m ↦ inl (ground (arith, m, h))
  | inr m ↦
      let (t, changed, done) =
        >>=-eq-ok (apply_projected_state_body p.genesis.room_key p.state p.messages e.proposal.body)
          _ (rw m at h) in
      elim (kept_or_owned p.genesis.room_key p.state t p.messages e.proposal.body _ _ _ _ a
        changed) [
          | inl k ↦ inl (ap (λ (x : Projection). x.state.admins) (sym (ok-injective done)) ∙ k)
          | inr o ↦ inr o
        ]
]

module _ (c : Platform) where
  -- When an event is applied, the list of admins stays as it was or the author of the event is the
  -- owner of the room.
  pub apply-admins :
      (p q : Projection) (e : CommittedEvent)
      → apply c p e ≡ ok q
      → (q.state.admins ≡ p.state.admins) ⊎ (e.proposal.author_key ≡ p.genesis.room_key)
  apply-admins p q e h =
      let (a, hash, _, s) = apply-Accepts c p q e h in
      elim (settle-admins p q e hash s a.permitted) [
        | inl k ↦ inl k
        | inr o ↦ inr (equal→eq e.proposal.author_key p.genesis.room_key o)
      ]

  prepare_delta-base :
      (p : Projection) (e : CommittedEvent) (hash : Bytes) (t : Transition)
      → prepare_delta c p e hash ≡ ok t
      → t.base_seq ≡ p.head_seq
  unfolding prepare_delta
  prepare_delta-base p e hash t h = ground arith

  prepare-base :
      (p : Projection) (e : CommittedEvent) (t : Transition)
      → prepare c p e ≡ ok t
      → t.base_seq ≡ p.head_seq
  prepare-base p e t h =
      let (_, hash, _, made) = prepare-Accepts c p e t h in prepare_delta-base p e hash t made

  -- When two transitions were prepared on one projection and the first has been committed,
  -- committing the second fails as stale.
  pub commit-stale :
      (p q : Projection) (d e : CommittedEvent) (s t : Transition)
      → prepare c p d ≡ ok s
      → prepare c p e ≡ ok t
      → commit p s ≡ ok q
      → commit q t ≡ err Error.stale_transition
  unfolding commit
  commit-stale p q d e s t hs ht h = ground (arith, prepare-base p d s hs, prepare-base p e t ht)
