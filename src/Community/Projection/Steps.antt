-- ===== src/Community/Projection/Steps.antt =====
-- `Apply` in one piece: with the test that `Commit` repeats gone, and one branch for each kind of
-- event.
use tonnet_messenger.Base.{
  ◌+◌, ◌≡◌, true, arith, ltb, if◌then◌else◌, Result, ok, ◌>>=◌, >>=-eq-ok, sym, ◌∙◌,
}
use tonnet_messenger.Base.Bytes.{Bytes, equal_refl, equal→eq}
use tonnet_messenger.Community.Types.{Error, CommittedEvent}
use tonnet_messenger.Community.Platform.{Platform}
use tonnet_messenger.Community.Sign.{is_message, verify_commit, commit_hash}
use tonnet_messenger.Community.Projection.{
  Projection, Transition, add_message, apply_projected_state_body, projection_authorized, commit,
  prepare_delta, prepare, apply,
}

-- The projection behind an accepted event.
unfoldable pub settle : Projection → CommittedEvent → Bytes → Result Error Projection
settle p e hash =
    if is_message e.proposal.body
    then ok (record p {
      head_seq = e.seqno;
      head_hash = hash;
      messages = if ltb 0 e.message_id then add_message e.message_id p.messages else p.messages;
    })
    else do
      next ← apply_projected_state_body p.genesis.room_key p.state p.messages e.proposal.body
      ok (record p {
        head_seq = e.seqno;
        head_hash = hash;
        state = record next { revision_seqno = e.seqno; revision_hash = hash };
      })

module _ (c : Platform) where
  pub prepare_delta-commit :
      (p : Projection) (e : CommittedEvent) (hash : Bytes)
      → e.seqno ≡ p.head_seq + 1
      → (prepare_delta c p e hash >>= commit p) ≡ settle p e hash
  unfolding prepare_delta commit settle
  prepare_delta-commit p e hash h = ground (arith, equal_refl p.head_hash)

  pub record Accepts (p : Projection) (e : CommittedEvent) : Type 0 where
    pub verified : verify_commit c e p.genesis.room_key p.genesis.node_key ≡ ok tt
    pub follows : e.seqno ≡ p.head_seq + 1
    pub chained : e.previous_hash ≡ p.head_hash
    pub permitted : projection_authorized p.genesis.room_key p.state e.proposal ≡ true

  pub apply-eq_of_Accepts :
      (p : Projection) (e : CommittedEvent) (hash : Bytes)
      → Accepts p e
      → commit_hash c e ≡ ok hash
      → apply c p e ≡ settle p e hash
  unfolding apply prepare
  apply-eq_of_Accepts p e hash a h =
      rw (a.verified, a.permitted, h)
        (ground (
          arith,
          a.follows,
          a.chained,
          equal_refl p.head_hash,
          prepare_delta-commit p e hash a.follows,
        ))

  pub prepare-Accepts :
      (p : Projection) (e : CommittedEvent) (t : Transition)
      → prepare c p e ≡ ok t
      → Accepts p e
        × (hash : Bytes) × (commit_hash c e ≡ ok hash)
        × (prepare_delta c p e hash ≡ ok t)
  unfolding prepare
  prepare-Accepts p e t h = ground (arith, equal→eq e.previous_hash p.head_hash)

  -- An event that is applied passes every test, and has a hash.
  pub apply-Accepts :
      (p q : Projection) (e : CommittedEvent)
      → apply c p e ≡ ok q
      → Accepts p e × (hash : Bytes) × (commit_hash c e ≡ ok hash) × (settle p e hash ≡ ok q)
  unfolding apply
  apply-Accepts p q e h =
      let (t, prepared, committed) = >>=-eq-ok (prepare c p e) (commit p) h in
      let (a, hash, k, d) = prepare-Accepts p e t prepared in
      (a, hash, k, (sym (prepare_delta-commit p e hash a.follows) ∙ rw d committed))
