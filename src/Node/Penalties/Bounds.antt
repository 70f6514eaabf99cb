-- ===== src/Node/Penalties/Bounds.antt =====
-- The penalty box of internal/node/limits.go: its bound, and how long a peer stays in it.
use tonnet_messenger.Base.{
  ℕ, ◌+◌, ◌≤◌, ◌<◌, ◌≡◌, refl, Option-cases, Bool, true, false, not, arith, length, ltb, leb, none,
  some, Bool-cases, inl, inr,
}
use tonnet_messenger.Base.Bytes.{Bytes, equal}
use tonnet_messenger.Base.Dict.{find, delete, keep, make_room}
use tonnet_messenger.Base.Dict.Laws.{
  Single, keep-Single, delete-Single, set-Single, make_room-Single, length-keep, length-delete_le,
  length-set-make_room, find-set, find-delete, find-delete_other,
}
use tonnet_messenger.Node.Penalties.{PenaltyBox, sig_penalty, max_penalties, punish, banned}

pub record IsBox (b : PenaltyBox) : Type 0 where
  pub single : Single b
  pub bounded : length b ≤ max_penalties

-- `punish` keeps the box free of repetitions and within its limit, whatever the order in which the
-- map is iterated.
pub punish-IsBox : (b : PenaltyBox) (id : Bytes) (now : ℕ) → IsBox b → IsBox (punish b id now)
unfolding punish
punish-IsBox b id now v =
    let lasting = keep (λ _ until. not (leb until now)) b in
    let room = make_room (λ until. until) max_penalties id lasting in
    record {
      single =
          set-Single id (now + sig_penalty) room
            (make_room-Single _ max_penalties id lasting (keep-Single _ b v.single));
      bounded =
          length-set-make_room _ max_penalties id (now + sig_penalty) lasting (omega arith)
            (omega (arith, length-keep (λ _ until. not (leb until now)) b, v.bounded));
    }

-- What `banned` leaves and answers: it answers yes where the box holds a penalty of the peer that is
-- not over, and changes nothing then; otherwise the peer has no penalty left. No other peer's penalty
-- changes.
pub record Asked (b : PenaltyBox) (id : Bytes) (now : ℕ) (after : PenaltyBox) (answer : Bool)
    : Type 0 where
  pub box : IsBox after
  pub lasting : answer ≡ true → (until : ℕ) × (find id b ≡ some until) × (now ≤ until)
  pub unchanged : answer ≡ true → after ≡ b
  pub over : answer ≡ false → (until : ℕ) → find id b ≡ some until → until < now
  pub gone : answer ≡ false → find id after ≡ none
  pub others : (other : Bytes) → equal id other ≡ false → find other after ≡ find other b

dropped-Asked :
    (b : PenaltyBox) (id : Bytes) (now until : ℕ)
    → IsBox b
    → find id b ≡ some until
    → until < now
    → Asked b id now (delete id b) false
dropped-Asked b id now until v h l = record {
  box = record {
    single = delete-Single id b v.single;
    bounded = omega (arith, length-delete_le id b, v.bounded);
  };
  lasting = λ e. cc;
  unchanged = λ e. cc;
  over = λ e other k. ground (arith, h, k, l);
  gone = λ e. find-delete id b v.single;
  others = λ other e. find-delete_other other id b e;
}

held-Asked :
    (b : PenaltyBox) (id : Bytes) (now until : ℕ)
    → IsBox b
    → find id b ≡ some until
    → now ≤ until
    → Asked b id now b true
held-Asked b id now until v h l = record {
  box = v;
  lasting = λ e. (until, h, l);
  unchanged = λ e. refl;
  over = λ e. cc;
  gone = λ e. cc;
  others = λ other e. refl;
}

free-Asked :
    (b : PenaltyBox) (id : Bytes) (now : ℕ) → IsBox b → find id b ≡ none → Asked b id now b false
free-Asked b id now v h = record {
  box = v;
  lasting = λ e. cc;
  unchanged = λ e. cc;
  over = λ e until k. cc;
  gone = λ e. h;
  others = λ other e. refl;
}

-- On a box that is free of repetitions and within its limit, `banned` keeps it so, and answers yes
-- exactly when the peer has a penalty whose end is not past; with yes the box is what it was, with
-- no the peer has no penalty any more, and in both cases every other peer keeps its own.
pub banned-Asked :
    (b : PenaltyBox) (id : Bytes) (now : ℕ)
    → IsBox b
    → Asked b id now (banned b id now).0 (banned b id now).1
unfolding banned
banned-Asked b id now v = elim (Option-cases (find id b)) [
  | inl e ↦ rw (banned, e) (free-Asked b id now v e)
  | inr (until, e) ↦ elim (Bool-cases (ltb until now)) [
    | inl t ↦ rw (banned, e, t) (dropped-Asked b id now until v e (ground arith))
    | inr t ↦ rw (banned, e, t) (held-Asked b id now until v e (ground arith))
  ]
]

banned-found :
    (b : PenaltyBox) (id : Bytes) (until later : ℕ)
    → find id b ≡ some until
    → (banned b id later).1 ≡ leb later until
unfolding banned
banned-found b id until later h = ground (arith, h)

-- After `punish` of a peer, `banned` answers yes for it at exactly the times up to the end of the
-- penalty, that instant included.
pub banned-punish :
    (b : PenaltyBox) (id : Bytes) (now later : ℕ)
    → (banned (punish b id now) id later).1 ≡ leb later (now + sig_penalty)
unfolding punish
banned-punish b id now later =
    let room =
      make_room (λ until. until) max_penalties id (keep (λ _ until. not (leb until now)) b) in
    banned-found (punish b id now) id (now + sig_penalty) later
      (find-set id (now + sig_penalty) room)
