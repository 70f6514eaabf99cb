-- ===== src/Replica/Connect.antt =====
-- internal/replica/sync.go: the choice of an endpoint. A dial with its genesis query is what the
-- endpoint answers; the rest of `resolveTargets` and of the gateway is network I/O.
use tonnet_messenger.Base.{
  ℕ, ◌≡◌, ◌≢◌, Bool, true, false, not, ◌&&◌, List, [], ◌∷◌, arith, Option, none, some,
  if◌then◌else◌, Result, ok, err, ap, sym, subst, refl, ◌++◌, Bool-cases, Option-cases, inl, inr,
}
use tonnet_messenger.Base.Bytes.{Bytes, equal, equal→eq, equal_refl, bytes_ordered}
use tonnet_messenger.Community.Types.{Genesis, Error}
use tonnet_messenger.Community.Platform.{Platform}
use tonnet_messenger.Community.Sign.{verify_genesis}
use tonnet_messenger.Store.Tables.{Db, Failure}
use tonnet_messenger.Store.Open.{validate_genesis}

abbrev passes : {E : Type 0} → Result E (Unit {0}) → Bool
passes (ok u) = true
passes (err e) = false

-- An endpoint by its public key, with its answer to `GetRoomGenesis`, if it has one.
pub record Target : Type 0 where
  pub public : Bytes
  pub answer : Option Genesis

module _ (c : Platform) where
  open c use {Blob}

  -- The guards of the loop of `connect`.
  unfoldable pub acceptable : Bytes → Option (Db Blob) → Bool → ℕ → Bytes → Genesis → Bool
  acceptable room_id database require_sequencer now public g =
      passes (verify_genesis c g now)
      && equal g.room_key room_id
      && not (require_sequencer && not (equal g.node_key public))
      && elim database [ none ↦ true | some db ↦ passes (validate_genesis c db g) ]

  unfoldable pub connect :
      Bytes → Option (Db Blob) → Bool → ℕ → List Target → Option (Target × Genesis)
  connect room_id database require_sequencer now [] = none
  connect room_id database require_sequencer now (t ∷ ts) =
      let rest = connect room_id database require_sequencer now ts in
      elim t.answer [
        | none ↦ rest
        | some g ↦
            if acceptable room_id database require_sequencer now t.public g
            then some (t, g)
            else rest
      ]

  -- What an endpoint may lack that the loop passes over: an answer, a genesis that verifies, the
  -- room's key, the sequencer's own key where that is asked for, or the genesis of the store.
  pub data Skipped (room_id : Bytes) (database : Option (Db Blob)) (require_sequencer : Bool)
      (now : ℕ) (t : Target) : Type 0 where
    silent : t.answer ≡ none → Skipped room_id database require_sequencer now t
    unverified :
        (g : Genesis) (e : Error)
        → t.answer ≡ some g
        → verify_genesis c g now ≡ err e
        → Skipped room_id database require_sequencer now t
    of_another_room :
        (g : Genesis)
        → t.answer ≡ some g
        → g.room_key ≢ room_id
        → Skipped room_id database require_sequencer now t
    not_sequencer :
        (g : Genesis)
        → t.answer ≡ some g
        → require_sequencer ≡ true
        → g.node_key ≢ t.public
        → Skipped room_id database require_sequencer now t
    not_stored :
        (g : Genesis) (db : Db Blob) (e : Failure)
        → t.answer ≡ some g
        → database ≡ some db
        → validate_genesis c db g ≡ err e
        → Skipped room_id database require_sequencer now t

  abbrev pub AllSkipped : Bytes → Option (Db Blob) → Bool → ℕ → List Target → Type 0
  AllSkipped room_id database require_sequencer now [] = Unit {0}
  AllSkipped room_id database require_sequencer now (t ∷ ts) =
      Skipped room_id database require_sequencer now t
      × AllSkipped room_id database require_sequencer now ts

  -- The first endpoint that proves to be one of the room, and of its sequencer where asked.
  pub record Chosen (room_id : Bytes) (database : Option (Db Blob)) (require_sequencer : Bool)
      (now : ℕ) (targets : List Target) (t : Target) (g : Genesis) : Type 0 where
    pub before : List Target
    pub behind : List Target
    pub split : targets ≡ before ++ t ∷ behind
    pub skipped : AllSkipped room_id database require_sequencer now before
    pub answered : t.answer ≡ some g
    pub verified : verify_genesis c g now ≡ ok tt
    pub room : g.room_key ≡ room_id
    pub sequencer : require_sequencer ≡ true → g.node_key ≡ t.public
    pub known : (db : Db Blob) → database ≡ some db → validate_genesis c db g ≡ ok tt

  passes-eq-true : {E : Type 0} (r : Result E (Unit {0})) → passes r ≡ true → r ≡ ok tt
  passes-eq-true (ok tt) h = refl
  passes-eq-true (err e) h = cc

  passes-eq-false :
      {E : Type 0} (r : Result E (Unit {0})) → passes r ≡ false → (e : E) × (r ≡ err e)
  passes-eq-false (ok tt) h = cc
  passes-eq-false (err e) h = (e, refl)

  ne_of_equal : (x y : Bytes) → equal x y ≡ false → x ≢ y
  ne_of_equal x y h e = cc (h, ap (λ z. equal x z) e, equal_refl x)

  -- The store's part of the guards.
  known_or_not :
      (room_id : Bytes) (database : Option (Db Blob)) (require_sequencer : Bool) (now : ℕ)
      (t : Target) (g : Genesis)
      → t.answer ≡ some g
      → elim database [ none ↦ true | some db ↦ passes (validate_genesis c db g) ] ≡ false
      → Skipped room_id database require_sequencer now t
  known_or_not room_id none require_sequencer now t g a h = cc
  known_or_not room_id (some db) require_sequencer now t g a h =
      let (e, f) = passes-eq-false (validate_genesis c db g) h in not_stored g db e a refl f

  -- An endpoint that fails the guards lacks one of these.
  skipped :
      (room_id : Bytes) (database : Option (Db Blob)) (require_sequencer : Bool) (now : ℕ)
      (t : Target) (g : Genesis)
      → t.answer ≡ some g
      → acceptable room_id database require_sequencer now t.public g ≡ false
      → Skipped room_id database require_sequencer now t
  unfolding acceptable
  skipped room_id database require_sequencer now t g a h =
      elim (Bool-cases (passes (verify_genesis c g now))) [
        | inr f ↦ let (e, k) = passes-eq-false (verify_genesis c g now) f in unverified g e a k
        | inl v ↦ elim (Bool-cases (equal g.room_key room_id)) [
          | inr f ↦ of_another_room g a (ne_of_equal g.room_key room_id f)
          | inl r ↦ elim (Bool-cases (require_sequencer && not (equal g.node_key t.public))) [
            | inl f ↦
                not_sequencer g a (ground (arith, f))
                  (ne_of_equal g.node_key t.public (ground (arith, f)))
            | inr n ↦
                known_or_not room_id database require_sequencer now t g a
                  (ground (arith, h, v, r, n))
          ]
        ]
      ]

  chosen :
      (room_id : Bytes) (database : Option (Db Blob)) (require_sequencer : Bool) (now : ℕ)
      (t : Target) (ts : List Target) (g : Genesis)
      → t.answer ≡ some g
      → acceptable room_id database require_sequencer now t.public g ≡ true
      → Chosen room_id database require_sequencer now (t ∷ ts) t g
  unfolding acceptable
  chosen room_id database require_sequencer now t ts g a h = record {
    before = [];
    behind = ts;
    split = refl;
    skipped = tt;
    answered = a;
    verified = passes-eq-true (verify_genesis c g now) (ground (arith, h));
    room = ground (arith, h, equal→eq g.room_key room_id);
    sequencer = λ r. ground (arith, h, r, equal→eq g.node_key t.public);
    known = λ db e. passes-eq-true (validate_genesis c db g) (ground (arith, h, e));
  }

  connect_cons :
      (room_id : Bytes) (database : Option (Db Blob)) (require_sequencer : Bool) (now : ℕ)
      (u t : Target) (us : List Target) (g : Genesis)
      → Skipped room_id database require_sequencer now u
      → Chosen room_id database require_sequencer now us t g
      → Chosen room_id database require_sequencer now (u ∷ us) t g
  connect_cons room_id database require_sequencer now u t us g s v = record {
    before = u ∷ v.before;
    behind = v.behind;
    split = ap (◌∷◌ u) v.split;
    skipped = (s, v.skipped);
    answered = v.answered;
    verified = v.verified;
    room = v.room;
    sequencer = v.sequencer;
    known = v.known;
  }

  -- What the loop returns: the choice, or nothing when every endpoint is passed over.
  abbrev pub Choice :
      Bytes → Option (Db Blob) → Bool → ℕ → List Target → Option (Target × Genesis) → Type 0
  Choice room_id database require_sequencer now targets none =
      AllSkipped room_id database require_sequencer now targets
  Choice room_id database require_sequencer now targets (some (t, g)) =
      Chosen room_id database require_sequencer now targets t g

  -- An endpoint that is passed over leaves the choice to the others.
  Choice-cons :
      (room_id : Bytes) (database : Option (Db Blob)) (require_sequencer : Bool) (now : ℕ)
      (u : Target) (us : List Target) (r : Option (Target × Genesis))
      → Skipped room_id database require_sequencer now u
      → Choice room_id database require_sequencer now us r
      → Choice room_id database require_sequencer now (u ∷ us) r
  Choice-cons room_id database require_sequencer now u us none s v = (s, v)
  Choice-cons room_id database require_sequencer now u us (some (t, g)) s v =
      connect_cons room_id database require_sequencer now u t us g s v

  -- `connect` takes the first endpoint whose genesis passes `Genesis.Verify`, has the room's key,
  -- has the endpoint's key as its node key where a sequencer is asked for, and passes
  -- `ValidateGenesis` of the store where there is one; every endpoint before that one, and every
  -- endpoint at all where `connect` fails, does not answer or lacks one of these.
  pub connect-Choice :
      (room_id : Bytes) (database : Option (Db Blob)) (require_sequencer : Bool) (now : ℕ)
      (targets : List Target)
      → Choice room_id database require_sequencer now targets
          (connect room_id database require_sequencer now targets)
  unfolding connect
  connect-Choice room_id database require_sequencer now [] = tt
  connect-Choice room_id database require_sequencer now (u ∷ us) =
      let rest = connect-Choice room_id database require_sequencer now us in
      let others = connect room_id database require_sequencer now us in
      let cons = Choice-cons room_id database require_sequencer now u us others in
      let whole = Choice room_id database require_sequencer now (u ∷ us) in
      elim (Option-cases u.answer) [
        | inl e ↦
            let same : connect room_id database require_sequencer now (u ∷ us) ≡ others =
              rw (connect, e) refl in
            subst whole (sym same) (cons (silent e) rest)
        | inr (g, e) ↦
            elim (Bool-cases (acceptable room_id database require_sequencer now u.public g)) [
              | inl b ↦
                  let same : connect room_id database require_sequencer now (u ∷ us) ≡ some (u, g) =
                    rw (connect, e, b)
                      (ap (λ (o : Option Genesis). some (record u { answer = o }, g)) e) in
                  subst whole (sym same) (chosen room_id database require_sequencer now u us g e b)
              | inr b ↦
                  let same : connect room_id database require_sequencer now (u ∷ us) ≡ others =
                    rw (connect, e, b) refl in
                  subst whole (sym same)
                    (cons (skipped room_id database require_sequencer now u g e b) rest)
            ]
      ]
