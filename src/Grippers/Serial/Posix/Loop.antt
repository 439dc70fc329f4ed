-- ===== src/Grippers/Serial/Posix/Loop.antt =====
-- The rule for the loops of src/detail/posix/serial_port.cpp: an invariant of the state, of the rounds
-- that are over and of those to come.
use tactile_sensors.Base.{
  Bool, Bool-cases, List, [], append-nil, append_assoc, false, inl, inr, refl, true, ◌++◌, ◌∷◌, ◌≡◌,
  ◌⊎◌, ap, subst,
}
use tactile_sensors.Grippers.Serial.Posix.{
  Ending, Next, again, failed, fails, next_round, returned, run, running, stop,
}

module _ {S R : Type 0} (more : S → Bool) (step : S → R → Next S)
    (P : S → List R → List R → Type 0) where
  -- How a loop ended that had `used` some rounds before and was given `rounds`.
  abbrev pub Ended : List R → List R → Ending S × List R → Type 0
  Ended used rounds (returned s, rest) =
      ((mid : List R) × (rounds ≡ mid ++ rest) × P s (used ++ mid) rest × (more s ≡ false))
      ⊎ ((mid : List R) × (r : R) × (rounds ≡ mid ++ r ∷ rest)
          × P s (used ++ mid) (r ∷ rest)
          × (step s r ≡ stop))
  Ended used rounds (failed e s, rest) =
      (mid : List R) × (r : R) × (rounds ≡ mid ++ r ∷ rest)
      × P s (used ++ mid) (r ∷ rest)
      × (step s r ≡ fails e)
  Ended used rounds (running s, rest) = (rest ≡ []) × P s (used ++ rounds) [] × (more s ≡ true)

  -- A round before the others.
  later :
      (used : List R) (r : R) (rounds : List R) (e : Ending S × List R)
      → Ended (used ++ r ∷ []) rounds e
      → Ended used (r ∷ rounds) e
  later used r rounds (returned s, rest) (inl (mid, split, h, over)) =
      inl (
        r ∷ mid,
        ap (◌∷◌ r) split,
        subst (λ u. P s u rest) (append_assoc used (r ∷ []) mid) h,
        over,
      )
  later used r rounds (returned s, rest) (inr (mid, q, split, h, ends)) = inr (
    r ∷ mid,
    q,
    ap (◌∷◌ r) split,
    subst (λ u. P s u (q ∷ rest)) (append_assoc used (r ∷ []) mid) h,
    ends,
  )
  later used r rounds (failed e s, rest) (mid, q, split, h, ends) = (
    r ∷ mid,
    q,
    ap (◌∷◌ r) split,
    subst (λ u. P s u (q ∷ rest)) (append_assoc used (r ∷ []) mid) h,
    ends,
  )
  later used r rounds (running s, rest) (none_left, h, on) =
      (none_left, subst (λ u. P s u []) (append_assoc used (r ∷ []) rounds) h, on)

  module _
      (keep : (s s' : S) (used : List R) (r : R) (rest : List R)
        → P s used (r ∷ rest)
        → more s ≡ true
        → step s r ≡ again s'
        → P s' (used ++ r ∷ []) rest) where
    next_round-Ended :
        (n : Next S) (s : S) (used : List R) (r : R) (rounds : List R) (go : S → Ending S × List R)
        → step s r ≡ n
        → P s used (r ∷ rounds)
        → more s ≡ true
        → ((s' : S) → P s' (used ++ r ∷ []) rounds → Ended (used ++ r ∷ []) rounds (go s'))
        → Ended used (r ∷ rounds) (next_round n s rounds go)
    next_round-Ended (again s') s used r rounds go e h on ih =
        later used r rounds (go s') (ih s' (keep s s' used r rounds h on e))
    next_round-Ended stop s used r rounds go e h on ih =
        inr ([], r, refl, rw (append-nil used) h, e)
    next_round-Ended (fails x) s used r rounds go e h on ih =
        ([], r, refl, rw (append-nil used) h, e)

    pub run-Ended :
        (s : S) (used rounds : List R)
        → P s used rounds
        → Ended used rounds (run more step s rounds)
    unfolding run
    run-Ended s used [] h = elim (Bool-cases (more s)) [
      | inl on ↦ rw on (refl, rw (append-nil used) h, on)
      | inr over ↦ rw over (inl ([], refl, rw (append-nil used) h, over))
    ]
    run-Ended s used (r ∷ rounds) h = elim (Bool-cases (more s)) [
      | inl on ↦ rw on (
          next_round-Ended (step s r) s used r rounds (λ s'. run more step s' rounds) refl h on
            (λ s' h'. run-Ended s' (used ++ r ∷ []) rounds h'))
      | inr over ↦ rw over (inl ([], refl, rw (append-nil used) h, over))
    ]
