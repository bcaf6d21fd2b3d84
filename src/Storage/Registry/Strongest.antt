-- ===== src/Storage/Registry/Strongest.antt =====
-- What `Detect` and `Recommend` of internal/storage/registry.go find.
mod Tests
use burndrop.Common.{
  ℕ, ◌≤◌, Bool, true, false, Option, none, some, List, [], ◌∷◌, if◌then◌else◌, ◌≡◌, ◌⊎◌, inl, inr,
  refl, arith, Bool-cases,
}
use burndrop.Storage.Registry.{
  Probe, Candidate, before, place, sort_stable, probed, detect, recommend,
}

behind : (X Y Z W : Type 0) → (Z → X ⊎ W) → Y ⊎ Z → X ⊎ (Y ⊎ W)
behind X Y Z W f (inl h) = inr (inl h)
behind X Y Z W f (inr h) = elim (f h) [ inl k ↦ inl k | inr k ↦ inr (inr k) ]

module _ {B : Type 0} where
  abbrev pub All : (Candidate B → Type 0) → List (Candidate B) → Type 0
  All P [] = Unit
  All P (c ∷ cs) = P c × All P cs

  abbrev pub IsOneOf : Candidate B → List (Candidate B) → Type 0
  IsOneOf c [] = ⊥
  IsOneOf c (d ∷ ds) = (c ≡ d) ⊎ IsOneOf c ds

  abbrev pub IsSorted : List (Candidate B) → Type 0
  IsSorted [] = Unit
  IsSorted (c ∷ cs) = All (λ d. before d c ≡ false) cs × IsSorted cs

  -- `c` is not available, or is at most of rank `n`.
  abbrev pub IsWithin : ℕ → Candidate B → Type 0
  IsWithin n c = c.probe.available ≡ true → c.probe.rank ≤ n

  -- No candidate of the list is available, or the result is one of them, is available and has the
  -- highest rank among the available ones.
  abbrev pub IsBest : Option (Candidate B) → List (Candidate B) → Type 0
  IsBest none cs = All (λ c. c.probe.available ≡ false) cs
  IsBest (some c) cs = IsOneOf c cs × (c.probe.available ≡ true) × All (IsWithin c.probe.rank) cs

  All-map :
      (P Q : Candidate B → Type 0)
      → ((c : Candidate B) → P c → Q c)
      → (cs : List (Candidate B)) → All P cs
      → All Q cs
  All-map P Q f [] h = tt
  All-map P Q f (c ∷ cs) h = (f c h.0, All-map P Q f cs h.1)

  All-place :
      (P : Candidate B → Type 0) (x : Candidate B) (ys : List (Candidate B))
      → P x
      → All P ys
      → All P (place x ys)
  unfolding place
  All-place P x [] p h = (p, tt)
  All-place P x (y ∷ ys) p h = elim (Bool-cases (before y x)) [
    | inl e ↦ rw e (h.0, All-place P x ys p h.1)
    | inr e ↦ rw e (p, h)
  ]

  before_asym : (a b : Candidate B) → before a b ≡ true → before b a ≡ false
  unfolding before
  before_asym a b h = ground arith

  -- Not before is transitive.
  before_trans :
      (a b c : Candidate B) → before b a ≡ false → before c b ≡ false → before c a ≡ false
  unfolding before
  before_trans a b c h k = ground arith

  place-IsSorted : (x : Candidate B) (ys : List (Candidate B)) → IsSorted ys → IsSorted (place x ys)
  unfolding place
  place-IsSorted x [] h = (tt, tt)
  place-IsSorted x (y ∷ ys) h = elim (Bool-cases (before y x)) [
    | inl e ↦
        rw e (
          All-place (λ d. before d y ≡ false) x ys (before_asym y x e) h.0,
          place-IsSorted x ys h.1,
        )
    | inr e ↦ rw e (
      (
        e,
        All-map (λ d. before d y ≡ false) (λ d. before d x ≡ false) (λ d. before_trans x y d e) ys
            h.0,
      ),
      h,
    )
  ]

  sort_stable-IsSorted : (cs : List (Candidate B)) → IsSorted (sort_stable cs)
  unfolding sort_stable
  sort_stable-IsSorted [] = tt
  sort_stable-IsSorted (c ∷ cs) = place-IsSorted c (sort_stable cs) (sort_stable-IsSorted cs)

  All-unplace :
      (P : Candidate B → Type 0) (x : Candidate B) (ys : List (Candidate B))
      → All P (place x ys)
      → P x × All P ys
  unfolding place
  All-unplace P x [] = λ h. h
  All-unplace P x (y ∷ ys) = elim (Bool-cases (before y x)) [
    | inl e ↦ rw e (λ h. ((All-unplace P x ys h.1).0, (h.0, (All-unplace P x ys h.1).1)))
    | inr e ↦ rw e (λ h. h)
  ]

  All-unsort :
      (P : Candidate B → Type 0) (cs : List (Candidate B)) → All P (sort_stable cs) → All P cs
  unfolding sort_stable
  All-unsort P [] h = tt
  All-unsort P (c ∷ cs) h =
      let both = All-unplace P c (sort_stable cs) h in (both.0, All-unsort P cs both.1)

  IsOneOf-unplace :
      (c x : Candidate B) (ys : List (Candidate B)) → IsOneOf c (place x ys) → IsOneOf c (x ∷ ys)
  unfolding place
  IsOneOf-unplace c x [] = λ h. h
  IsOneOf-unplace c x (y ∷ ys) = elim (Bool-cases (before y x)) [
    | inl e ↦
        rw e
          (behind (c ≡ x) (c ≡ y) (IsOneOf c (place x ys)) (IsOneOf c ys) (IsOneOf-unplace c x ys))
    | inr e ↦ rw e (λ h. h)
  ]

  IsOneOf-unsort :
      (c : Candidate B) (cs : List (Candidate B)) → IsOneOf c (sort_stable cs) → IsOneOf c cs
  unfolding sort_stable
  IsOneOf-unsort c [] h = h
  IsOneOf-unsort c (x ∷ xs) h = elim (IsOneOf-unplace c x (sort_stable xs) h) [
    | inl k ↦ inl k
    | inr k ↦ inr (IsOneOf-unsort c xs k)
  ]

  before-IsWithin :
      (c d : Candidate B) → c.probe.available ≡ true → before d c ≡ false → IsWithin c.probe.rank d
  unfolding before
  before-IsWithin c d a h k = ground arith

  before-unavailable :
      (c d : Candidate B)
      → c.probe.available ≡ false
      → before d c ≡ false
      → d.probe.available ≡ false
  unfolding before
  before-unavailable c d a h = ground arith

  recommend-none :
      (cs : List (Candidate B)) → All (λ c. c.probe.available ≡ false) cs → recommend cs ≡ none
  unfolding recommend
  recommend-none [] h = refl
  recommend-none (c ∷ cs) h = rw (h.0) (recommend-none cs h.1)

  recommend-first :
      (c : Candidate B) (cs : List (Candidate B))
      → c.probe.available ≡ true
      → recommend (c ∷ cs) ≡ some c
  unfolding recommend
  recommend-first c cs h = ground arith

  recommend-IsBest : (cs : List (Candidate B)) → IsSorted cs → IsBest (recommend cs) cs
  recommend-IsBest [] h = rw (recommend-none [] tt) tt
  recommend-IsBest (c ∷ cs) h = elim (Bool-cases c.probe.available) [
    | inl e ↦
        let within =
          All-map (λ d. before d c ≡ false) (IsWithin c.probe.rank) (λ d. before-IsWithin c d e) cs
            h.0 in
        rw (recommend-first c cs e) (inl refl, e, ((λ k. omega arith), within))
    | inr e ↦
        let rest =
          All-map (λ d. before d c ≡ false) (λ d. d.probe.available ≡ false)
            (λ d. before-unavailable c d e) cs h.0 in
        rw (recommend-none (c ∷ cs) (e, rest)) (e, rest)
  ]

  IsBest-unsort :
      (o : Option (Candidate B)) (cs : List (Candidate B)) → IsBest o (sort_stable cs) → IsBest o cs
  IsBest-unsort none cs h = All-unsort (λ c. c.probe.available ≡ false) cs h
  IsBest-unsort (some c) cs h =
      (IsOneOf-unsort c cs h.0, h.1, All-unsort (IsWithin c.probe.rank) cs h.2)

  -- When none of the probed backends is available, `Recommend` after `Detect` finds none. Otherwise
  -- it finds one of them that is available and whose rank is the highest of all available ones.
  -- A backend that the loop reaches after the context has ended is not available.
  pub recommend-detect :
      (probe_of : B → Probe) (cancelled : ℕ → Bool) (bs : List (Option B))
      → IsBest (recommend (detect probe_of cancelled bs)) (probed probe_of cancelled 0 bs)
  unfolding detect
  recommend-detect probe_of cancelled bs =
      let cs = probed probe_of cancelled 0 bs in
      IsBest-unsort (recommend (sort_stable cs)) cs
        (recommend-IsBest (sort_stable cs) (sort_stable-IsSorted cs))
