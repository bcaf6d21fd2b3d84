-- ===== src/Storage/Registry.antt =====
-- internal/storage/registry.go: the backends that a first run finds, strongest first. A backend's own
-- probe and the context's cancellation are parameters.
pub mod Strongest
use burndrop.Common.{
  ℕ, zero, suc, Bytes, codes, Bool, true, false, not, ◌&&◌, ◌||◌, Option, none, some, List, [], ◌∷◌,
  ltb, if◌then◌else◌,
}

pub record Probe : Type 0 where
  pub available : Bool
  pub reason : Bytes
  pub rank : ℕ

module _ (B : Type 0) where
  pub record Candidate : Type 0 where
    pub backend : B
    pub probe : Probe

module _ {B : Type 0} where
  -- Whether `a` stands before `b`.
  unfoldable pub before : Candidate B → Candidate B → Bool
  before a b =
      if a.probe.available && not b.probe.available
      then a.probe.available
      else if not a.probe.available && b.probe.available
      then a.probe.available
      else ltb b.probe.rank a.probe.rank

  -- sort.SliceStable: an element stands behind those that the order puts before it, and ahead of those
  -- that stood behind it.
  unfoldable pub place : Candidate B → List (Candidate B) → List (Candidate B)
  unfolding before
  place x [] = x ∷ []
  place x (y ∷ ys) = if before y x then y ∷ place x ys else x ∷ y ∷ ys

  unfoldable pub sort_stable : List (Candidate B) → List (Candidate B)
  unfolding place
  sort_stable [] = []
  sort_stable (x ∷ xs) = place x (sort_stable xs)

  unfoldable pub candidate : (B → Probe) → Bool → B → Candidate B
  candidate probe_of true b = record {
    backend = b;
    probe = record { available = false; reason = codes "detection cancelled"; rank = 0 };
  }
  candidate probe_of false b = record { backend = b; probe = probe_of b }

  -- The loop of `Detect`. `cancelled i` is whether the context has ended when the loop is at `i`.
  unfoldable pub probed : (B → Probe) → (ℕ → Bool) → ℕ → List (Option B) → List (Candidate B)
  unfolding candidate
  probed probe_of cancelled i [] = []
  probed probe_of cancelled i (none ∷ bs) = probed probe_of cancelled (suc i) bs
  probed probe_of cancelled i (some b ∷ bs) =
      candidate probe_of (cancelled i) b ∷ probed probe_of cancelled (suc i) bs

  unfoldable pub detect : (B → Probe) → (ℕ → Bool) → List (Option B) → List (Candidate B)
  unfolding probed sort_stable
  detect probe_of cancelled bs = sort_stable (probed probe_of cancelled 0 bs)

  unfoldable pub recommend : List (Candidate B) → Option (Candidate B)
  recommend [] = none
  recommend (c ∷ cs) = if c.probe.available then some c else recommend cs
