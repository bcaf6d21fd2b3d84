-- ===== src/Storage/Registry/Strongest/Tests.antt =====
-- The ordering of internal/storage/registry.go on three backends.
use burndrop.Common.{ℕ, Bool, true, false, none, some, [], ◌∷◌, ◌≡◌, refl}
use burndrop.Storage.Registry.{Probe, detect, recommend, probed}
use burndrop.Storage.Registry.Strongest.{IsBest, recommend-detect}

-- The backend `n` has rank `n`, and the backend 0 is not available.
abbrev probe_number : ℕ → Probe
probe_number ℕ.zero = record { available = false; reason = []; rank = 9 }
probe_number n = record { available = true; reason = []; rank = n }

abbrev never : ℕ → Bool
never i = false

recommend_finds :
    recommend (detect probe_number never (some 2 ∷ none ∷ some 5 ∷ some 0 ∷ []))
    ≡ some (record { backend = 5; probe = probe_number 5 })
unfolding detect recommend
recommend_finds = refl

recommend-detect_example :
    IsBest
      (recommend (detect probe_number never (some 2 ∷ none ∷ some 5 ∷ some 0 ∷ [])))
      (probed probe_number never 0 (some 2 ∷ none ∷ some 5 ∷ some 0 ∷ []))
recommend-detect_example =
    recommend-detect probe_number never (some 2 ∷ none ∷ some 5 ∷ some 0 ∷ [])
