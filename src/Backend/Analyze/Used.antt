-- ===== src/Backend/Analyze/Used.antt =====
-- The `usedOutputs` of the nodes that `analyze` makes.
use zb.Prelude.{ℕ, ◌+◌, ◌≤◌, ◌<◌, List, [], ◌∷◌, ◌==◌, if◌then◌else◌, length}
use zb.Backend.Analyze.{Analysis, lookup_used}

-- how many derivations have the hash
abbrev pub count_hash : ℕ → List (ℕ × ℕ) → ℕ
count_hash k [] = 0
count_hash k ((p, h) ∷ hashes) = (if h == k then 1 else 0) + count_hash k hashes

record FewUsed (a : Analysis) : Type 0 where
  most : (k : ℕ) → length (lookup_used a.used k) ≤ count_hash k a.drv_hashes
  least : (k : ℕ) → 0 < count_hash k a.drv_hashes → 0 < length (lookup_used a.used k)
