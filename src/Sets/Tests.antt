-- ===== src/Sets/Tests.antt =====
-- The theorems on the sets at concrete elements.
use zb.Prelude.{ℕ, ◌+◌, [], ◌∷◌, ◌≡◌}
use zb.Sets.Ordered.{nat_ordered}
use zb.Sets.Bit.{Bit}
use zb.Sets.Bit
use zb.Sets.Bit.Elements.{all_lem, among, Ascending}

-- the set {1, 65}, with room for more
abbrev bits : Bit
bits = record { words = 2 ∷ 2 ∷ 0 ∷ [] }

abbrev exact_bits : Bit
exact_bits = record { words = 2 ∷ 2 ∷ [] }

abbrev spare : ℕ → ℕ → ℕ
spare len n = len + 1

all_lem_example : ((y : ℕ) → among (Bit.all bits) y ≡ Bit.has bits y) × Ascending 0 (Bit.all bits)
all_lem_example = all_lem bits
