-- ===== src/Deque/Tests.antt =====
-- The theorems on the deque at concrete contents.
use zb.Prelude.{ℕ, ◌+◌, List, [], ◌∷◌, ◌++◌, some, replicate, ◌≡◌, arith}
use zb.Prelude.Int.{pos}
use zb.Deque.{Deque, values, push_back, grow}
use zb.Deque.Push.{IsRing, push_back-values}
use zb.Deque.Grow.{grow-full}

abbrev spare : ℕ → ℕ → ℕ
spare len n = 1

-- 7, 8 in a ring of four, from its last position on
abbrev wrapped : Deque ℕ
wrapped = record { slice = 8 ∷ 0 ∷ 0 ∷ 7 ∷ []; start = 3; n = 2 }

abbrev full : Deque ℕ
full = record { slice = 8 ∷ 9 ∷ 7 ∷ []; start = 2; n = 3 }

push_back-values_example :
    (xs : List ℕ) × (d' : Deque ℕ) × (values wrapped ≡ some xs)
    × (push_back 0 spare (5 ∷ 6 ∷ []) wrapped ≡ some d')
    × (values d' ≡ some (xs ++ 5 ∷ 6 ∷ []))
    × IsRing d'
push_back-values_example =
    push_back-values 0 spare (5 ∷ 6 ∷ []) wrapped
      (record { start_lt = omega arith; n_le = omega arith }) (omega arith)

grow-full_example :
    grow 0 spare full (pos 1) ≡ some (record { slice = replicate (1 + 1) 0; start = 2; n = 3 })
grow-full_example = grow-full 0 spare full 1 (omega arith) (omega arith) (omega arith) (omega arith)
