-- ===== src/Luacode/Instruction/Fields.antt =====
-- How the fields of an instruction lie in its 32 bits: the encoders and masks of
-- internal/luacode/instruction.go as sums of shifted fields.
use zb.Prelude.{
  ℕ, ◌+◌, ◌-◌, ◌*◌, ◌/◌, ◌%◌, ◌^◌, ◌≤◌, ◌<◌, bit_and, bit_or, Bool, true, false, not, ◌≡◌, sym, ◌∙◌,
  ap, ap₂, ◌==◌, if◌then◌else◌, arith,
}
use native.Mathlib.Nat.{mod-eq_of_lt, mod-lt, mod-add-div, mul_comm}
use zb.Prelude.Bits.{
  and_not, bit_or_disjoint, bit_or_split, bit_or_step, bit_or-zero, bit_and_split, bit_and_ones,
  bit_and-zero, pow_two_pos,
}
use zb.Luacode.Instruction.{shl, op_code}

-- the flag k as a digit
abbrev pub digit : Bool → ℕ
digit true = 1
digit false = 0

-- the five fields of an ABC instruction
unfoldable pub abc_word : ℕ → ℕ → ℕ → ℕ → Bool → ℕ
abc_word op a b c k = op + 2 ^ 7 * a + 2 ^ 15 * digit k + 2 ^ 16 * b + 2 ^ 24 * c

pub or_shl : (k x y : ℕ) → x < 2 ^ k → y * 2 ^ k < 2 ^ 32 → bit_or x (shl y k) ≡ x + 2 ^ k * y
or_shl k x y hx hy = ap (bit_or x) shift ∙ bit_or_disjoint k x y hx
  where
    shift : shl y k ≡ 2 ^ k * y
    shift = mod-eq_of_lt hy ∙ mul_comm y (2 ^ k)

pub or_flag :
    (x : ℕ) (k : Bool) → x < 2 ^ 15 → bit_or x (if k then 2 ^ 15 else 0) ≡ x + 2 ^ 15 * digit k
or_flag x true h = bit_or_disjoint 15 x 1 h
or_flag x false h = bit_or_disjoint 15 x 0 h

pub or_fields :
    (op a b c : ℕ) (k : Bool)
    → op < 128
    → a < 256
    → b < 256
    → c < 256
    → bit_or (bit_or (bit_or (bit_or op (shl a 7)) (if k then 2 ^ 15 else 0)) (shl b 16)) (shl c 24)
      ≡ abc_word op a b c k
unfolding abc_word
or_fields op a b c k ho ha hb hc = rw (
  or_shl 7 op a ho (omega arith),
  or_flag (op + 2 ^ 7 * a) k (omega arith),
  or_shl 16 (op + 2 ^ 7 * a + 2 ^ 15 * digit k) b (low k) (omega arith),
  or_shl 24 (op + 2 ^ 7 * a + 2 ^ 15 * digit k + 2 ^ 16 * b) c (all k) (omega arith),
)
  where
    low : (k : Bool) → op + 2 ^ 7 * a + 2 ^ 15 * digit k < 2 ^ 16
    low true = omega arith
    low false = omega arith

    all : (k : Bool) → op + 2 ^ 7 * a + 2 ^ 15 * digit k + 2 ^ 16 * b < 2 ^ 24
    all true = omega arith
    all false = omega arith

-- The opcode is the seven lowest bits.
pub op_code_low : (i : ℕ) → op_code i ≡ i % 2 ^ 7
unfolding op_code
op_code_low i = omega (arith, bit_and_ones 7 i)

pub op_code_add : (op x : ℕ) → op < 128 → op_code (op + 2 ^ 7 * x) ≡ op
op_code_add op x h = omega (arith, op_code_low (op + 2 ^ 7 * x))

-- A mask of ones below `n` and of ones from `k` on clears the bits between.
and_hole :
    (k n m i : ℕ)
    → 2 ^ n ≤ 2 ^ k
    → bit_and i (2 ^ n - 1 + 2 ^ k * (2 ^ m - 1)) ≡ i % 2 ^ k % 2 ^ n + 2 ^ k * (i / 2 ^ k % 2 ^ m)
and_hole k n m i h =
    ap (λ t. bit_and t (2 ^ n - 1 + 2 ^ k * (2 ^ m - 1))) (sym (mod-add-div i (2 ^ k)))
    ∙ bit_and_split k (i % 2 ^ k) (i / 2 ^ k) (2 ^ n - 1) (2 ^ m - 1) (mod-lt i (pow_two_pos k))
        (omega (arith, pow_two_pos n, h))
    ∙ ap₂ (λ s t. s + 2 ^ k * t) (bit_and_ones n (i % 2 ^ k)) (bit_and_ones m (i / 2 ^ k))

pub clear_a :
    (i : ℕ) → i < 2 ^ 32 → and_not 32 i ((2 ^ 8 - 1) * 2 ^ 7) ≡ i % 2 ^ 7 + 2 ^ 15 * (i / 2 ^ 15)
unfolding and_not
clear_a i h = omega (arith, and_hole 15 7 17 i (omega arith))

pub clear_c : (i : ℕ) → and_not 32 i ((2 ^ 8 - 1) * 2 ^ 24) ≡ i % 2 ^ 24
unfolding and_not
clear_c i = bit_and_ones 24 i

pub clear_k : (i : ℕ) → i < 2 ^ 32 → and_not 32 i (2 ^ 15) ≡ i % 2 ^ 15 + 2 ^ 16 * (i / 2 ^ 16)
unfolding and_not
clear_k i h = omega (arith, and_hole 16 15 16 i (omega arith))

pub set_a_field :
    (lo hi a : ℕ)
    → lo < 2 ^ 7
    → a < 256
    → bit_or (lo + 2 ^ 15 * hi) (shl a 7) ≡ lo + 2 ^ 7 * a + 2 ^ 15 * hi
set_a_field lo hi a hl ha =
    ap (bit_or (lo + 2 ^ 15 * hi)) (let e : shl a 7 ≡ 2 ^ 7 * a + 2 ^ 15 * 0 = omega arith in e)
    ∙ bit_or_split 15 lo hi (2 ^ 7 * a) 0 (omega arith) (omega arith)
    ∙ ap₂ (λ s t. s + 2 ^ 15 * t) (bit_or_disjoint 7 lo a hl) (bit_or-zero hi)

-- Setting the bit k.
pub set_k_field : (i : ℕ) → bit_or i (2 ^ 15) ≡ i % 2 ^ 15 + 2 ^ 15 + 2 ^ 16 * (i / 2 ^ 16)
set_k_field i =
    ap (λ t. bit_or t (2 ^ 15)) apart
    ∙ bit_or_split 15 (i % 2 ^ 15) (i / 2 ^ 15) 0 1 (omega arith) (omega arith)
    ∙ omega
        (arith, bit_or-zero (i % 2 ^ 15), bit_or_step (i / 2 ^ 15) 1, bit_or-zero (i / 2 ^ 15 / 2))
  where
    apart : i ≡ i % 2 ^ 15 + 2 ^ 15 * (i / 2 ^ 15)
    apart = omega arith

-- Testing the bit k.
pub test_k : (i : ℕ) → not (bit_and i (2 ^ 15) == 0) ≡ (i / 2 ^ 15 % 2 == 1)
test_k i = ground (arith, here)
  where
    here : bit_and i (2 ^ 15) ≡ 2 ^ 15 * (i / 2 ^ 15 % 2)
    here =
        ap (λ t. bit_and t (2 ^ 15))
          (let e : i ≡ i % 2 ^ 15 + 2 ^ 15 * (i / 2 ^ 15) = omega arith in e)
        ∙ bit_and_split 15 (i % 2 ^ 15) (i / 2 ^ 15) 0 1 (omega arith) (omega arith)
        ∙ omega (arith, bit_and-zero (i % 2 ^ 15), bit_and_ones 1 (i / 2 ^ 15))
