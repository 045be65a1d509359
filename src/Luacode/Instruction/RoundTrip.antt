-- ===== src/Luacode/Instruction/RoundTrip.antt =====
-- The constructors of an instruction and the accessors of its fields, in every format of
-- internal/luacode/instruction.go.
use zb.Prelude.{
  ℕ, suc, ◌+◌, ◌-◌, ◌*◌, ◌/◌, ◌%◌, ◌^◌, ◌<◌, Bool, true, false, ◌≡◌, refl, ap, none, some, bit_or,
  arith, ◌⊎◌, inl, inr,
}
use native.Mathlib.Decide.{dec_lt}
use zb.Prelude.Int.{ℤ, pos, negsuc, ◌≤ℤ◌}
use zb.Luacode.Op
use zb.Luacode.OpCode.{op_mode, mode_abc, mode_a_bx, mode_as_bx, mode_ax, mode_j}
use zb.Luacode.Instruction.{
  abc_instruction, abx_instruction, extra_argument, j_instruction, op_code, arg_a, arg_b, arg_c,
  k_flag, arg_bx, arg_ax, jump, offset_bx, max_arg_bx, max_arg_ax, offset_j, max_j_arg, shl,
}
use zb.Luacode.Instruction.Fields.{digit, abc_word, or_fields, or_shl, op_code_low, test_k}

-- the fields of a word in ABC format
pub abc_word_fields :
    (op a b c : ℕ) (k : Bool)
    → op < 128
    → a < 256
    → b < 256
    → c < 256
    → op_mode op ≡ mode_abc
    → let i = abc_word op a b c k in
      (op_code i ≡ op) × (arg_a i ≡ a) × (arg_b i ≡ b) × (arg_c i ≡ c) × (k_flag i ≡ k)
unfolding abc_word arg_a arg_b arg_c k_flag
abc_word_fields op a b c true ho ha hb hc m =
    let i : ℕ = abc_word op a b c true in
    let e : op_code i ≡ op = omega (arith, op_code_low i) in ground (arith, e, test_k i)
abc_word_fields op a b c false ho ha hb hc m =
    let i : ℕ = abc_word op a b c false in
    let e : op_code i ≡ op = omega (arith, op_code_low i) in ground (arith, e, test_k i)

-- `ABCInstruction` accepts every opcode of its format with every four arguments, and the
-- accessors give the opcode and all the arguments back.
pub abc_instruction_fields :
    (op a b c : ℕ) (k : Bool)
    → op < 128
    → a < 256
    → b < 256
    → c < 256
    → op_mode op ≡ mode_abc
    → (i : ℕ) × (abc_instruction op a b c k ≡ some i)
      × (op_code i ≡ op)
      × (arg_a i ≡ a)
      × (arg_b i ≡ b)
      × (arg_c i ≡ c)
      × (k_flag i ≡ k)
abc_instruction_fields op a b c k ho ha hb hc m =
    let (e, p, q, r, t) = abc_word_fields op a b c k ho ha hb hc m in
    (abc_word op a b c k, made, e, p, q, r, t)
  where
    made : abc_instruction op a b c k ≡ some (abc_word op a b c k)
    made = unfold abc_instruction in rw (m, or_fields op a b c k ho ha hb hc)

-- An instruction in ABC format is rebuilt from its opcode and its arguments, so the format loses
-- nothing of the 32 bits.
pub abc_instruction_rebuild :
    (i : ℕ)
    → i < 2 ^ 32
    → op_mode (op_code i) ≡ mode_abc
    → abc_instruction (op_code i) (arg_a i) (arg_b i) (arg_c i) (k_flag i) ≡ some i
abc_instruction_rebuild i h m =
    unfold abc_instruction in
    rw (m, or_fields (op_code i) (arg_a i) (arg_b i) (arg_c i) (k_flag i) ho ha hb hc)
      (ap some rebuilt)
  where
    ho : op_code i < 128
    ho = omega (arith, op_code_low i)

    ea : arg_a i ≡ i / 2 ^ 7 % 2 ^ 8
    ea = unfold arg_a in ground arith

    eb : arg_b i ≡ i / 2 ^ 16 % 2 ^ 8
    eb = unfold arg_b in ground arith

    ec : arg_c i ≡ i / 2 ^ 24 % 2 ^ 8
    ec = unfold arg_c in ground arith

    ha : arg_a i < 256
    ha = omega (arith, ea)

    hb : arg_b i < 256
    hb = omega (arith, eb)

    hc : arg_c i < 256
    hc = omega (arith, ec)

    ek : digit (k_flag i) ≡ i / 2 ^ 15 % 2
    ek = unfold k_flag in ground (arith, test_k i)

    rebuilt : abc_word (op_code i) (arg_a i) (arg_b i) (arg_c i) (k_flag i) ≡ i
    rebuilt = unfold abc_word in omega (arith, op_code_low i, ea, eb, ec, ek)

-- the word of an ABx instruction
abx_or :
    (op a bx : ℕ)
    → op < 128
    → a < 256
    → bx < 2 ^ 17
    → bit_or (bit_or op (shl a 7)) (shl bx 15) ≡ op + 2 ^ 7 * a + 2 ^ 15 * bx
abx_or op a bx ho ha hb =
    rw (or_shl 7 op a ho (omega arith), or_shl 15 (op + 2 ^ 7 * a) bx (omega arith) (omega arith))

-- In the unsigned format `ABxInstruction` panics exactly on an argument out of its range, and
-- otherwise the accessors give the opcode and both arguments back.
pub abx_instruction_fields :
    (op a : ℕ) (bx : ℤ)
    → op < 128
    → a < 256
    → op_mode op ≡ mode_a_bx
    → (abx_instruction op a bx ≡ none) × ((bx ≤ℤ negsuc 0) ⊎ (pos (max_arg_bx + 1) ≤ℤ bx))
      ⊎ ((i : ℕ) × (abx_instruction op a bx ≡ some i)
          × (op_code i ≡ op)
          × (arg_a i ≡ a)
          × (arg_bx i ≡ bx))
unfolding abx_instruction arg_a arg_bx
abx_instruction_fields op a (negsuc n) ho ha m = inl (ground arith, inl (omega arith))
abx_instruction_fields op a (pos bx) ho ha m = elim (dec_lt max_arg_bx bx) [
  | yes over ↦ inl (ground arith, inr (omega arith))
  | no fits ↦
      let i : ℕ = op + 2 ^ 7 * a + 2 ^ 15 * bx in
      let e : op_code i ≡ op = omega (arith, op_code_low i) in
      inr (
        i,
        ground (arith, abx_or op a bx ho ha (omega arith)),
        e,
        ground (arith, e),
        ground (arith, e),
      )
]

-- In the signed format `ABxInstruction` accepts every argument from -65535 to 65536, and the
-- accessors give the opcode and both arguments back.
pub abx_instruction_signed :
    (op a : ℕ) (bx : ℤ)
    → op < 128
    → a < 256
    → op_mode op ≡ mode_as_bx
    → negsuc (offset_bx - 1) ≤ℤ bx
    → bx ≤ℤ pos (max_arg_bx - offset_bx)
    → (i : ℕ) × (abx_instruction op a bx ≡ some i)
      × (op_code i ≡ op)
      × (arg_a i ≡ a)
      × (arg_bx i ≡ bx)
unfolding abx_instruction arg_a arg_bx
abx_instruction_signed op a (pos bx) ho ha m lo hi =
    let field : ℕ = bx + offset_bx in
    let i : ℕ = op + 2 ^ 7 * a + 2 ^ 15 * field in
    let e : op_code i ≡ op = omega (arith, op_code_low i) in
    (
      i,
      ground (arith, abx_or op a field ho ha (omega arith)),
      e,
      ground (arith, e),
      ground (arith, e),
    )
abx_instruction_signed op a (negsuc n) ho ha m lo hi =
    let field : ℕ = offset_bx - suc n in
    let i : ℕ = op + 2 ^ 7 * a + 2 ^ 15 * field in
    let e : op_code i ≡ op = omega (arith, op_code_low i) in
    (
      i,
      ground (arith, abx_or op a field ho ha (omega arith)),
      e,
      ground (arith, e),
      ground (arith, e),
    )

-- A jump offset from -16777215 to 16777216 is read back as it was given.
pub j_instruction_offset :
    (op : ℕ) (j : ℤ)
    → op < 128
    → op_mode op ≡ mode_j
    → negsuc (offset_j - 1) ≤ℤ j
    → j ≤ℤ pos (max_j_arg - offset_j)
    → (i : ℕ) × (j_instruction op j ≡ some i) × (op_code i ≡ op) × (jump i ≡ j)
unfolding j_instruction jump
j_instruction_offset op (pos n) ho m lo hi =
    let field : ℕ = n + offset_j in
    let i : ℕ = op + 2 ^ 7 * field in
    let e : op_code i ≡ op = omega (arith, op_code_low i) in
    (i, ground (arith, or_shl 7 op field ho (omega arith)), e, ground (arith, e))
j_instruction_offset op (negsuc n) ho m lo hi =
    let field : ℕ = offset_j - suc n in
    let i : ℕ = op + 2 ^ 7 * field in
    let e : op_code i ≡ op = omega (arith, op_code_low i) in
    (i, ground (arith, or_shl 7 op field ho (omega arith)), e, ground (arith, e))

extra_arg_mode : op_mode Op.extra_arg ≡ mode_ax
unfolding op_mode
extra_arg_mode = refl

-- `ExtraArgument` panics exactly above its range, and otherwise the argument is read back from an
-- EXTRAARG instruction.
pub extra_argument_lem :
    (ax : ℕ)
    → (extra_argument ax ≡ none) × (max_arg_ax < ax)
      ⊎ ((i : ℕ) × (extra_argument ax ≡ some i) × (op_code i ≡ Op.extra_arg) × (arg_ax i ≡ ax))
unfolding extra_argument arg_ax
extra_argument_lem ax = elim (dec_lt max_arg_ax ax) [
  | yes over ↦ inl (ground arith, over)
  | no fits ↦
      let i : ℕ = Op.extra_arg + 2 ^ 7 * ax in
      let e : op_code i ≡ Op.extra_arg = omega (arith, op_code_low i) in
      inr (
        i,
        ground (arith, or_shl 7 Op.extra_arg ax (omega arith) (omega arith)),
        e,
        ground (arith, extra_arg_mode, e),
      )
]
