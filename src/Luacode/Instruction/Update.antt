-- ===== src/Luacode/Instruction/Update.antt =====
-- The methods that change one field of an instruction, and signed arguments.
use zb.Prelude.{
  ℕ, ◌+◌, ◌-◌, ◌*◌, ◌/◌, ◌%◌, ◌^◌, ◌<◌, Bool, true, false, ◌≡◌, refl, none, some, ◌==◌, arith, ◌⊎◌,
  inl, inr,
}
use native.Mathlib.Decide.{dec_lt}
use zb.Prelude.Int.{ℤ, pos, negsuc, ◌≤ℤ◌}
use zb.Luacode.OpCode.{op_mode, mode_abc, mode_a_bx, mode_as_bx}
use zb.Luacode.Instruction.{
  op_code, arg_a, arg_b, arg_c, k_flag, arg_bx, with_arg_a, with_arg_c, with_k, signed_arg,
  to_signed_arg,
}
use zb.Luacode.Instruction.Fields.{
  digit, or_shl, op_code_low, test_k, clear_a, clear_c, clear_k, set_a_field, set_k_field,
}

with_arg_a_word :
    (i a : ℕ)
    → i < 2 ^ 32
    → a < 256
    → (op_mode (op_code i) ≡ mode_abc)
      ⊎ (op_mode (op_code i) ≡ mode_a_bx)
      ⊎ (op_mode (op_code i) ≡ mode_as_bx)
    → with_arg_a i a ≡ (i % 2 ^ 7 + 2 ^ 7 * a + 2 ^ 15 * (i / 2 ^ 15), true)
unfolding with_arg_a
with_arg_a_word i a h ha m =
    ground (arith, m, clear_a i h, set_a_field (i % 2 ^ 7) (i / 2 ^ 15) a (omega arith) ha)

-- `WithArgA` on a 32-bit instruction that has a register A: the new instruction has the register
-- given, and its opcode and all its other arguments are those it had.
pub with_arg_a_lem :
    (i a : ℕ)
    → i < 2 ^ 32
    → a < 256
    → (op_mode (op_code i) ≡ mode_abc)
      ⊎ (op_mode (op_code i) ≡ mode_a_bx)
      ⊎ (op_mode (op_code i) ≡ mode_as_bx)
    → let (j, changed) = with_arg_a i a in
      (changed ≡ true)
      × (op_code j ≡ op_code i)
      × (arg_a j ≡ a)
      × (arg_b j ≡ arg_b i)
      × (arg_c j ≡ arg_c i)
      × (k_flag j ≡ k_flag i)
      × (arg_bx j ≡ arg_bx i)
with_arg_a_lem i a h ha m =
    rw (with_arg_a_word i a h ha m) (refl, e, same_a, same_b, same_c, same_k, same_bx)
  where
    j : ℕ
    j = i % 2 ^ 7 + 2 ^ 7 * a + 2 ^ 15 * (i / 2 ^ 15)

    e : op_code j ≡ op_code i
    e = omega (arith, op_code_low i, op_code_low j)

    same_a : arg_a j ≡ a
    same_a = unfold arg_a in ground (arith, e, m)

    same_b : arg_b j ≡ arg_b i
    same_b = unfold arg_b in ground (arith, e)

    same_c : arg_c j ≡ arg_c i
    same_c = unfold arg_c in ground (arith, e)

    same_k : k_flag j ≡ k_flag i
    same_k = unfold k_flag in ground (arith, e, test_k i, test_k j)

    same_bx : arg_bx j ≡ arg_bx i
    same_bx = unfold arg_bx in ground (arith, e)

with_arg_c_word :
    (i c : ℕ)
    → c < 256
    → op_mode (op_code i) ≡ mode_abc
    → with_arg_c i c ≡ (i % 2 ^ 24 + 2 ^ 24 * c, true)
unfolding with_arg_c
with_arg_c_word i c hc m =
    ground (arith, m, clear_c i, or_shl 24 (i % 2 ^ 24) c (omega arith) (omega arith))

-- `WithArgC` on an ABC instruction: the new instruction has the argument given, and its opcode
-- and its other arguments are those it had.
pub with_arg_c_lem :
    (i c : ℕ)
    → i < 2 ^ 32
    → c < 256
    → op_mode (op_code i) ≡ mode_abc
    → let (j, changed) = with_arg_c i c in
      (changed ≡ true)
      × (op_code j ≡ op_code i)
      × (arg_a j ≡ arg_a i)
      × (arg_b j ≡ arg_b i)
      × (arg_c j ≡ c)
      × (k_flag j ≡ k_flag i)
with_arg_c_lem i c h hc m = rw (with_arg_c_word i c hc m) (refl, e, same_a, same_b, same_c, same_k)
  where
    j : ℕ
    j = i % 2 ^ 24 + 2 ^ 24 * c

    e : op_code j ≡ op_code i
    e = omega (arith, op_code_low i, op_code_low j)

    same_a : arg_a j ≡ arg_a i
    same_a = unfold arg_a in ground (arith, e)

    same_b : arg_b j ≡ arg_b i
    same_b = unfold arg_b in ground (arith, e)

    same_c : arg_c j ≡ c
    same_c = unfold arg_c in ground (arith, e, m)

    same_k : k_flag j ≡ k_flag i
    same_k = unfold k_flag in ground (arith, e, test_k i, test_k j)

with_k_word :
    (i : ℕ) (k : Bool)
    → i < 2 ^ 32
    → op_mode (op_code i) ≡ mode_abc
    → with_k i k ≡ (i % 2 ^ 15 + 2 ^ 15 * digit k + 2 ^ 16 * (i / 2 ^ 16), true)
unfolding with_k
with_k_word i true h m = ground (arith, m, set_k_field i)
with_k_word i false h m = ground (arith, m, clear_k i h)

-- `WithK` on an ABC instruction: the new instruction has the flag given, and its opcode and its
-- arguments are those it had.
pub with_k_lem :
    (i : ℕ) (k : Bool)
    → i < 2 ^ 32
    → op_mode (op_code i) ≡ mode_abc
    → let (j, changed) = with_k i k in
      (changed ≡ true)
      × (op_code j ≡ op_code i)
      × (arg_a j ≡ arg_a i)
      × (arg_b j ≡ arg_b i)
      × (arg_c j ≡ arg_c i)
      × (k_flag j ≡ k)
with_k_lem i k h m = rw (with_k_word i k h m) (refl, e, same_a, same_b, same_c, same_k k refl)
  where
    j : ℕ
    j = i % 2 ^ 15 + 2 ^ 15 * digit k + 2 ^ 16 * (i / 2 ^ 16)

    small : (k : Bool) → digit k < 2
    small true = omega arith
    small false = omega arith

    e : op_code j ≡ op_code i
    e = omega (arith, op_code_low i, op_code_low j)

    same_a : arg_a j ≡ arg_a i
    same_a = unfold arg_a in ground (arith, e)

    same_b : arg_b j ≡ arg_b i
    same_b = unfold arg_b in ground (arith, e, small k)

    same_c : arg_c j ≡ arg_c i
    same_c = unfold arg_c in ground (arith, e, small k)

    flag_of : (x : ℕ) → op_code x ≡ op_code i → k_flag x ≡ (x / 2 ^ 15 % 2 == 1)
    flag_of x p = unfold k_flag in ground (arith, test_k x, p, m)

    same_k : (b : Bool) → digit k ≡ digit b → k_flag j ≡ b
    same_k true p = ground (arith, flag_of j e)
    same_k false p = ground (arith, flag_of j e)

-- `ToSignedArg` accepts exactly the integers from -127 to 128, and `SignedArg` gives an accepted
-- integer back.
pub to_signed_arg_lem :
    (i : ℤ)
    → (to_signed_arg i ≡ none) × ((i ≤ℤ negsuc 127) ⊎ (pos 129 ≤ℤ i))
      ⊎ ((a : ℕ) × (to_signed_arg i ≡ some a) × (a < 256) × (signed_arg a ≡ i))
unfolding to_signed_arg signed_arg
to_signed_arg_lem (pos n) = elim (dec_lt 128 n) [
  | yes over ↦ inl (ground arith, ground arith)
  | no fits ↦ inr (n + 127, ground arith, omega arith, ground arith)
]
to_signed_arg_lem (negsuc n) = elim (dec_lt 126 n) [
  | yes over ↦ inl (ground arith, ground arith)
  | no fits ↦ inr (126 - n, ground arith, omega arith, ground arith)
]
