-- ===== src/Luacode/Instruction.antt =====
-- internal/luacode/instruction.go: the 32-bit `Instruction`, its constructors, the accessors of its
-- fields and the methods that change one field. A panic is `none`.
--
-- An instruction is a `uint32`, so a shift to the left keeps 32 bits. A signed argument is an
-- integer, and its conversion to an unsigned type is `wrap`.
pub mod Fields
pub mod RoundTrip
pub mod Update
use zb.Prelude.{
  ℕ, ◌+◌, ◌-◌, ◌*◌, ◌/◌, ◌%◌, ◌^◌, bit_and, bit_or, Bool, true, false, not, ◌&&◌, ◌||◌, Option,
  none, some, ltb, ◌==◌, if◌then◌else◌,
}
use zb.Prelude.Int.{ℤ, pos, negsuc, ◌+ℤ◌, ◌-ℤ◌, ltb_ℤ}
use zb.Prelude.Bits.{and_not}
use zb.Luacode.Op
use zb.Luacode.OpCode.{
  op_mode, is_in_top, is_out_top, mode_abc, mode_a_bx, mode_as_bx, mode_ax, mode_j,
}

abbrev pub size_op_code : ℕ
size_op_code = 7

abbrev pub pos_a : ℕ
pos_a = size_op_code

abbrev pub pos_k : ℕ
pos_k = pos_a + 8

abbrev pub pos_b : ℕ
pos_b = pos_k + 1

abbrev pub pos_c : ℕ
pos_c = pos_b + 8

abbrev pub pos_bx : ℕ
pos_bx = pos_a + 8

abbrev pub pos_ax : ℕ
pos_ax = size_op_code

abbrev pub pos_j : ℕ
pos_j = size_op_code

abbrev pub max_arg_a : ℕ
max_arg_a = 2 ^ 8 - 1

abbrev pub max_arg_c : ℕ
max_arg_c = 2 ^ 8 - 1

abbrev pub max_arg_ax : ℕ
max_arg_ax = 2 ^ 25 - 1

abbrev pub max_arg_bx : ℕ
max_arg_bx = 2 ^ 17 - 1

abbrev pub offset_bx : ℕ
offset_bx = max_arg_bx / 2

abbrev pub offset_c : ℕ
offset_c = max_arg_c / 2

abbrev pub max_j_arg : ℕ
max_j_arg = 2 ^ 25 - 1

abbrev pub offset_j : ℕ
offset_j = max_j_arg / 2

abbrev pub no_jump : ℤ
no_jump = negsuc 0

-- Conversion of an integer to an unsigned type of `w` bits.
abbrev pub wrap : ℕ → ℤ → ℕ
wrap w (pos n) = n % 2 ^ w
wrap w (negsuc n) = 2 ^ w - 1 - n % 2 ^ w

-- `<<` and `>>` on uint32
abbrev pub shl : ℕ → ℕ → ℕ
shl x k = x * 2 ^ k % 2 ^ 32

abbrev pub shr : ℕ → ℕ → ℕ
shr x k = x / 2 ^ k

abbrev pub uint8 : ℕ → ℕ
uint8 x = x % 2 ^ 8

-- a ≤ b on signed integers
abbrev pub leb_ℤ : ℤ → ℤ → Bool
leb_ℤ a b = not (ltb_ℤ b a)

unfoldable pub abc_instruction : ℕ → ℕ → ℕ → ℕ → Bool → Option ℕ
abc_instruction op a b c k =
    if not (op_mode op == mode_abc)
    then none
    else let kflag : ℕ = if k then 2 ^ pos_k else 0 in
      some (bit_or (bit_or (bit_or (bit_or op (shl a pos_a)) kflag) (shl b pos_b)) (shl c pos_c))

-- fitsSignedBx
pub fits_signed_bx : ℤ → Bool
unfolding ◌-ℤ◌
fits_signed_bx i = leb_ℤ (pos 0 -ℤ pos offset_bx) i && leb_ℤ i (pos max_arg_bx -ℤ pos offset_bx)

unfoldable pub abx_instruction : ℕ → ℕ → ℤ → Option ℕ
unfolding fits_signed_bx ◌+ℤ◌
abx_instruction op a bx =
    if op_mode op == mode_a_bx
    then if ltb_ℤ bx (pos 0) || ltb_ℤ (pos max_arg_bx) bx
      then none
      else some (bit_or (bit_or op (shl a pos_a)) (shl (wrap 32 bx) pos_bx))
    else if op_mode op == mode_as_bx
    then if not (fits_signed_bx bx)
      then none
      else some (bit_or (bit_or op (shl a pos_a)) (shl (wrap 32 (bx +ℤ pos offset_bx)) pos_bx))
    else none

unfoldable pub extra_argument : ℕ → Option ℕ
extra_argument ax = if ltb max_arg_ax ax then none else some (bit_or Op.extra_arg (shl ax pos_ax))

unfoldable pub j_instruction : ℕ → ℤ → Option ℕ
unfolding ◌+ℤ◌
j_instruction op j =
    if not (op_mode op == mode_j)
    then none
    else some (bit_or op (shl (wrap 32 (j +ℤ pos offset_j)) pos_j))

unfoldable pub op_code : ℕ → ℕ
op_code i = uint8 (bit_and i (2 ^ size_op_code - 1))

-- The cases OpModeABC, OpModeABx and OpModeAsBx of a switch.
has_arg_a : ℕ → Bool
has_arg_a i =
    op_mode (op_code i) == mode_abc
    || op_mode (op_code i) == mode_a_bx
    || op_mode (op_code i) == mode_as_bx

unfoldable pub arg_a : ℕ → ℕ
unfolding has_arg_a
arg_a i = if has_arg_a i then uint8 (shr i pos_a) else 0

unfoldable pub with_arg_a : ℕ → ℕ → ℕ × Bool
unfolding has_arg_a
with_arg_a i a =
    if has_arg_a i
    then (bit_or (and_not 32 i (max_arg_a * 2 ^ pos_a)) (shl a pos_a), true)
    else (i, false)

unfoldable pub arg_b : ℕ → ℕ
arg_b i = if op_mode (op_code i) == mode_abc then uint8 (shr i pos_b) else 0

unfoldable pub arg_ax : ℕ → ℕ
arg_ax i = if op_mode (op_code i) == mode_ax then shr i pos_ax else 0

unfoldable pub arg_bx : ℕ → ℤ
unfolding ◌-ℤ◌
arg_bx i =
    if op_mode (op_code i) == mode_a_bx
    then pos (shr i pos_bx)
    else if op_mode (op_code i) == mode_as_bx
    then pos (shr i pos_bx) -ℤ pos offset_bx
    else pos 0

unfoldable pub arg_c : ℕ → ℕ
arg_c i = if not (op_mode (op_code i) == mode_abc) then 0 else uint8 (shr i pos_c)

unfoldable pub with_arg_c : ℕ → ℕ → ℕ × Bool
with_arg_c i c =
    if not (op_mode (op_code i) == mode_abc)
    then (i, false)
    else (bit_or (and_not 32 i (max_arg_c * 2 ^ pos_c)) (shl c pos_c), true)

unfoldable pub signed_arg : ℕ → ℤ
unfolding ◌-ℤ◌
signed_arg arg = pos arg -ℤ pos offset_c

-- fitsSignedArg
pub fits_signed_arg : ℤ → Bool
unfolding ◌-ℤ◌
fits_signed_arg i = leb_ℤ (pos 0 -ℤ pos offset_c) i && leb_ℤ i (pos max_arg_c -ℤ pos offset_c)

-- The pair `(0, false)` is `none`.
unfoldable pub to_signed_arg : ℤ → Option ℕ
unfolding fits_signed_arg ◌+ℤ◌
to_signed_arg i = if not (fits_signed_arg i) then none else some (wrap 8 (i +ℤ pos offset_c))

unfoldable pub k_flag : ℕ → Bool
k_flag i = op_mode (op_code i) == mode_abc && not (bit_and i (2 ^ pos_k) == 0)

unfoldable pub with_k : ℕ → Bool → ℕ × Bool
with_k i k =
    if not (op_mode (op_code i) == mode_abc)
    then (i, false)
    else if k
    then (bit_or i (2 ^ pos_k), true)
    else (and_not 32 i (2 ^ pos_k), true)

unfoldable pub jump : ℕ → ℤ
unfolding ◌-ℤ◌
jump i = if op_mode (op_code i) == mode_j then pos (shr i 7) -ℤ pos offset_j else no_jump

pub instruction_is_in_top : ℕ → Bool
instruction_is_in_top i = is_in_top (op_code i) && arg_b i == 0

pub instruction_is_out_top : ℕ → Bool
instruction_is_out_top i = is_out_top (op_code i) && arg_c i == 0 || op_code i == Op.tail_call
