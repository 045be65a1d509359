-- ===== src/Luacode/Tests.antt =====
-- The theorems on instructions and line numbers at concrete instructions and lines.
use zb.Prelude.{ℕ, ◌+◌, ◌*◌, ◌^◌, true, List, [], ◌∷◌, some, ◌≡◌, refl, get_elem?, arith}
use zb.Prelude.Int.{ℤ, pos}
use zb.Luacode.Op
use zb.Luacode.OpCode.{op_mode, mode_abc}
use zb.Luacode.Instruction.{abc_instruction, op_code, arg_a, arg_b, arg_c, k_flag}
use zb.Luacode.Instruction.RoundTrip.{abc_instruction_fields}
use zb.Luacode.LineInfo.{all, at, collect_line_info}
use zb.Luacode.LineInfo.All.{all-collect_line_info}
use zb.Luacode.LineInfo.At.{at-collect_line_info}

-- lines that need an absolute entry, and that fall
abbrev lines : List ℤ
lines = pos 3 ∷ pos 200 ∷ pos 199 ∷ []

all-collect_line_info_example : all (collect_line_info lines) ≡ some lines
all-collect_line_info_example = all-collect_line_info lines

at-collect_line_info_example : at (collect_line_info lines) 2 ≡ get_elem? lines 2
at-collect_line_info_example = at-collect_line_info lines 2 (omega arith)

abc_instruction_fields_example :
    (i : ℕ) × (abc_instruction Op.add 1 2 3 true ≡ some i)
    × (op_code i ≡ Op.add)
    × (arg_a i ≡ 1)
    × (arg_b i ≡ 2)
    × (arg_c i ≡ 3)
    × (k_flag i ≡ true)
abc_instruction_fields_example =
    abc_instruction_fields Op.add 1 2 3 true (omega arith) (omega arith) (omega arith) (omega arith)
      (unfold op_mode in refl)

-- MOVE from register 2 to register 1
abbrev move : ℕ
move = 0 + 128 + 2 * 2 ^ 16

move-mode : op_mode (op_code move) ≡ mode_abc
unfolding op_mode op_code
move-mode = refl
