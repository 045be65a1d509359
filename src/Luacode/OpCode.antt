-- ===== src/Luacode/OpCode.antt =====
-- internal/luacode/instruction.go: `OpMode`, the table `opProps` and the methods of `OpCode`.
pub mod Table
use zb.Prelude.{
  ℕ, ◌^◌, bit_and, bit_or, Bool, not, List, [], ◌∷◌, Option, none, some, leb, ◌==◌, if◌then◌else◌,
  ◌||◌,
}
use zb.Luacode.Op

-- `OpMode`
abbrev pub mode_abc : ℕ
mode_abc = 1

abbrev pub mode_a_bx : ℕ
mode_a_bx = 2

abbrev pub mode_as_bx : ℕ
mode_as_bx = 3

abbrev pub mode_ax : ℕ
mode_ax = 4

abbrev pub mode_j : ℕ
mode_j = 5

abbrev pub max_op_code : ℕ
max_op_code = Op.extra_arg

-- The array literal: each entry stands under its key.
op_props : List (ℕ × ℕ)
op_props =
    (Op.move, bit_or 0b00001000 mode_abc)
    ∷ (Op.load_i, bit_or 0b00001000 mode_as_bx)
    ∷ (Op.load_f, bit_or 0b00001000 mode_as_bx)
    ∷ (Op.load_k, bit_or 0b00001000 mode_a_bx)
    ∷ (Op.load_kx, bit_or 0b00001000 mode_a_bx)
    ∷ (Op.load_false, bit_or 0b00001000 mode_abc)
    ∷ (Op.l_false_skip, bit_or 0b00001000 mode_abc)
    ∷ (Op.load_true, bit_or 0b00001000 mode_abc)
    ∷ (Op.load_nil, bit_or 0b00001000 mode_abc)
    ∷ (Op.get_upval, bit_or 0b00001000 mode_abc)
    ∷ (Op.set_upval, bit_or 0b00000000 mode_abc)
    ∷ (Op.get_tab_up, bit_or 0b00001000 mode_abc)
    ∷ (Op.get_table, bit_or 0b00001000 mode_abc)
    ∷ (Op.get_i, bit_or 0b00001000 mode_abc)
    ∷ (Op.get_field, bit_or 0b00001000 mode_abc)
    ∷ (Op.set_tab_up, bit_or 0b00000000 mode_abc)
    ∷ (Op.set_table, bit_or 0b00000000 mode_abc)
    ∷ (Op.set_i, bit_or 0b00000000 mode_abc)
    ∷ (Op.set_field, bit_or 0b00000000 mode_abc)
    ∷ (Op.new_table, bit_or 0b00001000 mode_abc)
    ∷ (Op.self, bit_or 0b00001000 mode_abc)
    ∷ (Op.add_i, bit_or 0b00001000 mode_abc)
    ∷ (Op.add_k, bit_or 0b00001000 mode_abc)
    ∷ (Op.sub_k, bit_or 0b00001000 mode_abc)
    ∷ (Op.mul_k, bit_or 0b00001000 mode_abc)
    ∷ (Op.mod_k, bit_or 0b00001000 mode_abc)
    ∷ (Op.pow_k, bit_or 0b00001000 mode_abc)
    ∷ (Op.div_k, bit_or 0b00001000 mode_abc)
    ∷ (Op.i_div_k, bit_or 0b00001000 mode_abc)
    ∷ (Op.b_and_k, bit_or 0b00001000 mode_abc)
    ∷ (Op.b_or_k, bit_or 0b00001000 mode_abc)
    ∷ (Op.b_xor_k, bit_or 0b00001000 mode_abc)
    ∷ (Op.shri, bit_or 0b00001000 mode_abc)
    ∷ (Op.shli, bit_or 0b00001000 mode_abc)
    ∷ (Op.add, bit_or 0b00001000 mode_abc)
    ∷ (Op.sub, bit_or 0b00001000 mode_abc)
    ∷ (Op.mul, bit_or 0b00001000 mode_abc)
    ∷ (Op.modulo, bit_or 0b00001000 mode_abc)
    ∷ (Op.pow, bit_or 0b00001000 mode_abc)
    ∷ (Op.div, bit_or 0b00001000 mode_abc)
    ∷ (Op.i_div, bit_or 0b00001000 mode_abc)
    ∷ (Op.b_and, bit_or 0b00001000 mode_abc)
    ∷ (Op.b_or, bit_or 0b00001000 mode_abc)
    ∷ (Op.b_xor, bit_or 0b00001000 mode_abc)
    ∷ (Op.shl, bit_or 0b00001000 mode_abc)
    ∷ (Op.shr, bit_or 0b00001000 mode_abc)
    ∷ (Op.mm_bin, bit_or 0b10000000 mode_abc)
    ∷ (Op.mm_bin_i, bit_or 0b10000000 mode_abc)
    ∷ (Op.mm_bin_k, bit_or 0b10000000 mode_abc)
    ∷ (Op.unm, bit_or 0b00001000 mode_abc)
    ∷ (Op.b_not, bit_or 0b00001000 mode_abc)
    ∷ (Op.not, bit_or 0b00001000 mode_abc)
    ∷ (Op.len, bit_or 0b00001000 mode_abc)
    ∷ (Op.concat, bit_or 0b00001000 mode_abc)
    ∷ (Op.close, bit_or 0b00000000 mode_abc)
    ∷ (Op.tbc, bit_or 0b00000000 mode_abc)
    ∷ (Op.jmp, bit_or 0b00000000 mode_j)
    ∷ (Op.eq, bit_or 0b00010000 mode_abc)
    ∷ (Op.lt, bit_or 0b00010000 mode_abc)
    ∷ (Op.le, bit_or 0b00010000 mode_abc)
    ∷ (Op.eqk, bit_or 0b00010000 mode_abc)
    ∷ (Op.eqi, bit_or 0b00010000 mode_abc)
    ∷ (Op.lti, bit_or 0b00010000 mode_abc)
    ∷ (Op.lei, bit_or 0b00010000 mode_abc)
    ∷ (Op.gti, bit_or 0b00010000 mode_abc)
    ∷ (Op.gei, bit_or 0b00010000 mode_abc)
    ∷ (Op.test, bit_or 0b00010000 mode_abc)
    ∷ (Op.test_set, bit_or 0b00011000 mode_abc)
    ∷ (Op.call, bit_or 0b01101000 mode_abc)
    ∷ (Op.tail_call, bit_or 0b01101000 mode_abc)
    ∷ (Op.return, bit_or 0b00100000 mode_abc)
    ∷ (Op.return0, bit_or 0b00000000 mode_abc)
    ∷ (Op.return1, bit_or 0b00000000 mode_abc)
    ∷ (Op.for_loop, bit_or 0b00001000 mode_a_bx)
    ∷ (Op.for_prep, bit_or 0b00001000 mode_a_bx)
    ∷ (Op.t_for_prep, bit_or 0b00000000 mode_a_bx)
    ∷ (Op.t_for_call, bit_or 0b00000000 mode_abc)
    ∷ (Op.t_for_loop, bit_or 0b00001000 mode_a_bx)
    ∷ (Op.set_list, bit_or 0b00100000 mode_abc)
    ∷ (Op.closure, bit_or 0b00001000 mode_a_bx)
    ∷ (Op.vararg, bit_or 0b01001000 mode_abc)
    ∷ (Op.vararg_prep, bit_or 0b00101000 mode_abc)
    ∷ (Op.extra_arg, bit_or 0b00000000 mode_ax)
    ∷ []

-- An array literal read at an index; a key that it lacks holds zero.
at_key : List (ℕ × ℕ) → ℕ → ℕ
at_key [] op = 0
at_key ((key, value) ∷ entries) op = if key == op then value else at_key entries op

pub is_valid : ℕ → Bool
is_valid op = leb op max_op_code

pub props : ℕ → ℕ
unfolding at_key op_props is_valid
props op = if not (is_valid op) then 0 else at_key op_props op

unfoldable pub op_mode : ℕ → ℕ
unfolding props
op_mode op = bit_and (props op) 7

-- `op.props()&(1<<n) != 0`
has_prop : ℕ → ℕ → Bool
unfolding props
has_prop n op = not (bit_and (props op) (2 ^ n) == 0)

pub sets_a : ℕ → Bool
unfolding has_prop
sets_a op = has_prop 3 op

pub is_test : ℕ → Bool
unfolding has_prop
is_test op = has_prop 4 op

pub is_in_top : ℕ → Bool
unfolding has_prop
is_in_top op = has_prop 5 op

pub is_out_top : ℕ → Bool
unfolding has_prop
is_out_top op = has_prop 6 op

pub is_metamethod : ℕ → Bool
unfolding has_prop
is_metamethod op = has_prop 7 op

-- `ArithmeticOperator` of operators.go
pub data ArithmeticOperator : Type 0 where
  add subtract multiply modulo power divide integer_divide : ArithmeticOperator
  bitwise_and bitwise_or bitwise_xor shift_left shift_right : ArithmeticOperator
  unary_minus bitwise_not : ArithmeticOperator

-- `case x, y:` of a switch
one_of : ℕ → List ℕ → Bool
one_of op [] = Bool.false
one_of op (x ∷ xs) = op == x || one_of op xs

pub arithmetic_operator : ℕ → Option ArithmeticOperator
unfolding one_of
arithmetic_operator op =
    if one_of op (Op.add_i ∷ Op.add_k ∷ Op.add ∷ [])
    then some add
    else if one_of op (Op.sub_k ∷ Op.sub ∷ [])
    then some subtract
    else if one_of op (Op.mul_k ∷ Op.mul ∷ [])
    then some multiply
    else if one_of op (Op.mod_k ∷ Op.modulo ∷ [])
    then some modulo
    else if one_of op (Op.pow_k ∷ Op.pow ∷ [])
    then some power
    else if one_of op (Op.div_k ∷ Op.div ∷ [])
    then some divide
    else if one_of op (Op.i_div_k ∷ Op.i_div ∷ [])
    then some integer_divide
    else if one_of op (Op.b_and_k ∷ Op.b_and ∷ [])
    then some bitwise_and
    else if one_of op (Op.b_or_k ∷ Op.b_or ∷ [])
    then some bitwise_or
    else if one_of op (Op.b_xor_k ∷ Op.b_xor ∷ [])
    then some bitwise_xor
    else if one_of op (Op.shri ∷ Op.shr ∷ [])
    then some shift_right
    else if one_of op (Op.shli ∷ Op.shl ∷ [])
    then some shift_left
    else none
