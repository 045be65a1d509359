-- ===== src/Luacode/OpCode/Table.antt =====
-- What the table `opProps` says of every opcode.
use zb.Prelude.{
  ℕ, zero, suc, ◌≤◌, ◌<◌, ◌≡◌, refl, Bool, true, false, not, ◌&&◌, ◌||◌, leb, ◌==◌, arith, ◌↔◌,
  none, some,
}
use zb.Luacode.Op
use zb.Luacode.OpCode.{
  is_valid, op_mode, sets_a, is_test, is_metamethod, arithmetic_operator, mode_abc,
  ArithmeticOperator, mode_j, mode_ax,
}

-- A test that holds of each of the first `k` opcodes, to be evaluated.
throughout : (ℕ → Bool) → ℕ → Bool
throughout test zero = true
throughout test (suc k) = throughout test k && test k

throughout-at : (test : ℕ → Bool) (k op : ℕ) → throughout test k ≡ true → op < k → test op ≡ true
unfolding throughout
throughout-at test zero op all below = elim below [ ]
throughout-at test (suc k) op all below =
    let earlier = throughout-at test k op in ground (arith, earlier, all)

-- What the theorems below say, as one test.
consistent : ℕ → Bool
unfolding op_mode is_valid sets_a is_test is_metamethod
consistent op =
    same (is_valid op) (leb 1 (op_mode op) && leb (op_mode op) 5)
    && same (op_mode op == mode_j) (op == Op.jmp)
    && same (op_mode op == mode_ax) (op == Op.extra_arg)
    && (not (is_test op) || op_mode op == mode_abc)
    && (not (is_metamethod op) || op_mode op == mode_abc && not (sets_a op))
  where
    same : Bool → Bool → Bool
    same true b = b
    same false b = not b

consistent_table : throughout consistent 256 ≡ true
unfolding throughout consistent
consistent_table = refl

-- For every `uint8` opcode: its mode is one of the five exactly if the opcode is valid; the jump
-- format is that of JMP alone, and the Ax format that of EXTRAARG alone; a test is in ABC format,
-- and so is a metamethod call, which sets no register.
pub op_mode_classes :
    (op : ℕ)
    → op < 256
    → ((is_valid op ≡ true) ↔ (1 ≤ op_mode op) × (op_mode op ≤ 5))
      × ((op_mode op ≡ mode_j) ↔ (op ≡ Op.jmp))
      × ((op_mode op ≡ mode_ax) ↔ (op ≡ Op.extra_arg))
      × (is_test op ≡ true → op_mode op ≡ mode_abc)
      × (is_metamethod op ≡ true → (op_mode op ≡ mode_abc) × (sets_a op ≡ false))
op_mode_classes op h =
    let t : consistent op ≡ true = throughout-at consistent 256 op consistent_table h in
    unfold consistent in ground arith

arithmetic_ok : ℕ → Bool
unfolding op_mode sets_a is_test is_metamethod arithmetic_operator
arithmetic_ok op = elim (arithmetic_operator op) [
  | none ↦ true
  | some o ↦ op_mode op == mode_abc && sets_a op && not (is_test op) && not (is_metamethod op)
]

arithmetic_table : throughout arithmetic_ok 256 ≡ true
unfolding throughout arithmetic_ok
arithmetic_table = refl

-- An opcode that has an arithmetic operator is in ABC format, sets its register A, and is neither
-- a test nor a metamethod call.
pub arithmetic_operator_lem :
    (op : ℕ) (o : ArithmeticOperator)
    → op < 256
    → arithmetic_operator op ≡ some o
    → (op_mode op ≡ mode_abc)
      × (sets_a op ≡ true)
      × (is_test op ≡ false)
      × (is_metamethod op ≡ false)
arithmetic_operator_lem op o h e =
    let t : arithmetic_ok op ≡ true = throughout-at arithmetic_ok 256 op arithmetic_table h in
    unfold arithmetic_ok in ground arith
