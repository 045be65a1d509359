-- ===== src/Luacode/Op.antt =====
-- internal/luacode/instruction.go: the `OpCode` constants. An `OpCode` is a `uint8`, and a decoded
-- instruction may hold one that is not among them.
use zb.Prelude.{ℕ}

abbrev pub move : ℕ
move = 0

abbrev pub load_i : ℕ
load_i = 1

abbrev pub load_f : ℕ
load_f = 2

abbrev pub load_k : ℕ
load_k = 3

abbrev pub load_kx : ℕ
load_kx = 4

abbrev pub load_false : ℕ
load_false = 5

abbrev pub l_false_skip : ℕ
l_false_skip = 6

abbrev pub load_true : ℕ
load_true = 7

abbrev pub load_nil : ℕ
load_nil = 8

abbrev pub get_upval : ℕ
get_upval = 9

abbrev pub set_upval : ℕ
set_upval = 10

abbrev pub get_tab_up : ℕ
get_tab_up = 11

abbrev pub get_table : ℕ
get_table = 12

abbrev pub get_i : ℕ
get_i = 13

abbrev pub get_field : ℕ
get_field = 14

abbrev pub set_tab_up : ℕ
set_tab_up = 15

abbrev pub set_table : ℕ
set_table = 16

abbrev pub set_i : ℕ
set_i = 17

abbrev pub set_field : ℕ
set_field = 18

abbrev pub new_table : ℕ
new_table = 19

abbrev pub self : ℕ
self = 20

abbrev pub add_i : ℕ
add_i = 21

abbrev pub add_k : ℕ
add_k = 22

abbrev pub sub_k : ℕ
sub_k = 23

abbrev pub mul_k : ℕ
mul_k = 24

abbrev pub mod_k : ℕ
mod_k = 25

abbrev pub pow_k : ℕ
pow_k = 26

abbrev pub div_k : ℕ
div_k = 27

abbrev pub i_div_k : ℕ
i_div_k = 28

abbrev pub b_and_k : ℕ
b_and_k = 29

abbrev pub b_or_k : ℕ
b_or_k = 30

abbrev pub b_xor_k : ℕ
b_xor_k = 31

abbrev pub shri : ℕ
shri = 32

abbrev pub shli : ℕ
shli = 33

abbrev pub add : ℕ
add = 34

abbrev pub sub : ℕ
sub = 35

abbrev pub mul : ℕ
mul = 36

abbrev pub modulo : ℕ
modulo = 37

abbrev pub pow : ℕ
pow = 38

abbrev pub div : ℕ
div = 39

abbrev pub i_div : ℕ
i_div = 40

abbrev pub b_and : ℕ
b_and = 41

abbrev pub b_or : ℕ
b_or = 42

abbrev pub b_xor : ℕ
b_xor = 43

abbrev pub shl : ℕ
shl = 44

abbrev pub shr : ℕ
shr = 45

abbrev pub mm_bin : ℕ
mm_bin = 46

abbrev pub mm_bin_i : ℕ
mm_bin_i = 47

abbrev pub mm_bin_k : ℕ
mm_bin_k = 48

abbrev pub unm : ℕ
unm = 49

abbrev pub b_not : ℕ
b_not = 50

abbrev pub not : ℕ
not = 51

abbrev pub len : ℕ
len = 52

abbrev pub concat : ℕ
concat = 53

abbrev pub close : ℕ
close = 54

abbrev pub tbc : ℕ
tbc = 55

abbrev pub jmp : ℕ
jmp = 56

abbrev pub eq : ℕ
eq = 57

abbrev pub lt : ℕ
lt = 58

abbrev pub le : ℕ
le = 59

abbrev pub eqk : ℕ
eqk = 60

abbrev pub eqi : ℕ
eqi = 61

abbrev pub lti : ℕ
lti = 62

abbrev pub lei : ℕ
lei = 63

abbrev pub gti : ℕ
gti = 64

abbrev pub gei : ℕ
gei = 65

abbrev pub test : ℕ
test = 66

abbrev pub test_set : ℕ
test_set = 67

abbrev pub call : ℕ
call = 68

abbrev pub tail_call : ℕ
tail_call = 69

abbrev pub return : ℕ
return = 70

abbrev pub return0 : ℕ
return0 = 71

abbrev pub return1 : ℕ
return1 = 72

abbrev pub for_loop : ℕ
for_loop = 73

abbrev pub for_prep : ℕ
for_prep = 74

abbrev pub t_for_prep : ℕ
t_for_prep = 75

abbrev pub t_for_call : ℕ
t_for_call = 76

abbrev pub t_for_loop : ℕ
t_for_loop = 77

abbrev pub set_list : ℕ
set_list = 78

abbrev pub closure : ℕ
closure = 79

abbrev pub vararg : ℕ
vararg = 80

abbrev pub vararg_prep : ℕ
vararg_prep = 81

abbrev pub extra_arg : ℕ
extra_arg = 82
