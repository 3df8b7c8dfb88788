-- ===== src/Vm/Codes.antt =====
-- The numbers of the instructions (the first enum of vm.h), of the types of objects that they name
-- (types/object.h), and the instruction itself (types/extra/code.h).
use python_lite.Base.{ℕ, ◌+◌, ◌-◌, ◌%◌, ltb, if◌then◌else◌}

abbrev pub bc_operator : ℕ
bc_operator = 0

abbrev pub bc_set_val : ℕ
bc_set_val = 1

abbrev pub bc_set_valx : ℕ
bc_set_valx = 2

abbrev pub bc_load_val : ℕ
bc_load_val = 3

abbrev pub bc_load_val_ : ℕ
bc_load_val_ = 4

abbrev pub bc_loadnone : ℕ
bc_loadnone = 5

abbrev pub bc_loadconst : ℕ
bc_loadconst = 6

abbrev pub bc_loadlocals : ℕ
bc_loadlocals = 7

abbrev pub bc_new_obj : ℕ
bc_new_obj = 8

abbrev pub bc_call : ℕ
bc_call = 9

abbrev pub bc_ret : ℕ
bc_ret = 10

abbrev pub bc_halt : ℕ
bc_halt = 11

abbrev pub bc_print : ℕ
bc_print = 12

abbrev pub bc_test : ℕ
bc_test = 13

abbrev pub bc_jmp : ℕ
bc_jmp = 14

abbrev pub bc_jmp_back : ℕ
bc_jmp_back = 15

abbrev pub bc_pop : ℕ
bc_pop = 16

abbrev pub bc_popn : ℕ
bc_popn = 17

abbrev pub bc_foriter : ℕ
bc_foriter = 18

abbrev pub bc_get_item : ℕ
bc_get_item = 19

abbrev pub bc_get_item_ : ℕ
bc_get_item_ = 20

abbrev pub bc_set_item : ℕ
bc_set_item = 21

abbrev pub bc_get_attr : ℕ
bc_get_attr = 22

abbrev pub bc_get_attr_ : ℕ
bc_get_attr_ = 23

abbrev pub bc_set_attr : ℕ
bc_set_attr = 24

abbrev pub bc_get_slice : ℕ
bc_get_slice = 25

abbrev pub bc_get_slice_ : ℕ
bc_get_slice_ = 26

abbrev pub bc_set_slice : ℕ
bc_set_slice = 27

abbrev pub bc_del_force : ℕ
bc_del_force = 28

abbrev pub bc_del_name : ℕ
bc_del_name = 29

abbrev pub bc_del_attr : ℕ
bc_del_attr = 30

abbrev pub bc_del_item : ℕ
bc_del_item = 31

abbrev pub bc_del_slice : ℕ
bc_del_slice = 32

abbrev pub bc_assert : ℕ
bc_assert = 33

abbrev pub bc_expt_setup : ℕ
bc_expt_setup = 34

abbrev pub bc_expt_popn : ℕ
bc_expt_popn = 35

abbrev pub bc_raise : ℕ
bc_raise = 36

abbrev pub bc_unpack_seq : ℕ
bc_unpack_seq = 37

abbrev pub bc_unpack_arg : ℕ
bc_unpack_arg = 38

abbrev pub bc_import_name : ℕ
bc_import_name = 39

abbrev pub bc_dict_combine : ℕ
bc_dict_combine = 40

abbrev pub bc_nop : ℕ
bc_nop = 41

abbrev pub bc_ph_break : ℕ
bc_ph_break = 42

abbrev pub bc_ph_continue : ℕ
bc_ph_continue = 43

abbrev pub type_set : ℕ
type_set = 7

abbrev pub type_list : ℕ
type_list = 8

abbrev pub type_tuple : ℕ
type_tuple = 9

abbrev pub type_dict : ℕ
type_dict = 10

abbrev pub type_type : ℕ
type_type = 11

abbrev pub type_function : ℕ
type_function = 14

abbrev pub type_iter : ℕ
type_iter = 17

-- `PyLiteInstruction`: two bytes and an `int16_t`, which is given by its bit pattern.
pub record Instruction : Type 0 where
  pub code : ℕ
  pub exarg : ℕ
  pub extra : ℕ

-- `build_ins` of parser.c, with the conversions of its arguments.
unfoldable pub build_ins : ℕ → ℕ → ℕ → Instruction
build_ins opcode exarg extra = record {
  code = opcode % 256;
  exarg = exarg % 256;
  extra = extra % 65536;
}

-- `p + extra`, of a position and a number of 16 bits with a sign.
unfoldable pub offset : ℕ → ℕ → ℕ
offset p extra = if ltb extra 32768 then p + extra else p + extra - 65536
