-- ===== src/Lib.antt =====
-- python_lite: a small Python interpreter written in C. Its lexer (src/lexer.c, src/lexer.h) turns
-- the characters of a file into tokens; the parser (src/parser.c) asks for one token at a time and
-- emits bytecode; the virtual machine (src/vm.c) runs it on the objects of src/types, which a
-- collector (src/gc.c) frees. This library models the lexer and the parser whole, the instructions
-- of which the code of expressions is made, the collector, the constructors of objects that the
-- lexer calls, and the list object.
--
-- Base: the shared names; lists under native numbers, Boolean tests, and a signed integer ℤ.
-- Types.Digits: `_hex`, `_oct`, `_bin`, `_dec`, `_read_x_int` and `pylt_obj_int_new_from_cstr_full`
--   of src/types/common/number.c, and the bounded `_read_x_int` of src/types/common/string.c.
-- Types.Number: `pylt_obj_int_to_ucs4` of number.c, with the round trip in RoundTrip.
-- Types.Str.Escape: `pylt_obj_str_new` of string.c and, where it differs, `pylt_obj_bytes_new` of
--   src/types/common/bytes.c.
-- Types.Slots: an allocated array of pointers, with `memcpy` and `memmove`; an access outside the
--   array is the result `none` or `outside`, and a `memcpy` between ranges that overlap, which C
--   does not define, is `overlaps`.
-- Types.ListObject: `PyLiteListObject` of src/types/common/list.c with its operations.
--   Represents and Removal hold the theorems, Flaws those on copies and insertion; Search models
--   the functions that compare items, over a comparison `pylt_obj_eq` that is a parameter,
--   and Equality `pylt_obj_list_eq`, over the comparison of two pointers.
-- Types.Range: `PyLiteRangeObject` of src/types/extra/range.c and its iteration of
--   src/types/extra/iter.c, with the theorems in Items; a `pl_int_t` has 64 bits there, and what does
--   not fit wraps around.
-- Lexer.Token: the enum `TokenKind` and `pylt_lex_tokens`. Lexer.State: `LexState`, `nextc`, the
--   recording of characters, the buffers, `pylt_lex_init` and `pylt_lex_reset`.
-- Lexer.Keywords: `read_kw_or_id`. Lexer.Strings: `read_str_or_bytes_head`, `read_str_or_bytes`.
-- Lexer.Indent and Lexer.Next: `pylt_lex_next`, in its two halves, with Lexer.Scan for the readers
--   of comments, operators and numbers.
-- Lexer.Valid, Session, Rounds, Text, Operators, Halts, Exits, Literals and Lines
--   hold the theorems on the lexer.
-- Gc: Sets, Heap and Collect model the sets of addresses, what the collector sees of an object and
--   `pylt_gc_collect`; where the iterators are made by which it marks is a parameter. Moving,
--   Marking and Correct hold its theorems. Cache and Interning are about the cache of strings and the static
--   objects.
-- Vm.Codes: `PyLiteInstruction` and the enums of src/vm.h. Vm.Ops: the operators, their names and
--   those of tokens, with the theorem in Names. Vm.Operand: the cases of `pylt_vm_run` for
--   `BC_LOADNONE`, `BC_LOADCONST`, `BC_LOAD_VAL` and `BC_OPERATOR`. Vm.Value: the value of a tree,
--   with the theorem in Computes. Vm.Except: the exception blocks, which keep addresses in the
--   array of frames. Vm.Frames: the frames and `BC_RET`, with the theorem in Nesting; where the
--   array is put when it grows is a parameter. Types.Function: the parameters that
--   `pylt_obj_func_new_ex` of src/types/extra/function.c sets. Vm.Call: how `func_call_check`
--   matches arguments to them, from the test of `info->defaults` to the type codes; Matched says
--   which parameter gets which argument, and Binds, Plain and Whole hold the theorems. A dict of
--   names is the list of its entries there.
-- Parser.State: `ParserState`, `next`, `ACCEPT` and the check of left values. Parser.Emit: what is
--   written, `store_const`, `value_assign_fix`, `loop_control_replace`, `func_scope_check`.
--   Parser.Containers, Suffix, Params and Expr: the functions from `parse_get_consttype` to
--   `parse_expr10`, with `parse_func_params` and `parse_lambda`. Assign, Simple, Branch, Repeat,
--   Guard, Define and Program: the statements, from `parse_inplace_op` to `pylt_parser_parse`.
-- Parser.Grammar: trees, and how they are written with the levels of operators. The modules from
--   Levels to Correct go from the steps of the parser to the whole expression; Evaluation puts
--   the parser and the machine together. Loops is about `loop_control_replace`, Jumps about the
--   jumps of `if`. Contract and the modules from Rules to Termination show what expressions keep for
--   any tokens, function by function.
-- Tests: runs, and the theorems at concrete inputs.
--
-- A state is a record that each operation takes and returns. The file is the list of the code
-- points that `pylt_io_readstr` still returns; at its end `nextc` puts '\0' in `ch`. The indent
-- stack is the list of its values, top first. `ch` after `pylt_lex_init` is a parameter, as the
-- code leaves it unset. A buffer is the list of what was written to it with its size beside it.
-- C's `int` counters are unbounded numbers. The recording buffer of 8 characters is a list
-- without a limit.
--
-- In the parser and the machine a pointer to an object is a constant or an address, and the objects'
-- own operations are parameters: equality of constants, and the unary and binary operations. The
-- parser takes the list of the tokens that the lexer returns.
--
-- Loops run on fuel. The loops over a run of characters, a comment, an indentation and the loop
-- that looks for a token take it from the number of characters left. Only the body of a string
-- literal has its fuel as an argument of `lex_next`, for it need not end. The marking loop of a
-- collection has as much as there are white and grey objects, one more than it needs. The parser's
-- functions take one unit for each call; the theorems on expressions give enough. The loop that
-- changes the jumps of an `if` has one more than there are instructions.
--
-- Not modelled: the other instructions of the virtual machine; of a call, the search for what is
-- called and the test of the type codes; the other objects, input and output, the modules and the
-- bindings; the freeing of memory; the hashing of strings; floating point values, of which the
-- token keeps the text and the place of the point. An error of the parser ends the process; the
-- model keeps its code. Behind the end of the file the model of the parser stays at the end token,
-- where the lexer returns a line end and the end by turns. The instruction `BC_PRINT` that a debug
-- build adds to a file is left out.
pub mod Base
pub mod Types
pub mod Lexer
pub mod Gc
pub mod Vm
pub mod Parser
mod Tests
