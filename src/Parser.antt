-- ===== src/Parser.antt =====
-- parser.c and parser.h: the recursive descent from tokens to the instructions of vm.h.
pub mod State
pub mod Emit
pub mod Containers
pub mod Suffix
pub mod Params
pub mod Expr
pub mod Assign
pub mod Simple
pub mod Branch
pub mod Repeat
pub mod Guard
pub mod Define
pub mod Program
pub mod Grammar
pub mod Levels
pub mod Eventually
pub mod Compiles
pub mod Steps
pub mod Stored
pub mod Reading
pub mod Terms
pub mod Factors
pub mod Powers
pub mod Whole
pub mod Parens
pub mod Sums
pub mod First
pub mod Correct
pub mod Evaluation
pub mod Loops
pub mod Jumps
pub mod Contract
pub mod Rules
pub mod Results
pub mod Writes
pub mod Literals
pub mod Suffixes
pub mod Lambdas
pub mod Total
pub mod Termination
