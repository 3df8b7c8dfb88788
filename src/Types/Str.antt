-- ===== src/Types/Str.antt =====
-- types/common/string.c and bytes.c: the construction of str and bytes objects from source text.
pub mod Escape
