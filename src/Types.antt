-- ===== src/Types.antt =====
-- The built-in object types of types/common and types/extra.
pub mod Digits
pub mod Str
pub mod Slots
pub mod Number
pub mod ListObject
pub mod Range
pub mod Function
