-- ===== src/Text.antt =====
-- Python's `str` as the list of its code points, and the string operations of the source.
pub mod Base
pub mod Order
pub mod Number
pub mod Lines
