-- ===== src/Text.antt =====
-- What the program uses of Rust's texts: `str::lines`, `str::split`, `split_once`, `join`,
-- `String::from_utf8`, `to_string` and `parse` of the unsigned integers.
-- A text is the list of its bytes.
pub mod Utf8
pub mod Lines
pub mod Decimal
pub mod Search
