-- ===== src/Std.antt =====
-- What the program uses of Rust's standard library: texts, their bytes, hash maps, environment
-- variables and the bit operations of `u8`.
pub mod Text
pub mod Net
pub mod Utf8
pub mod Bits
pub mod Map
pub mod OneOf
