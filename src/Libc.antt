-- ===== src/Libc.antt =====
-- What the program uses of the C library on strings and numbers.
pub mod Str
pub mod Decimal
pub mod Sort
