-- ===== src/Numbers.antt =====
-- Numbers as text, xv6-public/printf.c and ulib.c.
pub mod Defs
pub mod Decimal
mod Tests
