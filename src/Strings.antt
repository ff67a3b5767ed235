-- ===== src/Strings.antt =====
-- kernel/string.c: the kernel's own C library. Bytes are numbers below 256, and a `char *` is the
-- list of bytes from it to the end of its object; an access past that end gives `none`.
pub mod Memory
pub mod Number
pub mod Text
pub mod Tokens
