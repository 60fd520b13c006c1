-- ===== src/Author.antt =====
-- tacacs/binaries/tac_plus-ng/author.c
pub mod Request
pub mod AvPairs
pub mod Decide
