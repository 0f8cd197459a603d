-- ===== src/Config.antt =====
-- src/user/config.c and src/user/config.h: the command line of ebaf-crypto.
pub mod HexKey
pub mod Decoding
pub mod Strtoul
pub mod Uint
pub mod Args
pub mod Accepted
