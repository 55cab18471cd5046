-- ===== src/Util.antt =====
-- src/nfapiutils.c: the dumps of messages, the names of message ids, and the sockets of P7 and P5.
pub mod Hexdump
pub mod Names
pub mod Phys
pub mod P5
mod Examples
