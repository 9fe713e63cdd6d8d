-- ===== src/Protocol.antt =====
-- src/libs/ipk24protocol.h and src/libs/ipk24protocol.c: the parts of a message, the two wire
-- formats and the reading of the user's input. `Assemble`, `Disassemble` and `Input` have the
-- functions, the modules below those what is proved of them.
pub mod Blocks
pub mod Assemble
pub mod Disassemble
pub mod Input
pub mod Words
pub mod RoundTrip
