-- ===== src/Ipc.antt =====
-- The shared-memory primitives of audio-stack/ipc/include.
pub mod Spsc
pub mod TripleBuf
mod Tests
