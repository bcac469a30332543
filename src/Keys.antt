-- ===== src/Keys.antt =====
-- util/types.go: keys, addresses and signatures, and the messages that are signed by a private key.
mod Defs
pub mod Signs
pub mod Messages
unfoldable pub use Defs.*
