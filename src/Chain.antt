-- ===== src/Chain.antt =====
-- chain/notify.go: the blocks and messages that come over the network, and the heads made of them.
pub mod Blocks
pub mod Heads
