-- ===== src/Proxy.antt =====
-- internal/resources/hashrate/proxy: the proxy between one miner and its pools.
pub mod Stats
pub mod Mining
pub mod Pipe
pub mod Dest
pub mod Change
pub mod Handshake
pub mod Names
pub mod Jobs
