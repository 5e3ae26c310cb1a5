-- ===== src/Hashrate.antt =====
-- internal/resources/hashrate/hashrate: units and counters of hashrate.
pub mod Units
pub mod Mean
pub mod Sma
pub mod Counters
pub mod Global
