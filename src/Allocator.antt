-- ===== src/Allocator.antt =====
-- internal/resources/hashrate/allocator: the queue of tasks of one miner, the scheduler that works
-- it off, and the allocator that hands contracts' work to miners.
pub mod TaskList
pub mod Scheduler
pub mod Miners
