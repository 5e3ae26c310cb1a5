-- ===== src/Lib.antt =====
-- The Lumerin proxy-router: a proxy between Bitcoin miners and mining pools that sells the miners'
-- hashrate by contracts on a blockchain.
--
-- How the parts interact. A miner connects through a proxy (internal/resources/hashrate/proxy). Each
-- share that it submits is checked by the validator of the current pool, is counted in the hashrate
-- counters of the miner and of its worker's name, and goes to the callback of the task that runs. A
-- scheduler for each miner (internal/resources/hashrate/allocator/scheduler.go) works off a list of
-- tasks: it points the proxy at a task's pool, and takes the shares off the job that the task has
-- left. The allocator (allocator.go) gives tasks to the schedulers of all miners, whole miners or
-- parts of what they can do in a cycle, on behalf of the contracts; the contracts follow the chain
-- by a watcher that polls for logs (internal/repositories/contracts/log_watcher_polling.go).
--
-- The files, and the code that they model:
--   Prelude and its children: helpers on lists, options, maps and integers; no code is modelled
--     there. A map is an association list (Prelude/Assoc), and a call that may panic returns an
--     Option.
--   Floats: float64 as an interface with no laws, so that a theorem over it holds whatever rounding
--     does; Floats/Exact is the instance on whole numbers, used by the examples and by the theorems
--     that say so. Conversions to integers are operations of the interface.
--   Containers/Stack: internal/lib/stack.go (push = Push, and so on).
--   Containers/BoundStackMap: internal/lib/bstackmap.go. Counts has the invariant, Window and Latest
--     relate the map to what was pushed, Duplicates has what happens to other and to doubled keys.
--   Containers/Set, Containers/Collection: internal/lib/set.go, array.go and collection.go. A
--     sync.Map is the list of its entries in the order of one iteration.
--   Stratum, Stratum/Hex: the messages of internal/resources/hashrate/proxy/stratumv1_message that
--     shares are checked on (mining_notify.go, mining_submit.go), and the decoding of hexadecimal
--     text that validator_diff.go uses.
--   Validator: validator.go and mining_job.go of internal/resources/hashrate/validator; a call of
--     validate_and_add_share is ValidateAndAddShare at a time. Validator/Diff: validator_diff.go,
--     with SHA-256 as a parameter. Seen, Shares, Expiry, Diff/Target and Diff/Reversal have proofs.
--   Hashrate/Units, Mean, Sma, Counters, Global: hashrate.go, mean.go, sma.go, interfaces.go and
--     global_hashrate.go of internal/resources/hashrate/hashrate.
--   Proxy/Stats, Proxy/Mining: stats.go and handler_mining.go of internal/resources/hashrate/proxy.
--     The handler of a share and the goroutine that it starts are two steps; what the validators,
--     the miner and the pool answer is an argument of the step.
--   Proxy/Pipe: pipe.go, one direction, each round with what its calls answer. Proxy/Dest: conn_dest.go,
--     the connection to a pool. Proxy/Change: the change of the destination in proxy.go and
--     handler_change_dest.go. A connection is a number in a store, since the proxy, the pipe and the
--     map of cached connections share it; whether the writes to the miner go
--     through is an argument, and so is how each direction of the pipe leaves when it is stopped:
--     before it is started again, after that, or for good. Change/Keyed and Change/Kept have the well-formedness of the map.
--     Proxy/Handshake: connectNewDest and destHandshake of handler_change_dest.go, with the answers as
--     conn_dest.go waits for them; Handshake/Changed joins it to the change of the destination.
--   Proxy/Jobs: which connection a share is for (proxy.go). Proxy/Names: the user names of the first
--     handshake (internal/lib/dest.go, handler_first_connect.go).
--   Task: internal/lib/task.go. Start and Stop are steps, and so is each step of the goroutine.
--   Allocator/TaskList: tasklist.go. Allocator/Scheduler: what scheduler.go answers to the allocator,
--     and Scheduler/Loop its taskLoop and onDisconnect, one turn of the loop for each task.
--     Allocator/Miners, Miners/Full and Miners/Partial: allocator.go (all three files of
--     internal/resources/hashrate/allocator).
--   LogWatcher: log_watcher_polling.go; the pointer that the retries share is a cell of the state.
--   Seller, Seller/Cycle: seller_stats.go and the adjustments of contract_seller_v2.go
--     (internal/resources/hashrate/contract): which miners a contract takes on and lets go, and the
--     hashrate that it owes at the end of a cycle; Seller/Delivery: its cycles, each with its shares and
--     adjustments as events. Seller/Control: the start and the stop of a
--     contract (contract_seller_v2.go) and the handlers of controller_seller.go; the goroutine of a
--     fulfilment ends in two steps.
--   Buyer, Buyer/Loop: contract_buyer.go and buyer_validation.go (same directory), and RelativeError of
--     internal/lib/number.go. A round of the loop has the times of its reads of the clock, and the
--     terms and hashrates as they are then. Buyer/Controller: StartFulfilling and StopFulfilling,
--     and controller_buyer.go and controller_futures_buyer.go, with what select finds as inputs.
--   Terms: internal/resources/hashrate/terms.go. Encryption and URLs are parameters.
--   ContractManager: internal/contractmanager/contract_manager.go; the end of a contract's goroutine
--     is an event like those of the clone factory.
--   Tests: runs of the model, and the theorems at concrete inputs.
--
-- State. A mutex that a method holds for its whole body makes the method one step. An object that is
-- reached by one pointer only is a value that is written back. Atomic counters and the debt of a
-- seller's contract wrap at their width, but the job that a task has left is a whole number, which
-- stays far below 2^63.
-- A time is a whole number of nanoseconds and an argument of the call that reads the clock.
--
-- Loops. A loop over a list is structural recursion. The index loops of Cancel (tasklist.go) and
-- Filter (bstackmap.go) run on fuel, one unit for each element at the start, which is enough since
-- the index rises in each round and the list does not grow; those of reverse (validator_diff.go) and
-- check (sma.go) on one unit for each byte or measurement, of which each round deals with one or
-- two. The loops of taskLoop, of the log watcher, of a pipe and of a buyer take the list of what
-- happens in their rounds.
--
-- Not modelled: the sockets and timers of connections, the first handshake between
-- a miner and its pool, the event loops of a seller's contract and of its controller, the
-- controller of a futures seller, the managers for futures, the gateways to the chain, the HTTP and TCP handlers,
-- configuration, logging and system settings. The exponential average (ema.go) is left out with
-- math.Exp. In the scheduler, mainLoop and the getters that pass on the proxy are left out, and a
-- call of RemoveTasksByID in the middle of a turn of the loop.
mod Prelude
pub mod Floats
pub mod Containers
pub mod Hashrate
pub mod Stratum
pub mod Validator
pub mod Proxy
pub mod LogWatcher
pub mod Seller
pub mod Terms
pub mod ContractManager
pub mod Task
pub mod Buyer
pub mod Allocator
mod Tests
