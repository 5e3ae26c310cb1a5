-- ===== src/LogWatcher.antt =====
-- internal/repositories/contracts/log_watcher_polling.go. The `*big.Int` `nextFromBlock` is one
-- object that every retry shares: `pollReconnect` passes the same pointer to each `pollChanges`,
-- which writes to it. So the block is a cell of the state, `none` while the pointer is nil; a poll
-- that allocates a new one returns it by value. What the node and the channels do in a poll is an
-- argument (`Poll`).
pub mod Gaps
use proxy_router.Prelude.{
  ℕ, zero, suc, ◌+◌, Bool, true, false, not, String, List, [], ◌∷◌, ◌++◌, Option, none, some,
  if◌then◌else◌, ltb,
}

-- Why a poll or the loop of retries ends with an error.
pub data PollError : Type 0 where
  header_failed filter_failed closed retries_exhausted : PollError

pub record Log (E : Type 0) : Type 0 where
  pub removed : Bool
  -- what the mapper makes of it; `none` is its error
  pub event : Option E

-- One poll: the node's last block, or its error; the logs that the node has for a range of blocks,
-- or its error; how many events can be sent before the watcher is told to stop, if it is; and
-- whether it is told to stop while it waits at the end.
pub record Poll (E : Type 0) : Type 0 where
  pub header : Option ℕ
  pub filter_logs : ℕ → ℕ → Option (List (Log E))
  pub stop_after : Option ℕ
  pub stopped_waiting : Bool

-- The watcher: the shared cell, the events sent, and the ranges that were asked for and answered.
pub record Watcher (E : Type 0) : Type 0 where
  pub next_from_block : Option ℕ
  pub sent : List E
  pub covered : List (ℕ × ℕ)

-- What a poll returns, beside the change of the state: the next block, or an error.
pub data PollResult : Type 0 where
  polled : ℕ → PollResult
  failed : PollError → PollResult

-- `nextFromBlock.Add(currentBlock.Number, 1)`: through the caller's pointer, if there is one.
abbrev pub write_cell : Option ℕ → ℕ → Option ℕ
write_cell none next = none
write_cell (some _) next = some next

abbrev pub or_current : Option ℕ → ℕ → ℕ
or_current none current = current
or_current (some from) current = from

module _ {E : Type 0} where
  -- The events of the logs that are not removed and that the mapper knows.
  unfoldable pub events_of : List (Log E) → List E
  events_of [] = []
  events_of (l ∷ logs) = elim l.event [
    | none ↦ events_of logs
    | some e ↦ let rest = events_of logs in if l.removed then rest else e ∷ rest
  ]

  -- Sends until it is told to stop: what was sent, and whether all was.
  unfoldable pub send : Option ℕ → List E → List E × Bool
  send none es = (es, true)
  send (some n) [] = ([], true)
  send (some zero) (e ∷ es) = ([], false)
  send (some (suc n)) (e ∷ es) = let (sent, all) = send (some n) es in (e ∷ sent, all)

  -- After the logs have come. `cell` says whether the pointer is the caller's.
  unfoldable pub deliver : Poll E → ℕ → List (Log E) → Watcher E → Watcher E × PollResult
  unfolding send events_of
  deliver poll next logs w =
      let (sent, all) = send poll.stop_after (events_of logs) in
      let w' = record w { sent = w.sent ++ sent } in
      if all
      then (if poll.stopped_waiting then (w', failed closed) else (w', polled next))
      else (w', failed closed)

  unfoldable pub query : Poll E → ℕ → ℕ → Watcher E → Watcher E × PollResult
  unfolding deliver
  query poll from current w =
      let w' = record w { next_from_block = write_cell w.next_from_block (current + 1) } in
      elim (poll.filter_logs from current) [
        | none ↦ (w', failed filter_failed)
        | some logs ↦
            deliver poll (current + 1) logs
              (record w' { covered = w.covered ++ (from, current) ∷ [] })
      ]

  -- From the header on.
  unfoldable pub poll_from : Poll E → ℕ → Watcher E → Watcher E × PollResult
  unfolding query
  poll_from poll current w =
      let from = or_current w.next_from_block current in
      if ltb current from
      then (if poll.stopped_waiting then (w, failed closed) else (w, polled from))
      else query poll from current w

  unfoldable pub poll_changes : Poll E → Watcher E → Watcher E × PollResult
  unfolding poll_from
  poll_changes poll w = elim poll.header [
    | none ↦ (w, failed header_failed)
    | some current ↦ poll_from poll current w
  ]

  -- A poll that succeeds ends the tries.
  abbrev pub after_try :
      (Watcher E → Watcher E × PollResult) → Watcher E × PollResult → Watcher E × PollResult
  after_try tries (w, polled next) = (w, polled next)
  after_try tries (w, failed err) = tries w

  -- `max_reconnects` tries, each with its poll; `none` in the list is a stop before the try.
  unfoldable pub poll_reconnect : List (Option (Poll E)) → Watcher E → Watcher E × PollResult
  unfolding poll_changes
  poll_reconnect [] w = (w, failed retries_exhausted)
  poll_reconnect (none ∷ tries) w = (w, failed closed)
  poll_reconnect (some poll ∷ tries) w = after_try (poll_reconnect tries) (poll_changes poll w)

  abbrev pub after_round :
      (Watcher E → Watcher E × Option PollError)
      → Watcher E × PollResult
      → Watcher E × Option PollError
  after_round rounds (w, polled next) = rounds (record w { next_from_block = some next })
  after_round rounds (w, failed err) = (w, some err)

  -- The loop of `Watch`: each round's tries. A round that returns gives the loop its next block.
  unfoldable pub watch : List (List (Option (Poll E))) → Watcher E → Watcher E × Option PollError
  unfolding poll_reconnect
  watch [] w = (w, none)
  watch (tries ∷ rounds) w = after_round (watch rounds) (poll_reconnect tries w)
