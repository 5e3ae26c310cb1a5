-- ===== src/LogWatcher/Gaps.antt =====
-- Which blocks the polls of log_watcher_polling.go ask for.
use proxy_router.Prelude.{
  ℕ, ◌+◌, ◌≤◌, ◌≡◌, inl, inr, refl, sym, ap, ◌∙◌, List, [], ◌∷◌, ◌++◌, Option, none, some, arith,
  ltb, subst, Option-cases, Bool-cases,
}
use proxy_router.LogWatcher.{
  PollError, Poll, Watcher, Log, PollResult, polled, failed, deliver, poll_reconnect, watch,
  after_try, after_round, write_cell, query, or_current, poll_from, poll_changes,
}

-- The ranges lie one behind the other, with no block between, from `a` up to before `b`.
abbrev pub Chain : ℕ → List (ℕ × ℕ) → ℕ → Type 0
Chain a [] b = a ≡ b
Chain a ((from, current) ∷ rs) b = (a ≡ from) × (from ≤ current) × Chain (current + 1) rs b

Chain-append :
    (a from current : ℕ) (rs : List (ℕ × ℕ))
    → Chain a rs from
    → from ≤ current
    → Chain a (rs ++ (from, current) ∷ []) (current + 1)
Chain-append a from current [] c h = (c, h, refl)
Chain-append a from current ((f, d) ∷ rs) c h =
    (c.0, c.1, Chain-append (d + 1) from current rs c.2 h)

module _ {E : Type 0} where
  -- The node answers every query for logs.
  abbrev pub Answers : Poll E → Type 0
  Answers poll = (from to : ℕ) → (logs : List (Log E)) × (poll.filter_logs from to ≡ some logs)

  -- The ranges lead from `a` to the next block.
  abbrev pub Gapless : ℕ → Watcher E → Type 0
  Gapless a w = (b : ℕ) × (w.next_from_block ≡ some b) × Chain a w.covered b

  -- A result that goes on goes on from the next block.
  abbrev Agrees : Watcher E → PollResult → Type 0
  Agrees w (polled next) = w.next_from_block ≡ some next
  Agrees w (failed err) = Unit

  deliver-Agrees :
      (poll : Poll E) (next : ℕ) (logs : List (Log E)) (w : Watcher E)
      → w.next_from_block ≡ some next
      → ((deliver poll next logs w).0.next_from_block ≡ some next)
        × ((deliver poll next logs w).0.covered ≡ w.covered)
        × Agrees (deliver poll next logs w).0 (deliver poll next logs w).1
  unfolding deliver
  deliver-Agrees poll next logs w e = ground (arith, e)

  -- The state and the result of a call: the ranges stay gapless, and the result fits the next block.
  abbrev Keeps : ℕ → Watcher E × PollResult → Type 0
  Keeps a r = Gapless a r.0 × Agrees r.0 r.1

  query-Keeps :
      (a from current : ℕ) (poll : Poll E) (w : Watcher E)
      → Answers poll
      → w.next_from_block ≡ some from
      → Chain a w.covered from
      → from ≤ current
      → Keeps a (query poll from current w)
  unfolding query
  query-Keeps a from current poll w ans e c h =
      let (logs, q) = ans from current in
      let w' : Watcher E = record {
        next_from_block = write_cell w.next_from_block (current + 1);
        sent = w.sent;
        covered = w.covered ++ (from, current) ∷ [];
      } in
      let d = deliver-Agrees poll (current + 1) logs w' (ap (λ o. write_cell o (current + 1)) e) in
      rw (q, query)
        (
          (
            current + 1,
            d.0,
            subst (λ rs. Chain a rs (current + 1)) (sym d.1)
                (Chain-append a from current w.covered c h),
          ),
          d.2,
        )

  poll_from-Keeps :
      (a from current : ℕ) (poll : Poll E) (w : Watcher E)
      → Answers poll
      → w.next_from_block ≡ some from
      → Chain a w.covered from
      → Keeps a (poll_from poll current w)
  unfolding poll_from
  poll_from-Keeps a from current poll w ans e c = elim (Bool-cases (ltb current from)) [
    | inl l ↦ elim (Bool-cases poll.stopped_waiting) [
      | inl s ↦ rw (ap (λ o. or_current o current) e, l, s) ((from, e, c), tt)
      | inr s ↦ rw (ap (λ o. or_current o current) e, l, s) ((from, e, c), e)
    ]
    | inr l ↦
        rw (ap (λ o. or_current o current) e, l)
          (query-Keeps a from current poll w ans e c (ground (arith, l)))
  ]

  poll_changes-Keeps :
      (a : ℕ) (poll : Poll E) (w : Watcher E)
      → Answers poll
      → Gapless a w
      → Keeps a (poll_changes poll w)
  unfolding poll_changes
  poll_changes-Keeps a poll w ans (from, e, c) = elim (Option-cases poll.header) [
    | inl n ↦ rw n ((from, e, c), tt)
    | inr (current, n) ↦ rw n (poll_from-Keeps a from current poll w ans e c)
  ]

  -- Every poll of the tries is answered.
  abbrev pub AllAnswer : List (Option (Poll E)) → Type 0
  AllAnswer [] = Unit
  AllAnswer (none ∷ tries) = AllAnswer tries
  AllAnswer (some poll ∷ tries) = Answers poll × AllAnswer tries

  abbrev pub RoundsAnswer : List (List (Option (Poll E))) → Type 0
  RoundsAnswer [] = Unit
  RoundsAnswer (tries ∷ rounds) = AllAnswer tries × RoundsAnswer rounds

  -- The first try's outcome, and then the others.
  retried :
      (a : ℕ) (f : Watcher E → Watcher E × PollResult) (r : Watcher E × PollResult)
      → ((w : Watcher E) → Gapless a w → Keeps a (f w))
      → Keeps a r
      → Keeps a (after_try f r)
  retried a f (w', polled next) h k = k
  retried a f (w', failed err) h k = h w' k.0

  poll_reconnect-Keeps :
      (a : ℕ) (tries : List (Option (Poll E))) (w : Watcher E)
      → AllAnswer tries
      → Gapless a w
      → Keeps a (poll_reconnect tries w)
  unfolding poll_reconnect
  poll_reconnect-Keeps a [] w ans g = (g, tt)
  poll_reconnect-Keeps a (none ∷ tries) w ans g = (g, tt)
  poll_reconnect-Keeps a (some poll ∷ tries) w ans g =
      retried a (poll_reconnect tries) (poll_changes poll w)
        (λ w' k. poll_reconnect-Keeps a tries w' ans.1 k) (poll_changes-Keeps a poll w ans.0 g)

  next_round :
      (a : ℕ) (f : Watcher E → Watcher E × Option PollError) (r : Watcher E × PollResult)
      → ((w : Watcher E) → Gapless a w → Gapless a (f w).0)
      → Keeps a r
      → Gapless a (after_round f r).0
  next_round a f (w', polled next) h ((b, e, c), g) =
      h (record w' { next_from_block = some next }) (b, sym g ∙ e, c)
  next_round a f (w', failed err) h k = k.0

  -- While the node answers every query for logs, whatever else fails or stops the watcher: the
  -- ranges of blocks that it has got leave no block out between the first and the next one that it
  -- will ask for, however many rounds and retries there were.
  pub watch-Gapless :
      (a : ℕ) (rounds : List (List (Option (Poll E)))) (w : Watcher E)
      → RoundsAnswer rounds
      → Gapless a w
      → Gapless a (watch rounds w).0
  unfolding watch
  watch-Gapless a [] w ans g = g
  watch-Gapless a (tries ∷ rounds) w ans g =
      next_round a (watch rounds) (poll_reconnect tries w)
        (λ w' k. watch-Gapless a rounds w' ans.1 k) (poll_reconnect-Keeps a tries w ans.0 g)
