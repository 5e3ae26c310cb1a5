-- ===== src/Tests/Counters.antt =====
-- The sets, collections and hashrate counters on small inputs.
use proxy_router.Prelude.{ℕ, ◌≡◌, refl, String, List, [], ◌∷◌, arith, string_eq}
use proxy_router.Prelude.Int.{ℤ, pos, ◌+ℤ◌}
use proxy_router.Floats.Exact.{exact}
use proxy_router.Containers.Collection.{load}
use proxy_router.Hashrate.Mean.{new_mean}
use proxy_router.Hashrate.Sma.{Sma, check}
use proxy_router.Hashrate.Sma.Window.{recent, total, check_window}
use proxy_router.Hashrate.Counters.{Counter, Hashrate, mean}
use proxy_router.Hashrate.Global.Workers.{Share, submit_all, served, submit_all-served}

abbrev itself : String → String
itself s = s

abbrev submits : List (ℕ × ℤ)
submits = (1000000000, pos 5) ∷ (3000000000, pos 7) ∷ []

abbrev counter : Sma ℤ
counter = record {
  window = 10;
  deque =
      record { timestamp = 25; value = pos 3 }
      ∷ record { timestamp = 20; value = pos 4 }
      ∷ record { timestamp = 5; value = pos 2 }
      ∷ [];
  sum = pos 9;
  value = pos 0;
}

check_window_example :
    ((check exact 28 counter).deque ≡ recent 28 10 counter.deque)
    × ((check exact 28 counter).sum ≡ total (recent 28 10 counter.deque))
unfolding ◌+ℤ◌
check_window_example =
    check_window 28 counter ((omega arith, (omega arith, tt)), ((omega arith, tt), (tt, tt))) refl

-- A counter with no state.
abbrev no_counter : Counter ℤ Unit
no_counter = record {
  start = λ t c. c;
  add = λ t v c. c;
  value = λ t c. (pos 0, c);
  value_per = λ t p c. (pos 0, c);
  reset = λ c. c;
}

abbrev factory : Hashrate Unit
factory = ("mean", mean new_mean) ∷ []

abbrev shares : List (Share ℤ)
shares = (1, "alice", pos 5) ∷ (2, "bob", pos 6) ∷ (3, "alice", pos 7) ∷ []

submit_all-served_example :
    load (submit_all exact no_counter factory shares []) "bob"
    ≡ served exact no_counter factory "bob" shares (load [] "bob")
submit_all-served_example = submit_all-served exact no_counter factory shares [] "bob"
