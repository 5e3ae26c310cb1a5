-- ===== src/Hashrate/Counters.antt =====
-- internal/resources/hashrate/hashrate: interfaces.go and the type `Hashrate` of hashrate.go, a map
-- of counters among which the mean is always there. The other counters are seen through their
-- interface.
use proxy_router.Prelude.{ℕ, String, [], ◌∷◌, Option, none, some, string_eq}
use proxy_router.Prelude.Options.{◌>>=◌}
use proxy_router.Prelude.Int.{ℤ, pos}
use proxy_router.Prelude.Assoc.{Assoc, lookup, insert}
use proxy_router.Floats.{Float64}
use proxy_router.Hashrate.Units.{job_submitted_to_ghs}
use proxy_router.Hashrate.Mean as Mean
use proxy_router.Hashrate.Mean.{Mean, new_mean}

-- The interface `Counter`, on counters with the state `C`. The first argument is the time of the
-- call. Reading a value may drop what has become too old.
pub record Counter (F C : Type 0) : Type 0 where
  pub start : ℕ → C → C
  pub add : ℕ → F → C → C
  pub value : ℕ → C → F × C
  pub value_per : ℕ → ℕ → C → F × C
  pub reset : C → C

pub data AnyCounter (C : Type 0) : Type 0 where
  mean : Mean → AnyCounter C
  other : C → AnyCounter C

abbrev pub Hashrate : Type 0 → Type 0
Hashrate C = Assoc String (AnyCounter C)

abbrev pub mean_counter_key : String
mean_counter_key = "mean"

module _ {C : Type 0} where
  unfoldable pub new_hashrate : Hashrate C → Hashrate C
  new_hashrate counters = insert mean_counter_key (mean new_mean) counters

  abbrev pub as_mean : Option (AnyCounter C) → Option Mean
  as_mean (some (mean m)) = some m
  as_mean _ = none

  -- `h.custom[MeanCounterKey].(*Mean)`, which panics on any other counter.
  unfoldable pub the_mean : Hashrate C → Option Mean
  the_mean h = as_mean (lookup mean_counter_key h)

  unfoldable pub get_total_duration : ℕ → Hashrate C → Option ℤ
  unfolding the_mean
  get_total_duration now h = do m ← the_mean h; some (Mean.get_total_duration now m)

  -- The inner `none` is the zero time.
  unfoldable pub get_last_submit_time : Hashrate C → Option (Option ℕ)
  unfolding the_mean
  get_last_submit_time h = do m ← the_mean h; some (Mean.get_last_submit_time m)

  unfoldable pub get_total_shares : Hashrate C → Option ℕ
  unfolding the_mean
  get_total_shares h = do m ← the_mean h; some m.total_shares

module _ (fl : Float64) {C : Type 0} (ops : Counter fl.F C) where
  open fl use {F, of_int}

  start_one : ℕ → AnyCounter C → AnyCounter C
  start_one now (mean m) = mean (Mean.start now m)
  start_one now (other c) = other (ops.start now c)

  reset_one : AnyCounter C → AnyCounter C
  reset_one (mean m) = mean (Mean.reset m)
  reset_one (other c) = other (ops.reset c)

  add_one : ℕ → F → AnyCounter C → AnyCounter C
  add_one now diff (mean m) = mean (Mean.add fl now diff m)
  add_one now diff (other c) = other (ops.add now diff c)

  unfoldable pub start : ℕ → Hashrate C → Hashrate C
  unfolding start_one
  start now [] = []
  start now ((k, item) ∷ h) = (k, start_one now item) ∷ start now h

  unfoldable pub reset : Hashrate C → Hashrate C
  unfolding reset_one
  reset [] = []
  reset ((k, item) ∷ h) = (k, reset_one item) ∷ reset h

  unfoldable pub on_submit : ℕ → F → Hashrate C → Hashrate C
  unfolding add_one
  on_submit now diff [] = []
  on_submit now diff ((k, item) ∷ h) = (k, add_one now diff item) ∷ on_submit now diff h

  value_per_second : ℕ → AnyCounter C → Option (F × AnyCounter C)
  value_per_second now (mean m) = do v ← Mean.value_per fl now (pos 1000000000) m; some (v, mean m)
  value_per_second now (other c) =
      let (v, c') = ops.value_per now 1000000000 c in some (v, other c')

  -- The outer `none` is a panic, the inner one a counter that is not there.
  unfoldable pub get_hashrate_avg_ghs_custom :
      ℕ → String → Hashrate C → Option (Option F × Hashrate C)
  unfolding value_per_second
  get_hashrate_avg_ghs_custom now id h = elim (lookup id h) [
    | none ↦ some (none, h)
    | some item ↦ do
      r ← value_per_second now item
      some (some (job_submitted_to_ghs fl r.0), insert id r.1 h)
  ]

  unfoldable pub get_hashrate_avg_ghs_all : ℕ → Hashrate C → Option (Assoc String F)
  unfolding value_per_second
  get_hashrate_avg_ghs_all now [] = some []
  get_hashrate_avg_ghs_all now ((k, item) ∷ h) = do
    r ← value_per_second now item
    rest ← get_hashrate_avg_ghs_all now h
    some ((k, job_submitted_to_ghs fl r.0) ∷ rest)

  unfoldable pub get_total_work : Hashrate C → Option F
  get_total_work h = do m ← the_mean h; some (Mean.value fl m)
