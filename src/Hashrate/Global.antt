-- ===== src/Hashrate/Global.antt =====
-- internal/resources/hashrate/hashrate/global_hashrate.go: a hashrate for each worker's name. A
-- worker's model is a pointer that the collection alone holds, so a change of it is written back.
-- `hr_factory` makes a new hashrate.
pub mod Workers
use proxy_router.Prelude.{
  ℕ, ◌+◌, ◌%◌, ◌^◌, Bool, true, false, not, String, List, [], ◌∷◌, Option, none, some,
  if◌then◌else◌, string_eq, ◌=?◌,
}
use proxy_router.Prelude.Options.{◌>>=◌}
use proxy_router.Prelude.Assoc.{Assoc, insert}
use proxy_router.Floats.{Float64}
use proxy_router.Containers.Collection as Collection
use proxy_router.Hashrate.Counters as Counters
use proxy_router.Hashrate.Counters.{Counter, Hashrate}

pub record WorkerHashrateModel (C : Type 0) : Type 0 where
  pub id : String
  pub hr : Hashrate C
  pub reconnects : ℕ

abbrev pub GlobalHashrate : Type 0 → Type 0
GlobalHashrate C = Assoc String (WorkerHashrateModel C)

module _ {C : Type 0} where
  unfoldable pub new_worker_hashrate_model : String → Hashrate C → WorkerHashrateModel C
  new_worker_hashrate_model id hr = record { id = id; hr = hr; reconnects = 0 }

  unfoldable pub model_on_connect : WorkerHashrateModel C → WorkerHashrateModel C
  model_on_connect m = record m { reconnects = (m.reconnects + 1) % 2 ^ 32 }

  abbrev model_id : WorkerHashrateModel C → String
  model_id m = m.id

  unfoldable pub initialize : Hashrate C → String → GlobalHashrate C → GlobalHashrate C
  initialize hr_factory worker_name t =
      (Collection.load_or_store model_id t (new_worker_hashrate_model worker_name hr_factory)).0

  -- `LoadOrStore`, and then a change of the model that it gives.
  unfoldable pub with_worker :
      Hashrate C
      → String
      → (WorkerHashrateModel C → WorkerHashrateModel C)
      → GlobalHashrate C
      → GlobalHashrate C
  with_worker hr_factory worker_name f t =
      let (t', actual, _) =
        Collection.load_or_store model_id t (new_worker_hashrate_model worker_name hr_factory) in
      insert worker_name (f actual) t'

  unfoldable pub on_connect : Hashrate C → String → GlobalHashrate C → GlobalHashrate C
  unfolding with_worker model_on_connect
  on_connect hr_factory worker_name t = with_worker hr_factory worker_name model_on_connect t

  unfoldable pub get_last_submit_time : String → GlobalHashrate C → Option (Option ℕ)
  get_last_submit_time worker_name t = elim (Collection.load t worker_name) [
    | none ↦ some none
    | some m ↦ Counters.get_last_submit_time m.hr
  ]

  unfoldable pub reset : String → GlobalHashrate C → GlobalHashrate C
  reset worker_name t = Collection.delete_item t worker_name

  -- The visitor of `GetWorker` stops at the first model with the name.
  unfoldable pub get_worker : String → GlobalHashrate C → Option (WorkerHashrateModel C)
  get_worker worker_name t =
      Collection.range
        (λ item found. if item.id =? worker_name then (some item, false) else (found, true)) t none

module _ (fl : Float64) {C : Type 0} (ops : Counter fl.F C) where
  open fl use {F}

  unfoldable pub model_on_submit : ℕ → F → WorkerHashrateModel C → WorkerHashrateModel C
  model_on_submit now diff m = record m { hr = Counters.on_submit fl ops now diff m.hr }

  unfoldable pub on_submit : Hashrate C → ℕ → String → F → GlobalHashrate C → GlobalHashrate C
  unfolding with_worker model_on_submit
  on_submit hr_factory now worker_name diff t =
      with_worker hr_factory worker_name (model_on_submit now diff) t

  -- The outer `none` is a panic, the inner one a worker that is not there.
  unfoldable pub get_total_work : String → GlobalHashrate C → Option (Option F)
  get_total_work worker_name t = elim (Collection.load t worker_name) [
    | none ↦ some none
    | some m ↦ do w ← Counters.get_total_work fl ops m.hr; some (some w)
  ]

  -- A counter that is there may drop what is too old. The inner `none` is a worker or a counter that
  -- is not there.
  ghs_of :
      Option (WorkerHashrateModel C)
      → ℕ
      → String
      → String
      → GlobalHashrate C
      → Option (Option F × GlobalHashrate C)
  ghs_of none now worker_name counter_id t = some (none, t)
  ghs_of (some m) now worker_name counter_id t = do
    r ← Counters.get_hashrate_avg_ghs_custom fl ops now counter_id m.hr
    some (r.0, insert worker_name (record m { hr = r.1 }) t)

  unfoldable pub get_hash_rate_ghs :
      ℕ → String → String → GlobalHashrate C → Option (Option F × GlobalHashrate C)
  unfolding ghs_of
  get_hash_rate_ghs now worker_name counter_id t =
      ghs_of (Collection.load t worker_name) now worker_name counter_id t
