-- ===== src/Hashrate/Global/Workers.antt =====
-- The workers of global_hashrate.go do not mix.
use proxy_router.Prelude.{
  ℕ, ◌≡◌, refl, sym, ap, ◌∙◌, Bool, true, false, String, List, [], ◌∷◌, Option, some, if◌then◌else◌,
  string_eq, ◌=?◌, if_true, if_false,
}
use proxy_router.Prelude.Assoc.{lookup, lookup-insert}
use proxy_router.Floats.{Float64}
use proxy_router.Containers.Collection.{
  load, load_or_store, load_or_store-load, or_else, load_or_store-item,
}
use proxy_router.Hashrate.Counters.{Counter, Hashrate}
use proxy_router.Hashrate.Global.{
  WorkerHashrateModel, GlobalHashrate, new_worker_hashrate_model, model_id, with_worker,
  model_on_submit, on_submit,
}

module _ {C : Type 0} where
  -- The model of a worker, or a new one.
  abbrev pub or_new : Hashrate C → String → Option (WorkerHashrateModel C) → WorkerHashrateModel C
  or_new hr w o = or_else (model_id {C = C}) o (new_worker_hashrate_model w hr)

  load-with_worker :
      (hr : Hashrate C) (w j : String) (f : WorkerHashrateModel C → WorkerHashrateModel C)
      (t : GlobalHashrate C)
      → load (with_worker hr w f t) j
        ≡ (if w =? j then some (f (or_new hr w (load t w))) else load t j)
  unfolding with_worker load new_worker_hashrate_model
  load-with_worker hr w j f t =
      let item = new_worker_hashrate_model w hr in
      let r = load_or_store model_id t item in lookup-insert w j (f r.1) r.0 ∙ go (w =? j) refl
    where
      go :
          (b : Bool)
          → (w =? j) ≡ b
          → (if w =? j
              then some (f (load_or_store model_id t (new_worker_hashrate_model w hr)).1)
              else lookup j (load_or_store model_id t (new_worker_hashrate_model w hr)).0)
            ≡ (if w =? j then some (f (or_new hr w (load t w))) else load t j)
      go true e =
          if_true _ _ _ e
          ∙ ap (λ m. some (f m)) (load_or_store-item model_id t (new_worker_hashrate_model w hr))
          ∙ sym (if_true _ _ _ e)
      go false e =
          if_false _ _ _ e
          ∙ load_or_store-load model_id t (new_worker_hashrate_model w hr) j
          ∙ if_false _ _ _ e
          ∙ sym (if_false _ _ _ e)

-- A share that a worker submits: when, who, and its difficulty.
abbrev pub Share : Type 0 → Type 0
Share F = ℕ × String × F

module _ (fl : Float64) {C : Type 0} (ops : Counter fl.F C) (hr : Hashrate C) where
  open fl use {F}

  abbrev pub submit_all : List (Share F) → GlobalHashrate C → GlobalHashrate C
  submit_all [] t = t
  submit_all ((now, w, diff) ∷ shares) t = submit_all shares (on_submit fl ops hr now w diff t)

  -- What the shares of one worker alone make of its model.
  abbrev pub served :
      String → List (Share F) → Option (WorkerHashrateModel C) → Option (WorkerHashrateModel C)
  served j [] o = o
  served j ((now, w, diff) ∷ shares) o =
      served j shares (if w =? j then some (model_on_submit fl ops now diff (or_new hr j o)) else o)

  -- After shares of any workers in any order, the model of each worker is what its own shares, in
  -- their order, make of the model that it had, or of a new one.
  pub submit_all-served :
      (shares : List (Share F)) (t : GlobalHashrate C) (j : String)
      → load (submit_all shares t) j ≡ served j shares (load t j)
  unfolding on_submit
  submit_all-served [] t j = refl
  submit_all-served ((now, w, diff) ∷ shares) t j =
      submit_all-served shares (on_submit fl ops hr now w diff t) j
      ∙ ap (served j shares)
          (load-with_worker hr w j (model_on_submit fl ops now diff) t ∙ go (w =? j) refl)
    where
      go :
          (b : Bool)
          → (w =? j) ≡ b
          → (if w =? j
              then some (model_on_submit fl ops now diff (or_new hr w (load t w)))
              else load t j)
            ≡ (if w =? j
                then some (model_on_submit fl ops now diff (or_new hr j (load t j)))
                else load t j)
      go true e =
          let q : w ≡ j = (string_eq.beq_iff w j).0 e in
          if_true _ _ _ e
          ∙ ap (λ x. some (model_on_submit fl ops now diff (or_new hr x (load t x)))) q
          ∙ sym (if_true _ _ _ e)
      go false e = if_false _ _ _ e ∙ sym (if_false _ _ _ e)
