-- ===== src/Hashrate/Mean/Totals.antt =====
-- What the counter of mean.go holds after any number of submits.
use proxy_router.Prelude.{ℕ, ◌+◌, ◌%◌, ◌^◌, ◌<◌, ◌≡◌, refl, ap, ◌∙◌, List, [], ◌∷◌, arith, length}
use proxy_router.Floats.{Float64}
use proxy_router.Hashrate.Mean.{
  Mean, unix, new_mean, add, maybe_set_first_submit_time, set_last_submit_time,
}

module _ (fl : Float64) where
  open fl use {F, to_uint64}

  -- Submits, each at its time.
  abbrev pub add_all : List (ℕ × F) → Mean → Mean
  add_all [] h = h
  add_all ((now, diff) ∷ submits) h = add_all submits (add fl now diff h)

  abbrev pub work : List (ℕ × F) → ℕ
  work [] = 0
  work ((now, diff) ∷ submits) = to_uint64 diff + work submits

  -- Each comes a second or more after the epoch.
  abbrev pub Dated : List (ℕ × F) → Type 0
  Dated [] = Unit
  Dated ((now, _) ∷ submits) = (0 < unix now) × Dated submits

  abbrev pub last_time : ℕ → List (ℕ × F) → ℕ
  last_time t [] = t
  last_time t ((now, _) ∷ submits) = last_time (unix now) submits

  add_all_lem :
      (submits : List (ℕ × F)) (h : Mean)
      → Dated submits
      → 0 < h.first_submit_time
      → h.total_work < 2 ^ 64
      → h.total_shares < 2 ^ 32
      → ((add_all submits h).total_work ≡ (h.total_work + work submits) % 2 ^ 64)
        × ((add_all submits h).total_shares ≡ (h.total_shares + length submits) % 2 ^ 32)
        × ((add_all submits h).first_submit_time ≡ h.first_submit_time)
        × ((add_all submits h).last_submit_time ≡ last_time h.last_submit_time submits)
  unfolding add maybe_set_first_submit_time set_last_submit_time
  add_all_lem [] h d p w s = (omega arith, omega arith, refl, refl)
  add_all_lem ((now, diff) ∷ submits) h d p w s =
      let h' = add fl now diff h in
      let f : h'.first_submit_time ≡ h.first_submit_time = ground (arith, p) in
      let e : h'.total_work ≡ (h.total_work + to_uint64 diff) % 2 ^ 64 = ground arith in
      let g : h'.total_shares ≡ (h.total_shares + 1) % 2 ^ 32 = ground arith in
      let l : h'.last_submit_time ≡ unix now = ground arith in
      let ih =
        add_all_lem submits h' d.1 (omega (arith, f, p)) (omega (arith, e)) (omega (arith, g)) in
      (
        omega (arith, ih.0, e),
        omega (arith, ih.1, g),
        ih.2 ∙ f,
        ih.3 ∙ ap (λ t. last_time t submits) l,
      )

  -- After submits to a new counter, each a second or more past the epoch: it holds the sum of the
  -- work and the number of the shares, wrapped at their widths, and the times of the first and the
  -- last submit.
  pub add_all_totals :
      (now : ℕ) (diff : F) (submits : List (ℕ × F))
      → Dated ((now, diff) ∷ submits)
      → let h = add_all ((now, diff) ∷ submits) new_mean in
        (h.total_work ≡ work ((now, diff) ∷ submits) % 2 ^ 64)
        × (h.total_shares ≡ length ((now, diff) ∷ submits) % 2 ^ 32)
        × (h.first_submit_time ≡ unix now)
        × (h.last_submit_time ≡ last_time (unix now) submits)
  unfolding add maybe_set_first_submit_time set_last_submit_time new_mean
  add_all_totals now diff submits d =
      let h' = add fl now diff new_mean in
      let f : h'.first_submit_time ≡ unix now = ground arith in
      let e : h'.total_work ≡ to_uint64 diff % 2 ^ 64 = ground arith in
      let g : h'.total_shares ≡ 1 = ground arith in
      let l : h'.last_submit_time ≡ unix now = ground arith in
      let ih =
        add_all_lem submits h' d.1 (omega (arith, f, d.0)) (omega (arith, e)) (omega (arith, g)) in
      (
        omega (arith, ih.0, e),
        omega (arith, ih.1, g),
        ih.2 ∙ f,
        ih.3 ∙ ap (λ t. last_time t submits) l,
      )
