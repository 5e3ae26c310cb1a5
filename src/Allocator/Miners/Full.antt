-- ===== src/Allocator/Miners/Full.antt =====
-- `AllocateFullMinersForHR` of allocator.go, and what it hands out.
use proxy_router.Prelude.{
  ◌≡◌, refl, Bool, true, false, ◌&&◌, ◌⊎◌, Bool-cases, String, List, [], ◌∷◌, ◌++◌, Option, none,
  some, inl, inr, arith, if◌then◌else◌, Among, append-nil, append_assoc, string_eq, Option-cases,
  ◌∙◌, sym, subst,
}
use proxy_router.Prelude.Int.{ℤ, pos, ◌+ℤ◌}
use proxy_router.Prelude.Assoc.{lookup, insert, lookup-insert}
use proxy_router.Floats.{Float64}
use proxy_router.Hashrate.Units.{ghs_to_job_submitted_v2}
use proxy_router.Allocator.Scheduler.{Scheduler, add_task}
use proxy_router.Allocator.Miners.{MinerItem, Proxies, Sort, get_miners_snapshot, load_connected}

-- The variables of the loop.
pub record Allocation (F : Type 0) : Type 0 where
  pub proxies : Proxies F
  pub miner_ids : List String
  pub hr_ghs : F

module _ (fl : Float64) where
  open fl use {F, of_int, sub, lt, le}

  abbrev pub fits : MinerItem F → F → Bool
  fits miner hr = le miner.hr_ghs hr && lt (of_int (pos 0)) miner.hr_ghs

module _ (fl : Float64) (id : String) (dest : Option String) (duration now : ℤ) where
  open fl use {F, of_int, sub, lt, le}

  -- The task that a miner of this hashrate gets.
  unfoldable pub give_full : MinerItem F → Scheduler F → Scheduler F
  give_full miner m =
      add_task fl m id dest (ghs_to_job_submitted_v2 fl miner.hr_ghs duration) (now +ℤ duration)

  -- The guards of the loop: the scheduler that gets a task, if any does.
  unfoldable pub chosen : MinerItem F → Allocation F → Option (Scheduler F)
  chosen miner s = if fits fl miner s.hr_ghs then load_connected fl s.proxies miner.id else none

  abbrev pub took : MinerItem F → Scheduler F → Allocation F → Allocation F
  took miner m s = record {
    proxies = insert miner.id (give_full miner m) s.proxies;
    miner_ids = s.miner_ids ++ miner.id ∷ [];
    hr_ghs = sub s.hr_ghs miner.hr_ghs;
  }

  unfoldable pub full_round : MinerItem F → Allocation F → Allocation F
  unfolding chosen give_full
  full_round miner s = elim (chosen miner s) [ none ↦ s | some m ↦ took miner m s ]

  unfoldable pub full_loop : List (MinerItem F) → Allocation F → Allocation F
  full_loop [] s = s
  full_loop (miner ∷ miners) s = full_loop miners (full_round miner s)

  unfoldable pub allocate_full_miners_for_hr : Sort (MinerItem F) → Proxies F → F → Allocation F
  unfolding full_loop full_round
  allocate_full_miners_for_hr sort proxies hr =
      full_loop (get_miners_snapshot fl sort proxies (pos 0)).free_miners
        (record { proxies = proxies; miner_ids = []; hr_ghs = hr })

  -- What is to come of miners in their order, when `hr` is wanted: a miner with a hashrate above nothing
  -- and within what is still wanted, which is connected, gets a task for what its hashrate does in the
  -- cycle, behind those that it has; it is reported, and its hashrate is taken off. Every other miner is
  -- passed over.
  pub data TakesOff
      : F → Proxies F → List (MinerItem F) → List String → F → Proxies F → Type 0 where
    nobody : {hr : F} {ps : Proxies F} → TakesOff hr ps [] [] hr ps
    passes :
        {hr rest : F} {ps qs : Proxies F} {m : MinerItem F} {ms : List (MinerItem F)}
        {reported : List String}
        → (fits fl m hr ≡ false) ⊎ (load_connected fl ps m.id ≡ none)
        → TakesOff hr ps ms reported rest qs
        → TakesOff hr ps (m ∷ ms) reported rest qs
    gets :
        {hr rest : F} {ps qs : Proxies F} {m : MinerItem F} {ms : List (MinerItem F)}
        {reported : List String} (s : Scheduler F)
        → fits fl m hr ≡ true
        → load_connected fl ps m.id ≡ some s
        → TakesOff
            (sub hr m.hr_ghs)
            (insert m.id
              (add_task fl s id dest
                (ghs_to_job_submitted_v2 fl m.hr_ghs duration)
                (now +ℤ duration))
              ps)
            ms
            reported
            rest
            qs
        → TakesOff hr ps (m ∷ ms) (m.id ∷ reported) rest qs

  chosen-none :
      (miner : MinerItem F) (s : Allocation F)
      → chosen miner s ≡ none
      → (fits fl miner s.hr_ghs ≡ false) ⊎ (load_connected fl s.proxies miner.id ≡ none)
  unfolding chosen
  chosen-none miner s e = elim (Bool-cases (fits fl miner s.hr_ghs)) [
    | inl f ↦ inr (rw f at e)
    | inr f ↦ inl f
  ]

  chosen-some :
      (miner : MinerItem F) (s : Allocation F) (m : Scheduler F)
      → chosen miner s ≡ some m
      → (fits fl miner s.hr_ghs ≡ true) × (load_connected fl s.proxies miner.id ≡ some m)
  unfolding chosen
  chosen-some miner s m e = elim (Bool-cases (fits fl miner s.hr_ghs)) [
    | inl f ↦ (f, rw f at e)
    | inr f ↦ absurd (ground (arith, rw f at e))
  ]

  full_round_skip :
      (miner : MinerItem F) (s : Allocation F) → chosen miner s ≡ none → full_round miner s ≡ s
  unfolding full_round
  full_round_skip miner s e = rw (e, full_round)

  full_round-took :
      (miner : MinerItem F) (s : Allocation F) (m : Scheduler F)
      → chosen miner s ≡ some m
      → full_round miner s ≡ took miner m s
  unfolding full_round
  full_round-took miner s m e = rw (e, full_round)

  -- From the variables `s` of the loop, with the IDs that it adds.
  abbrev Adds : List (MinerItem F) → Allocation F → Allocation F → Type 0
  Adds miners s r =
      (reported : List String) × (r.miner_ids ≡ s.miner_ids ++ reported)
      × TakesOff s.hr_ghs s.proxies miners reported r.hr_ghs r.proxies

  full_loop-Adds :
      (miners : List (MinerItem F)) (s : Allocation F) → Adds miners s (full_loop miners s)
  unfolding full_loop give_full
  full_loop-Adds [] s = ([], sym (append-nil s.miner_ids), nobody)
  full_loop-Adds (miner ∷ miners) s = elim (Option-cases (chosen miner s)) [
    | inl e ↦
        let (reported, q, t) = full_loop-Adds miners s in
        subst (λ r. Adds (miner ∷ miners) s (full_loop miners r)) (sym (full_round_skip miner s e))
          (reported, q, passes (chosen-none miner s e) t)
    | inr (m, e) ↦
        let (reported, q, t) = full_loop-Adds miners (took miner m s) in
        let c = chosen-some miner s m e in
        subst (λ r. Adds (miner ∷ miners) s (full_loop miners r))
          (sym (full_round-took miner s m e))
          (
            miner.id ∷ reported,
            q ∙ append_assoc s.miner_ids (miner.id ∷ []) reported,
            gets m c.0 c.1 t,
          )
  ]

  -- Every miner that is not reported keeps its scheduler as it was.
  TakesOff-others :
      {hr rest : F} {ps qs : Proxies F} {ms : List (MinerItem F)} {reported : List String}
      (j : String)
      → TakesOff hr ps ms reported rest qs
      → ¬ Among j reported
      → lookup j qs ≡ lookup j ps
  TakesOff-others j nobody h = refl
  TakesOff-others j (passes c t) h = TakesOff-others j t h
  TakesOff-others j (gets {ps = ps} {m = m} s f l t) h =
      TakesOff-others j t (λ a. h (inr a))
      ∙ lookup-insert m.id j _ ps
      ∙ ground (arith, string_eq.beq_iff m.id j, h)

  -- The call goes over the free miners of the snapshot, in their order. Each one that is connected, and
  -- whose hashrate is above nothing and within what is still wanted at its turn, gets a task behind its
  -- others for what its hashrate does in the cycle, until the end of the cycle; its ID is reported and
  -- its hashrate taken off what is wanted. The others are passed over. What is left is the result, and
  -- nothing else about the schedulers changes.
  pub allocate_full-TakesOff :
      (sort : Sort (MinerItem F)) (proxies : Proxies F) (hr : F)
      → let r = allocate_full_miners_for_hr sort proxies hr in
        TakesOff hr proxies
          (get_miners_snapshot fl sort proxies (pos 0)).free_miners
          r.miner_ids
          r.hr_ghs
          r.proxies
  unfolding allocate_full_miners_for_hr
  allocate_full-TakesOff sort proxies hr =
      let miners = (get_miners_snapshot fl sort proxies (pos 0)).free_miners in
      let s : Allocation F = record { proxies = proxies; miner_ids = []; hr_ghs = hr } in
      let (reported, q, t) = full_loop-Adds miners s in
      subst
        (λ ids.
          TakesOff hr proxies miners ids (full_loop miners s).hr_ghs (full_loop miners s).proxies)
        (sym q) t

  -- The scheduler of a miner that is not reported stays as it was.
  pub allocate_full_others :
      (sort : Sort (MinerItem F)) (proxies : Proxies F) (hr : F) (j : String)
      → ¬ Among j (allocate_full_miners_for_hr sort proxies hr).miner_ids
      → lookup j (allocate_full_miners_for_hr sort proxies hr).proxies ≡ lookup j proxies
  allocate_full_others sort proxies hr j h =
      TakesOff-others j (allocate_full-TakesOff sort proxies hr) h
