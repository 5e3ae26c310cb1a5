-- ===== src/Buyer/Loop/Ending.antt =====
-- When the loop of a buyer ends (`run` and `checkIncomingHashrate` of contract_buyer.go).
use proxy_router.Prelude.{
  ℕ, ◌≡◌, ◌≢◌, ◌⊎◌, inl, inr, refl, sym, subst, Bool, true, false, String, List, [], ◌∷◌, Option,
  none, some, if◌then◌else◌,
}
use proxy_router.Prelude.Options.{Returns, Returns-bind}
use proxy_router.Floats.{Float64}
use proxy_router.Terms.{end_time}
use proxy_router.Hashrate.Counters.{Counter}
use proxy_router.Hashrate.Global as Global
use proxy_router.Hashrate.Global.{GlobalHashrate}
use proxy_router.Buyer.{
  Buyer, BuyerError, contract_finished, is_past, is_reached, has_ended, is_contract_expired,
  is_validation_started, proceed_to_next_stage, is_receiving_acceptable_hashrate, note_starving,
  or_zero, verdict, check_incoming_hashrate,
}
use proxy_router.Buyer.Loop.{
  Round, End, woken, at_round, after_check, run_round, unless_ended, run_rounds,
}

module _ (fl : Float64) {C : Type 0} (ops : Counter fl.F C) where
  open fl use {F}

  -- The buyer with a hashrate read, and the time of the last share there.
  record Read (now : ℕ) (p : Buyer F) (r : Buyer F × GlobalHashrate C × Bool) : Type 0 where
    last_there : Returns (λ _. Unit {0}) (Global.get_last_submit_time p.id r.1)
    actual : F
    noted : r.0 ≡ note_starving fl actual (proceed_to_next_stage now p)

  receiving-Read :
      (now : ℕ) (g : GlobalHashrate C) (p : Buyer F)
      → Returns
          (λ s. Returns (λ _. Unit {0}) (Global.get_last_submit_time p.id s.1))
          (Global.get_hash_rate_ghs fl ops now p.id p.hashrate_counter_name g)
      → Returns
          (Read now p)
          (is_receiving_acceptable_hashrate fl ops now g (proceed_to_next_stage now p))
  unfolding is_receiving_acceptable_hashrate proceed_to_next_stage
  receiving-Read now g p k =
      Returns-bind (λ s. Returns (λ _. Unit {0}) (Global.get_last_submit_time p.id s.1))
        (Read now p) _ _ k (λ s l. record { last_there = l; actual = or_zero fl s.0; noted = refl })

module _ (fl : Float64) {C : Type 0} (ops : Counter fl.F C) (E : Type 0) where
  open fl use {F}

  -- The counters of the round can be read: the mean is among them.
  abbrev pub Readable : Round F C E → String → String → Type 0
  Readable r id counter =
      Returns (λ s. Returns (λ _. Unit {0}) (Global.get_last_submit_time id s.1))
        (Global.get_hash_rate_ghs fl ops r.checked_at id counter r.hashrates)

  -- What a check leaves of the buyer, and what it answers: nothing before the validation starts; that
  -- the contract is finished once its end has passed; else the verdict on a hashrate that was read
  -- and on the last share.
  record Checked (now : ℕ) (p q : Buyer F) (e : Option (BuyerError E)) : Type 0 where
    id_kept : q.id ≡ p.id
    counter_kept : q.hashrate_counter_name ≡ p.hashrate_counter_name
    start_kept : q.validator_start_time ≡ p.validator_start_time
    terms_kept : q.terms ≡ p.terms
    late :
        is_past (end_time p.terms) now ≡ true
        → is_validation_started now p ≡ true
        → e ≡ some contract_finished
    early : is_validation_started now p ≡ false → e ≡ none

  answered-Checked :
      (now : ℕ) (actual : F) (ok : Bool) (last : Option ℕ) (p q : Buyer F)
      → q ≡ note_starving fl actual (proceed_to_next_stage now p)
      → Checked now p q
          (if is_validation_started now p then verdict now q.validation_stage last ok q else none)
  unfolding note_starving proceed_to_next_stage is_contract_expired
  answered-Checked now actual ok last p q e = rw e (record {
    id_kept = refl;
    counter_kept = refl;
    start_kept = refl;
    terms_kept = refl;
    late = λ past started. rw (started, past) refl;
    early = λ not_started. rw not_started refl;
  })

  check-Checked :
      (now : ℕ) (g : GlobalHashrate C) (p : Buyer F)
      → Returns
          (λ s. Returns (λ _. Unit {0}) (Global.get_last_submit_time p.id s.1))
          (Global.get_hash_rate_ghs fl ops now p.id p.hashrate_counter_name g)
      → Returns (λ c. Checked now p c.0 c.2) (check_incoming_hashrate fl ops {E = E} now g p)
  unfolding check_incoming_hashrate
  check-Checked now g p k =
      Returns-bind (Read fl ops now p) (λ c. Checked now p c.0 c.2) _ _
        (receiving-Read fl ops now g p k)
        (λ r q.
          Returns-bind (λ _. Unit {0}) (λ c. Checked now p c.0 c.2) _ _ q.last_there
            (λ last _. answered-Checked now q.actual r.2 last p r.0 q.noted))

  -- The end of the contract is reached when the round comes to its wait.
  abbrev pub Reached : Round F C E → Type 0
  Reached r = is_reached (end_time r.terms_then) r.waits_at ≡ true

  abbrev pub SomeReached : List (Round F C E) → Type 0
  SomeReached [] = ⊥
  SomeReached (r ∷ rs) = Reached r ⊎ SomeReached rs

  abbrev pub AllReadable : String → String → List (Round F C E) → Type 0
  AllReadable id counter [] = Unit {0}
  AllReadable id counter (r ∷ rs) = Readable r id counter × AllReadable id counter rs

  -- A round leaves the identity of the buyer, and ends the loop if the end is reached.
  record RoundDone (r : Round F C E) (p q : Buyer F) (e : End E) : Type 0 where
    same_id : q.id ≡ p.id
    same_counter : q.hashrate_counter_name ≡ p.hashrate_counter_name
    ends_if : Reached r → e ≢ none

  after_check-Done :
      (r : Round F C E) (p q : Buyer F) (g : GlobalHashrate C) (e : Option (BuyerError E))
      → Checked r.checked_at (at_round fl ops r p) q e
      → RoundDone r p (after_check fl ops r (q, g, e)).0 (after_check fl ops r (q, g, e)).1
  unfolding has_ended
  after_check-Done r p q g (some e) k = record {
    same_id = k.id_kept;
    same_counter = k.counter_kept;
    ends_if = λ h z. (cc);
  }
  after_check-Done r p q g none k = record {
    same_id = k.id_kept;
    same_counter = k.counter_kept;
    ends_if = λ h.
        subst (λ b. (if b then some none else woken r.wake) ≢ none)
          (sym (subst (λ t. is_reached (end_time t) r.waits_at ≡ true) (sym k.terms_kept) h))
          (λ z. (cc));
  }

  run_round-Done :
      (r : Round F C E) (p : Buyer F)
      → Readable r p.id p.hashrate_counter_name
      → Returns (λ c. RoundDone r p c.0 c.1) (run_round fl ops r p)
  unfolding run_round
  run_round-Done r p k =
      Returns-bind (λ c. Checked r.checked_at (at_round fl ops r p) c.0 c.2)
        (λ c. RoundDone r p c.0 c.1) _ _
        (check-Checked r.checked_at r.hashrates (at_round fl ops r p) k)
        (λ c q. after_check-Done r p c.0 c.1 c.2 q)

  ended-lem :
      (c : Buyer F × End E) (r : Round F C E) (rs : List (Round F C E)) (p : Buyer F)
      → RoundDone r p c.0 c.1
      → AllReadable p.id p.hashrate_counter_name rs
      → Reached r ⊎ SomeReached rs
      → ((q : Buyer F)
          → AllReadable q.id q.hashrate_counter_name rs
          → SomeReached rs
          → Returns (λ d. d.1 ≢ none) (run_rounds fl ops rs q))
      → Returns (λ d. d.1 ≢ none) (unless_ended fl ops c (run_rounds fl ops rs c.0))
  ended-lem (q, some e) r rs p k a s ih = λ z. (cc)
  ended-lem (q, none) r rs p k a (inl h) ih = absurd (k.ends_if h refl)
  ended-lem (q, none) r rs p k a (inr h) ih =
      ih q
        (subst (λ i. AllReadable i q.hashrate_counter_name rs) (sym k.same_id)
          (subst (λ i. AllReadable p.id i rs) (sym k.same_counter) a))
        h

  -- The loop ends: if the counters of each round can be read, and in some round the end of the
  -- contract, by its terms at that time, has come when the round begins its wait, then the loop has
  -- ended in that round or before, with an error or without, whatever else woke it.
  pub run_rounds_end :
      (rs : List (Round F C E)) (p : Buyer F)
      → AllReadable p.id p.hashrate_counter_name rs
      → SomeReached rs
      → Returns (λ c. c.1 ≢ none) (run_rounds fl ops rs p)
  unfolding run_rounds
  run_rounds_end [] p a s = absurd s
  run_rounds_end (r ∷ rs) p a s =
      Returns-bind (λ c. RoundDone r p c.0 c.1) (λ c. c.1 ≢ none) _ _ (run_round-Done r p a.0)
        (λ c k. ended-lem c r rs p k a.1 s (run_rounds_end rs))

  late-after_check :
      (r : Round F C E) (p : Buyer F) (c : Buyer F × GlobalHashrate C × Option (BuyerError E))
      → c.2 ≡ some contract_finished
      → (after_check fl ops r c).1 ≡ some (some contract_finished)
  late-after_check r p (q, g, e) h = rw h refl

  late_unless :
      (c : Buyer F × End E) (rest : Option (Buyer F × End E))
      → c.1 ≡ some (some contract_finished)
      → Returns (λ d. d.1 ≡ some (some contract_finished)) (unless_ended fl ops c rest)
  late_unless (p, e) rest h = rw h refl

  -- A round that begins after the end ends the loop with an error.
  pub late_round :
      (r : Round F C E) (rs : List (Round F C E)) (p : Buyer F)
      → Readable r p.id p.hashrate_counter_name
      → is_past (end_time r.terms_then) r.checked_at ≡ true
      → is_validation_started r.checked_at (at_round fl ops r p) ≡ true
      → Returns (λ d. d.1 ≡ some (some contract_finished)) (run_rounds fl ops (r ∷ rs) p)
  unfolding run_rounds run_round
  late_round r rs p k past started =
      Returns-bind (λ c. c.1 ≡ some (some contract_finished)) _ _ _
        (Returns-bind (λ c. Checked r.checked_at (at_round fl ops r p) c.0 c.2)
          (λ c. c.1 ≡ some (some contract_finished)) _ _
          (check-Checked r.checked_at r.hashrates (at_round fl ops r p) k)
          (λ c q. late-after_check r p c (q.late past started)))
        (λ c h. late_unless c (run_rounds fl ops rs c.0) h)
