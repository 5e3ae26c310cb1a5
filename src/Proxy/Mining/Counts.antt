-- ===== src/Proxy/Mining/Counts.antt =====
-- The counters that handler_mining.go keeps, over any run of shares.
use proxy_router.Prelude.{
  ℕ, ◌+◌, ◌-◌, ◌%◌, ◌^◌, ◌≤◌, ◌<◌, ◌≡◌, ◌↔◌, ◌⊎◌, sym, true, false, String, List, [], ◌∷◌, Option,
  none, some, arith, if◌then◌else◌, length, length-append, subst, ◌++◌, ap, ◌∙◌, append-nil,
  append_assoc, string_eq,
}
use proxy_router.Validator.{ShareError}
use proxy_router.Proxy.Mining.{
  Exchange, Mining, Pending, pool_rejects, pool_accepts, decide, reject, accept, on_mining_submit,
  exchange,
}

-- A share, with what the validators say of it.
abbrev pub Share : Type 0
Share = Option ShareError × Option String

abbrev pub opt_cons : Option Pending → List Pending → List Pending
opt_cons none ps = ps
opt_cons (some p) ps = p ∷ ps

module _ {F : Type 0} (get_diff : String → F) where
  -- The shares one after the other, and the exchanges that they start.
  abbrev pub run : List Share → Mining F → Mining F × List Pending
  run [] p = (p, [])
  run ((err, previous) ∷ shares) p =
      let (p', o) = on_mining_submit get_diff err previous p in
      let (q, ps) = run shares p' in (q, opt_cons o ps)

  -- The difficulties of the shares that the validators accept.
  abbrev pub diff_of : String → Option ShareError → Option String → List F
  diff_of dest err previous =
      let (d, we_accepted) = decide dest err previous in if we_accepted then get_diff d ∷ [] else []

  abbrev pub accepted_diffs : String → List Share → List F
  accepted_diffs dest [] = []
  accepted_diffs dest ((err, previous) ∷ shares) =
      diff_of dest err previous ++ accepted_diffs dest shares

  -- The exchanges end, each in a way of its own.
  abbrev pub finish : (ℕ → Exchange) → List Pending → Mining F → Mining F
  finish how [] p = p
  finish how (x ∷ ps) p = finish how ps (exchange (how (length ps)) x p)

  record Effect (p q : Mining F) (o : Option Pending) (diffs : List F) : Type 0 where
    accepts :
        q.source_stats.we_accepted_shares
        ≡ (p.source_stats.we_accepted_shares + length diffs) % 2 ^ 64
    rejects :
        q.source_stats.we_rejected_shares
        ≡ (p.source_stats.we_rejected_shares + (length (opt_cons o []) - length diffs)) % 2 ^ 64
    at_most : length diffs ≤ length (opt_cons o [])
    at_most_one : length (opt_cons o []) ≤ 1
    submits : q.hashrate ≡ p.hashrate ++ diffs
    unanswered : q.unanswered_msg ≡ p.unanswered_msg + 1
    same_dest : q.dest ≡ p.dest

  -- The counters fit their 64 bits.
  pub record Fits (p : Mining F) : Type 0 where
    pub accepted_fits : p.source_stats.we_accepted_shares < 2 ^ 64
    pub rejected_fits : p.source_stats.we_rejected_shares < 2 ^ 64

  on_mining_submit-Effect :
      (err : Option ShareError) (previous : Option String) (p : Mining F)
      → Fits p
      → Effect p
          (on_mining_submit get_diff err previous p).0
          (on_mining_submit get_diff err previous p).1
          (diff_of p.dest err previous)
  unfolding on_mining_submit accept reject
  on_mining_submit-Effect err previous p f = ground (arith, append-nil p.hashrate)

  record Counted (p q : Mining F) (started shares : ℕ) (diffs : List F) : Type 0 where
    accepts :
        q.source_stats.we_accepted_shares
        ≡ (p.source_stats.we_accepted_shares + length diffs) % 2 ^ 64
    rejects :
        q.source_stats.we_rejected_shares
        ≡ (p.source_stats.we_rejected_shares + (started - length diffs)) % 2 ^ 64
    at_most : length diffs ≤ started
    started_most : started ≤ shares
    submits : q.hashrate ≡ p.hashrate ++ diffs
    unanswered : q.unanswered_msg ≡ p.unanswered_msg + shares

  length-opt_cons :
      (o : Option Pending) (ps : List Pending)
      → length (opt_cons o ps) ≡ length (opt_cons o []) + length ps
  length-opt_cons none ps = omega arith
  length-opt_cons (some x) ps = omega arith

  run-Counted :
      (shares : List Share) (p : Mining F)
      → Fits p
      → Counted p
          (run shares p).0
          (length (run shares p).1)
          (length shares)
          (accepted_diffs p.dest shares)
  run-Counted [] p f = record {
    accepts = omega (arith, f);
    rejects = omega (arith, f);
    at_most = omega arith;
    started_most = omega arith;
    submits = sym (append-nil p.hashrate);
    unanswered = omega arith;
  }
  run-Counted ((err, previous) ∷ shares) p f =
      let e = on_mining_submit-Effect err previous p f in
      let p' = (on_mining_submit get_diff err previous p).0 in
      let o = (on_mining_submit get_diff err previous p).1 in
      let diffs : List F = diff_of p.dest err previous in
      let f' : Fits p' = record {
        accepted_fits = omega (arith, e.accepts);
        rejected_fits = omega (arith, e.rejects);
      } in
      let ih =
        subst
          (λ d.
            Counted p' (run shares p').0 (length (run shares p').1) (length shares)
              (accepted_diffs d shares))
          e.same_dest (run-Counted shares p' f') in
      let l = length-opt_cons o (run shares p').1 in
      let a = length-append diffs (accepted_diffs p.dest shares) in
      record {
        accepts = omega (arith, e.accepts, ih.accepts, a);
        rejects = omega (arith, e.rejects, e.at_most, ih.rejects, ih.at_most, l, a);
        at_most = omega (arith, e.at_most, ih.at_most, l, a);
        started_most = omega (arith, e.at_most_one, ih.started_most, l);
        submits =
            ih.submits
            ∙ ap (λ h. h ++ accepted_diffs p.dest shares) e.submits
            ∙ append_assoc p.hashrate diffs (accepted_diffs p.dest shares);
        unanswered = omega (arith, e.unanswered, ih.unanswered);
      }

  record Ended (p q : Mining F) (n : ℕ) : Type 0 where
    accepted_kept : q.source_stats.we_accepted_shares ≡ p.source_stats.we_accepted_shares
    rejected_kept : q.source_stats.we_rejected_shares ≡ p.source_stats.we_rejected_shares
    hashrate_kept : q.hashrate ≡ p.hashrate
    answered : q.unanswered_msg ≡ p.unanswered_msg - n

  exchange-Ended : (how : Exchange) (x : Pending) (p : Mining F) → Ended p (exchange how x p) 1
  unfolding exchange
  exchange-Ended how x p = ground arith

  finish-Ended :
      (how : ℕ → Exchange) (ps : List Pending) (p : Mining F)
      → Ended p (finish how ps p) (length ps)
  finish-Ended how [] p = ground arith
  finish-Ended how (x ∷ ps) p =
      let e = exchange-Ended (how (length ps)) x p in
      let ih = finish-Ended how ps (exchange (how (length ps)) x p) in
      record {
        accepted_kept = ih.accepted_kept ∙ e.accepted_kept;
        rejected_kept = ih.rejected_kept ∙ e.rejected_kept;
        hashrate_kept = ih.hashrate_kept ∙ e.hashrate_kept;
        answered = omega (arith, ih.answered, e.answered);
      }

  -- From a state whose counters fit 64 bits, shares are submitted, and then the exchanges that they
  -- start end, each in any way. The miner's accepted counter has gone up by the shares that the
  -- validators accept, and its rejected counter by the other exchanges (both wrapped at 64 bits); the
  -- hashrate has got exactly the difficulties of the accepted shares, in their order; and the shares
  -- that started no exchange are still counted as unanswered.
  pub run_counts :
      (shares : List Share) (how : ℕ → Exchange) (p : Mining F)
      → Fits p
      → let (q, ps) = run shares p in
        let r = finish how ps q in
        let diffs = accepted_diffs p.dest shares in
        (r.source_stats.we_accepted_shares
          ≡ (p.source_stats.we_accepted_shares + length diffs) % 2 ^ 64)
        × (r.source_stats.we_rejected_shares
            ≡ (p.source_stats.we_rejected_shares + (length ps - length diffs)) % 2 ^ 64)
        × (length diffs ≤ length ps)
        × (length ps ≤ length shares)
        × (r.hashrate ≡ p.hashrate ++ diffs)
        × (r.unanswered_msg ≡ p.unanswered_msg + (length shares - length ps))
  run_counts shares how p f =
      let c = run-Counted shares p f in
      let e = finish-Ended how (run shares p).1 (run shares p).0 in
      (
        e.accepted_kept ∙ c.accepts,
        e.rejected_kept ∙ c.rejects,
        c.at_most,
        c.started_most,
        e.hashrate_kept ∙ c.submits,
        omega (arith, e.answered, c.unanswered, c.started_most),
      )

  -- Neither the current validator nor an earlier destination accepts any of the shares.
  abbrev pub AllRejected : String → List Share → Type 0
  AllRejected dest [] = Unit
  AllRejected dest ((err, previous) ∷ shares) =
      ((decide dest err previous).1 ≡ false) × AllRejected dest shares

  record Rejected (p q : Mining F) : Type 0 where
    same_dest : q.dest ≡ p.dest
    counted : q.consequent_invalid_share_count ≡ (p.consequent_invalid_share_count + 1) % 2 ^ 32
    cancelled :
        (q.run_cancelled ≡ true)
        ↔ ((p.run_cancelled ≡ true) ⊎ (100 < (p.consequent_invalid_share_count + 1) % 2 ^ 32))

  on_mining_submit-Rejected :
      (err : Option ShareError) (previous : Option String) (p : Mining F)
      → (decide p.dest err previous).1 ≡ false
      → Rejected p (on_mining_submit get_diff err previous p).0
  unfolding on_mining_submit reject
  on_mining_submit-Rejected err previous p h = ground (arith, h)

  streak :
      (shares : List Share) (p : Mining F)
      → AllRejected p.dest shares
      → p.consequent_invalid_share_count + length shares < 2 ^ 32
      → ((run shares p).0.run_cancelled ≡ true) ↔ (
          (p.run_cancelled ≡ true)
          ⊎ ((0 < length shares) × (100 < p.consequent_invalid_share_count + length shares)))
  streak [] p a b = ground arith
  streak ((err, previous) ∷ shares) p a b =
      let r = on_mining_submit-Rejected err previous p a.0 in
      let p' = (on_mining_submit get_diff err previous p).0 in
      let ih =
        streak shares p' (subst (λ d. AllRejected d shares) (sym r.same_dest) a.1)
          (omega (arith, r.counted, b)) in
      ground (arith, ih, r.counted, r.cancelled, b)

  -- From a count of no invalid shares, a run of rejected shares cancels the proxy's run exactly if
  -- there are more than 100 of them (and fewer than 2^32).
  pub run_cancels :
      (shares : List Share) (p : Mining F)
      → AllRejected p.dest shares
      → p.consequent_invalid_share_count ≡ 0
      → p.run_cancelled ≡ false
      → length shares < 2 ^ 32
      → ((run shares p).0.run_cancelled ≡ true) ↔ (100 < length shares)
  run_cancels shares p a c r b =
      let s = streak shares p a (omega (arith, b, c)) in ground (arith, s, c, r)

module _ {F : Type 0} where
  -- A pool that rejects a share that was accepted here leaves its stats as a pool that accepts it.
  pub exchange_same_stats :
      (pending : Pending) (p : Mining F)
      → pending.we_accepted ≡ true
      → (exchange pool_rejects pending p).dest_stats ≡ (exchange pool_accepts pending p).dest_stats
  unfolding exchange
  exchange_same_stats pending p h = ground (arith, h)
