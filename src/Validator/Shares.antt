-- ===== src/Validator/Shares.antt =====
-- `SerializeShare` of mining_job.go: two shares with the same twenty bytes.
use proxy_router.Prelude.{
  ℕ, zero, suc, ◌-◌, ◌≤◌, ◌≡◌, refl, sym, ap, ◌∙◌, String, List, [], ◌∷◌, ◌++◌, some, arith,
  append_assoc, length, take, replicate, length-append, length-replicate,
}
use proxy_router.Prelude.Options.{some_inj}
use proxy_router.Stratum.Hex.{decode}
use proxy_router.Validator.{serialize_share, first_four}

module _ {A : Type 0} where
  take_all : (n : ℕ) (xs : List A) → length xs ≤ n → take n xs ≡ xs
  take_all zero [] h = refl
  take_all zero (x ∷ xs) h = absurd (omega (arith, h))
  take_all (suc n) [] h = refl
  take_all (suc n) (x ∷ xs) h = ap (◌∷◌ x) (take_all n xs (omega arith))

  append_inj :
      (xs ys us vs : List A) → length xs ≡ length ys → xs ++ us ≡ ys ++ vs → (xs ≡ ys) × (us ≡ vs)
  append_inj [] [] us vs l e = (refl, e)
  append_inj [] (y ∷ ys) us vs l e = absurd (omega (arith, l))
  append_inj (x ∷ xs) [] us vs l e = absurd (omega (arith, l))
  append_inj (x ∷ xs) (y ∷ ys) us vs l e =
      let ih = append_inj xs ys us vs (omega (arith, l)) (ground (arith, e)) in
      (ground (arith, e, ih.0), ih.1)

-- The fields decode to four bytes each, and the extranonce to `n`.
pub record Sized (n : ℕ) (enonce2 ntime nonce vmask : String) : Type 0 where
  pub enonce2_size : length (decode enonce2) ≡ n
  pub ntime_size : length (decode ntime) ≡ 4
  pub nonce_size : length (decode nonce) ≡ 4
  pub vmask_size : length (decode vmask) ≡ 4

first_four_whole : (xs : List ℕ) → length xs ≡ 4 → first_four xs ≡ some xs
unfolding first_four
first_four_whole xs h = ground (arith, h, take_all 4 xs (omega (arith, h)))

-- A share of a size is serialized to its fields' bytes.
serialize_share-Sized :
    (n : ℕ) (e t o v : String)
    → n ≤ 8
    → Sized n e t o v
    → serialize_share e t o v
      ≡ some (
          (decode e ++ replicate (8 - length (decode e)) 0) ++ (decode t ++ (decode o ++ decode v)))
unfolding serialize_share
serialize_share-Sized n e t o v h s = rw (
  first_four_whole (decode t) s.ntime_size,
  first_four_whole (decode o) s.nonce_size,
  first_four_whole (decode v) s.vmask_size,
  take_all 8 (decode e) (omega (arith, s.enonce2_size, h)),
  append_assoc (decode e ++ replicate (8 - length (decode e)) 0 ++ decode t) (decode o) (decode v),
  append_assoc (decode e ++ replicate (8 - length (decode e)) 0) (decode t) (decode o ++ decode v),
)

-- Two shares of one job with fields of the usual sizes (the extranonces of one size, up to eight
-- bytes) are serialized, and to the same bytes only if their fields decode to the same bytes.
pub serialize_share_injective :
    (n : ℕ) (e t o v e' t' o' v' : String)
    → n ≤ 8
    → Sized n e t o v
    → Sized n e' t' o' v'
    → serialize_share e t o v ≡ serialize_share e' t' o' v'
    → (decode e ≡ decode e')
      × (decode t ≡ decode t')
      × (decode o ≡ decode o')
      × (decode v ≡ decode v')
serialize_share_injective n e t o v e' t' o' v' h s s' q =
    let p =
      some_inj _ _ (
        sym (serialize_share-Sized n e t o v h s) ∙ q ∙ serialize_share-Sized n e' t' o' v' h s') in
    let z = length-replicate {A = ℕ} (8 - length (decode e)) 0 in
    let z' = length-replicate {A = ℕ} (8 - length (decode e')) 0 in
    let a =
      append_inj (decode e ++ replicate (8 - length (decode e)) 0)
        (decode e' ++ replicate (8 - length (decode e')) 0) (decode t ++ (decode o ++ decode v))
        (decode t' ++ (decode o' ++ decode v'))
        (omega (
          arith,
          length-append (decode e) (replicate (8 - length (decode e)) 0),
          length-append (decode e') (replicate (8 - length (decode e')) 0),
          z,
          z',
          s.enonce2_size,
          s'.enonce2_size,
        ))
        p in
    let b = append_inj (decode e) (decode e') _ _ (s.enonce2_size ∙ sym s'.enonce2_size) a.0 in
    let c = append_inj (decode t) (decode t') _ _ (s.ntime_size ∙ sym s'.ntime_size) a.1 in
    let d = append_inj (decode o) (decode o') _ _ (s.nonce_size ∙ sym s'.nonce_size) c.1 in
    (b.0, c.0, d.0, d.1)
