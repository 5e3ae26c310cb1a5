-- ===== src/Proxy/Jobs/Search.antt =====
-- Which connection takes a share (GetDestByJobIDAndValidate of proxy.go).
use proxy_router.Prelude.{
  ℕ, ◌≡◌, refl, sym, ◌∙◌, ap, subst, true, false, String, List, [], ◌∷◌, Option, none, some, ◌⊎◌,
  inl, inr, arith, ==_iff, Bool-cases, Option-cases,
}
use proxy_router.Prelude.Options.{Returns, Returns-bind, Returns-map}
use proxy_router.Prelude.Assoc.{Assoc}
use proxy_router.Floats.{Float64}
use proxy_router.Stratum.{MiningSubmit, get_job_id}
use proxy_router.Validator.{Validator, ShareError, has_job, validate_and_add_share}
use proxy_router.Proxy.Dest.{ConnDest}
use proxy_router.Proxy.Change.{Proxy}
use proxy_router.Proxy.Jobs.{
  with_validator, Answer, unless_taken, search_dests, get_dest_by_job_id_and_validate,
}

-- A connection is in the map, or not.
abbrev pub Held : ℕ → Assoc String ℕ → Type 0
Held e [] = ⊥
Held e ((_, d) ∷ m) = (e ≡ d) ⊎ Held e m

-- No connection is in the map twice.
abbrev pub Distinct : Assoc String ℕ → Type 0
Distinct [] = Unit {0}
Distinct ((_, d) ∷ m) = ¬ (Held d m) × Distinct m

Held-apart : (d e : ℕ) (m : Assoc String ℕ) → ¬ (Held d m) → Held e m → ¬ (e ≡ d)
Held-apart d e m n h q = n (subst (λ x. Held x m) q h)

module _ (fl : Float64) (sha256 : List ℕ → List ℕ) {H : Type 0} (now : ℕ) (msg : MiningSubmit)
    (id : String) where
  open fl use {F}

  abbrev pub Total : (ℕ → ConnDest F H) → Assoc String ℕ → Type 0
  Total conns m =
      (d : ℕ)
      → Held d m
      → Returns (λ _. Unit {0}) (validate_and_add_share fl sha256 now msg (conns d).validator)

  -- What the search of the connections `conns` did on the map, with the connections `after` it and its
  -- answer `o`: it went past a connection that lacks the job, which stays as it was; past one that
  -- refuses the share, which keeps the validator that refused it; to the one that takes the share,
  -- which keeps its validator with the share and is the answer, and those behind it stay as they were;
  -- or past all of them, with no answer.
  pub data Right (conns after : ℕ → ConnDest F H) (o : Option (ℕ × ℕ))
      : Assoc String ℕ → Type 0 where
    not_found : o ≡ none → Right conns after o []
    lacks :
        (k : String) (d : ℕ) (m : Assoc String ℕ)
        → has_job (conns d).validator id ≡ false
        → after d ≡ conns d
        → Right conns after o m
        → Right conns after o ((k, d) ∷ m)
    refuses :
        (k : String) (d : ℕ) (m : Assoc String ℕ) (v : Validator F) (diff : ℕ) (e : ShareError)
        → has_job (conns d).validator id ≡ true
        → validate_and_add_share fl sha256 now msg (conns d).validator
          ≡ some (v, record { diff = diff; error = some e })
        → after d ≡ record (conns d) { validator = v }
        → Right conns after o m
        → Right conns after o ((k, d) ∷ m)
    takes :
        (k : String) (d : ℕ) (m : Assoc String ℕ) (v : Validator F) (diff : ℕ)
        → has_job (conns d).validator id ≡ true
        → validate_and_add_share fl sha256 now msg (conns d).validator
          ≡ some (v, record { diff = diff; error = none })
        → after d ≡ record (conns d) { validator = v }
        → o ≡ some (d, diff)
        → ((e : ℕ) → Held e m → after e ≡ conns e)
        → Right conns after o ((k, d) ∷ m)

  pub record Searched (conns : ℕ → ConnDest F H) (m : Assoc String ℕ) (r : Answer F H)
      : Type 0 where
    pub is_right : Right conns r.0 r.1 m
    pub others_kept : (e : ℕ) → ¬ (Held e m) → r.0 e ≡ conns e

  abbrev with_share : Validator F → ConnDest F H → ConnDest F H
  with_share v c = record c { validator = v }

  -- It is the same for other connections that agree on the map.
  Right-agree :
      (conns conns' after : ℕ → ConnDest F H) (o : Option (ℕ × ℕ)) {m : Assoc String ℕ}
      → ((e : ℕ) → Held e m → conns' e ≡ conns e)
      → Right conns' after o m
      → Right conns after o m
  Right-agree conns conns' after o a (not_found n) = not_found n
  Right-agree conns conns' after o a (lacks k d m h s r) =
      let q = a d (inl refl) in
      lacks k d m (subst (λ c. has_job c.validator id ≡ false) q h) (s ∙ q)
        (Right-agree conns conns' after o (λ e g. a e (inr g)) r)
  Right-agree conns conns' after o a (refuses k d m v diff x h y s r) =
      let q = a d (inl refl) in
      refuses k d m v diff x (subst (λ c. has_job c.validator id ≡ true) q h)
        (sym (ap (λ c. validate_and_add_share fl sha256 now msg c.validator) q) ∙ y)
        (s ∙ ap (with_share v) q) (Right-agree conns conns' after o (λ e g. a e (inr g)) r)
  Right-agree conns conns' after o a (takes k d m v diff h y s n b) =
      let q = a d (inl refl) in
      takes k d m v diff (subst (λ c. has_job c.validator id ≡ true) q h)
        (sym (ap (λ c. validate_and_add_share fl sha256 now msg c.validator) q) ∙ y)
        (s ∙ ap (with_share v) q) n (λ e g. b e g ∙ a e (inr g))

  apart :
      (d e : ℕ) (v : Validator F) (conns : ℕ → ConnDest F H)
      → ¬ (e ≡ d)
      → with_validator d v conns e ≡ conns e
  apart d e v conns n = ground (arith, ==_iff e d, n)

  at_itself :
      (d : ℕ) (v : Validator F) (conns : ℕ → ConnDest F H)
      → with_validator d v conns d ≡ record (conns d) { validator = v }
  at_itself d v conns = ground (arith, ==_iff d d)

  -- What stands behind a connection in the map is not changed with it.
  apart_kept :
      (d : ℕ) (m : Assoc String ℕ) (v : Validator F) (conns : ℕ → ConnDest F H)
      → ¬ (Held d m)
      → (e : ℕ) → Held e m
      → with_validator d v conns e ≡ conns e
  apart_kept d m v conns n e h = apart d e v conns (Held-apart d e m n h)

  refused :
      (k : String) (d : ℕ) (m : Assoc String ℕ) (v : Validator F) (diff : ℕ) (x : ShareError)
      (conns : ℕ → ConnDest F H) (r : Answer F H)
      → ¬ (Held d m)
      → has_job (conns d).validator id ≡ true
      → validate_and_add_share fl sha256 now msg (conns d).validator
        ≡ some (v, record { diff = diff; error = some x })
      → Searched (with_validator d v conns) m r
      → Searched conns ((k, d) ∷ m) r
  refused k d m v diff x conns r n h y s = record {
    is_right = refuses k d m v diff x h y (s.others_kept d n ∙ at_itself d v conns) (
        Right-agree conns (with_validator d v conns) r.0 r.1 (apart_kept d m v conns n) s.is_right);
    others_kept = λ e h. s.others_kept e (λ q. h (inr q)) ∙ apart d e v conns (λ q. h (inl q));
  }

  checked :
      (k : String) (d : ℕ) (m : Assoc String ℕ) (conns : ℕ → ConnDest F H) (v : Validator F)
      (diff : ℕ) (o : Option ShareError) (rest : Option (Answer F H))
      → ¬ (Held d m)
      → has_job (conns d).validator id ≡ true
      → validate_and_add_share fl sha256 now msg (conns d).validator
        ≡ some (v, record { diff = diff; error = o })
      → Returns (Searched (with_validator d v conns) m) rest
      → Returns
          (Searched conns ((k, d) ∷ m))
          (unless_taken d diff o (with_validator d v conns) rest)
  checked k d m conns v diff none rest n h e s = record {
    is_right = takes k d m v diff h e (at_itself d v conns) refl (apart_kept d m v conns n);
    others_kept = λ i h. apart d i v conns (λ q. h (inl q));
  }
  checked k d m conns v diff (some x) rest n h e s =
      Returns-map (Searched (with_validator d v conns) m) _ rest s
        (λ r q. refused k d m v diff x conns r n h e q)

  Total-kept :
      (k : String) (d : ℕ) (m : Assoc String ℕ) (v : Validator F) (conns : ℕ → ConnDest F H)
      → ¬ (Held d m)
      → Total conns ((k, d) ∷ m)
      → Total (with_validator d v conns) m
  Total-kept k d m v conns n t e h =
      subst (λ c. Returns (λ _. Unit {0}) (validate_and_add_share fl sha256 now msg c.validator))
        (sym (apart_kept d m v conns n e h)) (t e (inr h))

  search-Searched :
      (m : Assoc String ℕ) (conns : ℕ → ConnDest F H)
      → get_job_id msg ≡ some id
      → Distinct m
      → Total conns m
      → Returns (Searched conns m) (search_dests fl sha256 now msg conns m)
  unfolding search_dests
  search-Searched [] conns e n t = record { is_right = not_found refl; others_kept = λ d h. refl }
  search-Searched ((k, d) ∷ m) conns e n t = elim (Bool-cases (has_job (conns d).validator id)) [
    | inl there ↦
        elim (Option-cases (validate_and_add_share fl sha256 now msg (conns d).validator)) [
          | inl panics ↦ absurd (rw panics at (t d (inl refl)))
          | inr (r, done) ↦
              rw (e, there, done)
                (checked k d m conns r.0 r.1.diff r.1.error _ n.0 there done (
                  search-Searched m (with_validator d r.0 conns) e n.1
                    (Total-kept k d m r.0 conns n.0 t)))
        ]
    | inr missing ↦
        rw (e, missing)
          (Returns-map (Searched conns m) _ _ (search-Searched m conns e n.1 (λ i h. t i (inr h)))
            (λ r q. record {
              is_right = lacks k d m missing (q.others_kept d n.0) q.is_right;
              others_kept = λ i h. q.others_kept i (λ z. h (inr z));
            }))
  ]

  -- A share is looked for in a map that holds no connection twice, and no validator panics on it. The
  -- search does not panic either. It goes over the map in order: past the connections that lack the
  -- job, which stay as they were, and past those that refuse the share, which record it in their
  -- validator, to the first one that takes the share. That one records the share too, and is the
  -- answer, with the difficulty that its validator gives; those behind it stay as they were. If none
  -- takes the share, there is no answer. No connection outside the map and nothing else of the proxy
  -- changes.
  pub get_dest_by_job_id_and_validate-Right :
      {K : Type 0} (p : Proxy F H K)
      → get_job_id msg ≡ some id
      → Distinct p.dest_map
      → Total p.conns p.dest_map
      → Returns
          (λ r.
            Right p.conns r.0.conns r.1 p.dest_map
            × ((e : ℕ) → ¬ (Held e p.dest_map) → r.0.conns e ≡ p.conns e)
            × (r.0 ≡ record p { conns = r.0.conns }))
          (get_dest_by_job_id_and_validate fl sha256 now msg p)
  unfolding get_dest_by_job_id_and_validate
  get_dest_by_job_id_and_validate-Right p e n t =
      Returns-bind (Searched p.conns p.dest_map) _ _ _ (search-Searched p.dest_map p.conns e n t)
        (λ r q. (q.is_right, q.others_kept, refl))
