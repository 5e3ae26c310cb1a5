-- ===== src/Proxy/Jobs.antt =====
-- internal/resources/hashrate/proxy/proxy.go: which of the cached connections has the job of a share
-- (GetDestByJobID), and which takes the share (GetDestByJobIDAndValidate). A panic is `none`.
pub mod Search
use proxy_router.Prelude.{ℕ, Bool, String, List, [], ◌∷◌, Option, none, some, if◌then◌else◌, ◌==◌}
use proxy_router.Prelude.Options.{◌>>=◌}
use proxy_router.Prelude.Assoc.{Assoc}
use proxy_router.Floats.{Float64}
use proxy_router.Stratum.{MiningSubmit, get_job_id}
use proxy_router.Validator.{Validator, ShareError, ShareResult, has_job, validate_and_add_share}
use proxy_router.Proxy.Dest.{ConnDest}
use proxy_router.Proxy.Change.{Proxy}

module _ {F H : Type 0} where
  abbrev pub dest_with_job : String → (ℕ → ConnDest F H) → Assoc String ℕ → Option ℕ
  dest_with_job job_id conns [] = none
  dest_with_job job_id conns ((_, d) ∷ m) =
      let rest = dest_with_job job_id conns m in
      if has_job (conns d).validator job_id then some d else rest

  unfoldable pub get_dest_by_job_id : {K : Type 0} → String → Proxy F H K → Option ℕ
  get_dest_by_job_id job_id p = dest_with_job job_id p.conns p.dest_map

  -- The connections with another validator at one.
  abbrev pub with_validator : ℕ → Validator F → (ℕ → ConnDest F H) → ℕ → ConnDest F H
  with_validator d v conns i = if i == d then record (conns d) { validator = v } else conns i

abbrev pub Answer : Type 0 → Type 0 → Type 0
Answer F H = (ℕ → ConnDest F H) × Option (ℕ × ℕ)

-- The visit goes on where the share was not taken.
abbrev pub unless_taken :
    {F H : Type 0}
    → ℕ
    → ℕ
    → Option ShareError
    → (ℕ → ConnDest F H)
    → Option (Answer F H)
    → Option (Answer F H)
unless_taken d diff none conns rest = some (conns, some (d, diff))
unless_taken d diff (some e) conns rest = rest

module _ (fl : Float64) (sha256 : List ℕ → List ℕ) {H : Type 0} where
  open fl use {F}

  -- The visit of the map: the connections after it, and the one that takes the share with the
  -- difficulty of the share.
  unfoldable pub search_dests :
      ℕ → MiningSubmit → (ℕ → ConnDest F H) → Assoc String ℕ → Option (Answer F H)
  search_dests now msg conns [] = some (conns, none)
  search_dests now msg conns ((_, d) ∷ m) = do
    id ← get_job_id msg
    if has_job (conns d).validator id
        then (do
          r ← validate_and_add_share fl sha256 now msg (conns d).validator
          unless_taken d r.1.diff r.1.error (with_validator d r.0 conns)
              (search_dests now msg (with_validator d r.0 conns) m))
        else search_dests now msg conns m

  -- With no connection in the answer the code returns ErrJobNotFound.
  unfoldable pub get_dest_by_job_id_and_validate :
      {K : Type 0} → ℕ → MiningSubmit → Proxy F H K → Option (Proxy F H K × Option (ℕ × ℕ))
  get_dest_by_job_id_and_validate now msg p = do
    r ← search_dests now msg p.conns p.dest_map
    some (record p { conns = r.0 }, r.1)
