-- ===== src/Terms.antt =====
-- internal/resources/hashrate/terms.go. `url.Parse`, the text of a URL (net/url) and the encryption
-- (lib.EncryptString and lib.DecryptString, over an ECIES package) are parameters; a URL that
-- `lib.CopyURL` copies is the same value. The zero time is `none`.
pub mod RoundTrip
use proxy_router.Prelude.{
  ℕ, ◌+◌, Bool, true, false, String, Option, none, some, if◌then◌else◌, ltb, ◌=?◌, string_eq,
}
use proxy_router.Prelude.Int.{ℤ, pos, ◌-ℤ◌}
use proxy_router.Prelude.Options.{◌>>=◌}

pub record BaseTerms (F : Type 0) : Type 0 where
  pub contract_id : String
  pub seller : String
  pub buyer : String
  pub validator : String
  pub starts_at : Option ℕ
  pub duration : ℕ
  pub hashrate : F
  pub price : ℤ
  pub profit_target : ℤ
  pub is_deleted : Bool
  pub balance : ℤ
  pub has_future_terms : Bool
  pub version : ℕ

pub record Terms (F U : Type 0) : Type 0 where
  pub base : BaseTerms F
  pub validator_url : Option U
  pub dest_url : Option U

pub record EncryptedTerms (F : Type 0) : Type 0 where
  pub base : BaseTerms F
  pub validator_url_encrypted : String
  pub dest_encrypted : String

pub data BlockchainState : Type 0 where
  available running : BlockchainState

pub data TermsError : Type 0 where
  cannot_decrypt_dest invalid_dest_url : TermsError

abbrev pub plus : Option ℕ → ℕ → Option ℕ
plus none d = none
plus (some t) d = some (t + d)

-- `After(time.Now())`, which the zero time never is.
abbrev pub is_after : Option ℕ → ℕ → Bool
is_after none now = false
is_after (some t) now = ltb now t

abbrev pub is_empty : String → Bool
is_empty s = s =? ""

module _ {F : Type 0} where
  unfoldable pub reset_start_time : BaseTerms F → BaseTerms F
  reset_start_time b = record b { starts_at = none }

  unfoldable pub end_time : BaseTerms F → Option ℕ
  end_time p = plus p.starts_at p.duration

  -- `now` is not before the start.
  unfoldable pub elapsed : ℕ → BaseTerms F → ℤ
  elapsed now p = elim p.starts_at [ none ↦ pos 0 | some t ↦ pos now -ℤ pos t ]

  unfoldable pub is_running : ℕ → BaseTerms F → Bool
  unfolding end_time
  is_running now b = is_after (end_time b) now

  unfoldable pub blockchain_state : ℕ → BaseTerms F → BlockchainState
  unfolding is_running
  blockchain_state now p = if is_running now p then running else available

  -- The profit target is not copied: it is 0 in the copy.
  unfoldable pub copy : BaseTerms F → BaseTerms F
  copy b = record b { profit_target = pos 0 }

-- Its result goes with the terms also where there is an error; `none` is no error.
abbrev pub Decrypted : Type 0 → Type 0 → Type 0
Decrypted F U = Terms F U × Option TermsError

-- The encrypted text as a URL; the destination of the pool is dropped.
unfoldable pub encrypt_url :
    {U : Type 0}
    → (String → Option U)
    → (U → String)
    → (String → String → Option String)
    → String
    → Option U
    → Option (Option U)
encrypt_url parse show encrypt_string private_key none = some none
encrypt_url parse show encrypt_string private_key (some u) = do
  dest ← encrypt_string (show u) private_key
  v ← parse dest
  some (some v)

module _ {F U : Type 0} (parse : String → Option U) (show : U → String)
    (encrypt_string decrypt_string : String → String → Option String) where
  abbrev pub placed : (Option U → Terms F U) → Option U → Decrypted F U
  placed place none = (place none, some invalid_dest_url)
  placed place (some u) = (place (some u), none)

  -- `parse` of what was decrypted, put in its place among the terms.
  abbrev pub parsed : (Option U → Terms F U) → Option String → Decrypted F U
  parsed place none = (place none, some cannot_decrypt_dest)
  parsed place (some dest) = placed place (parse dest)

  unfoldable pub decrypt : String → EncryptedTerms F → Decrypted F U
  unfolding copy
  decrypt private_key t =
      let place : Option U → Terms F U =
        λ u. record { base = copy t.base; validator_url = u; dest_url = none } in
      if is_empty t.validator_url_encrypted
      then (place none, none)
      else parsed place (decrypt_string t.validator_url_encrypted private_key)

  unfoldable pub decrypt_pool_dest : String → EncryptedTerms F → Decrypted F U
  unfolding copy
  decrypt_pool_dest private_key t =
      let place : Option U → Terms F U =
        λ u. record { base = copy t.base; validator_url = none; dest_url = u } in
      if is_empty t.dest_encrypted
      then (place none, none)
      else parsed place (decrypt_string t.dest_encrypted private_key)

  -- `none` is an error.
  unfoldable pub encrypt : String → Terms F U → Option (Terms F U)
  unfolding encrypt_url
  encrypt private_key t = do
    v ← encrypt_url parse show encrypt_string private_key t.validator_url
    some (record { base = copy t.base; validator_url = v; dest_url = none })
