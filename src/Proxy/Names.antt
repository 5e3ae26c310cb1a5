-- ===== src/Proxy/Names.antt =====
-- The user names that a miner's shares go to a pool under: internal/lib/dest.go, and the checks of
-- internal/resources/hashrate/proxy/handler_first_connect.go. Whether a name is an address is asked of
-- go-ethereum, and is an argument.
pub mod Authorized
use Prim.Native.Char.{code}
use Prim.Native.String as S
use proxy_router.Prelude.{
  ℕ, ◌+◌, Bool, true, false, not, ◌&&◌, ◌||◌, String, List, [], ◌∷◌, Option, none, some,
  if◌then◌else◌, leb, ◌==◌,
}
use proxy_router.Stratum.Hex.{codes}

-- The parts of a URL that matter here; `rest` is its scheme, its path and so on.
pub record Url : Type 0 where
  pub user_name : String
  pub password : Option String
  pub host : String
  pub rest : String

abbrev pub append : String → String → String
append S.[] t = t
append (S.◌∷◌ c s) t = S.◌∷◌ c (append s t)

-- `strings.Cut(username, ".")`
unfoldable pub split_username : String → String × String × Bool
split_username S.[] = (S.[], S.[], false)
split_username (S.◌∷◌ c s) =
    let rest = split_username s in
    if code c == b'.' then (S.[], s, true) else (S.◌∷◌ c rest.0, rest.1, rest.2)

unfoldable pub join_username : String → String → String
join_username account user_name = append account (append "." user_name)

abbrev pub or_empty : Option String → String
or_empty none = S.[]
or_empty (some s) = s

unfoldable pub set_user_name : String → Url → Url
set_user_name name u = record u { user_name = name; password = some (or_empty u.password) }

unfoldable pub set_worker_name : String → Url → Url
unfolding split_username join_username set_user_name
set_worker_name worker u = set_user_name (join_username (split_username u.user_name).0 worker) u

unfoldable pub has_at : String → Bool
has_at S.[] = false
has_at (S.◌∷◌ c s) = (code c == b'@') || has_at s

unfoldable pub has_lightning_address : Url → Bool
unfolding has_at
has_lightning_address u = has_at u.user_name

-- `strings.ToLower`, as far as it makes an l or a p.
abbrev pub lower : ℕ → ℕ
lower c = if leb b'A' c && leb c b'Z' then c + 32 else c

abbrev pub starts_pplp : List ℕ → Bool
starts_pplp (a ∷ b ∷ c ∷ d ∷ _) =
    (lower a == b'p') && ((lower b == b'p') && ((lower c == b'l') && (lower d == b'p')))
starts_pplp _ = false

abbrev pub has_pplp : List ℕ → Bool
has_pplp [] = false
has_pplp (c ∷ s) = starts_pplp (c ∷ s) || has_pplp s

unfoldable pub has_pplp_host : Url → Bool
has_pplp_host u = has_pplp (codes u.host)

-- What follows `SplitUsername` of the incoming name.
abbrev pub dest_name : String × String × Bool → Url → String
dest_name (_, worker, false) u = u.user_name
dest_name (_, worker, true) u = join_username (split_username u.user_name).0 worker

abbrev pub with_worker : String × String × Bool → Url → Url
with_worker (_, worker, false) u = u
with_worker (_, worker, true) u = set_worker_name worker u

module _ (is_hex_address : String → Bool) where
  unfoldable pub should_propagate_worker_name : Bool → String → Url → Bool
  unfolding has_lightning_address has_pplp_host
  should_propagate_worker_name not_preserve incoming u =
      if not_preserve
      then false
      else if has_lightning_address u
      then false
      else if has_pplp_host u
      then false
      else not (is_hex_address incoming)

  unfoldable pub get_dest_user_name : Bool → String → Url → String
  unfolding should_propagate_worker_name split_username
  get_dest_user_name not_preserve incoming u =
      if should_propagate_worker_name not_preserve incoming u
      then dest_name (split_username incoming) u
      else u.user_name

  -- `onMiningAuthorize` from the choice of `destURL` to the message for the pool: the URL, which is
  -- changed through its pointer, the first name given to the connection, and the name and the
  -- password that the pool is sent.
  unfoldable pub authorize_as : Bool → String → Url → Url × String × String × String
  unfolding should_propagate_worker_name split_username set_worker_name get_dest_user_name
  authorize_as not_preserve incoming u =
      let u' =
        if should_propagate_worker_name not_preserve incoming u
        then with_worker (split_username incoming) u
        else u in
      (u', get_dest_user_name not_preserve incoming u', u'.user_name, or_empty u'.password)
