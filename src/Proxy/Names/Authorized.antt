-- ===== src/Proxy/Names/Authorized.antt =====
-- The name that a pool is sent (onMiningAuthorize of handler_first_connect.go).
use Prim.Native.Char.{code}
use Prim.Native.String as S
use text.Mathlib.TextEquality.{Char-path}
use proxy_router.Prelude.{
  ◌≡◌, refl, sym, ap, Bool, true, false, String, arith, if◌then◌else◌, ◌==◌, ==_iff, Bool-cases,
  inl, inr,
}
use proxy_router.Proxy.Names.{
  Url, split_username, join_username, or_empty, set_user_name, set_worker_name,
  should_propagate_worker_name, dest_name, get_dest_user_name, with_worker, authorize_as,
}

-- No dot is in a name.
abbrev pub NoDot : String → Type 0
NoDot S.[] = Unit {0}
NoDot (S.◌∷◌ c s) = (code c == b'.' ≡ false) × NoDot s

split-NoDot : (s : String) → NoDot (split_username s).0
unfolding split_username
split-NoDot S.[] = tt
split-NoDot (S.◌∷◌ c s) = elim (Bool-cases (code c == b'.')) [
  | inl dot ↦ rw dot tt
  | inr letter ↦ rw letter (letter, split-NoDot s)
]

split-join : (a w : String) → NoDot a → split_username (join_username a w) ≡ (a, w, true)
unfolding split_username join_username
split-join S.[] w n = refl
split-join (S.◌∷◌ c a) w n = rw (n.0, split-join a w n.1) refl

join-split :
    (s : String)
    → (split_username s).2 ≡ true
    → join_username (split_username s).0 (split_username s).1 ≡ s
unfolding split_username join_username
join-split S.[] h = absurd (ground (arith, h))
join-split (S.◌∷◌ c s) h = elim (Bool-cases (code c == b'.')) [
  | inl dot ↦ rw dot (ap (λ d. S.◌∷◌ d s) (sym (Char-path c "." ((==_iff (code c) b'.').0 dot))))
  | inr letter ↦ rw letter (ap (S.◌∷◌ c) (join-split s (rw letter at h)))
]

-- Splitting and joining are inverse, on names whose account has no dot and on names that have one.
pub split-join_both :
    (a w s : String)
    → NoDot a
    → (split_username s).2 ≡ true
    → (split_username (join_username a w) ≡ (a, w, true))
      × (join_username (split_username s).0 (split_username s).1 ≡ s)
split-join_both a w s n h = (split-join a w n, join-split s h)

-- Once a worker's name is in the URL, the name that is looked up is that of the URL.
looked_up :
    (b : Bool) (t : String × String × Bool) (u : Url)
    → (if b then dest_name t (with_worker t u) else (with_worker t u).user_name)
      ≡ (with_worker t u).user_name
unfolding set_worker_name set_user_name
looked_up false (a, w, found) u = refl
looked_up true (a, w, false) u = refl
looked_up true (a, w, true) u =
    ap (λ r. join_username r.0 w)
      (split-join (split_username u.user_name).0 w (split-NoDot u.user_name))

with_worker-name :
    (t : String × String × Bool) (u : Url) → (with_worker t u).user_name ≡ dest_name t u
unfolding set_worker_name set_user_name
with_worker-name (a, w, false) u = refl
with_worker-name (a, w, true) u = refl

with_worker-kept :
    (t : String × String × Bool) (u : Url)
    → (or_empty (with_worker t u).password ≡ or_empty u.password)
      × ((with_worker t u).host ≡ u.host)
unfolding set_worker_name set_user_name
with_worker-kept (a, w, false) u = (refl, refl)
with_worker-kept (a, w, true) u = (refl, refl)

module _ (is_hex_address : String → Bool) where
  -- Whatever the settings, the name that the pool is sent is the one that getDestUserName finds for the
  -- URL as it was before, and also the first name that the connection was given; the password stays,
  -- and so does the host.
  pub authorize_as_lem :
      (not_preserve : Bool) (incoming : String) (u : Url)
      → ((authorize_as is_hex_address not_preserve incoming u).2
          ≡ get_dest_user_name is_hex_address not_preserve incoming u)
        × ((authorize_as is_hex_address not_preserve incoming u).1
            ≡ (authorize_as is_hex_address not_preserve incoming u).2)
        × ((authorize_as is_hex_address not_preserve incoming u).3 ≡ or_empty u.password)
        × ((authorize_as is_hex_address not_preserve incoming u).0.host ≡ u.host)
  unfolding authorize_as get_dest_user_name
  authorize_as_lem not_preserve incoming u =
      elim (Bool-cases (should_propagate_worker_name is_hex_address not_preserve incoming u)) [
        | inl propagates ↦
            let t : String × String × Bool = split_username incoming in
            rw propagates (
              with_worker-name t u,
              looked_up
                  (should_propagate_worker_name is_hex_address not_preserve incoming
                    (with_worker t u))
                  t u,
              (with_worker-kept t u).0,
              (with_worker-kept t u).1,
            )
        | inr stays ↦ rw stays (refl, rw stays refl, refl, refl)
      ]
