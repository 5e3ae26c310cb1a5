-- ===== src/Tests/Containers.antt =====
-- internal/lib: the containers on small inputs.
use proxy_router.Prelude.{ℕ, ◌≡◌, refl, String, [], ◌∷◌, none, some, arith, string_eq}
use proxy_router.Prelude.Options.{Returns}
use proxy_router.Prelude.Int.{pos, negsuc}
use proxy_router.Prelude.Assoc.{Assoc, lookup, insert, delete}
use proxy_router.Containers.BoundStackMap.{BoundStackMap, new, push, get, at}
use proxy_router.Containers.BoundStackMap.Window.{push_all}
use proxy_router.Containers.BoundStackMap.Latest.{push_all-latest}

abbrev three : Assoc String ℕ
three = ("a", 1) ∷ ("b", 2) ∷ ("c", 3) ∷ []

-- The map of capacity two with two keys.
abbrev two_keys : BoundStackMap ℕ
two_keys = record {
  capacity = 2;
  data_map = ("b", 2) ∷ ("c", 3) ∷ [];
  ordered_keys = "b" ∷ "c" ∷ [];
  cc = 2;
}

-- The same key pushed twice.
abbrev doubled : BoundStackMap ℕ
doubled = record { capacity = 2; data_map = ("a", 2) ∷ []; ordered_keys = "a" ∷ "a" ∷ []; cc = 2 }

push_runs : push_all (new 2) three ≡ some two_keys
unfolding push_all new push insert delete
push_runs = refl

at_runs : (at two_keys (negsuc 0) ≡ some (some 3)) × (at two_keys (pos 2) ≡ none)
unfolding at lookup
at_runs = (refl, refl)

push_all-latest_example :
    Returns
      (λ b.
        (b.ordered_keys ≡ "b" ∷ "c" ∷ [])
        × ((k : String) → get b k ≡ lookup k (("b", 2) ∷ ("c", 3) ∷ [])))
      (push_all (new 2) three)
unfolding lookup
push_all-latest_example = push_all-latest 2 three (omega arith) (refl, (refl, (refl, tt)))
