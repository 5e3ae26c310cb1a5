-- ===== src/Tests/Encryption.antt =====
-- The terms of internal/resources/hashrate/terms.go, with a toy cipher that puts a character in
-- front, and texts for URLs.
use Prim.Native.String as S
use proxy_router.Prelude.{ℕ, Bool, true, false, String, Option, none, some}
use proxy_router.Prelude.Int.{pos}
use proxy_router.Terms.{BaseTerms, Terms}
use proxy_router.Proxy.Names.{split_username, join_username}

abbrev seal : String → String → Option String
seal s key = some (S.◌∷◌ "x" s)

abbrev unseal : String → String → Option String
unseal S.[] key = none
unseal (S.◌∷◌ _ s) key = some s

-- A URL in two parts, a host and what is behind its dot.
abbrev of_parts : String × String × Bool → Option (String × String)
of_parts (host, rest, true) = some (host, rest)
of_parts (host, rest, false) = none

abbrev parse : String → Option (String × String)
parse s = of_parts (split_username s)

abbrev show : String × String → String
show (host, rest) = join_username host rest

abbrev base : BaseTerms ℕ
base = record {
  contract_id = "0x1";
  seller = "s";
  buyer = "b";
  validator = "v";
  starts_at = some 5;
  duration = 10;
  hashrate = 100;
  price = pos 1;
  profit_target = pos 3;
  is_deleted = false;
  balance = pos 0;
  has_future_terms = false;
  version = 1;
}

abbrev terms : Terms ℕ (String × String)
terms = record {
  base = base;
  validator_url = some ("validator", "org:1");
  dest_url = some ("pool", "org");
}
