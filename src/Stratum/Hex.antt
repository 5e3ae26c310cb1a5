-- ===== src/Stratum/Hex.antt =====
-- `hex.DecodeString` of Go's encoding/hex, as the helpers of validator_diff.go use it: the bytes
-- that come before the first pair that is not hexadecimal.
use Prim.Native.Char.{code}
use Prim.Native.String as S
use proxy_router.Prelude.{
  ℕ, ◌+◌, ◌-◌, ◌*◌, ◌&&◌, String, List, [], ◌∷◌, Option, none, some, if◌then◌else◌, leb,
}

abbrev pub codes : String → List ℕ
codes S.[] = []
codes (S.◌∷◌ c s) = code c ∷ codes s

unfoldable pub hex_digit : ℕ → Option ℕ
hex_digit c =
    if leb b'0' c && leb c b'9'
    then some (c - 48)
    else if leb b'a' c && leb c b'f'
    then some (c - 87)
    else if leb b'A' c && leb c b'F'
    then some (c - 55)
    else none

unfoldable pub decode_codes : List ℕ → List ℕ
unfolding hex_digit
decode_codes [] = []
decode_codes (a ∷ []) = []
decode_codes (a ∷ b ∷ s) = elim (hex_digit a) [
  | none ↦ []
  | some x ↦ elim (hex_digit b) [ none ↦ [] | some y ↦ (x * 16 + y) ∷ decode_codes s ]
]

unfoldable pub decode : String → List ℕ
unfolding decode_codes
decode s = decode_codes (codes s)
