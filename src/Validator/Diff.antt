-- ===== src/Validator/Diff.antt =====
-- internal/resources/hashrate/validator/validator_diff.go. Bytes are numbers below 256. SHA-256
-- (crypto/sha256) is a parameter. A panic is `none`: an index out of range, or a division by zero.
pub mod Reversal
pub mod Target
use Prim.Native.Nat.{bit_and, bit_or}
use proxy_router.Prelude.{
  ℕ, zero, suc, ◌+◌, ◌-◌, ◌*◌, ◌/◌, ◌%◌, ◌^◌, Bool, true, false, String, List, [], ◌∷◌, ◌++◌,
  Option, none, some, if◌then◌else◌, length, ltb, leb, get_elem?, get_or, set, ◌==◌,
}
use proxy_router.Prelude.Options.{◌>>=◌}
use proxy_router.Stratum.{MiningNotify, MiningSubmit}
use proxy_router.Stratum.Hex.{codes, decode_codes, decode}

-- `bytes[i], bytes[j] = bytes[j], bytes[i]`
abbrev pub swap : ℕ → ℕ → List ℕ → List ℕ
swap i j bytes = set (set bytes i (get_or bytes j 0)) j (get_or bytes i 0)

-- The loop of `reverse` and of `decode_swap`: the indices meet after at most half of the length, so
-- a round for each byte is enough.
unfoldable pub reverse_loop : ℕ → ℕ → ℕ → List ℕ → List ℕ
reverse_loop zero i j bytes = bytes
reverse_loop (suc n) i j bytes =
    let rest = reverse_loop n (i + 1) (j - 1) (swap i j bytes) in if ltb i j then rest else bytes

unfoldable pub reverse : List ℕ → List ℕ
unfolding reverse_loop
reverse bytes = reverse_loop (length bytes) 0 (length bytes - 1) bytes

unfoldable pub decode_swap : String → List ℕ
unfolding reverse
decode_swap s = reverse (decode s)

-- The words of `decode_swap_words`, each reversed in place: a last word that is not whole goes past
-- the end.
unfoldable pub swap_words : List ℕ → Option (List ℕ)
swap_words [] = some []
swap_words (a ∷ b ∷ c ∷ d ∷ rest) = do r ← swap_words rest; some (d ∷ c ∷ b ∷ a ∷ r)
swap_words _ = none

unfoldable pub decode_swap_words : String → Option (List ℕ)
unfolding swap_words
decode_swap_words s = swap_words (decode s)

-- `binary.LittleEndian.Uint32`
unfoldable pub uint32 : List ℕ → Option ℕ
uint32 (a ∷ b ∷ c ∷ d ∷ _) = some (a + 256 * b + 65536 * c + 16777216 * d)
uint32 _ = none

-- `binary.Write` of a `uint32`, little endian.
unfoldable pub put_uint32 : ℕ → List ℕ
put_uint32 n = n % 256 ∷ n / 256 % 256 ∷ n / 65536 % 256 ∷ n / 16777216 % 256 ∷ []

-- `(jv & ^vm) | (sv & vm)` on 32 bits.
unfoldable pub roll_version : ℕ → ℕ → ℕ → ℕ
roll_version jv sv vm = bit_or (bit_and jv (4294967295 - vm)) (bit_and sv vm)

-- `SetBytes`, big endian.
unfoldable pub set_bytes : ℕ → List ℕ → ℕ
set_bytes acc [] = acc
set_bytes acc (b ∷ bs) = set_bytes (acc * 256 + b) bs

-- 0xffff << 208
abbrev pub diff_one : ℕ
diff_one = 65535 * 2 ^ 208

-- "check result" on the number that the hash stands for.
unfoldable pub check_result : ℕ → ℕ → Option (ℕ × Bool)
check_result job_diff h =
    if h == 0 then none else let t = diff_one / h % 2 ^ 64 in some (t, leb job_diff t)

module _ (sha256 : List ℕ → List ℕ) where
  unfoldable pub sha256d : List ℕ → List ℕ
  sha256d bytes = sha256 (sha256 bytes)

  unfoldable pub merkle_loop : List ℕ → List String → List ℕ
  unfolding sha256d
  merkle_loop root [] = root
  merkle_loop root (branch ∷ branches) = merkle_loop (sha256d (root ++ decode branch)) branches

  -- The version of the header: the job's, with the miner's bits under the mask when there are some.
  unfoldable pub version_bytes : String → String → Option String → Option (List ℕ)
  unfolding decode_swap uint32 put_uint32 roll_version
  version_bytes version_mask version none = some (decode_swap version)
  version_bytes version_mask version (some sver) = do
    jv ← uint32 (decode_swap version)
    sv ← uint32 (decode_swap sver)
    vm ← uint32 (decode_swap version_mask)
    some (put_uint32 (roll_version jv sv vm))

  -- `gen1 + en1 + en2 + gen2`, decoded.
  coinbase : String → String → MiningNotify → List ℕ
  coinbase en1 en2 job = decode_codes (codes job.gen1 ++ codes en1 ++ codes en2 ++ codes job.gen2)

  unfoldable pub header : String → String → MiningNotify → MiningSubmit → Option (List ℕ)
  unfolding coinbase version_bytes decode_swap decode_swap_words merkle_loop
  header en1 version_mask job submit = do
    en2 ← get_elem? submit.params 2
    ntime ← get_elem? submit.params 3
    nonce ← get_elem? submit.params 4
    version ← version_bytes version_mask job.version (get_elem? submit.params 5)
    prev_hash ← decode_swap_words job.prev_block_hash
    let merkle_root = merkle_loop (sha256d (coinbase en1 en2 job)) job.merkel
    some (
        version
        ++ prev_hash
        ++ merkle_root
        ++ decode_swap ntime
        ++ decode_swap job.nbits
        ++ decode_swap nonce)

  -- The hash of the header, as a number.
  unfoldable pub header_hash : String → String → MiningNotify → MiningSubmit → Option ℕ
  unfolding header sha256d reverse set_bytes
  header_hash en1 version_mask job submit = do
    h ← header en1 version_mask job submit
    some (set_bytes 0 (reverse (sha256d h)))

  unfoldable pub validate_diff :
      String → ℕ → String → MiningNotify → MiningSubmit → Option (ℕ × Bool)
  validate_diff en1 job_diff version_mask job submit = do
    h ← header_hash en1 version_mask job submit
    check_result job_diff h
