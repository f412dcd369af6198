-- ===== src/Verify/Crypto.antt =====
-- The hash and signature primitives that verified boot calls, and the keys they take
-- (libvboot_util/cryptolib/rsa_utility.c, padding.c and firmware/stateful_util.c).
use futility.Prelude.{ℕ, ◌+◌, ◌-◌, ◌*◌, ltb, ◌==◌, Bool, true, false, ◌&&◌, ◌||◌, not}
use futility.Prelude.{Option, none, some, List, [], ◌∷◌, if◌then◌else◌, get_or}
use futility.Prelude.Memory.{Bytes, le32}

-- An RSAPublicKey, as the bytes that RSAPublicKeyFromBuf has read it from.
pub record RsaKey : Type 0 where
  pub buf : Bytes
  pub at : ℕ
  pub algorithm : ℕ

-- SHA-1, SHA-256, SHA-512 and RSA, which cryptolib carries: `digest b o n algorithm` is
-- `DigestBuf(b + o, n, algorithm)`, and `rsa_verify key b o n algorithm hash` is
-- `RSAVerify(key, b + o, n, algorithm, hash)`.
pub record Crypto : Type 0 where
  pub digest : Bytes → ℕ → ℕ → ℕ → Bytes
  pub rsa_verify : RsaKey → Bytes → ℕ → ℕ → ℕ → Bytes → Bool

abbrev pub num_algorithms : ℕ
num_algorithms = 12

abbrev pub siglen_map : List ℕ
siglen_map = 128 ∷ 128 ∷ 128 ∷ 256 ∷ 256 ∷ 256 ∷ 512 ∷ 512 ∷ 512 ∷ 1024 ∷ 1024 ∷ 1024 ∷ []

-- `siglen_map[algorithm]`; the code looks it up below kNumAlgorithms only.
unfoldable pub siglen : ℕ → ℕ
siglen algorithm = get_or siglen_map algorithm 0

unfoldable pub rsa_processed_key_size : ℕ → Option ℕ
rsa_processed_key_size algorithm =
    if ltb algorithm num_algorithms then some (2 * siglen algorithm + 4 + 4) else none

-- MemcpyState, less its pointer.
pub record MemcpyState : Type 0 where
  pub remaining_len : ℕ
  pub overrun : Bool

-- StatefulMemcpy, for what it says of the lengths.
unfoldable pub stateful_memcpy : MemcpyState → ℕ → MemcpyState
stateful_memcpy st len =
    if st.overrun
    then st
    else if ltb st.remaining_len len
    then record st { overrun = true }
    else record st { remaining_len = st.remaining_len - len }

-- RSAPublicKeyFromBuf succeeds: the key at `o` has one of the four lengths and fills `len` bytes.
unfoldable pub rsa_public_key_from_buf : Bytes → ℕ → ℕ → Bool
unfolding stateful_memcpy
rsa_public_key_from_buf b o len =
    let key_len = le32 b o * 4 in
    let header = stateful_memcpy (record { remaining_len = len; overrun = false }) 4 in
    let st = stateful_memcpy (stateful_memcpy (stateful_memcpy header 4) key_len) key_len in
    (key_len == 128 || key_len == 256 || key_len == 512 || key_len == 1024)
    && not st.overrun
    && (st.remaining_len == 0)
