-- ===== src/Util/Ids.antt =====
-- review_agent/util/ids.py: the identifiers that sort by the time at which they were made.
pub mod Sorted
use review_agent_v.Prelude.{
  Text, txt, ℕ, zero, suc, ◌+◌, ◌*◌, ◌/◌, ◌%◌, Option, none, some, List, [], ◌∷◌, ◌++◌, get_elem?,
}

-- _ULID_ALPHABET
abbrev pub ulid_alphabet : Text
ulid_alphabet = txt "0123456789ABCDEFGHJKMNPQRSTVWXYZ"

abbrev pub or_zero : Option ℕ → ℕ
or_zero none = 0
or_zero (some c) = c

-- _ULID_ALPHABET[n & 0x1F]
unfoldable pub last_digit : ℕ → ℕ
last_digit n = or_zero (get_elem? ulid_alphabet (n % 32))

-- The last `count` digits of `n` to the base 32, the first one in front: the loop with its `reversed`.
unfoldable pub base32 : (count n : ℕ) → Text
unfolding last_digit
base32 zero n = []
base32 (suc count) n = base32 count (n / 32) ++ last_digit n ∷ []

-- int.from_bytes(rand, "big")
unfoldable pub from_bytes : (acc : ℕ) → List ℕ → ℕ
from_bytes acc [] = acc
from_bytes acc (b ∷ rand) = from_bytes (acc * 256 + b) rand

-- ulid, at a number of milliseconds and with ten random bytes
unfoldable pub ulid : (ts_ms : ℕ) → (rand : List ℕ) → Text
unfolding base32 from_bytes
ulid ts_ms rand = base32 10 ts_ms ++ base32 16 (from_bytes 0 rand)
