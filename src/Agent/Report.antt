-- ===== src/Agent/Report.antt =====
-- The message that `main` of p4agent.c reports: the TCP threshold and the bytes in use, packed
-- into one number and written out from its highest byte on.
pub mod Laws
use Prim.Native.Nat.{bit_or}
use p4_ubpf_scripts.Common.{
  ℕ, zero, suc, ◌+◌, ◌-◌, ◌*◌, ◌/◌, ◌%◌, ◌^◌, List, [], ◌∷◌, set, replicate,
}

-- `used_pages * pagesize`
abbrev pub bytes_of_pages : ℕ → ℕ → ℕ
bytes_of_pages used_pages pagesize = used_pages * pagesize % 2 ^ 64

-- `((uint64_t)threshold << 32) | used_bytes`
unfoldable pub combine : ℕ → ℕ → ℕ
combine threshold used_bytes = bit_or (threshold * 2 ^ 32 % 2 ^ 64) used_bytes

-- `for (i = 0; i < 8; i++) data[7 - i] = (combined >> (i * 8)) & 0xFF;`, the rounds from `i` on;
-- `& 0xFF` is `% 256`.
unfoldable pub fill_from : ℕ → ℕ → ℕ → List ℕ → List ℕ
fill_from zero i combined data_bytes = data_bytes
fill_from (suc n) i combined data_bytes =
    fill_from n (i + 1) combined (set data_bytes (7 - i) (combined / 2 ^ (i * 8) % 256))

-- `stack` is what the eight bytes held before.
unfoldable pub report : ℕ → ℕ → List ℕ → List ℕ
report threshold used_bytes stack = fill_from 8 0 (combine threshold used_bytes) stack
