-- ===== src/Agent/Report/Laws.antt =====
-- What a reader of the agent's message gets back.
use Prim.Native.Nat.{bit_or}
use p4_ubpf_scripts.Common.{
  ℕ, ◌+◌, ◌*◌, ◌/◌, ◌%◌, ◌^◌, ◌<◌, ◌≡◌, ap, ◌∙◌, List, [], ◌∷◌, length, arith,
}
use p4_ubpf_scripts.Common.Bits.{bit_or-shifted, bit_or-zero, bit_or-lt}
use p4_ubpf_scripts.Agent.Report.{combine, fill_from, report}

-- The number that bytes spell, the highest first.
unfoldable pub big_endian : ℕ → List ℕ → ℕ
big_endian n [] = n
big_endian n (b ∷ bs) = big_endian (n * 256 + b) bs

-- The reader's two halves.
abbrev pub high_half : List ℕ → ℕ
high_half bytes = big_endian 0 bytes / 2 ^ 32

abbrev pub low_half : List ℕ → ℕ
low_half bytes = big_endian 0 bytes % 2 ^ 32

-- The eight bytes spell the number, whatever stood there before.
fill-big_endian :
    (n : ℕ) (stack : List ℕ)
    → n < 2 ^ 64
    → length stack ≡ 8
    → big_endian 0 (fill_from 8 0 n stack) ≡ n
unfolding big_endian fill_from
fill-big_endian n (a ∷ b ∷ c ∷ d ∷ e ∷ f ∷ g ∷ h ∷ []) small eight = omega arith
fill-big_endian n _ small eight = absurd (omega arith)

combine-halves :
    (threshold used_bytes : ℕ)
    → threshold < 2 ^ 32
    → combine threshold used_bytes
      ≡ bit_or threshold (used_bytes / 2 ^ 32) * 2 ^ 32 + used_bytes % 2 ^ 32
unfolding combine
combine-halves threshold used_bytes small =
    let whole : used_bytes ≡ used_bytes / 2 ^ 32 * 2 ^ 32 + used_bytes % 2 ^ 32 = omega arith in
    let fits : threshold * 2 ^ 32 % 2 ^ 64 ≡ threshold * 2 ^ 32 = omega arith in
    rw fits (
      ap (bit_or (threshold * 2 ^ 32)) whole
      ∙ bit_or-shifted 32 threshold (used_bytes / 2 ^ 32) (used_bytes % 2 ^ 32) (omega arith))

-- For a threshold below 2 ^ 32 and a count of bytes below 2 ^ 64, the low half of the report's
-- eight bytes is the count modulo 2 ^ 32, and the high half is the threshold or-ed with what the
-- count has beyond.
pub report_lem :
    (threshold used_bytes : ℕ) (stack : List ℕ)
    → threshold < 2 ^ 32
    → used_bytes < 2 ^ 64
    → length stack ≡ 8
    → (high_half (report threshold used_bytes stack) ≡ bit_or threshold (used_bytes / 2 ^ 32))
      × (low_half (report threshold used_bytes stack) ≡ used_bytes % 2 ^ 32)
unfolding report
report_lem threshold used_bytes stack fits word eight =
    let halves = combine-halves threshold used_bytes fits in
    let high : bit_or threshold (used_bytes / 2 ^ 32) < 2 ^ 32 =
      bit_or-lt 32 threshold (used_bytes / 2 ^ 32) fits (omega arith) in
    let spelled =
      fill-big_endian (combine threshold used_bytes) stack (omega (arith, halves, high)) eight in
    (omega (arith, spelled, halves), omega (arith, spelled, halves))

-- While the threshold and the bytes in use fit in 32 bits, the reader gets both back.
pub report_halves :
    (threshold used_bytes : ℕ) (stack : List ℕ)
    → threshold < 2 ^ 32
    → used_bytes < 2 ^ 32
    → length stack ≡ 8
    → (high_half (report threshold used_bytes stack) ≡ threshold)
      × (low_half (report threshold used_bytes stack) ≡ used_bytes)
report_halves threshold used_bytes stack fits small eight =
    let (high, low) = report_lem threshold used_bytes stack fits (omega arith) eight in
    let none_above : used_bytes / 2 ^ 32 ≡ 0 = omega arith in
    (high ∙ ap (bit_or threshold) none_above ∙ bit_or-zero threshold, omega (arith, low))
