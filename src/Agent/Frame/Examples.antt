-- ===== src/Agent/Frame/Examples.antt =====
-- The sum of the counters at a table with one sealed counter.
use native.Mathlib.Decide.{ℕ_discrete}
use p4_ubpf_scripts.Common.{
  sym, ◌++◌, ℕ, ℤ, pos, minus_one, ◌+◌, ◌<◌, ◌≡◌, ◌≢◌, refl, ◌∙◌, subst, false, if◌then◌else◌, ◌==◌,
  List, [], Option, none, some, set, get_or, replicate, get_or-replicate, get_or-set_ne, ◌==ℤ◌,
  arith,
}
use p4_ubpf_scripts.Shm.{Memory, memcpy_in, memcpy_out, max_connections, packet_count_at}
use p4_ubpf_scripts.Shm.Laws.{memcpy_out-outside}
use p4_ubpf_scripts.Agent.Frame.{Gcm, le_bytes, decrypt_counter, executions}
use p4_ubpf_scripts.Agent.Frame.Counters.{Holds, counter, unreadable, executions-sum}
use p4_ubpf_scripts.Agent.Examples.{seal, seal-buffer_kept, seal-opens, opened, zeros}

abbrev tag : List ℕ
tag = replicate 16 1

-- A cipher with the same tag on everything, which opens nothing else.
abbrev seal_tagged : List ℕ → List ℕ → List ℕ → ℤ × List ℕ × List ℕ
seal_tagged buffer plaintext iv = let (ret, text, _) = seal buffer plaintext iv in (ret, text, tag)

abbrev open_tagged : List ℕ → List ℕ → List ℕ → ℤ × List ℕ
open_tagged cipher_text iv t = if get_or t 0 0 == 1 then opened cipher_text else (minus_one, [])

abbrev tagged : Gcm
tagged = record {
  encrypt = seal_tagged;
  decrypt = open_tagged;
  buffer_kept = seal-buffer_kept;
  tag_size = λ buffer plaintext iv. refl;
  opens = seal-opens;
}

-- OVS has counted 500 packets in row 3, and nobody has written the other rows.
abbrev sealed_500 : List ℕ
sealed_500 = le_bytes 8 500 ++ tag

abbrev counted_500 : Memory
counted_500 = memcpy_in (packet_count_at 3 + 16) sealed_500 zeros

abbrev counters : List (Option ℕ)
counters = set (replicate 32 none) 3 (some 500)

row_3-Holds : Holds tagged counted_500 3 (some 500)
unfolding memcpy_in memcpy_out
row_3-Holds = counter (omega arith) (record {
  buffer = replicate 8 0;
  iv = replicate 16 0;
  sealed = refl;
  iv_there = refl;
  cipher_text_there = refl;
  auth_tag_there = refl;
})

zero_tag : (at : ℕ) → memcpy_out 16 at zeros ≡ replicate 16 0
unfolding memcpy_out
zero_tag at = refl

other-unreadable :
    (i : ℕ) → 3 ≢ i → ((decrypt_counter tagged (packet_count_at i) counted_500).0 ==ℤ pos 0) ≡ false
unfolding decrypt_counter
other-unreadable i apart =
    rw
      (memcpy_out-outside 16 (packet_count_at i + 16 + 8) (packet_count_at 3 + 16) sealed_500 zeros
        (omega (arith, apart)))
      (rw (zero_tag (packet_count_at i + 16 + 8)) refl)

counters-Holds : (i : ℕ) → i < max_connections → Holds tagged counted_500 i (get_or counters i none)
counters-Holds i below = elim (ℕ_discrete 3 i) [
  | yes here ↦ subst (λ k. Holds tagged counted_500 k (get_or counters k none)) here row_3-Holds
  | no apart ↦
      subst (Holds tagged counted_500 i)
        (sym (
          get_or-set_ne (replicate 32 none) 3 i (some 500) none apart
          ∙ get_or-replicate 32 none i none below))
        (unreadable (other-unreadable i apart))
]

executions-sum_example : executions tagged counted_500 ≡ 500
executions-sum_example = executions-sum tagged counters counted_500 refl counters-Holds
