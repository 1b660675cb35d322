-- ===== src/Vsock/Laws.antt =====
-- What the two samples give back, and where they write.
use p4_ubpf_scripts.Common.{
  ℕ, ℤ, pos, minus_one, ltb_ℤ, ◌==ℤ◌, ==ℤ_refl, ◌≡◌, refl, inl, inr, Bool, false, not, ◌||◌,
  Bool-cases, [], ◌∷◌, some, arith, negsuc, ◌&&◌, if◌then◌else◌,
}
use p4_ubpf_scripts.Posix.{Call, Answer, Log, Result, returned, exited, failure}
use p4_ubpf_scripts.Posix.Effects.{nothing_held, held, account, account_from, without}
use p4_ubpf_scripts.Vsock.{buffer_size, Stack, filled, store, guest, host}

-- Closing the only socket that is held.
closing :
    (fd : ℤ) (a : Answer)
    → account (Call.close fd) a (record { addresses = 0; sockets = fd ∷ [] }) ≡ some nothing_held
unfolding account without
closing fd a = rw (==ℤ_refl fd) refl

-- The offset lies in the buffer.
abbrev pub is_inside : ℤ → Bool
is_inside k = not (ltb_ℤ k (pos 0)) && ltb_ℤ k (pos buffer_size)

-- What `read` documents for `size` bytes: -1, or at most as many as it was asked for.
abbrev pub IsCount : ℕ → ℤ → Type 0
IsCount size n = (ltb_ℤ n minus_one ≡ false) × (ltb_ℤ (pos size) n ≡ false)

-- A call of `read` returns what it may return.
abbrev pub Respects : Call → Answer → Type 0
Respects (Call.read fd size) a = IsCount size a.result
Respects _ a = Unit {0}

-- Every call of `read` in a log does.
abbrev pub ReadsRespect : Log → Type 0
ReadsRespect [] = Unit {0}
ReadsRespect (d ∷ log) = Respects d.call d.answer × ReadsRespect log

-- `read` has failed, or has filled 128 bytes.
abbrev pub leaves_no_room : ℤ → Bool
leaves_no_room n = (n ==ℤ minus_one) || (n ==ℤ pos 128)

-- What becomes of the byte at `k`, which is outside of the buffer, when `read` has returned `n`.
abbrev pub byte_left : ℤ → ℤ → Stack → ℕ
byte_left n k stack = if leaves_no_room n && (k ==ℤ n) then 0 else stack k

abbrev pub Exchanges : ℤ → ℤ → Stack → Result Stack × Log → Type 0
Exchanges n k stack (returned stack', log) =
    (held log ≡ some nothing_held)
    × ReadsRespect log
    × (is_inside n ≡ not (leaves_no_room n))
    × (stack' k ≡ byte_left n k stack)
Exchanges n k stack (exited status, log) = (held log ≡ some nothing_held) × (status ≡ failure)

inside_buffer : (n : ℤ) → IsCount 128 n → is_inside n ≡ not (leaves_no_room n)
inside_buffer n (low, high) = ground (arith, low, high)

-- Outside of the buffer a `read` of a count writes nothing.
filled_outside :
    (n k : ℤ) (received : ℕ → ℕ) (stack : Stack)
    → IsCount 128 n
    → is_inside k ≡ false
    → store n 0 (filled n received stack) k ≡ byte_left n k stack
filled_outside n (pos j) received stack (low, high) outside = ground (arith, low, high, outside)
filled_outside n (negsuc j) received stack (low, high) outside = ground (arith, low, high, outside)

-- Where read returns -1 or a number up to 128, and whatever the other system calls return, the
-- guest either exits with failure, or comes back after a read that may return this, and each byte
-- outside of its buffer is what it was, except that where read has returned -1 or 128 the byte at
-- that index, which lies outside of the buffer, is 0. On every way the guest has closed its socket,
-- if it had one.
pub guest-Exchanges :
    (answer : ℕ → Answer) (received : ℕ → ℕ) (stack : Stack) (k : ℤ)
    → IsCount 128 (answer 3).result
    → is_inside k ≡ false
    → Exchanges (answer 3).result k stack (guest answer received stack [])
unfolding guest held account without
guest-Exchanges answer received stack k count outside =
    elim (Bool-cases (ltb_ℤ (answer 0).result (pos 0))) [
      | inl fails ↦ rw fails (rw fails refl, refl)
      | inr opens ↦ elim (Bool-cases (ltb_ℤ (answer 1).result (pos 0))) [
        | inl fails ↦ rw (opens, fails) (rw opens (closing (answer 0).result (answer 2)), refl)
        | inr meets ↦
            rw (opens, meets)
              (
                rw opens (closing (answer 0).result (answer 4)),
                (tt, (count, (tt, (tt, (tt, tt))))),
                inside_buffer (answer 3).result count,
                filled_outside (answer 3).result k received stack count outside,
              )
      ]
    ]

-- When socket and accept succeed, the host gives back both sockets.
pub host-gives_back :
    (answer : ℕ → Answer) (received : ℕ → ℕ) (stack : Stack)
    → ltb_ℤ (answer 0).result (pos 0) ≡ false
    → ltb_ℤ (answer 3).result (pos 0) ≡ false
    → (stack' : Stack) × (log : Log) × (host answer received stack [] ≡ (returned stack', log))
      × (held log ≡ some nothing_held)
unfolding host held account without
host-gives_back answer received stack opens accepts = (
  _,
  _,
  refl,
  rw (opens, accepts)
      (rw (==ℤ_refl (answer 3).result, account_from) (closing (answer 0).result (answer 7))),
)
