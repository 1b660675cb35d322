-- ===== src/Agent/Frame.antt =====
-- `encrypt_message` and `decrypt_counter` of p4agent.c, and the sum of the counters.
pub mod Laws
pub mod Counters
pub mod Examples
use p4_ubpf_scripts.Common.{
  ℕ, zero, suc, ℤ, pos, ◌==ℤ◌, ◌+◌, ◌*◌, ◌/◌, ◌%◌, ◌^◌, ◌≡◌, Bool, true, false, if◌then◌else◌, List,
  [], ◌∷◌, ◌++◌, length, take,
}
use p4_ubpf_scripts.Shm.{Memory, memcpy_in, memcpy_out, max_connections, packet_count_at}
use p4_ubpf_scripts.Agent.Word.{add64}

-- wolfCrypt's AES-GCM under the program's key. `encrypt buffer plaintext iv` returns the status,
-- the ciphertext buffer, whose front is overwritten, and the tag; `decrypt` the status and the
-- plaintext. What the program relies on: sizes are kept, and a message that was sealed opens.
pub record Gcm : Type 0 where
  pub encrypt : (buffer plaintext iv : List ℕ) → ℤ × List ℕ × List ℕ
  pub decrypt : (cipher_text iv tag : List ℕ) → ℤ × List ℕ
  pub buffer_kept :
      (buffer plaintext iv : List ℕ) → length (encrypt buffer plaintext iv).1 ≡ length buffer
  pub tag_size : (buffer plaintext iv : List ℕ) → length (encrypt buffer plaintext iv).2 ≡ 16
  pub opens :
      (buffer plaintext iv : List ℕ)
      → (encrypt buffer plaintext iv).0 ≡ pos 0
      → decrypt
          (take (length plaintext) (encrypt buffer plaintext iv).1)
          iv
          (encrypt buffer plaintext iv).2
        ≡ (pos 0, plaintext)

-- The globals that `encrypt_message` writes.
pub record Agent : Type 0 where
  pub shm : Memory
  pub iv : List ℕ
  pub ciphertext : List ℕ
  pub auth_tag : List ℕ

-- the bytes of an integer in memory, the lowest first
abbrev pub le_bytes : ℕ → ℕ → List ℕ
le_bytes zero n = []
le_bytes (suc k) n = (n % 256) ∷ le_bytes k (n / 256)

-- the integer that bytes in memory make up
abbrev pub le_number : List ℕ → ℕ
le_number [] = 0
le_number (b ∷ bs) = b + 256 * le_number bs

abbrev pub iv_size : ℕ
iv_size = 12

abbrev pub ciphertext_size : ℕ
ciphertext_size = 256

abbrev pub tag_bytes : ℕ
tag_bytes = 16

abbrev pub len_size : ℕ
len_size = 4

-- where each part of the message starts
abbrev pub iv_at : ℕ
iv_at = len_size

abbrev pub ciphertext_at : ℕ
ciphertext_at = iv_at + iv_size

abbrev pub tag_at : ℕ
tag_at = ciphertext_at + ciphertext_size

abbrev pub message_end : ℕ
message_end = tag_at + tag_bytes

module _ (gcm : Gcm) where
  -- `random` is what wc_RNG_GenerateBlock puts into `iv`.
  unfoldable pub encrypt_message : List ℕ → List ℕ → Agent → ℤ × Agent
  encrypt_message random plaintext a =
      let (ret, buffer, tag) = gcm.encrypt a.ciphertext plaintext random in
      let written = memcpy_in tag_at tag (
        memcpy_in ciphertext_at buffer
          (memcpy_in iv_at random (memcpy_in 0 (le_bytes len_size (length plaintext)) a.shm))) in
      (
        ret,
        record {
          shm = if ret ==ℤ pos 0 then written else a.shm;
          iv = random;
          ciphertext = buffer;
          auth_tag = tag;
        },
      )

  -- The parts of a `Packet_count` at `at`: iv[16], cipher_text[8], auth_tag[16].
  unfoldable pub decrypt_counter : ℕ → Memory → ℤ × List ℕ
  decrypt_counter at m =
      gcm.decrypt (memcpy_out 8 (at + 16) m) (memcpy_out 16 at m) (memcpy_out 16 (at + 16 + 8) m)

  -- `if (decrypt_counter(...) == 0) executions += counter;`
  unfoldable pub add_counter : ℕ → Memory → ℕ → ℕ
  add_counter i m executions =
      let (ret, plaintext) = decrypt_counter (packet_count_at i) m in
      if ret ==ℤ pos 0 then add64 executions (le_number plaintext) else executions

  -- The loop of `check_p4_execution` over the rows from `i` on, `n` of them.
  unfoldable pub executions_from : ℕ → ℕ → Memory → ℕ → ℕ
  executions_from zero i m executions = executions
  executions_from (suc n) i m executions = executions_from n (i + 1) m (add_counter i m executions)

  unfoldable pub executions : Memory → ℕ
  executions m = executions_from max_connections 0 m 0
