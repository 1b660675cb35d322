-- ===== src/Agent/Frame/Laws.antt =====
-- What the agent leaves in shared memory for OVS, and what it reads there.
use p4_ubpf_scripts.Common.{
  ℕ, zero, suc, ℤ, pos, ◌==ℤ◌, ==ℤ_iff, ◌+◌, ◌≤◌, ◌≡◌, inl, inr, refl, ap, ap₂, ◌∙◌, subst, true,
  if◌then◌else◌, List, ◌∷◌, length, arith, Bool-cases,
}
use p4_ubpf_scripts.Shm.{Memory, memcpy_in, memcpy_out, max_connections, packet_count_at}
use p4_ubpf_scripts.Shm.Laws.{memcpy_out-outside, memcpy_out-in, memcpy_in-outside}
use p4_ubpf_scripts.Agent.Word.{add64}
use p4_ubpf_scripts.Agent.Frame.{
  Gcm, Agent, le_bytes, le_number, len_size, iv_size, ciphertext_size, tag_bytes, iv_at,
  ciphertext_at, tag_at, message_end, encrypt_message, decrypt_counter, add_counter,
  executions_from, executions,
}

-- `memcpy_out` with the length named otherwise.
pub read_back :
    (n at : ℕ) (bytes : List ℕ) (m : Memory)
    → length bytes ≡ n
    → memcpy_out n at (memcpy_in at bytes m) ≡ bytes
read_back n at bytes m e =
    subst (λ k. memcpy_out k at (memcpy_in at bytes m) ≡ bytes) e (memcpy_out-in at bytes m)

-- The message in the shared memory, part by part.
pub record Message (m : Memory) (plaintext random buffer tag : List ℕ) : Type 0 where
  pub len_read : memcpy_out len_size 0 m ≡ le_bytes len_size (length plaintext)
  pub iv_read : memcpy_out iv_size iv_at m ≡ random
  pub ciphertext_read : memcpy_out ciphertext_size ciphertext_at m ≡ buffer
  pub tag_read : memcpy_out tag_bytes tag_at m ≡ tag

module _ (plaintext random buffer tag : List ℕ) (m : Memory) (iv_full : length random ≡ iv_size)
    (buffer_full : length buffer ≡ ciphertext_size) (tag_full : length tag ≡ tag_bytes) where
  abbrev with_len : Memory
  with_len = memcpy_in 0 (le_bytes len_size (length plaintext)) m

  abbrev with_iv : Memory
  with_iv = memcpy_in iv_at random with_len

  abbrev with_ciphertext : Memory
  with_ciphertext = memcpy_in ciphertext_at buffer with_iv

  abbrev with_tag : Memory
  with_tag = memcpy_in tag_at tag with_ciphertext

  with_tag-Message : Message with_tag plaintext random buffer tag
  with_tag-Message = record {
    len_read =
        memcpy_out-outside len_size 0 tag_at tag with_ciphertext (inl (omega arith))
        ∙ memcpy_out-outside len_size 0 ciphertext_at buffer with_iv (inl (omega arith))
        ∙ memcpy_out-outside len_size 0 iv_at random with_len (inl (omega arith))
        ∙ read_back len_size 0 (le_bytes len_size (length plaintext)) m refl;
    iv_read =
        memcpy_out-outside iv_size iv_at tag_at tag with_ciphertext (inl (omega arith))
        ∙ memcpy_out-outside iv_size iv_at ciphertext_at buffer with_iv (inl (omega arith))
        ∙ read_back iv_size iv_at random with_len iv_full;
    ciphertext_read =
        memcpy_out-outside ciphertext_size ciphertext_at tag_at tag with_ciphertext
          (inl (omega arith))
        ∙ read_back ciphertext_size ciphertext_at buffer with_iv buffer_full;
    tag_read = read_back tag_bytes tag_at tag with_ciphertext tag_full;
  }

  with_tag-outside : (at : ℕ) → message_end ≤ at → with_tag at ≡ m at
  with_tag-outside at h =
      memcpy_in-outside tag_at tag with_ciphertext at (inr (omega arith))
      ∙ memcpy_in-outside ciphertext_at buffer with_iv at (inr (omega arith))
      ∙ memcpy_in-outside iv_at random with_len at (inr (omega arith))
      ∙ memcpy_in-outside 0 (le_bytes len_size (length plaintext)) m at (inr (omega arith))

module _ (gcm : Gcm) (random plaintext : List ℕ) (a : Agent) (iv_full : length random ≡ iv_size)
    (buffer_full : length a.ciphertext ≡ ciphertext_size) where
  abbrev sealed : ℤ × List ℕ × List ℕ
  sealed = gcm.encrypt a.ciphertext plaintext random

  still_full : length sealed.1 ≡ ciphertext_size
  still_full = gcm.buffer_kept a.ciphertext plaintext random ∙ buffer_full

  tag_full : length sealed.2 ≡ tag_bytes
  tag_full = gcm.tag_size a.ciphertext plaintext random

  -- When the encryption succeeds, the whole message stands at the start of the shared memory.
  pub encrypt_message-Message :
      sealed.0 ≡ pos 0
      → Message (encrypt_message gcm random plaintext a).1.shm plaintext random sealed.1 sealed.2
  unfolding encrypt_message
  encrypt_message-Message done =
      let success : (sealed.0 ==ℤ pos 0) ≡ true = (==ℤ_iff sealed.0 (pos 0)).1 done in
      rw success
        (with_tag-Message plaintext random sealed.1 sealed.2 a.shm iv_full still_full tag_full)

  -- Whatever comes of it, no byte behind the message changes.
  pub encrypt_message-outside :
      (at : ℕ) → message_end ≤ at → (encrypt_message gcm random plaintext a).1.shm at ≡ a.shm at
  unfolding encrypt_message
  encrypt_message-outside at h = elim (Bool-cases (sealed.0 ==ℤ pos 0)) [
    | inl done ↦
        rw done (
          with_tag-outside plaintext random sealed.1 sealed.2 a.shm iv_full still_full tag_full at
            h)
    | inr failed ↦ rw failed
  ]

-- Two memories that agree from `message_end` on.
abbrev pub SameTables : Memory → Memory → Type 0
SameTables m m' = (at : ℕ) → message_end ≤ at → m' at ≡ m at

pub memcpy_out-SameTables :
    (n at : ℕ) (m m' : Memory)
    → SameTables m m'
    → message_end ≤ at
    → memcpy_out n at m' ≡ memcpy_out n at m
unfolding memcpy_out
memcpy_out-SameTables zero at m m' same h = refl
memcpy_out-SameTables (suc n) at m m' same h =
    ap₂ ◌∷◌ (same at h) (memcpy_out-SameTables n (at + 1) m m' same (omega arith))

module _ (gcm : Gcm) (m m' : Memory) (same : SameTables m m') where
  decrypt_counter-SameTables :
      (at : ℕ) → message_end ≤ at → decrypt_counter gcm at m' ≡ decrypt_counter gcm at m
  unfolding decrypt_counter
  decrypt_counter-SameTables at h = λ i.
      gcm.decrypt (memcpy_out-SameTables 8 (at + 16) m m' same (omega arith) i)
        (memcpy_out-SameTables 16 at m m' same h i)
        (memcpy_out-SameTables 16 (at + 16 + 8) m m' same (omega arith) i)

  add_counter-SameTables : (i e : ℕ) → add_counter gcm i m' e ≡ add_counter gcm i m e
  unfolding add_counter
  add_counter-SameTables i e =
      ap (λ (r : ℤ × List ℕ). if r.0 ==ℤ pos 0 then add64 e (le_number r.1) else e)
        (decrypt_counter-SameTables (packet_count_at i) (omega arith))

  executions_from-SameTables :
      (n i e : ℕ) → executions_from gcm n i m' e ≡ executions_from gcm n i m e
  unfolding executions_from
  executions_from-SameTables zero i e = refl
  executions_from-SameTables (suc n) i e =
      executions_from-SameTables n (i + 1) (add_counter gcm i m' e)
      ∙ ap (executions_from gcm n (i + 1) m) (add_counter-SameTables i e)

-- Reporting to OVS does not disturb the counters that OVS keeps behind the message.
pub executions-encrypt_message :
    (gcm : Gcm) (random plaintext : List ℕ) (a : Agent)
    → length random ≡ iv_size
    → length a.ciphertext ≡ ciphertext_size
    → executions gcm (encrypt_message gcm random plaintext a).1.shm ≡ executions gcm a.shm
unfolding executions
executions-encrypt_message gcm random plaintext a iv_full buffer_full =
    executions_from-SameTables gcm a.shm (encrypt_message gcm random plaintext a).1.shm
      (encrypt_message-outside gcm random plaintext a iv_full buffer_full) max_connections 0 0
