-- ===== src/Agent/Frame/Counters.antt =====
-- The sum of the counters: what OVS has sealed in the session table is what the agent adds up.
use p4_ubpf_scripts.Common.{
  ℕ, suc, pos, ◌==ℤ◌, ◌+◌, ◌%◌, ◌^◌, ◌<◌, ◌≡◌, sym, ap, ◌∙◌, subst, false, List, [], ◌∷◌, Option,
  none, some, map, length, take, get_or, get_or-map, length-map, sum, arith,
}
use p4_ubpf_scripts.Shm.{Memory, memcpy_out, max_connections, packet_count_at}
use p4_ubpf_scripts.Agent.Word.{add64}
use p4_ubpf_scripts.Agent.Frame.{
  Gcm, le_bytes, le_number, decrypt_counter, add_counter, executions_from, executions,
}

-- Eight bytes hold a word.
pub le_number-le_bytes : (n : ℕ) → n < 2 ^ 64 → le_number (le_bytes 8 n) ≡ n
le_number-le_bytes n word = omega arith

module _ (gcm : Gcm) where
  -- The packet count of row `i` is a sealed counter, as a writer with the same key leaves it.
  pub record Sealed (m : Memory) (i n : ℕ) : Type 0 where
    pub buffer : List ℕ
    pub iv : List ℕ
    pub sealed : (gcm.encrypt buffer (le_bytes 8 n) iv).0 ≡ pos 0
    pub iv_there : memcpy_out 16 (packet_count_at i) m ≡ iv
    pub cipher_text_there :
        memcpy_out 8 (packet_count_at i + 16) m ≡ take 8 (gcm.encrypt buffer (le_bytes 8 n) iv).1
    pub auth_tag_there :
        memcpy_out 16 (packet_count_at i + 16 + 8) m ≡ (gcm.encrypt buffer (le_bytes 8 n) iv).2

  -- A row has a counter, or something that does not open.
  pub data Holds (m : Memory) (i : ℕ) : Option ℕ → Type 0 where
    counter : {n : ℕ} → n < 2 ^ 64 → Sealed m i n → Holds m i (some n)
    unreadable : ((decrypt_counter gcm (packet_count_at i) m).0 ==ℤ pos 0) ≡ false → Holds m i none

  abbrev pub counted : Option ℕ → ℕ
  counted none = 0
  counted (some n) = n

  pub decrypt_counter-parts :
      (at : ℕ) (m : Memory) {iv cipher_text auth_tag : List ℕ}
      → memcpy_out 16 at m ≡ iv
      → memcpy_out 8 (at + 16) m ≡ cipher_text
      → memcpy_out 16 (at + 16 + 8) m ≡ auth_tag
      → decrypt_counter gcm at m ≡ gcm.decrypt cipher_text iv auth_tag
  unfolding decrypt_counter
  decrypt_counter-parts at m iv cipher_text auth_tag =
      λ i. gcm.decrypt (cipher_text i) (iv i) (auth_tag i)

  decrypt_counter-Sealed :
      (m : Memory) (i n : ℕ)
      → Sealed m i n
      → decrypt_counter gcm (packet_count_at i) m ≡ (pos 0, le_bytes 8 n)
  decrypt_counter-Sealed m i n s =
      decrypt_counter-parts (packet_count_at i) m s.iv_there s.cipher_text_there s.auth_tag_there
      ∙ (gcm.opens s.buffer (le_bytes 8 n) s.iv s.sealed)

  add_counter-Holds :
      (m : Memory) (i e : ℕ) (c : Option ℕ)
      → Holds m i c
      → e < 2 ^ 64
      → add_counter gcm i m e ≡ (e + counted c) % 2 ^ 64
  unfolding add_counter
  add_counter-Holds m i e (some n) (counter word s) fits =
      rw (decrypt_counter-Sealed m i n s) (ap (add64 e) (le_number-le_bytes n word))
  add_counter-Holds m i e none (unreadable fails) fits = rw fails (omega arith)

  -- Row `i` adds `n` to the sum, whatever it is so far.
  abbrev pub Adds : Memory → ℕ → ℕ → Type 0
  Adds m i n = (e : ℕ) → e < 2 ^ 64 → add_counter gcm i m e ≡ (e + n) % 2 ^ 64

  executions_from-Adds :
      (ns : List ℕ) (m : Memory) (i e : ℕ)
      → ((j : ℕ) → j < length ns → Adds m (i + j) (get_or ns j 0))
      → e < 2 ^ 64
      → executions_from gcm (length ns) i m e ≡ (e + sum ns) % 2 ^ 64
  unfolding executions_from
  executions_from-Adds [] m i e rows fits = omega arith
  executions_from-Adds (n ∷ ns) m i e rows fits =
      let first : Adds m i n = subst (λ k. Adds m k n) (omega arith) (rows 0 (omega arith)) in
      let here = first e fits in
      executions_from-Adds ns m (i + 1) (add_counter gcm i m e)
        (λ j h. subst (λ k. Adds m k (get_or ns j 0)) (omega arith) (rows (suc j) (omega arith)))
        (omega (arith, here))
      ∙ rw here (omega arith)

  pub executions-Adds :
      (ns : List ℕ) (m : Memory)
      → length ns ≡ max_connections
      → ((i : ℕ) → i < max_connections → Adds m i (get_or ns i 0))
      → executions gcm m ≡ sum ns % 2 ^ 64
  unfolding executions
  executions-Adds ns m size rows =
      ap (λ n. executions_from gcm n 0 m 0) (sym size)
      ∙ executions_from-Adds ns m 0 0
          (λ j h.
            subst (λ k. Adds m k (get_or ns j 0)) (omega arith) (rows j (omega (arith, h, size))))
          (omega arith)
      ∙ ap (λ n. n % 2 ^ 64) (omega arith)

  -- If each of the 32 rows of the session table holds a counter below 2 ^ 64 as it was sealed under
  -- the agent's key, or something that does not open, the agent's sum is that of the sealed
  -- counters modulo 2 ^ 64.
  pub executions-sum :
      (counters : List (Option ℕ)) (m : Memory)
      → length counters ≡ max_connections
      → ((i : ℕ) → i < max_connections → Holds m i (get_or counters i none))
      → executions gcm m ≡ sum (map counted counters) % 2 ^ 64
  executions-sum counters m size holds =
      executions-Adds (map counted counters) m (length-map counters counted ∙ size)
        (λ i below e fits.
          add_counter-Holds m i e (get_or counters i none) (holds i below) fits
          ∙ ap (λ n. (e + n) % 2 ^ 64)
              (sym (get_or-map counted counters i none 0 (omega (arith, below, size)))))
