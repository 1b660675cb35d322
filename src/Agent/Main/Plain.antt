-- ===== src/Agent/Main/Plain.antt =====
-- What a reader finds in the shared memory of the agent without ENCRYPT.
use p4_ubpf_scripts.Common.{
  ℕ, ◌^◌, ◌<◌, ◌≤◌, ◌≡◌, refl, ap, ◌∙◌, inl, inr, List, [], ◌∷◌, ◌++◌, Option, some, arith,
}
use p4_ubpf_scripts.Shm.{Memory, memcpy_in, memcpy_out}
use p4_ubpf_scripts.Shm.Laws.{memcpy_in-outside, memcpy_out-outside, memcpy_out-in}
use p4_ubpf_scripts.Agent.Report.{bytes_of_pages}
use p4_ubpf_scripts.Agent.Frame.{le_bytes, le_number}
use p4_ubpf_scripts.Agent.Frame.Counters.{le_number-le_bytes}
use p4_ubpf_scripts.Agent.Rounds.{get_pages}
use p4_ubpf_scripts.Agent.Main.{write_threshold, write_used_bytes, plain_rounds, main_plain}

-- The word at an offset.
abbrev pub word_at : ℕ → Memory → ℕ
word_at at m = le_number (memcpy_out 8 at m)

word_at-in : (at n : ℕ) (m : Memory) → n < 2 ^ 64 → word_at at (memcpy_in at (le_bytes 8 n) m) ≡ n
word_at-in at n m word =
    ap le_number (memcpy_out-in at (le_bytes 8 n) m) ∙ le_number-le_bytes n word

-- The rounds change the second word only.
plain_rounds-first :
    (pagesize : ℕ) (turns : List (ℕ × List (Option ℕ))) (m : Memory)
    → word_at 0 (plain_rounds pagesize turns m) ≡ word_at 0 m
unfolding plain_rounds write_used_bytes
plain_rounds-first pagesize [] m = refl
plain_rounds-first pagesize ((unset, lines) ∷ rest) m =
    let used_bytes = bytes_of_pages (get_pages unset lines) pagesize in
    plain_rounds-first pagesize rest (write_used_bytes used_bytes m)
    ∙ ap le_number (memcpy_out-outside 8 0 8 (le_bytes 8 used_bytes) m (inl (omega arith)))

plain_rounds-outside :
    (pagesize : ℕ) (turns : List (ℕ × List (Option ℕ))) (m : Memory) (at : ℕ)
    → 16 ≤ at
    → plain_rounds pagesize turns m at ≡ m at
unfolding plain_rounds write_used_bytes
plain_rounds-outside pagesize [] m at h = refl
plain_rounds-outside pagesize ((unset, lines) ∷ rest) m at h =
    let used_bytes = bytes_of_pages (get_pages unset lines) pagesize in
    plain_rounds-outside pagesize rest (write_used_bytes used_bytes m) at h
    ∙ memcpy_in-outside 8 (le_bytes 8 used_bytes) m at (inr (omega arith))

plain_rounds-last :
    (pagesize : ℕ) (turns : List (ℕ × List (Option ℕ))) (unset : ℕ) (lines : List (Option ℕ))
    (m : Memory)
    → word_at 8 (plain_rounds pagesize (turns ++ ((unset, lines) ∷ [])) m)
      ≡ bytes_of_pages (get_pages unset lines) pagesize
unfolding plain_rounds write_used_bytes
plain_rounds-last pagesize [] unset lines m =
    let used_bytes = bytes_of_pages (get_pages unset lines) pagesize in
    word_at-in 8 used_bytes m (omega arith)
plain_rounds-last pagesize ((before, earlier) ∷ turns) unset lines m =
    plain_rounds-last pagesize turns unset lines
      (write_used_bytes (bytes_of_pages (get_pages before earlier) pagesize) m)

-- For the agent without ENCRYPT, with a threshold below 2 ^ 64: after any number of rounds, one at
-- least, a reader of the shared memory finds the threshold in the first word and the bytes in use
-- of the last round in the second, and nothing from byte 16 on has changed.
pub main_plain-words :
    (pagesize low pressure high : ℕ) (turns : List (ℕ × List (Option ℕ))) (unset : ℕ)
    (lines : List (Option ℕ)) (m : Memory)
    → pressure < 2 ^ 64
    → (m' : Memory) × (main_plain pagesize
          (some (low, pressure, high))
          (turns ++ ((unset, lines) ∷ []))
          m
        ≡ some m')
      × (word_at 0 m' ≡ pressure)
      × (word_at 8 m' ≡ bytes_of_pages (get_pages unset lines) pagesize)
      × ((at : ℕ) → 16 ≤ at → m' at ≡ m at)
unfolding main_plain write_threshold
main_plain-words pagesize low pressure high turns unset lines m word =
    let all = turns ++ ((unset, lines) ∷ []) in
    let started = write_threshold pressure m in
    (
      plain_rounds pagesize all started,
      refl,
      plain_rounds-first pagesize all started ∙ word_at-in 0 pressure m word,
      plain_rounds-last pagesize turns unset lines started,
      λ at h.
          plain_rounds-outside pagesize all started at h
          ∙ memcpy_in-outside 0 (le_bytes 8 pressure) m at (inr (omega arith)),
    )
