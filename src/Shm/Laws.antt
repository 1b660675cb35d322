-- ===== src/Shm/Laws.antt =====
-- Copies into and out of the shared memory.
use p4_ubpf_scripts.Common.{
  ℕ, zero, suc, ◌+◌, ◌-◌, ◌≤◌, ◌<◌, ◌≡◌, ◌⊎◌, refl, ap₂, ◌∙◌, List, [], ◌∷◌, length, arith,
}
use p4_ubpf_scripts.Shm.{Memory, memcpy_in, memcpy_out}

-- A copy changes no byte outside its range.
pub memcpy_in-outside :
    (at : ℕ) (bytes : List ℕ) (m : Memory) (a : ℕ)
    → (a < at) ⊎ (at + length bytes ≤ a)
    → memcpy_in at bytes m a ≡ m a
unfolding memcpy_in
memcpy_in-outside at bytes m a h = ground arith

-- A range that the copy does not meet reads as before.
pub memcpy_out-outside :
    (n at to : ℕ) (bytes : List ℕ) (m : Memory)
    → (at + n ≤ to) ⊎ (to + length bytes ≤ at)
    → memcpy_out n at (memcpy_in to bytes m) ≡ memcpy_out n at m
unfolding memcpy_out
memcpy_out-outside zero at to bytes m h = refl
memcpy_out-outside (suc n) at to bytes m h =
    ap₂ ◌∷◌ (memcpy_in-outside to bytes m at (omega arith))
      (memcpy_out-outside n (at + 1) to bytes m (omega arith))

memcpy_in-cons :
    (at : ℕ) (b : ℕ) (bs : List ℕ) (m : Memory) (a : ℕ)
    → at + 1 ≤ a
    → memcpy_in at (b ∷ bs) m a ≡ memcpy_in (at + 1) bs m a
unfolding memcpy_in
memcpy_in-cons at b bs m a h =
    let later : a - at ≡ suc (a - (at + 1)) = omega arith in rw later (ground arith)

memcpy_in-head : (at : ℕ) (b : ℕ) (bs : List ℕ) (m : Memory) → memcpy_in at (b ∷ bs) m at ≡ b
unfolding memcpy_in
memcpy_in-head at b bs m = let here : at - at ≡ 0 = omega arith in rw here (ground arith)

memcpy_out_ext :
    (n at : ℕ) (m m' : Memory)
    → ((a : ℕ) → at ≤ a → m a ≡ m' a)
    → memcpy_out n at m ≡ memcpy_out n at m'
unfolding memcpy_out
memcpy_out_ext zero at m m' h = refl
memcpy_out_ext (suc n) at m m' h =
    ap₂ ◌∷◌ (h at (omega arith)) (memcpy_out_ext n (at + 1) m m' (λ a le. h a (omega arith)))

-- What was copied in is read back.
pub memcpy_out-in :
    (at : ℕ) (bytes : List ℕ) (m : Memory)
    → memcpy_out (length bytes) at (memcpy_in at bytes m) ≡ bytes
unfolding memcpy_out
memcpy_out-in at [] m = refl
memcpy_out-in at (b ∷ bs) m = ap₂ ◌∷◌ (memcpy_in-head at b bs m) (
    memcpy_out_ext (length bs) (at + 1) (memcpy_in at (b ∷ bs) m) (memcpy_in (at + 1) bs m)
      (λ a le. memcpy_in-cons at b bs m a le)
    ∙ memcpy_out-in (at + 1) bs m)
