-- ===== src/Agent/Detector/Window.antt =====
-- What the ring of p4agent.c stands for: the last rounds, newest first, at most five of them.
use p4_ubpf_scripts.Common.{
  ℕ, zero, suc, ◌+◌, ◌%◌, ◌≤◌, ◌<◌, ◌≡◌, refl, Bool, ◌&&◌, if◌then◌else◌, ltb, leb, ◌==◌, List, [],
  ◌∷◌, set, get_or, length, arith,
}
use p4_ubpf_scripts.Agent.Detector.{window, threshold, sum_first}

abbrev pub take : ℕ → List ℕ → List ℕ
take zero xs = []
take (suc n) [] = []
take (suc n) (x ∷ xs) = x ∷ take n xs

abbrev pub sum : List ℕ → ℕ
sum [] = 0
sum (x ∷ xs) = x + sum xs

-- The whole ring from the newest entry back, where `i` is the next index to be written.
abbrev pub newest_first : List ℕ → ℕ → ℕ → List ℕ
newest_first h i zero = []
newest_first h i (suc n) = let j = (i + 4) % window in get_or h j 0 ∷ newest_first h j n

-- A write at the next index is one more entry in front.
pub ring_push :
    (h : List ℕ) (i x : ℕ)
    → length h ≡ window
    → i < window
    → newest_first (set h i x) ((i + 1) % window) window ≡ x ∷ take 4 (newest_first h i window)
ring_push (a ∷ b ∷ c ∷ d ∷ e ∷ []) zero x full lt = refl
ring_push (a ∷ b ∷ c ∷ d ∷ e ∷ []) (suc zero) x full lt = refl
ring_push (a ∷ b ∷ c ∷ d ∷ e ∷ []) (suc (suc zero)) x full lt = refl
ring_push (a ∷ b ∷ c ∷ d ∷ e ∷ []) (suc (suc (suc zero))) x full lt = refl
ring_push (a ∷ b ∷ c ∷ d ∷ e ∷ []) (suc (suc (suc (suc zero)))) x full lt = refl
ring_push (a ∷ b ∷ c ∷ d ∷ e ∷ []) (suc (suc (suc (suc (suc i))))) x full lt = absurd (omega arith)
ring_push _ i x full lt = absurd (omega arith)

-- The whole ring adds up to the same from either side.
pub ring_sum :
    (h : List ℕ) (i : ℕ)
    → length h ≡ window
    → i < window
    → sum_first window h ≡ sum (newest_first h i window)
unfolding sum_first
ring_sum (a ∷ b ∷ c ∷ d ∷ e ∷ []) zero full lt = omega arith
ring_sum (a ∷ b ∷ c ∷ d ∷ e ∷ []) (suc zero) full lt = omega arith
ring_sum (a ∷ b ∷ c ∷ d ∷ e ∷ []) (suc (suc zero)) full lt = omega arith
ring_sum (a ∷ b ∷ c ∷ d ∷ e ∷ []) (suc (suc (suc zero))) full lt = omega arith
ring_sum (a ∷ b ∷ c ∷ d ∷ e ∷ []) (suc (suc (suc (suc zero)))) full lt = omega arith
ring_sum (a ∷ b ∷ c ∷ d ∷ e ∷ []) (suc (suc (suc (suc (suc i))))) full lt = absurd (omega arith)
ring_sum _ i full lt = absurd (omega arith)

abbrev pub push_round : List ℕ → ℕ → List ℕ
push_round w detected = take window (detected ∷ w)

abbrev pub grown : ℕ → ℕ
grown filled = if ltb filled window then filled + 1 else filled

-- One more entry in front of the window, and the oldest out of a full one.
pub take_push :
    (f x : ℕ) (r : List ℕ)
    → f ≤ window
    → length r ≡ window
    → take (grown f) (x ∷ take 4 r) ≡ push_round (take f r) x
take_push zero x (a ∷ b ∷ c ∷ d ∷ e ∷ []) le full = refl
take_push (suc zero) x (a ∷ b ∷ c ∷ d ∷ e ∷ []) le full = refl
take_push (suc (suc zero)) x (a ∷ b ∷ c ∷ d ∷ e ∷ []) le full = refl
take_push (suc (suc (suc zero))) x (a ∷ b ∷ c ∷ d ∷ e ∷ []) le full = refl
take_push (suc (suc (suc (suc zero)))) x (a ∷ b ∷ c ∷ d ∷ e ∷ []) le full = refl
take_push (suc (suc (suc (suc (suc zero))))) x (a ∷ b ∷ c ∷ d ∷ e ∷ []) le full = refl
take_push (suc (suc (suc (suc (suc (suc f)))))) x (a ∷ b ∷ c ∷ d ∷ e ∷ []) le full =
    absurd (omega arith)
take_push _ x _ le full = absurd (omega arith)

-- The abstract state of the detector.
pub record Rounds : Type 0 where
  pub prev_exec : ℕ
  pub prev_pass : ℕ
  pub last_rounds : List ℕ

-- Five rounds are on record and three of them were bypassed.
abbrev pub alarms : List ℕ → Bool
alarms w = length w == window && leb threshold (sum w)
