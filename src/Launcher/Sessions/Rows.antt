-- ===== src/Launcher/Sessions/Rows.antt =====
-- Which rows of the pool hold a given child, under the loops of p4l_server.c over that table.
use p4_ubpf_scripts.Common.{
  ℕ, suc, ℤ, pos, ltb_ℤ, ◌==ℤ◌, ==ℤ_iff, ◌+◌, ◌≤◌, ◌<◌, ◌≡◌, refl, inl, inr, Bool, true, false,
  ◌&&◌, if◌then◌else◌, List, [], ◌∷◌, Option, none, some, arith, length, count, get_or, All,
  Bool-cases,
}
use p4_ubpf_scripts.Launcher.State.{P4runtime, vacant, Event}
use p4_ubpf_scripts.Launcher.Runtimes.{
  is_idle, add_runtime_entry, shrink_rows, find_free_runtime_index,
}
use p4_ubpf_scripts.Launcher.Runtimes.Rows.{IsRow, is_busy, busy, live, idle}
use p4_ubpf_scripts.Launcher.Sessions.{free_runtime}

abbrev pub has_pid : ℤ → P4runtime → Bool
has_pid p e = e.pid ==ℤ p

-- The child `p` runs in this row and serves a session.
abbrev pub holds : ℤ → P4runtime → Bool
holds p e = is_busy e && has_pid p e

pub holds-le-has_pid : (p : ℤ) (es : List P4runtime) → count (holds p) es ≤ count (has_pid p) es
holds-le-has_pid p [] = omega arith
holds-le-has_pid p (e ∷ es) = ground (arith, holds-le-has_pid p es)

add_mono : {a b c d : ℕ} → a ≤ b → c ≤ d → a + c ≤ b + d
add_mono h k = omega arith

module _ (p : ℤ) where
  pub holds-add_runtime_entry :
      (pid : ℤ) (es : List P4runtime)
      → count (holds p) (add_runtime_entry pid es) ≡ count (holds p) es
  unfolding add_runtime_entry
  holds-add_runtime_entry pid [] = refl
  holds-add_runtime_entry pid (e ∷ es) = ground (arith, holds-add_runtime_entry pid es)

  pub has_pid-add_runtime_entry :
      (pid : ℤ) (es : List P4runtime)
      → count (has_pid p) (add_runtime_entry pid es)
        ≤ count (has_pid p) es + (if pid ==ℤ p then 1 else 0)
  unfolding add_runtime_entry
  has_pid-add_runtime_entry pid [] = omega arith
  has_pid-add_runtime_entry pid (e ∷ es) = ground (arith, has_pid-add_runtime_entry pid es)

  pub holds-shrink_rows :
      (target : ℤ) (es : List P4runtime) (left : ℤ) (log : List Event)
      → count (holds p) (shrink_rows target left es log).rows ≡ count (holds p) es
  unfolding shrink_rows
  holds-shrink_rows target [] left log = refl
  holds-shrink_rows target (e ∷ es) left log = elim (Bool-cases (ltb_ℤ target left)) [
    | inl more ↦ rw (more, shrink_rows, holds-shrink_rows target es _ _) (ground arith)
    | inr done ↦ rw (done, shrink_rows)
  ]

  has_pid-stopped :
      (e : P4runtime)
      → ltb_ℤ (pos 0) p ≡ true
      → (if has_pid p (if is_idle e then vacant else e) then 1 else 0)
        ≤ (if has_pid p e then 1 else 0)
  has_pid-stopped e h = ground arith

  pub has_pid-shrink_rows :
      (target : ℤ) (es : List P4runtime) (left : ℤ) (log : List Event)
      → ltb_ℤ (pos 0) p ≡ true
      → count (has_pid p) (shrink_rows target left es log).rows ≤ count (has_pid p) es
  unfolding shrink_rows
  has_pid-shrink_rows target [] left log h = omega arith
  has_pid-shrink_rows target (e ∷ es) left log h = elim (Bool-cases (ltb_ℤ target left)) [
    | inl more ↦
        rw (more, shrink_rows)
          (add_mono (has_pid-stopped e h) (has_pid-shrink_rows target es _ _ h))
    | inr done ↦ rw (done, shrink_rows) (omega arith)
  ]

pub length-free_runtime : (pid : ℤ) (es : List P4runtime) → length (free_runtime pid es) ≡ length es
unfolding free_runtime
length-free_runtime pid [] = refl
length-free_runtime pid (e ∷ es) = ground (arith, length-free_runtime pid es)

pub live-free_runtime : (pid : ℤ) (es : List P4runtime) → live (free_runtime pid es) ≡ live es
unfolding free_runtime
live-free_runtime pid [] = refl
live-free_runtime pid (e ∷ es) = ground (arith, live-free_runtime pid es)

pub free_runtime-IsRow :
    (pid : ℤ) (es : List P4runtime) → All IsRow es → All IsRow (free_runtime pid es)
unfolding free_runtime
free_runtime-IsRow pid [] rows = tt
free_runtime-IsRow pid (e ∷ es) rows = ground (arith, free_runtime-IsRow pid es)

pub has_pid-free_runtime :
    (p pid : ℤ) (es : List P4runtime)
    → count (has_pid p) (free_runtime pid es) ≡ count (has_pid p) es
unfolding free_runtime
has_pid-free_runtime p pid [] = refl
has_pid-free_runtime p pid (e ∷ es) = ground (arith, has_pid-free_runtime p pid es)

-- Where one row at most has the pid and one in use holds it, that row is the one freed.
pub holds-free_runtime :
    (p pid : ℤ) (es : List P4runtime)
    → count (has_pid pid) es ≤ 1
    → 0 < count (holds pid) es
    → count (holds p) (free_runtime pid es) + (if pid ==ℤ p then 1 else 0) ≡ count (holds p) es
unfolding free_runtime
holds-free_runtime p pid [] unique held = absurd (omega arith)
holds-free_runtime p pid (e ∷ es) unique held =
    ground (arith, holds-free_runtime p pid es, holds-le-has_pid pid es, ==ℤ_iff e.pid pid)

pub busy-free_runtime :
    (pid : ℤ) (es : List P4runtime)
    → count (has_pid pid) es ≤ 1
    → 0 < count (holds pid) es
    → busy (free_runtime pid es) + 1 ≡ busy es
unfolding free_runtime
busy-free_runtime pid [] unique held = absurd (omega arith)
busy-free_runtime pid (e ∷ es) unique held =
    ground (arith, busy-free_runtime pid es, holds-le-has_pid pid es)

-- The search finds an idle row wherever there is one.
abbrev pub Finds : List P4runtime → Option ℕ → Type 0
Finds es none = idle es ≡ 0
Finds es (some i) = (i < length es) × (is_idle (get_or es i vacant) ≡ true)

Finds-later :
    (e : P4runtime) (es : List P4runtime) (o : Option ℕ)
    → is_idle e ≡ false
    → Finds es o
    → Finds (e ∷ es) (elim o [ none ↦ none | some i ↦ some (suc i) ])
Finds-later e es none busy_row found = rw busy_row (omega arith)
Finds-later e es (some i) busy_row found = (omega arith, found.1)

pub find_free_runtime_index-Finds : (es : List P4runtime) → Finds es (find_free_runtime_index es)
unfolding find_free_runtime_index
find_free_runtime_index-Finds [] = refl
find_free_runtime_index-Finds (e ∷ es) = elim (Bool-cases (is_idle e)) [
  | inl idle_row ↦ rw idle_row (omega arith, idle_row)
  | inr busy_row ↦ rw busy_row (Finds-later e es _ busy_row (find_free_runtime_index-Finds es))
]
