-- ===== src/Launcher/Runtimes/Rows.antt =====
-- The loops of p4l_server.c over the rows of the runtimes table: what they keep and what they count.
use p4_ubpf_scripts.Common.{
  ℕ, zero, suc, ℤ, pos, minus_one, ltb_ℤ, ◌+◌, ◌-◌, ◌≤◌, ◌<◌, max, ◌≡◌, ap, pos_part, refl, ◌⊎◌,
  inl, inr, Bool, true, false, ◌&&◌, List, [], ◌∷◌, arith, length, count, All, Bool-cases,
}
use p4_ubpf_scripts.Launcher.State.{P4runtime, vacant, Event, sigterm, waited}
use p4_ubpf_scripts.Launcher.Runtimes.{
  is_live, is_idle, add_runtime_entry, stop_rows, shrink_rows, terminate_child,
}

-- `pid > 0 && in_use`
abbrev pub is_busy : P4runtime → Bool
is_busy e = is_live e && e.in_use

abbrev pub live : List P4runtime → ℕ
live = count is_live

abbrev pub busy : List P4runtime → ℕ
busy = count is_busy

abbrev pub idle : List P4runtime → ℕ
idle = count is_idle

-- A row holds a running child, or is vacant.
abbrev pub IsRow : P4runtime → Type 0
IsRow e = (is_live e ≡ true) ⊎ ((e.pid ≡ minus_one) × (e.in_use ≡ false))

pub live-eq-busy-add-idle : (es : List P4runtime) → live es ≡ busy es + idle es
live-eq-busy-add-idle [] = omega arith
live-eq-busy-add-idle (e ∷ es) = ground (arith, live-eq-busy-add-idle es)

module _ (pid : ℤ) where
  pub length-add_runtime_entry :
      (es : List P4runtime) → length (add_runtime_entry pid es) ≡ length es
  unfolding add_runtime_entry
  length-add_runtime_entry [] = refl
  length-add_runtime_entry (e ∷ es) = ground (arith, length-add_runtime_entry es)

  pub busy-add_runtime_entry : (es : List P4runtime) → busy (add_runtime_entry pid es) ≡ busy es
  unfolding add_runtime_entry
  busy-add_runtime_entry [] = refl
  busy-add_runtime_entry (e ∷ es) = ground (arith, busy-add_runtime_entry es)

  module _ (positive : ltb_ℤ (pos 0) pid ≡ true) where
    pub add_runtime_entry-IsRow :
        (es : List P4runtime) → All IsRow es → All IsRow (add_runtime_entry pid es)
    unfolding add_runtime_entry
    add_runtime_entry-IsRow [] rows = tt
    add_runtime_entry-IsRow (e ∷ es) rows = ground (arith, add_runtime_entry-IsRow es)

    -- While a row is vacant, the new child gets one.
    pub live-add_runtime_entry :
        (es : List P4runtime)
        → All IsRow es
        → live es < length es
        → live (add_runtime_entry pid es) ≡ live es + 1
    unfolding add_runtime_entry
    live-add_runtime_entry [] rows room = absurd (omega arith)
    live-add_runtime_entry (e ∷ es) rows room = ground (arith, live-add_runtime_entry es)

pub length-stop_rows :
    (es : List P4runtime) (log : List Event) → length (stop_rows es log).0 ≡ length es
unfolding stop_rows
length-stop_rows [] log = refl
length-stop_rows (e ∷ es) log = ap suc (length-stop_rows es _)

pub stop_rows-vacant :
    (es : List P4runtime) (log : List Event)
    → All IsRow es
    → All (λ e. e ≡ vacant) (stop_rows es log).0
unfolding stop_rows
stop_rows-vacant [] log rows = tt
stop_rows-vacant (e ∷ es) log rows = (ground arith, stop_rows-vacant es _ rows.1)

-- How many runtimes are left when the loop of `adjust_children` begins with `l` of them.
abbrev pub remaining : ℤ → ℕ → List P4runtime → ℕ
remaining target l es = max (pos_part target) (l - idle es)

module _ (target : ℤ) where
  pub length-shrink_rows :
      (es : List P4runtime) (left : ℤ) (log : List Event)
      → length (shrink_rows target left es log).rows ≡ length es
  unfolding shrink_rows
  length-shrink_rows [] left log = ground arith
  length-shrink_rows (e ∷ es) left log = elim (Bool-cases (ltb_ℤ target left)) [
    | inl more ↦ rw (more, shrink_rows) (ap suc (length-shrink_rows es _ _))
    | inr done ↦ rw (done, shrink_rows)
  ]

  pub busy-shrink_rows :
      (es : List P4runtime) (left : ℤ) (log : List Event)
      → busy (shrink_rows target left es log).rows ≡ busy es
  unfolding shrink_rows
  busy-shrink_rows [] left log = refl
  busy-shrink_rows (e ∷ es) left log = elim (Bool-cases (ltb_ℤ target left)) [
    | inl more ↦ rw (more, shrink_rows, busy-shrink_rows es _ _) (ground arith)
    | inr done ↦ rw (done, shrink_rows)
  ]

  pub shrink_rows-IsRow :
      (es : List P4runtime) (left : ℤ) (log : List Event)
      → All IsRow es
      → All IsRow (shrink_rows target left es log).rows
  unfolding shrink_rows
  shrink_rows-IsRow [] left log rows = tt
  shrink_rows-IsRow (e ∷ es) left log rows = elim (Bool-cases (ltb_ℤ target left)) [
    | inl more ↦ rw (more, shrink_rows) (ground arith, shrink_rows-IsRow es _ _ rows.1)
    | inr done ↦ rw (done, shrink_rows) rows
  ]

  -- The loop stops idle runtimes from the first row on, until the target is met or none is idle.
  pub left-shrink_rows :
      (es : List P4runtime) (l : ℕ) (log : List Event)
      → live es ≤ l
      → pos_part target ≤ l
      → (shrink_rows target (pos l) es log).left ≡ pos (remaining target l es)
  unfolding shrink_rows
  left-shrink_rows [] l log fits above = ground arith
  left-shrink_rows (e ∷ es) zero log fits above = elim (Bool-cases (ltb_ℤ target (pos 0))) [
    | inl more ↦
        rw (more, shrink_rows)
          (elim (Bool-cases (is_idle e)) [
            | inl stops ↦ ground arith
            | inr stays ↦ rw stays (ground (arith, left-shrink_rows es 0 log))
          ])
    | inr done ↦ rw (done, shrink_rows) (ground arith)
  ]
  left-shrink_rows (e ∷ es) (suc l) log fits above =
      elim (Bool-cases (ltb_ℤ target (pos (suc l)))) [
        | inl more ↦
            rw (more, shrink_rows)
              (elim (Bool-cases (is_idle e)) [
                | inl stops ↦
                    rw stops (ground (arith, left-shrink_rows es l (terminate_child e.pid log)))
                | inr stays ↦ rw stays (ground (arith, left-shrink_rows es (suc l) log))
              ])
        | inr done ↦ rw (done, shrink_rows) (ground (arith, live-eq-busy-add-idle es))
      ]

  pub live-shrink_rows :
      (es : List P4runtime) (l : ℕ) (log : List Event)
      → live es ≤ l
      → pos_part target ≤ l
      → live (shrink_rows target (pos l) es log).rows + l ≡ live es + remaining target l es
  unfolding shrink_rows
  live-shrink_rows [] l log fits above = ground arith
  live-shrink_rows (e ∷ es) zero log fits above = elim (Bool-cases (ltb_ℤ target (pos 0))) [
    | inl more ↦
        rw (more, shrink_rows)
          (elim (Bool-cases (is_idle e)) [
            | inl stops ↦ ground arith
            | inr stays ↦ rw stays (ground (arith, live-shrink_rows es 0 log))
          ])
    | inr done ↦ rw (done, shrink_rows) (ground arith)
  ]
  live-shrink_rows (e ∷ es) (suc l) log fits above =
      elim (Bool-cases (ltb_ℤ target (pos (suc l)))) [
        | inl more ↦
            rw (more, shrink_rows)
              (elim (Bool-cases (is_idle e)) [
                | inl stops ↦
                    rw stops (ground (arith, live-shrink_rows es l (terminate_child e.pid log)))
                | inr stays ↦ rw stays (ground (arith, live-shrink_rows es (suc l) log))
              ])
        | inr done ↦ rw (done, shrink_rows) (ground (arith, live-eq-busy-add-idle es))
      ]

-- Row by row: it stays, or an idle child got SIGTERM, was waited for, and its row is vacant.
abbrev pub Stops : List P4runtime → List Event → List P4runtime → List Event → Type 0
Stops [] log [] log' = log' ≡ log
Stops [] log (o ∷ os) log' = ⊥
Stops (e ∷ es) log [] log' = ⊥
Stops (e ∷ es) log (o ∷ os) log' =
    ((o ≡ e) × Stops es log os log')
    ⊎ ((is_idle e ≡ true) × (o ≡ vacant) × Stops es (waited e.pid ∷ sigterm e.pid ∷ log) os log')

Stops-refl : (es : List P4runtime) (log : List Event) → Stops es log es log
Stops-refl [] log = refl
Stops-refl (e ∷ es) log = inl (refl, Stops-refl es log)

pub idle-terminated :
    (e : P4runtime) (log : List Event)
    → is_idle e ≡ true
    → terminate_child e.pid log ≡ waited e.pid ∷ sigterm e.pid ∷ log
unfolding terminate_child
idle-terminated e log h = ground arith

-- The loop of `adjust_children` leaves each row as it is, with no event, or empties it where it was
-- idle, with a SIGTERM to its child and a wait for it, in the order of the table.
pub shrink_rows-Stops :
    (target : ℤ) (es : List P4runtime) (left : ℤ) (log : List Event)
    → let out = shrink_rows target left es log in Stops es log out.rows out.log
unfolding shrink_rows
shrink_rows-Stops target [] left log = refl
shrink_rows-Stops target (e ∷ es) left log = elim (Bool-cases (ltb_ℤ target left)) [
  | inr done ↦ rw (done, shrink_rows) (Stops-refl (e ∷ es) log)
  | inl more ↦
      rw (more, shrink_rows)
        (elim (Bool-cases (is_idle e)) [
          | inl stops ↦
              rw (stops, idle-terminated e log stops)
                (inr (refl, refl, shrink_rows-Stops target es _ _))
          | inr stays ↦ rw stays (inl (refl, shrink_rows-Stops target es left log))
        ])
]
