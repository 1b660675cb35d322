-- ===== src/Former/Same.antt =====
-- Where the former launcher does what the present one does, and where it does not.
use p4_ubpf_scripts.Common.{
  ℕ, zero, suc, ℤ, pos, minus_one, pos_part, ltb_ℤ, decrement, ◌==ℤ◌, ◌+◌, ◌-◌, ◌≤◌, ◌<◌, ◌≡◌, refl,
  sym, ap, inl, inr, ◌⊎◌, true, false, not, ◌&&◌, List, [], ◌∷◌, All, some, arith, Bool-cases, sign,
  below, at_zero, above,
}
use p4_ubpf_scripts.Launcher.State.{P4runtime, vacant, Event, sigterm, waited, Server}
use p4_ubpf_scripts.Launcher.Invariant.{IsValid}
use p4_ubpf_scripts.Launcher.Runtimes.{
  is_live, is_idle, at_most_max, stop_rows, child_started, terminate_child, shrink_rows, Shrunk,
  spawn_runtime_process, spawn_until, find_free_runtime_index,
}
use p4_ubpf_scripts.Launcher.Runtimes
use p4_ubpf_scripts.Launcher.Runtimes.Rows.{
  live, idle, live-eq-busy-add-idle, IsRow, idle-terminated,
}
use p4_ubpf_scripts.Launcher.Runtimes.Adjust.{live-le}
use p4_ubpf_scripts.Former.{
  end_idle, count_in_use, shrink, start_from, start_children, adjust_children, find_unused,
}
use p4_ubpf_scripts.Former.Adjust.{end_idle-IsRow, busy-end_idle, count_in_use-busy}

idle_unused : (e : P4runtime) → is_idle e ≡ true → e.in_use ≡ false
idle_unused e h = ground arith

emptied :
    (e : P4runtime) → is_idle e ≡ true → ◌≡◌ {A = P4runtime} (record e { pid = minus_one }) vacant
emptied e h = rw (idle_unused e h) refl

end_idle-none : (es : List P4runtime) (log : List Event) → idle es ≡ 0 → end_idle es log ≡ (es, log)
unfolding end_idle
end_idle-none [] log none_idle = refl
end_idle-none (e ∷ es) log none_idle = elim (Bool-cases (is_idle e)) [
  | inl idle_row ↦ absurd (omega (arith, rw idle_row at none_idle))
  | inr other ↦ rw (other, end_idle-none es log (omega (arith, rw other at none_idle))) refl
]

abbrev ended : List P4runtime → ℕ → List Event → Shrunk
ended es l log = record {
  rows = (end_idle es log).0;
  left = pos (l - idle es);
  log = (end_idle es log).1;
}

abbrev put : P4runtime → List P4runtime × List Event → ℕ → Shrunk
put o out left = record { rows = o ∷ out.0; left = pos left; log = out.1 }

reached : (target : ℤ) (l : ℕ) → ltb_ℤ target (pos l) ≡ false → l ≤ pos_part target
reached target l h = ground arith

decrement_pos : (l : ℕ) → 0 < l → decrement (pos l) ≡ pos (l - 1)
decrement_pos l h = ground arith

-- While no more children are idle than are to go, both loops end all the idle ones.
shrink_rows-end_idle :
    (target : ℤ) (es : List P4runtime) (l : ℕ) (log : List Event)
    → pos_part target + idle es ≤ l
    → shrink_rows target (pos l) es log ≡ ended es l log
unfolding shrink_rows end_idle
shrink_rows-end_idle target [] l log h =
    ap (λ n. record { rows = []; left = pos n; log = log }) (omega arith)
shrink_rows-end_idle target (e ∷ es) l log h = elim (Bool-cases (ltb_ℤ target (pos l))) [
  | inr done ↦
      let none_idle : idle (e ∷ es) ≡ 0 = omega (arith, h, reached target l done) in
      let kept = sym (end_idle-none (e ∷ es) log none_idle) in
      let size : l ≡ l - idle (e ∷ es) = omega (arith, none_idle) in
      rw (done, shrink_rows)
        (λ i. record { rows = (kept i).0; left = pos (size i); log = (kept i).1 })
  | inl more ↦ elim (Bool-cases (is_idle e)) [
    | inl idle_row ↦
        let one : idle (e ∷ es) ≡ 1 + idle es = rw idle_row refl in
        let log' = waited e.pid ∷ sigterm e.pid ∷ log in
        let rest = shrink_rows-end_idle target es (l - 1) log' (omega (arith, h, one)) in
        rw
          (
            more,
            shrink_rows,
            idle_row,
            idle-terminated e log idle_row,
            decrement_pos l (omega (arith, h, one)),
            rest,
          )
          (rw (idle_unused e idle_row) (ap (put vacant (end_idle es log')) (omega arith)))
    | inr other ↦
        let rest = shrink_rows-end_idle target es l log (omega (arith, rw other at h)) in
        rw (more, shrink_rows, other, rest) (ap (put e (end_idle es log)) (omega arith))
  ]
]

no_failure : (x : ℤ) → ltb_ℤ (pos 0) x ≡ true → ltb_ℤ x (pos 0) ≡ false
no_failure x h = ground arith

no_child : (x : ℤ) → ltb_ℤ (pos 0) x ≡ true → (x ==ℤ pos 0) ≡ false
no_child x h = ground arith

shrink_rows-done :
    (target left : ℤ) (es : List P4runtime) (log : List Event)
    → ltb_ℤ target left ≡ false
    → shrink_rows target left es log ≡ record { rows = es; left = left; log = log }
unfolding shrink_rows
shrink_rows-done target left [] log h = refl
shrink_rows-done target left (e ∷ es) log h = rw (h, shrink_rows) refl

-- With forks that succeed both loops start the same children.
start_from-spawn_until :
    (fork : ℕ → ℤ)
    → ((k : ℕ) → ltb_ℤ (pos 0) (fork k) ≡ true)
    → (fuel : ℕ) (num : ℤ) (s : Server) → start_from fork fuel num s ≡ spawn_until fork fuel num s
unfolding start_from spawn_until spawn_runtime_process
start_from-spawn_until fork succeed zero num s = refl
start_from-spawn_until fork succeed (suc fuel) num s = elim (Bool-cases (ltb_ℤ s.runtimes num)) [
  | inr done ↦ rw (done, start_from, spawn_until) refl
  | inl more ↦ elim (sign (fork s.forks)) [
    | below failed ↦ cc (no_failure (fork s.forks) (succeed s.forks), failed)
    | at_zero a b ↦ cc (no_child (fork s.forks) (succeed s.forks), b)
    | above a b positive ↦
        rw (more, start_from, spawn_until, a, b)
          (start_from-spawn_until fork succeed fuel num (child_started (fork s.forks) s))
  ]
]

shrink-shrink_rows :
    (target : ℤ) (s : Server)
    → IsValid s
    → pos_part target + idle s.runtimes_table ≤ live s.runtimes_table
    → ◌≡◌ {A = Server} (shrink s) (
        let out = shrink_rows target s.runtimes s.runtimes_table s.events in
        record s { runtimes_table = out.rows; runtimes = out.left; events = out.log })
unfolding shrink
shrink-shrink_rows target s v few =
    let rows = s.runtimes_table in
    let out = shrink_rows-end_idle target rows (live rows) s.events few in
    let good = end_idle-IsRow rows s.events v.rows in
    let left : count_in_use (end_idle rows s.events).0 ≡ live rows - idle rows = omega (
      arith,
      count_in_use-busy (end_idle rows s.events).0 good,
      busy-end_idle rows s.events,
      live-eq-busy-add-idle rows,
    ) in
    rw (v.counted, out, left) refl

room :
    (target : ℤ) (s : Server)
    → IsValid s
    → ltb_ℤ (at_most_max target) s.runtimes ≡ true
    → (live s.runtimes_table ≤ pos_part target)
      ⊎ (pos_part target + idle s.runtimes_table ≤ live s.runtimes_table)
    → pos_part (at_most_max target) + idle s.runtimes_table ≤ live s.runtimes_table
room target s v less (inl large) =
    ground (arith, live-le s v, live-eq-busy-add-idle s.runtimes_table)
room target s v less (inr few) = ground (arith, live-le s v, live-eq-busy-add-idle s.runtimes_table)

-- From a well-formed state, if every fork succeeds and the number asked for is no smaller than the
-- pool, or so small that every idle child has to go, the former and the present `adjust_children`
-- give the same result, in whatever fuel.
pub adjust_children-agrees :
    (fork : ℕ → ℤ) (fuel : ℕ) (target : ℤ) (s : Server)
    → IsValid s
    → ((k : ℕ) → ltb_ℤ (pos 0) (fork k) ≡ true)
    → (live s.runtimes_table ≤ pos_part target)
      ⊎ (pos_part target + idle s.runtimes_table ≤ live s.runtimes_table)
    → adjust_children fork fuel target s ≡ Runtimes.adjust_children fork fuel target s
unfolding adjust_children start_children Runtimes.adjust_children Runtimes.adjust_to
    Runtimes.start_children
adjust_children-agrees fork fuel target s v succeed sized =
    elim (Bool-cases (target ==ℤ s.runtimes)) [
      | inl same ↦ rw same refl
      | inr differs ↦
          let goal = at_most_max target in
          elim (Bool-cases (ltb_ℤ s.runtimes goal)) [
            | inl more ↦
                rw (differs, more) (start_from-spawn_until fork succeed fuel (at_most_max goal) s)
            | inr enough ↦ elim (Bool-cases (ltb_ℤ goal s.runtimes)) [
              | inl less ↦
                  let few : pos_part goal + idle s.runtimes_table ≤ live s.runtimes_table =
                    room target s v less sized in
                  rw (differs, enough, less) (ap some (shrink-shrink_rows goal s v few))
              | inr full ↦
                  rw
                    (
                      differs,
                      enough,
                      full,
                      shrink_rows-done goal s.runtimes s.runtimes_table s.events full,
                    )
                    refl
            ]
          ]
    ]

-- In a well-formed pool a row whose id is not -1 holds a child.
pub find_unused-agrees :
    (es : List P4runtime) → All IsRow es → find_unused es ≡ find_free_runtime_index es
unfolding find_unused find_free_runtime_index
find_unused-agrees [] rows = refl
find_unused-agrees (e ∷ es) rows =
    let test : (not (e.pid ==ℤ minus_one) && not e.in_use) ≡ is_idle e = ground arith in
    rw (test, find_unused-agrees es rows.1) refl
