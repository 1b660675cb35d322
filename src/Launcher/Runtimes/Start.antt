-- ===== src/Launcher/Runtimes/Start.antt =====
-- `start_children`: how many runtimes it leaves, when it comes back and when it never does.
use p4_ubpf_scripts.Common.{
  ℕ, zero, suc, ℤ, pos, pos_part, ltb_ℤ, ◌+◌, ◌≤◌, ◌<◌, max, ◌≡◌, ◌≢◌, refl, inl, inr, Bool, true,
  false, sign, below, at_zero, above, subst, ==ℤ_iff, ◌∙◌, if◌then◌else◌, none, some, >>=-eq-some,
  arith, Bool-cases,
}
use p4_ubpf_scripts.Launcher.State.{Server, max_connections}
use p4_ubpf_scripts.Launcher.Invariant.{IsValid}
use p4_ubpf_scripts.Launcher.Runtimes.Rows.{
  live, busy, length-add_runtime_entry, busy-add_runtime_entry, add_runtime_entry-IsRow,
  live-add_runtime_entry,
}
use mathlib.Core.Option.{some_inj}
use p4_ubpf_scripts.Launcher.Runtimes.{
  spawn_runtime_process, spawn_until, fork_failed, child_started,
}

-- What spawning leaves: at least `n` runtimes, none stopped, none taken into use.
pub record Started (n : ℕ) (s t : Server) : Type 0 where
  pub valid : IsValid t
  pub enough : live t.runtimes_table ≡ max (live s.runtimes_table) n
  pub busy_rows : busy t.runtimes_table ≡ busy s.runtimes_table
  pub sessions : t.session_table ≡ s.session_table
  pub lock : t.table_locked ≡ s.table_locked

module _ (fork : ℕ → ℤ) where
  abbrev pub succeeds : ℕ → Bool
  succeeds k = ltb_ℤ (pos 0) (fork k)

  -- the successes among the `n` calls from call number `k` on
  abbrev pub successes : ℕ → ℕ → ℕ
  successes k zero = 0
  successes k (suc n) = (if succeeds k then 1 else 0) + successes (k + 1) n

  -- One round of the loop: with room in the table a success adds one idle runtime.
  pub record Spawned (s t : Server) : Type 0 where
    pub next_fork : t.forks ≡ s.forks + 1
    pub valid : IsValid t
    pub more : live t.runtimes_table ≡ live s.runtimes_table + (if succeeds s.forks then 1 else 0)
    pub busy_rows : busy t.runtimes_table ≡ busy s.runtimes_table
    pub sessions : t.session_table ≡ s.session_table
    pub lock : t.table_locked ≡ s.table_locked

  module _ (s : Server) (v : IsValid s) where
    pub fork_failed-Spawned : ltb_ℤ (fork s.forks) (pos 0) ≡ true → Spawned s (fork_failed s)
    fork_failed-Spawned failed = record {
      next_fork = refl;
      valid = ground arith;
      more = ground arith;
      busy_rows = refl;
      sessions = refl;
      lock = refl;
    }

    pub child_started-Spawned :
        live s.runtimes_table < max_connections
        → ltb_ℤ (pos 0) (fork s.forks) ≡ true
        → Spawned s (child_started (fork s.forks) s)
    child_started-Spawned room positive =
        let pid = fork s.forks in
        let grown =
          live-add_runtime_entry pid positive s.runtimes_table v.rows
            (omega (arith, v.pool_size)) in
        record {
          next_fork = refl;
          valid = record {
            pool_size = omega (arith, length-add_runtime_entry pid s.runtimes_table, v.pool_size);
            sessions_size = v.sessions_size;
            rows = add_runtime_entry-IsRow pid positive s.runtimes_table v.rows;
            counted = rw (v.counted, grown);
          };
          more = rw (grown, positive);
          busy_rows = busy-add_runtime_entry pid s.runtimes_table;
          sessions = refl;
          lock = refl;
        }

    pub spawn_runtime_process-Spawned :
        (t : Server)
        → live s.runtimes_table < max_connections
        → spawn_runtime_process fork s ≡ some t
        → Spawned s t
    unfolding spawn_runtime_process
    spawn_runtime_process-Spawned t room e = elim (sign (fork s.forks)) [
      | below failed ↦ subst (Spawned s) (some_inj.0 (rw failed at e)) (fork_failed-Spawned failed)
      | at_zero a b ↦ cc (rw (a, b) at e)
      | above a b positive ↦
          subst (Spawned s) (some_inj.0 (rw (a, b) at e)) (child_started-Spawned room positive)
    ]

stays-Started :
    (num : ℤ) (s : Server) → IsValid s → ltb_ℤ s.runtimes num ≡ false → Started (pos_part num) s s
stays-Started num s v e = record {
  valid = v;
  enough = ground arith;
  busy_rows = refl;
  sessions = refl;
  lock = refl;
}

-- `runtimes < num` of the loop, on the table's own count.
pub under_max :
    (num : ℤ) (s : Server)
    → IsValid s
    → pos_part num ≤ max_connections
    → ltb_ℤ s.runtimes num ≡ true
    → live s.runtimes_table < pos_part num
under_max num s v small e = ground arith

pub enough_stops :
    (num : ℤ) (s : Server)
    → IsValid s
    → pos_part num ≤ live s.runtimes_table
    → ltb_ℤ s.runtimes num ≡ false
enough_stops num s v h = ground arith

module _ (fork : ℕ → ℤ) where
  Spawned-Started :
      (n : ℕ) {s m t : Server}
      → Spawned fork s m
      → live s.runtimes_table < n
      → Started n m t
      → Started n s t
  Spawned-Started n round short rest = record {
    valid = rest.valid;
    enough = ground (arith, round.more, rest.enough);
    busy_rows = rest.busy_rows ∙ round.busy_rows;
    sessions = rest.sessions ∙ round.sessions;
    lock = rest.lock ∙ round.lock;
  }

  spawn_runtime_process-failed :
      (s : Server)
      → ltb_ℤ (fork s.forks) (pos 0) ≡ true
      → spawn_runtime_process fork s ≡ some (fork_failed s)
  unfolding spawn_runtime_process
  spawn_runtime_process-failed s failed = rw failed

  -- fork returns 0 in the child only.
  spawn_runtime_process-returns :
      (s : Server) → fork s.forks ≢ pos 0 → (t : Server) × (spawn_runtime_process fork s ≡ some t)
  unfolding spawn_runtime_process
  spawn_runtime_process-returns s launcher = elim (sign (fork s.forks)) [
    | below failed ↦ (fork_failed s, rw failed)
    | at_zero a b ↦ absurd (launcher ((==ℤ_iff _ _).0 b))
    | above a b positive ↦ (child_started (fork s.forks) s, rw (a, b))
  ]

module _ (fork : ℕ → ℤ) (num : ℤ) (small : pos_part num ≤ max_connections) where
  -- Whenever the loop of `start_children` comes back, the pool has `num` runtimes or more.
  pub spawn_until-Started :
      (fuel : ℕ) (s t : Server)
      → IsValid s
      → spawn_until fork fuel num s ≡ some t
      → Started (pos_part num) s t
  unfolding spawn_until
  spawn_until-Started zero s t v e = elim (Bool-cases (ltb_ℤ s.runtimes num)) [
    | inl more ↦ cc (rw more at e)
    | inr done ↦
        subst (Started (pos_part num) s) (some_inj.0 (rw done at e)) (stays-Started num s v done)
  ]
  spawn_until-Started (suc fuel) s t v e = elim (Bool-cases (ltb_ℤ s.runtimes num)) [
    | inr done ↦
        subst (Started (pos_part num) s) (some_inj.0 (rw (done, spawn_until) at e))
          (stays-Started num s v done)
    | inl more ↦
        let (m, e₁, e₂) =
          >>=-eq-some (spawn_runtime_process fork s) (spawn_until fork fuel num)
            (rw (more, spawn_until) at e) in
        let short : live s.runtimes_table < pos_part num = under_max num s v small more in
        let round = spawn_runtime_process-Spawned fork s v m (omega arith) e₁ in
        let rest = spawn_until-Started fuel m t round.valid e₂ in
        Spawned-Started fork (pos_part num) round short rest
  ]

  -- A loop that is still short of runtimes goes round for as long as fork fails.
  pub spawn_until-spins :
      (fuel : ℕ) (s : Server)
      → ltb_ℤ s.runtimes num ≡ true
      → ((k : ℕ) → s.forks ≤ k → ltb_ℤ (fork k) (pos 0) ≡ true)
      → spawn_until fork fuel num s ≡ none
  unfolding spawn_until
  spawn_until-spins zero s more fails = rw more
  spawn_until-spins (suc fuel) s more fails =
      rw (more, spawn_until, spawn_runtime_process-failed fork s (fails s.forks (omega arith)))
        (spawn_until-spins fuel (fork_failed s) more (λ k h. fails k (omega arith)))

  -- Enough successful calls of fork among the next `fuel` bring the loop back.
  pub spawn_until-returns :
      ((k : ℕ) → fork k ≢ pos 0)
      → (fuel : ℕ) (s : Server) → IsValid s
      → pos_part num ≤ live s.runtimes_table + successes fork s.forks fuel
      → (t : Server) × (spawn_until fork fuel num s ≡ some t)
  unfolding spawn_until
  spawn_until-returns launcher zero s v need = (s, rw (enough_stops num s v (omega arith)))
  spawn_until-returns launcher (suc fuel) s v need = elim (Bool-cases (ltb_ℤ s.runtimes num)) [
    | inr done ↦ (s, rw (done, spawn_until))
    | inl more ↦
        let (m, e₁) = spawn_runtime_process-returns fork s (launcher s.forks) in
        let short : live s.runtimes_table < pos_part num = under_max num s v small more in
        let round = spawn_runtime_process-Spawned fork s v m (omega arith) e₁ in
        let (t, e₂) =
          spawn_until-returns launcher fuel m round.valid
            (rw round.next_fork (omega (arith, round.more, need))) in
        (t, rw (more, spawn_until, e₁) e₂)
  ]
