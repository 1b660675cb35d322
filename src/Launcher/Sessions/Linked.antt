-- ===== src/Launcher/Sessions/Linked.antt =====
-- The pool and the session table agree on who serves whom; spawning and stopping keep it so.
use mathlib.Core.Option.{some_inj}
use native.Mathlib.Decide.{dec_lt}
use p4_ubpf_scripts.Common.{
  ℕ, zero, suc, ℤ, pos, minus_one, ltb_ℤ, ◌==ℤ◌, ==ℤ_iff, ◌≤◌, ◌<◌, ◌≡◌, ◌∙◌, subst, ◌⊎◌, inl, inr,
  Bool, true, some, >>=-eq-some, arith, count, All, Bool-cases, sign, below, at_zero, above,
}
use p4_ubpf_scripts.Launcher.State.{Connection, Server}
use p4_ubpf_scripts.Launcher.Runtimes.{
  fork_failed, child_started, spawn_runtime_process, spawn_until, start_children, adjust_to,
  adjust_children, shrink_rows, at_most_max, add_runtime_entry,
}
use p4_ubpf_scripts.Launcher.Runtimes.Rows.{busy, busy-add_runtime_entry, busy-shrink_rows}
use p4_ubpf_scripts.Launcher.Sessions.Rows.{
  has_pid, holds, holds-add_runtime_entry, has_pid-add_runtime_entry, holds-shrink_rows,
  has_pid-shrink_rows,
}

abbrev pub linked_to : ℤ → Connection → Bool
linked_to p c = c.p4runtime_id ==ℤ p

abbrev pub is_linked : Connection → Bool
is_linked c = ltb_ℤ (pos 0) c.p4runtime_id

-- `p4runtime_id` is a pid or -1.
abbrev pub IsSessionId : Connection → Type 0
IsSessionId c = (is_linked c ≡ true) ⊎ (c.p4runtime_id ≡ minus_one)

-- As long as the launcher runs, no pid is given out twice.
abbrev pub NoReuse : (ℕ → ℤ) → Type 0
NoReuse fork = (j k : ℕ) → ltb_ℤ (pos 0) (fork j) ≡ true → fork j ≡ fork k → j ≡ k

module _ (fork : ℕ → ℤ) where
  -- A child is in use in as many rows of the pool as sessions are linked to it, the pool has it
  -- once at most, and it came from an earlier call of fork.
  pub record IsLinked (s : Server) : Type 0 where
    pub ids : All IsSessionId s.session_table
    pub total : busy s.runtimes_table ≡ count is_linked s.session_table
    pub balance :
        (p : ℤ)
        → ltb_ℤ (pos 0) p ≡ true
        → count (holds p) s.runtimes_table ≡ count (linked_to p) s.session_table
    pub unique : (p : ℤ) → ltb_ℤ (pos 0) p ≡ true → count (has_pid p) s.runtimes_table ≤ 1
    pub issued :
        (p : ℤ)
        → ltb_ℤ (pos 0) p ≡ true
        → 0 < count (has_pid p) s.runtimes_table
        → (j : ℕ) × (j < s.forks) × (fork j ≡ p)

  fork_failed-IsLinked : (s : Server) → IsLinked s → IsLinked (fork_failed s)
  fork_failed-IsLinked s l = record {
    ids = l.ids;
    total = l.total;
    balance = l.balance;
    unique = l.unique;
    issued = λ p h k. let (j, lt, e) = l.issued p h k in (j, omega arith, e);
  }

  module _ (no_reuse : NoReuse fork) where
    -- The new child is in no row yet.
    pub new_pid :
        (s : Server)
        → IsLinked s
        → ltb_ℤ (pos 0) (fork s.forks) ≡ true
        → count (has_pid (fork s.forks)) s.runtimes_table ≡ 0
    new_pid s l positive = elim (dec_lt 0 (count (has_pid (fork s.forks)) s.runtimes_table)) [
      | yes there ↦
          let (j, lt, e) = l.issued (fork s.forks) positive there in
          absurd (omega (arith, no_reuse j s.forks (rw e positive) e, lt))
      | no absent ↦ omega arith
    ]

    -- The rows with a pid `p` after the spawn: one more if `p` is the new child, else none more.
    added :
        (s : Server) (p : ℤ)
        → IsLinked s
        → ltb_ℤ (pos 0) (fork s.forks) ≡ true
        → let grown = count (has_pid p) (add_runtime_entry (fork s.forks) s.runtimes_table) in
          ((fork s.forks ≡ p) × (grown ≤ 1)) ⊎ (grown ≤ count (has_pid p) s.runtimes_table)
    added s p l positive = elim (Bool-cases (fork s.forks ==ℤ p)) [
      | inl same ↦
          let here = (==ℤ_iff (fork s.forks) p).0 same in
          let most = has_pid-add_runtime_entry p (fork s.forks) s.runtimes_table in
          inl (
            here,
            omega (
              arith,
              rw same at most,
              subst (λ q. count (has_pid q) s.runtimes_table ≡ 0) here (new_pid s l positive),
            ),
          )
      | inr differs ↦
          let most = has_pid-add_runtime_entry p (fork s.forks) s.runtimes_table in
          inr (omega (arith, rw differs at most))
    ]

    pub child_started-IsLinked :
        (s : Server)
        → IsLinked s
        → ltb_ℤ (pos 0) (fork s.forks) ≡ true
        → IsLinked (child_started (fork s.forks) s)
    child_started-IsLinked s l positive =
        let pid = fork s.forks in
        let rows = s.runtimes_table in
        record {
          ids = l.ids;
          total = busy-add_runtime_entry pid rows ∙ l.total;
          balance = λ p h. holds-add_runtime_entry p pid rows ∙ l.balance p h;
          unique = λ p h. elim (added s p l positive) [
            | inl (_, one) ↦ one
            | inr more ↦ omega (arith, more, l.unique p h)
          ];
          issued = λ p h k. elim (added s p l positive) [
            | inl (here, _) ↦ (s.forks, omega arith, here)
            | inr more ↦
                let (j, lt, e) = l.issued p h (omega (arith, more, k)) in (j, omega arith, e)
          ];
        }

    pub spawn_runtime_process-IsLinked :
        (s t : Server) → IsLinked s → spawn_runtime_process fork s ≡ some t → IsLinked t
    unfolding spawn_runtime_process
    spawn_runtime_process-IsLinked s t l e = elim (sign (fork s.forks)) [
      | below failed ↦ subst IsLinked (some_inj.0 (rw failed at e)) (fork_failed-IsLinked s l)
      | at_zero a b ↦ cc (rw (a, b) at e)
      | above a b positive ↦
          subst IsLinked (some_inj.0 (rw (a, b) at e)) (child_started-IsLinked s l positive)
    ]

    pub spawn_until-IsLinked :
        (fuel : ℕ) (num : ℤ) (s t : Server)
        → IsLinked s
        → spawn_until fork fuel num s ≡ some t
        → IsLinked t
    unfolding spawn_until
    spawn_until-IsLinked zero num s t l e = elim (Bool-cases (ltb_ℤ s.runtimes num)) [
      | inl more ↦ cc (rw more at e)
      | inr done ↦ subst IsLinked (some_inj.0 (rw done at e)) l
    ]
    spawn_until-IsLinked (suc fuel) num s t l e = elim (Bool-cases (ltb_ℤ s.runtimes num)) [
      | inr done ↦ subst IsLinked (some_inj.0 (rw (done, spawn_until) at e)) l
      | inl more ↦
          let (m, e₁, e₂) =
            >>=-eq-some (spawn_runtime_process fork s) (spawn_until fork fuel num)
              (rw (more, spawn_until) at e) in
          spawn_until-IsLinked fuel num m t (spawn_runtime_process-IsLinked s m l e₁) e₂
    ]

    shrunk-IsLinked :
        (target : ℤ) (s : Server)
        → IsLinked s
        → (let out = shrink_rows target s.runtimes s.runtimes_table s.events in
            IsLinked
              (record s { runtimes_table = out.rows; runtimes = out.left; events = out.log }))
    shrunk-IsLinked target s l =
        let rows = s.runtimes_table in
        let fewer = λ (p : ℤ) (h : ltb_ℤ (pos 0) p ≡ true).
          has_pid-shrink_rows p target rows s.runtimes s.events h in
        record {
          ids = l.ids;
          total = busy-shrink_rows target rows s.runtimes s.events ∙ l.total;
          balance = λ p h. holds-shrink_rows p target rows s.runtimes s.events ∙ l.balance p h;
          unique = λ p h. omega (arith, fewer p h, l.unique p h);
          issued = λ p h k. l.issued p h (omega (arith, fewer p h));
        }

    -- `adjust_children` neither links a session nor unlinks one.
    pub adjust_children-IsLinked :
        (fuel : ℕ) (target : ℤ) (s t : Server)
        → IsLinked s
        → adjust_children fork fuel target s ≡ some t
        → IsLinked t
    unfolding adjust_children adjust_to start_children
    adjust_children-IsLinked fuel target s t l e = elim (Bool-cases (target ==ℤ s.runtimes)) [
      | inl same ↦ subst IsLinked (some_inj.0 (rw same at e)) l
      | inr differs ↦ elim (Bool-cases (ltb_ℤ s.runtimes (at_most_max target))) [
        | inl more ↦
            spawn_until-IsLinked fuel (at_most_max (at_most_max target)) s t l
              (rw (differs, more) at e)
        | inr less ↦
            subst IsLinked (some_inj.0 (rw (differs, less) at e))
              (shrunk-IsLinked (at_most_max target) s l)
      ]
    ]
