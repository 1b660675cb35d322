-- ===== src/Launcher/Promise/Pool.antt =====
-- `adjust_children` does what the promise allows: it starts children with pids of their own, or
-- ends children that wait.
use p4_ubpf_scripts.Common.{
  ℕ, zero, suc, ℤ, pos, pos_part, ltb_ℤ, ◌==ℤ◌, ◌+◌, ◌≤◌, ◌<◌, ◌≡◌, refl, sym, ◌∙◌, ap, subst, inl,
  inr, true, Bool-cases, sign, below, at_zero, above, List, count, count-map, some, >>=-eq-some,
  arith,
}
use mathlib.Core.Option.{some_inj}
use p4_ubpf_scripts.Launcher.State.{P4runtime, Server, max_connections}
use p4_ubpf_scripts.Launcher.Runtimes.{
  fork_failed, child_started, spawn_runtime_process, spawn_until, start_children, adjust_to,
  adjust_children, shrink_rows, at_most_max,
}
use p4_ubpf_scripts.Launcher.Runtimes.Rows.{live}
use p4_ubpf_scripts.Launcher.Runtimes.Start.{under_max, spawn_runtime_process-Spawned}
use p4_ubpf_scripts.Launcher.Runtimes.Adjust.{at_most_max-le}
use p4_ubpf_scripts.Launcher.Sessions.Rows.{holds, holds-le-has_pid}
use p4_ubpf_scripts.Launcher.Sessions.Linked.{
  NoReuse, IsLinked, new_pid, spawn_runtime_process-IsLinked,
}
use p4_ubpf_scripts.Launcher.Sessions.Link.{IsSound}
use p4_ubpf_scripts.Launcher.Promise.{starts, one_if, served_by, run}
use p4_ubpf_scripts.Launcher.Promise.Laws.{waiting_ext, starts_lem}
use p4_ubpf_scripts.Launcher.Promise.View.{
  waiting_in, runtime_id, view, Follows, Follows-trans, Follows-same, Follows-by, waits-le-has_pid,
  waits-add_runtime_entry, shrink_rows-Shrinks,
}

shrunk-Follows :
    (target : ℤ) (s : Server)
    → let out = shrink_rows target s.runtimes s.runtimes_table s.events in
      Follows s (record s { runtimes_table = out.rows; runtimes = out.left; events = out.log })
shrunk-Follows target s =
    let rows = s.runtimes_table in
    let out = shrink_rows target s.runtimes rows s.events in
    let shrinks = shrink_rows-Shrinks (view s).serving target rows s.runtimes s.events (λ q. 0) in
    let alone = λ (es : List P4runtime).
      waiting_ext (view s) (λ q. 0 + waiting_in es q) (waiting_in es) (λ q. omega arith) in
    record {
      acts = shrinks.acts;
      done = ap (run shrinks.acts) (sym (alone rows)) ∙ shrinks.done ∙ ap some (alone out.rows);
      noted = shrinks.noted;
    }

module _ (fork : ℕ → ℤ) where
  -- The sessions that a child serves are as many as the rows in which it is in use.
  pub served_by-holds :
      (s : Server) (p : ℤ)
      → IsLinked fork s
      → ltb_ℤ (pos 0) p ≡ true
      → served_by p (view s).serving ≡ count (holds p) s.runtimes_table
  served_by-holds s p linked positive =
      count-map (λ id. id ==ℤ p) runtime_id s.session_table ∙ sym (linked.balance p positive)

  module _ (no_reuse : NoReuse fork) where
    child_started-Follows :
        (s : Server)
        → IsSound fork s
        → live s.runtimes_table < max_connections
        → ltb_ℤ (pos 0) (fork s.forks) ≡ true
        → Follows s (child_started (fork s.forks) s)
    child_started-Follows s sound room positive =
        let pid = fork s.forks in
        let rows = s.runtimes_table in
        let fresh = new_pid fork no_reuse s sound.linked positive in
        let served = served_by-holds s pid sound.linked positive in
        Follows-by (starts pid)
          (starts_lem (view s) pid positive (omega (arith, waits-le-has_pid pid rows, fresh))
              (omega (arith, served, holds-le-has_pid pid rows, fresh))
            ∙ ap some (
                waiting_ext (view s) (λ q. waiting_in rows q + one_if pid q) _
                  (λ q. sym (
                    waits-add_runtime_entry q pid rows positive sound.valid.rows
                      (omega (arith, room, sound.valid.pool_size))))))
          refl

    spawn_runtime_process-Follows :
        (s t : Server)
        → IsSound fork s
        → live s.runtimes_table < max_connections
        → spawn_runtime_process fork s ≡ some t
        → Follows s t
    unfolding spawn_runtime_process
    spawn_runtime_process-Follows s t sound room e = elim (sign (fork s.forks)) [
      | below failed ↦
          subst (Follows s) (some_inj.0 (rw failed at e))
            (Follows-same {t = fork_failed s} refl refl)
      | at_zero a b ↦ cc (rw (a, b) at e)
      | above a b positive ↦
          subst (Follows s) (some_inj.0 (rw (a, b) at e))
            (child_started-Follows s sound room positive)
    ]

    pub spawn_until-Follows :
        (fuel : ℕ) (num : ℤ) (s t : Server)
        → pos_part num ≤ max_connections
        → IsSound fork s
        → spawn_until fork fuel num s ≡ some t
        → Follows s t
    unfolding spawn_until
    spawn_until-Follows zero num s t small sound e = elim (Bool-cases (ltb_ℤ s.runtimes num)) [
      | inl more ↦ cc (rw more at e)
      | inr done ↦ subst (Follows s) (some_inj.0 (rw done at e)) (Follows-same refl refl)
    ]
    spawn_until-Follows (suc fuel) num s t small sound e =
        elim (Bool-cases (ltb_ℤ s.runtimes num)) [
          | inr done ↦
              subst (Follows s) (some_inj.0 (rw (done, spawn_until) at e)) (Follows-same refl refl)
          | inl more ↦
              let (m, e₁, e₂) =
                >>=-eq-some (spawn_runtime_process fork s) (spawn_until fork fuel num)
                  (rw (more, spawn_until) at e) in
              let short = under_max num s sound.valid small more in
              let room : live s.runtimes_table < max_connections = omega (arith, short, small) in
              let next : IsSound fork m = record {
                valid = (spawn_runtime_process-Spawned fork s sound.valid m room e₁).valid;
                linked = spawn_runtime_process-IsLinked fork no_reuse s m sound.linked e₁;
              } in
              Follows-trans (spawn_runtime_process-Follows s m sound room e₁)
                (spawn_until-Follows fuel num m t small next e₂)
        ]

    pub adjust_children-Follows :
        (fuel : ℕ) (target : ℤ) (s t : Server)
        → IsSound fork s
        → adjust_children fork fuel target s ≡ some t
        → Follows s t
    unfolding adjust_children adjust_to start_children
    adjust_children-Follows fuel target s t sound e = elim (Bool-cases (target ==ℤ s.runtimes)) [
      | inl same ↦ subst (Follows s) (some_inj.0 (rw same at e)) (Follows-same refl refl)
      | inr differs ↦
          let goal = at_most_max target in
          elim (Bool-cases (ltb_ℤ s.runtimes goal)) [
            | inl more ↦
                spawn_until-Follows fuel (at_most_max goal) s t (at_most_max-le goal) sound
                  (rw (differs, more) at e)
            | inr less ↦
                subst (Follows s) (some_inj.0 (rw (differs, less) at e)) (shrunk-Follows goal s)
          ]
    ]
