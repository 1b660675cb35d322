-- ===== src/Launcher/Sessions/Total.antt =====
-- `check_ovs_sessions` comes back, and leaves the tables in agreement.
use p4_ubpf_scripts.Common.{
  ℕ, zero, suc, ℤ, pos, pos_part, increment, decrement, ◌+◌, ◌≤◌, ◌<◌, ◌≡◌, ◌≢◌, refl, sym, subst,
  inl, inr, some, map, ◌∙◌, All, All-of_get_or, map_ext_get_or, arith, Bool-cases,
}
use p4_ubpf_scripts.Launcher.State.{Connection, Server, max_connections}
use p4_ubpf_scripts.Launcher.Invariant.{IsValid}
use p4_ubpf_scripts.Launcher.Runtimes.{at_most_max, find_free_runtime_index}
use p4_ubpf_scripts.Launcher.Runtimes.Rows.{live}
use p4_ubpf_scripts.Launcher.Runtimes.Start.{successes}
use p4_ubpf_scripts.Launcher.Runtimes.Adjust.{adjust_children-returns}
use p4_ubpf_scripts.Launcher.Sessions.{
  no_session, session, is_new, is_lost, link_to, link_add, link_del, unlink, check_session,
  check_from, check_ovs_sessions,
}
use p4_ubpf_scripts.Launcher.Sessions.Linked.{NoReuse}
use p4_ubpf_scripts.Launcher.Sessions.Link.{IsSound}
use p4_ubpf_scripts.Launcher.Sessions.Valid.{unlink-IsValid}
use p4_ubpf_scripts.Launcher.Sessions.Check.{
  IsSettled, check_session-new, check_session-Checked, check_from-Passed,
}

-- fork returns 0 in the child only, so never to the launcher.
abbrev pub InParent : (ℕ → ℤ) → Type 0
InParent fork = (k : ℕ) → fork k ≢ pos 0

-- Among any `fuel` successive calls of fork one succeeds.
abbrev pub Recovers : (ℕ → ℤ) → ℕ → Type 0
Recovers fork fuel = (k : ℕ) → 0 < successes fork k fuel

abbrev pub ovs_id : Connection → ℤ
ovs_id c = c.ovs_thread_id

one_more-le :
    (s : Server)
    → IsValid s
    → pos_part (at_most_max (increment s.runtimes)) ≤ live s.runtimes_table + 1
one_more-le s v = ground (arith, v.counted)

below_self : (n : ℕ) → pos_part (at_most_max (decrement (pos n))) ≤ n
below_self zero = ground arith
below_self (suc n) = ground arith

one_less-le :
    (s : Server) → IsValid s → pos_part (at_most_max (decrement s.runtimes)) ≤ live s.runtimes_table
one_less-le s v =
    subst (λ r. pos_part (at_most_max (decrement r)) ≤ live s.runtimes_table) (sym v.counted)
      (below_self (live s.runtimes_table))

module _ (fork : ℕ → ℤ) (no_reuse : NoReuse fork) (fuel : ℕ) (parent : InParent fork)
    (recovers : Recovers fork fuel) where
  link_add-returns :
      (idx : ℕ) (s : Server) → IsValid s → (t : Server) × (link_add fork fuel idx s ≡ some t)
  unfolding link_add
  link_add-returns idx s v =
      let (m, e) =
        adjust_children-returns fork fuel (increment s.runtimes) s v parent
          (omega (arith, one_more-le s v, recovers s.forks)) in
      (link_to idx (find_free_runtime_index m.runtimes_table) m, rw e)

  link_del-returns :
      (idx : ℕ) (s : Server)
      → IsValid (unlink idx s)
      → (t : Server) × (link_del fork fuel idx s ≡ some t)
  unfolding link_del
  link_del-returns idx s v =
      let u : Server = unlink idx s in
      adjust_children-returns fork fuel (decrement u.runtimes) u v parent
        (omega (arith, one_less-le u v))

  check_session-returns :
      (i : ℕ) (s : Server)
      → IsSound fork s
      → i < max_connections
      → (t : Server) × (check_session fork fuel i s ≡ some t)
  unfolding check_session
  check_session-returns i s sound in_table = elim (Bool-cases (is_new (session s i))) [
    | inl new ↦
        let (m, e) = link_add-returns i s sound.valid in
        let (_, kept) = check_session-new fork no_reuse fuel i s m sound in_table new e in
        (m, rw (new, e, kept))
    | inr old ↦ elim (Bool-cases (is_lost (session s i))) [
      | inl lost ↦
          let (t, e) = link_del-returns i s (unlink-IsValid i s sound.valid) in
          (t, rw (old, lost) e)
      | inr kept ↦ (s, rw (old, kept))
    ]
  ]

  check_from-returns :
      (n i : ℕ) (s : Server)
      → IsSound fork s
      → i + n ≤ max_connections
      → (t : Server) × (check_from fork fuel i n s ≡ some t)
  unfolding check_from
  check_from-returns zero i s sound fits = (s, refl)
  check_from-returns (suc n) i s sound fits =
      let (m, e) = check_session-returns i s sound (omega arith) in
      let checked = check_session-Checked fork no_reuse fuel i s m sound (omega arith) e in
      let (t, e') = check_from-returns n (i + 1) m checked.sound (omega arith) in (t, rw e e')

  -- If fork gives out no pid twice, never returns 0 to the launcher, and succeeds at least once in
  -- every `fuel` calls, then from a state in which the tables agree a pass of `check_ovs_sessions`
  -- comes back; after it the tables agree, every session with a positive OVS id has a runtime,
  -- every session with a negative one has none, and no session's OVS id has changed.
  pub check_ovs_sessions_settles :
      (s : Server)
      → IsSound fork s
      → (t : Server) × (check_ovs_sessions fork fuel s ≡ some t)
        × IsSound fork t
        × All IsSettled t.session_table
        × (map ovs_id t.session_table ≡ map ovs_id s.session_table)
  unfolding check_ovs_sessions
  check_ovs_sessions_settles s sound =
      let (t, e) = check_from-returns max_connections 0 s sound (omega arith) in
      let passed =
        check_from-Passed fork no_reuse fuel max_connections 0 s t sound (omega arith) e in
      let size = passed.sound.valid.sessions_size in
      (
        t,
        e,
        passed.sound,
        All-of_get_or IsSettled t.session_table no_session
            (λ j h. passed.settled j (omega arith) (omega (arith, h, size))),
        map_ext_get_or ovs_id t.session_table s.session_table no_session
            (size ∙ sym sound.valid.sessions_size) passed.same_ovs,
      )
