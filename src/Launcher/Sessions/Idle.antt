-- ===== src/Launcher/Sessions/Idle.antt =====
-- A pass of `check_ovs_sessions` over sessions that are in order does nothing.
use p4_ubpf_scripts.Common.{
  ℕ, zero, suc, ℤ, pos, ltb_ℤ, ◌+◌, ◌≤◌, ◌<◌, ◌≡◌, refl, true, false, some, arith, All, length,
  get_or-All,
}
use p4_ubpf_scripts.Launcher.State.{Connection, Server, max_connections}
use p4_ubpf_scripts.Launcher.Invariant.{IsValid}
use p4_ubpf_scripts.Launcher.Runtimes.{stop_all_children}
use p4_ubpf_scripts.Launcher.Runtimes.Rows.{live}
use p4_ubpf_scripts.Launcher.Runtimes.Stop.{stop_all_children-Stopped}
use p4_ubpf_scripts.Launcher.Sessions.{
  no_session, session, is_new, is_lost, check_session, check_from, check_ovs_sessions,
}
use p4_ubpf_scripts.Launcher.Sessions.Linked.{is_linked}
use p4_ubpf_scripts.Launcher.Sessions.Check.{IsSettled, serving, closed, unnumbered}

not_new : (c : Connection) → IsSettled c → is_new c ≡ false
not_new c (serving positive linked) = ground arith
not_new c (closed negative unlinked) = ground arith
not_new c (unnumbered zero_id) = ground arith

not_lost : (c : Connection) → IsSettled c → is_lost c ≡ false
not_lost c (serving positive linked) = ground arith
not_lost c (closed negative unlinked) = ground arith
not_lost c (unnumbered zero_id) = ground arith

open_linked :
    (c : Connection) → IsSettled c → ltb_ℤ (pos 0) c.ovs_thread_id ≡ true → is_linked c ≡ true
open_linked c (serving positive linked) h = linked
open_linked c (closed negative unlinked) h = ground arith
open_linked c (unnumbered zero_id) h = ground arith

module _ (fork : ℕ → ℤ) (fuel : ℕ) where
  check_session-idle :
      (i : ℕ) (s : Server) → IsSettled (session s i) → check_session fork fuel i s ≡ some s
  unfolding check_session
  check_session-idle i s settled =
      rw (not_new (session s i) settled, not_lost (session s i) settled)

  check_from-idle :
      (n i : ℕ) (s : Server)
      → i + n ≤ max_connections
      → ((j : ℕ) → j < max_connections → IsSettled (session s j))
      → check_from fork fuel i n s ≡ some s
  unfolding check_from
  check_from-idle zero i s fits settled = refl
  check_from-idle (suc n) i s fits settled =
      rw (check_session-idle i s (settled i (omega arith)))
        (check_from-idle n (i + 1) s (omega arith) settled)

  -- Where the session table has 32 rows, every session with a positive OVS id has a runtime and
  -- every session with a negative one has none, a pass of `check_ovs_sessions` comes back and
  -- changes nothing.
  pub check_ovs_sessions-idle :
      (s : Server)
      → length s.session_table ≡ max_connections
      → All IsSettled s.session_table
      → check_ovs_sessions fork fuel s ≡ some s
  unfolding check_ovs_sessions
  check_ovs_sessions-idle s size settled =
      check_from-idle max_connections 0 s (omega arith)
        (λ j h. get_or-All IsSettled s.session_table j no_session (omega arith) settled)

  -- From a well-formed state in which every session with a positive OVS id has a runtime and every
  -- session with a negative one has none, after `stop_all_children` the pool is empty, a session of
  -- the table with a positive OVS id still has the id of a runtime, and the next pass of
  -- `check_ovs_sessions` changes nothing.
  pub stop_all_children_strands :
      (s : Server) (j : ℕ)
      → IsValid s
      → All IsSettled s.session_table
      → j < max_connections
      → ltb_ℤ (pos 0) (session s j).ovs_thread_id ≡ true
      → let t = stop_all_children s in
        (live t.runtimes_table ≡ 0)
        × (is_linked (session t j) ≡ true)
        × (check_ovs_sessions fork fuel t ≡ some t)
  stop_all_children_strands s j v settled in_table open_session =
      let stopped = stop_all_children-Stopped s v in
      let here =
        get_or-All IsSettled s.session_table j no_session (omega (arith, v.sessions_size))
          settled in
      (
        stopped.empty,
        rw stopped.sessions (open_linked (session s j) here open_session),
        check_ovs_sessions-idle (stop_all_children s) stopped.valid.sessions_size
            (rw stopped.sessions settled),
      )
