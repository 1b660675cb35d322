-- ===== src/Launcher/Sessions/Unlink.antt =====
-- `link_del`: the child of a closed session is idle again, and the pool shrinks by one if it can.
use p4_ubpf_scripts.Common.{
  ℕ, ℤ, minus_one, decrement, ◌<◌, ◌≡◌, refl, inr, true, some, ap, arith, length, count, count-set,
  count-pos, All-set, get_or-set_self, ==ℤ_refl,
}
use p4_ubpf_scripts.Launcher.State.{Connection, Server, max_connections}
use p4_ubpf_scripts.Launcher.Runtimes.Adjust.{adjust_children-Adjusted}
use p4_ubpf_scripts.Launcher.Sessions.{no_session, session, unlink, link_del}
use p4_ubpf_scripts.Launcher.Sessions.Rows.{
  holds, has_pid-free_runtime, holds-free_runtime, busy-free_runtime,
}
use p4_ubpf_scripts.Launcher.Sessions.Valid.{unlink-IsValid}
use p4_ubpf_scripts.Launcher.Sessions.Linked.{
  linked_to, is_linked, IsSessionId, NoReuse, IsLinked, adjust_children-IsLinked,
}
use p4_ubpf_scripts.Launcher.Sessions.Link.{IsSound, SameBut, set_p4runtime_id-SameBut}

module _ (fork : ℕ → ℤ) (idx : ℕ) (s : Server) (sound : IsSound fork s)
    (in_table : idx < max_connections) (linked : is_linked (session s idx) ≡ true) where
  abbrev pub child : ℤ
  child = (session s idx).p4runtime_id

  abbrev closed : Connection
  closed = record (session s idx) { p4runtime_id = minus_one }

  in_sessions : idx < length s.session_table
  in_sessions = omega (arith, sound.valid.sessions_size)

  -- The session's child is in use somewhere in the pool.
  pub held : 0 < count (holds child) s.runtimes_table
  held = omega (
    arith,
    sound.linked.balance child linked,
    count-pos (linked_to child) s.session_table idx no_session in_sessions (==ℤ_refl child),
  )

  pub unlink-IsLinked : IsLinked fork (unlink idx s)
  unfolding unlink
  unlink-IsLinked =
      let l = sound.linked in
      let rows = s.runtimes_table in
      let once = l.unique child linked in
      record {
        ids = All-set IsSessionId s.session_table idx closed (inr refl) l.ids;
        total = ground (
          arith,
          l.total,
          busy-free_runtime child rows once held,
          count-set is_linked s.session_table idx closed no_session in_sessions,
        );
        balance = λ p h. ground (
          arith,
          l.balance p h,
          holds-free_runtime p child rows once held,
          count-set (linked_to p) s.session_table idx closed no_session in_sessions,
        );
        unique = λ p h. rw (has_pid-free_runtime p child rows) (l.unique p h);
        issued = λ p h k. l.issued p h (rw (has_pid-free_runtime p child rows) at k);
      }

-- What a session loses: its child, and nothing else of the table changes.
pub record Unlinks (fork : ℕ → ℤ) (idx : ℕ) (s t : Server) : Type 0 where
  pub sound : IsSound fork t
  pub same_but : SameBut idx s.session_table t.session_table
  pub no_runtime : (session t idx).p4runtime_id ≡ minus_one

module _ (fork : ℕ → ℤ) (no_reuse : NoReuse fork) (fuel idx : ℕ) (s t : Server)
    (sound : IsSound fork s) (in_table : idx < max_connections)
    (linked : is_linked (session s idx) ≡ true) (done : link_del fork fuel idx s ≡ some t) where
  -- If fork gives out no pid twice, the tables agree, and the session in the table has a runtime,
  -- then whenever `link_del` comes back the tables agree, that session has none (its id is -1), and
  -- nothing else changes in the session table.
  pub link_del-Unlinks : Unlinks fork idx s t
  unfolding link_del unlink
  link_del-Unlinks =
      let u : Server = unlink idx s in
      let goal = decrement u.runtimes in
      let valid = unlink-IsValid idx s sound.valid in
      let adjusted = adjust_children-Adjusted fork fuel goal u valid t done in
      let still =
        adjust_children-IsLinked fork no_reuse fuel goal u t
          (unlink-IsLinked fork idx s sound in_table linked) done in
      let inside = in_sessions fork idx s sound in_table linked in
      record {
        sound = record { valid = adjusted.valid; linked = still };
        same_but =
            rw adjusted.sessions (set_p4runtime_id-SameBut idx minus_one s.session_table inside);
        no_runtime = rw adjusted.sessions (
            ap (λ (c : Connection). c.p4runtime_id)
              (get_or-set_self s.session_table idx (closed fork idx s sound in_table linked)
                no_session inside));
      }
