-- ===== src/Launcher/Runtimes/Adjust.antt =====
-- `adjust_children` and `stop_all_children`: the size of the pool that they leave.
use mathlib.Core.Option.{some_inj}
use p4_ubpf_scripts.Common.{
  ℕ, ℤ, pos, pos_part, ltb_ℤ, ◌==ℤ◌, ==ℤ_iff, ◌+◌, ◌≤◌, ◌<◌, ◌∙◌, ap, max, ◌≡◌, ◌≢◌, refl, sym,
  subst, inl, inr, true, false, none, some, arith, Bool-cases, count-le,
}
use p4_ubpf_scripts.Launcher.State.{Server, max_connections}
use p4_ubpf_scripts.Launcher.Invariant.{IsValid}
use p4_ubpf_scripts.Launcher.Runtimes.Rows.{
  live, busy, remaining, live-eq-busy-add-idle, length-shrink_rows, busy-shrink_rows,
  shrink_rows-IsRow, left-shrink_rows, live-shrink_rows,
}
use p4_ubpf_scripts.Launcher.Runtimes.Start.{
  Started, successes, spawn_until-Started, spawn_until-returns, spawn_until-spins,
}
use p4_ubpf_scripts.Launcher.Runtimes.{
  at_most_max, start_children, adjust_to, adjust_children, shrink_rows,
}

-- The pool that a target asks for: never more than 32 rows, and never less than those in use.
abbrev pub wanted : ℤ → Server → ℕ
wanted target s = max (busy s.runtimes_table) (pos_part (at_most_max target))

pub record Adjusted (target : ℤ) (s t : Server) : Type 0 where
  pub valid : IsValid t
  pub size : live t.runtimes_table ≡ wanted target s
  pub busy_rows : busy t.runtimes_table ≡ busy s.runtimes_table
  pub sessions : t.session_table ≡ s.session_table
  pub lock : t.table_locked ≡ s.table_locked

pub at_most_max-le : (n : ℤ) → pos_part (at_most_max n) ≤ max_connections
at_most_max-le n = ground arith

at_most_max_idem : (n : ℤ) → at_most_max (at_most_max n) ≡ at_most_max n
at_most_max_idem n = ground arith

pub live-le : (s : Server) → IsValid s → live s.runtimes_table ≤ max_connections
live-le s v = omega (arith, count-le {0} _ s.runtimes_table, v.pool_size)

not_below :
    (n : ℤ) (s : Server)
    → IsValid s
    → ltb_ℤ s.runtimes n ≡ false
    → pos_part n ≤ live s.runtimes_table
not_below n s v e = ground arith

over :
    (target : ℤ) (s : Server)
    → IsValid s
    → ltb_ℤ s.runtimes (at_most_max target) ≡ true
    → live s.runtimes_table < pos_part (at_most_max target)
over target s v e = ground arith

other :
    (target : ℤ) (s : Server)
    → IsValid s
    → ltb_ℤ s.runtimes (at_most_max target) ≡ true
    → (target ==ℤ s.runtimes) ≡ false
other target s v e = ground (arith, live-le s v)

-- The state after the shrinking branch.
abbrev shrunk : ℤ → Server → Server
shrunk target s =
    let out = shrink_rows target s.runtimes s.runtimes_table s.events in
    record s { runtimes_table = out.rows; runtimes = out.left; events = out.log }

module _ (target : ℤ) (s : Server) (v : IsValid s)
    (above : pos_part target ≤ live s.runtimes_table) where
  shrunk_left :
      (shrunk target s).runtimes ≡ pos (remaining target (live s.runtimes_table) s.runtimes_table)
  shrunk_left =
      subst
        (λ r.
          (shrink_rows target r s.runtimes_table s.events).left
          ≡ pos (remaining target (live s.runtimes_table) s.runtimes_table))
        (sym v.counted) (left-shrink_rows target s.runtimes_table _ s.events (omega arith) above)

  live-shrunk :
      live (shrunk target s).runtimes_table
      ≡ remaining target (live s.runtimes_table) s.runtimes_table
  live-shrunk =
      subst
        (λ r.
          live (shrink_rows target r s.runtimes_table s.events).rows
          ≡ remaining target (live s.runtimes_table) s.runtimes_table)
        (sym v.counted)
        (omega (
          arith,
          live-shrink_rows target s.runtimes_table (live s.runtimes_table) s.events (omega arith)
              above,
        ))

shrunk-Adjusted :
    (target : ℤ) (s : Server)
    → IsValid s
    → ltb_ℤ s.runtimes (at_most_max target) ≡ false
    → Adjusted target s (shrunk (at_most_max target) s)
shrunk-Adjusted target s v e =
    let goal = at_most_max target in
    let rows = s.runtimes_table in
    let above : pos_part goal ≤ live rows = not_below goal s v e in
    record {
      valid = record {
        pool_size = length-shrink_rows goal rows s.runtimes s.events ∙ v.pool_size;
        sessions_size = v.sessions_size;
        rows = shrink_rows-IsRow goal rows s.runtimes s.events v.rows;
        counted = shrunk_left goal s v above ∙ ap pos (sym (live-shrunk goal s v above));
      };
      size = omega (arith, live-shrunk goal s v above, live-eq-busy-add-idle rows);
      busy_rows = busy-shrink_rows goal rows s.runtimes s.events;
      sessions = refl;
      lock = refl;
    }

unchanged-Adjusted :
    (target : ℤ) (s : Server) → IsValid s → target ≡ s.runtimes → Adjusted target s s
unchanged-Adjusted target s v same = record {
  valid = v;
  size = ground (arith, live-le s v, live-eq-busy-add-idle s.runtimes_table, v.counted);
  busy_rows = refl;
  sessions = refl;
  lock = refl;
}

Started-Adjusted :
    (target : ℤ) {s t : Server}
    → IsValid s
    → ltb_ℤ s.runtimes (at_most_max target) ≡ true
    → Started (pos_part (at_most_max target)) s t
    → Adjusted target s t
Started-Adjusted target {s} v more started = record {
  valid = started.valid;
  size =
      omega (arith, started.enough, over target s v more, live-eq-busy-add-idle s.runtimes_table);
  busy_rows = started.busy_rows;
  sessions = started.sessions;
  lock = started.lock;
}

module _ (fork : ℕ → ℤ) (fuel : ℕ) (target : ℤ) (s : Server) (v : IsValid s) where
  -- From a well-formed state, whenever `adjust_children` comes back, the state is well formed, the
  -- pool has as many runtimes as were asked for, but at most 32 and no fewer than are in use, as
  -- many are in use as before, and the session table and its lock are untouched.
  pub adjust_children-Adjusted :
      (t : Server) → adjust_children fork fuel target s ≡ some t → Adjusted target s t
  unfolding adjust_children adjust_to start_children
  adjust_children-Adjusted t e = elim (Bool-cases (target ==ℤ s.runtimes)) [
    | inl same ↦
        subst (Adjusted target s) (some_inj.0 (rw same at e))
          (unchanged-Adjusted target s v ((==ℤ_iff _ _).0 same))
    | inr differs ↦ elim (Bool-cases (ltb_ℤ s.runtimes (at_most_max target))) [
      | inl more ↦ Started-Adjusted target v more (
          subst (λ n. Started (pos_part n) s t) (at_most_max_idem target)
            (spawn_until-Started fork (at_most_max (at_most_max target))
              (at_most_max-le (at_most_max target)) fuel s t v (rw (differs, more) at e)))
      | inr less ↦
          subst (Adjusted target s) (some_inj.0 (rw (differs, less) at e))
            (shrunk-Adjusted target s v less)
    ]
  ]

  -- From a well-formed state, if fork never returns 0 to the launcher and the children in the pool
  -- with the successes among the next `fuel` calls of fork are as many as are asked for (32 at
  -- most), `adjust_children` comes back.
  pub adjust_children-returns :
      ((k : ℕ) → fork k ≢ pos 0)
      → pos_part (at_most_max target) ≤ live s.runtimes_table + successes fork s.forks fuel
      → (t : Server) × (adjust_children fork fuel target s ≡ some t)
  unfolding adjust_children adjust_to start_children
  adjust_children-returns launcher need = elim (Bool-cases (target ==ℤ s.runtimes)) [
    | inl same ↦ (s, rw same)
    | inr differs ↦ elim (Bool-cases (ltb_ℤ s.runtimes (at_most_max target))) [
      | inl more ↦
          let (t, e) =
            spawn_until-returns fork (at_most_max (at_most_max target))
              (at_most_max-le (at_most_max target)) launcher fuel s v (rw at_most_max_idem need) in
          (t, rw (differs, more) e)
      | inr less ↦ (shrunk (at_most_max target) s, rw (differs, less))
    ]
  ]

  -- From a well-formed state, if a runtime has to be started and every call of fork from now on
  -- fails, `adjust_children` does not come back in any number of rounds.
  pub adjust_children-spins :
      ltb_ℤ s.runtimes (at_most_max target) ≡ true
      → ((k : ℕ) → s.forks ≤ k → ltb_ℤ (fork k) (pos 0) ≡ true)
      → adjust_children fork fuel target s ≡ none
  unfolding adjust_children adjust_to start_children
  adjust_children-spins more fails =
      rw (other target s v more, more, at_most_max_idem target)
        (spawn_until-spins fork (at_most_max target) (at_most_max-le target) fuel s more fails)
