-- ===== src/Launcher/Runtimes/Stop.antt =====
-- `stop_all_children`: an empty pool, and one SIGTERM for each child that was in it.
use p4_ubpf_scripts.Common.{
  ℤ, pos, ltb_ℤ, ◌==ℤ◌, ◌+◌, ◌≡◌, refl, ◌∙◌, ap, sym, inr, Bool, true, false, if◌then◌else◌, List,
  [], ◌∷◌, arith, count, All,
}
use p4_ubpf_scripts.Launcher.State.{
  P4runtime, vacant, Event, started, sigterm, waited, ran_pkill, Server,
}
use p4_ubpf_scripts.Launcher.Invariant.{IsValid}
use p4_ubpf_scripts.Launcher.Runtimes.{is_live, stop_rows, stop_all_children, terminate_child}
use p4_ubpf_scripts.Launcher.Runtimes.Rows.{IsRow, live, length-stop_rows, stop_rows-vacant}

-- the events that send SIGTERM to `p`
abbrev pub is_sigterm : ℤ → Event → Bool
is_sigterm p (started q) = false
is_sigterm p (sigterm q) = q ==ℤ p
is_sigterm p (waited q) = false
is_sigterm p ran_pkill = false

abbrev pub has_pid : ℤ → P4runtime → Bool
has_pid p e = e.pid ==ℤ p

sigterm-terminate_child :
    (p : ℤ) (e : P4runtime) (log : List Event)
    → ltb_ℤ (pos 0) p ≡ true
    → count (is_sigterm p) (if is_live e then terminate_child e.pid log else log)
      ≡ (if has_pid p e then 1 else 0) + count (is_sigterm p) log
unfolding terminate_child
sigterm-terminate_child p e log h = ground arith

sigterm-stop_rows :
    (p : ℤ) (es : List P4runtime) (log : List Event)
    → ltb_ℤ (pos 0) p ≡ true
    → count (is_sigterm p) (stop_rows es log).1 ≡ count (is_sigterm p) log + count (has_pid p) es
unfolding stop_rows
sigterm-stop_rows p [] log h = omega arith
sigterm-stop_rows p (e ∷ es) log h =
    sigterm-stop_rows p es (if is_live e then terminate_child e.pid log else log) h
    ∙ omega (arith, sigterm-terminate_child p e log h)

vacant-live : (es : List P4runtime) → All (λ e. e ≡ vacant) es → live es ≡ 0
vacant-live [] h = refl
vacant-live (e ∷ es) h = rw (h.0, vacant-live es h.1)

vacant-IsRow : (es : List P4runtime) → All (λ e. e ≡ vacant) es → All IsRow es
vacant-IsRow [] h = tt
vacant-IsRow (e ∷ es) h = (rw h.0 (inr (refl, refl)), vacant-IsRow es h.1)

pub record Stopped (s t : Server) : Type 0 where
  pub valid : IsValid t
  pub empty : live t.runtimes_table ≡ 0
  pub sessions : t.session_table ≡ s.session_table
  pub signalled :
      (p : ℤ)
      → ltb_ℤ (pos 0) p ≡ true
      → count (is_sigterm p) t.events
        ≡ count (is_sigterm p) s.events + count (has_pid p) s.runtimes_table

-- From a well-formed state, `stop_all_children` leaves a well-formed state with an empty pool,
-- sends as many SIGTERMs to each pid as children of that pid were in the pool, and leaves the
-- session table as it is.
pub stop_all_children-Stopped : (s : Server) → IsValid s → Stopped s (stop_all_children s)
unfolding stop_all_children
stop_all_children-Stopped s v =
    let gone = stop_rows-vacant s.runtimes_table s.events v.rows in
    let rows = (stop_rows s.runtimes_table s.events).0 in
    record {
      valid = record {
        pool_size = length-stop_rows s.runtimes_table s.events ∙ v.pool_size;
        sessions_size = v.sessions_size;
        rows = vacant-IsRow rows gone;
        counted = ap pos (sym (vacant-live rows gone));
      };
      empty = vacant-live rows gone;
      sessions = refl;
      signalled = λ p h. sigterm-stop_rows p s.runtimes_table s.events h;
    }
