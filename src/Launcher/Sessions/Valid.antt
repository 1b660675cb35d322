-- ===== src/Launcher/Sessions/Valid.antt =====
-- Linking and unlinking keep the pool's own bookkeeping, whatever the session table says.
use p4_ubpf_scripts.Common.{
  ℕ, ℤ, minus_one, increment, decrement, ◌<◌, ◌≡◌, ◌∙◌, subst, Bool, true, false, Option, none,
  some, arith, length, length-set, count-set, All-set, >>=-eq-some,
}
use mathlib.Core.Option.{some_inj}
use p4_ubpf_scripts.Launcher.State.{Connection, P4runtime, vacant, Server}
use p4_ubpf_scripts.Launcher.Invariant.{IsValid}
use p4_ubpf_scripts.Launcher.Runtimes.{is_live, is_idle, adjust_children, find_free_runtime_index}
use p4_ubpf_scripts.Launcher.Runtimes.Rows.{IsRow}
use p4_ubpf_scripts.Launcher.Runtimes.Adjust.{adjust_children-Adjusted}
use p4_ubpf_scripts.Launcher.Sessions.{
  session, runtime, use_runtime, link_to, unlink, link_add, link_del, is_new, is_lost, when,
  check_session,
}
use p4_ubpf_scripts.Launcher.Sessions.Rows.{
  Finds, find_free_runtime_index-Finds, length-free_runtime, live-free_runtime, free_runtime-IsRow,
}

module _ (idx i : ℕ) (s : Server) (v : IsValid s) (in_pool : i < length s.runtimes_table)
    (free : is_idle (runtime s i) ≡ true) where
  abbrev taken : P4runtime
  taken = record (runtime s i) { in_use = true }

  abbrev served : Connection
  served = record (session s idx) { p4runtime_id = (runtime s i).pid }

  pub use_runtime-IsValid : IsValid (use_runtime idx i s)
  unfolding use_runtime
  use_runtime-IsValid = record {
    pool_size = length-set s.runtimes_table i taken ∙ v.pool_size;
    sessions_size = length-set s.session_table idx served ∙ v.sessions_size;
    rows = All-set IsRow s.runtimes_table i taken (ground arith) v.rows;
    counted = ground (arith, count-set is_live s.runtimes_table i taken vacant in_pool, v.counted);
  }

module _ (idx : ℕ) (s : Server) (v : IsValid s) where
  pub link_to-IsValid : (o : Option ℕ) → Finds s.runtimes_table o → IsValid (link_to idx o s)
  unfolding link_to
  link_to-IsValid none found = v
  link_to-IsValid (some i) found = use_runtime-IsValid idx i s v found.0 found.1

  pub unlink-IsValid : IsValid (unlink idx s)
  unfolding unlink
  unlink-IsValid =
      let child = (session s idx).p4runtime_id in
      let closed : Connection = record (session s idx) { p4runtime_id = minus_one } in
      record {
        pool_size = length-free_runtime child s.runtimes_table ∙ v.pool_size;
        sessions_size = length-set s.session_table idx closed ∙ v.sessions_size;
        rows = free_runtime-IsRow child s.runtimes_table v.rows;
        counted = rw (live-free_runtime child s.runtimes_table) v.counted;
      }

pub when-IsValid :
    (b : Bool) (act : Server → Option Server) (s t : Server)
    → ((u : Server) → act s ≡ some u → IsValid u)
    → IsValid s
    → when b act s ≡ some t
    → IsValid t
when-IsValid true act s t keeps v e = keeps t e
when-IsValid false act s t keeps v e = subst IsValid (some_inj.0 e) v

module _ (fork : ℕ → ℤ) (fuel : ℕ) where
  link_add-IsValid :
      (idx : ℕ) (s t : Server) → IsValid s → link_add fork fuel idx s ≡ some t → IsValid t
  unfolding link_add
  link_add-IsValid idx s t v e =
      let (m, e₁, e₂) = >>=-eq-some (adjust_children fork fuel (increment s.runtimes) s) _ e in
      let adjusted = adjust_children-Adjusted fork fuel (increment s.runtimes) s v m e₁ in
      subst IsValid (some_inj.0 e₂) (
        link_to-IsValid idx m adjusted.valid (find_free_runtime_index m.runtimes_table)
          (find_free_runtime_index-Finds m.runtimes_table))

  link_del-IsValid :
      (idx : ℕ) (s t : Server) → IsValid s → link_del fork fuel idx s ≡ some t → IsValid t
  unfolding link_del
  link_del-IsValid idx s t v e =
      let u : Server = unlink idx s in
      (adjust_children-Adjusted fork fuel (decrement u.runtimes) u (unlink-IsValid idx s v) t
        e).valid

  pub check_session-IsValid :
      (i : ℕ) (s t : Server) → IsValid s → check_session fork fuel i s ≡ some t → IsValid t
  unfolding check_session
  check_session-IsValid i s t v e =
      let (m, first, second) =
        >>=-eq-some (when (is_new (session s i)) (link_add fork fuel i) s) _ e in
      let valid =
        when-IsValid (is_new (session s i)) (link_add fork fuel i) s m
          (λ u. link_add-IsValid i s u v) v first in
      when-IsValid (is_lost (session m i)) (link_del fork fuel i) m t
        (λ u. link_del-IsValid i m u valid) valid second
