-- ===== src/Launcher/Shared/Copies.antt =====
-- After a look at a session the bytes are those of the new rows.
use mathlib.Core.Option.{some_inj}
use p4_ubpf_scripts.Common.{
  ℕ, ℤ, minus_one, increment, ◌<◌, ◌≡◌, sym, subst, Bool, true, false, List, Option, none, some,
  >>=-eq-some, get_or,
}
use p4_ubpf_scripts.Shm.{Memory}
use p4_ubpf_scripts.Launcher.State.{Connection, Server, max_connections}
use p4_ubpf_scripts.Launcher.Invariant.{IsValid}
use p4_ubpf_scripts.Launcher.Runtimes.{find_free_runtime_index}
use p4_ubpf_scripts.Launcher.Runtimes.Adjust.{adjust_children-Adjusted}
use p4_ubpf_scripts.Launcher.Sessions.{
  no_session, session, runtime, use_runtime, link_to, unlink, is_new, is_lost,
}
use p4_ubpf_scripts.Launcher.Sessions.Rows.{Finds, find_free_runtime_index-Finds}
use p4_ubpf_scripts.Launcher.Sessions.Valid.{link_to-IsValid, unlink-IsValid}
use p4_ubpf_scripts.Launcher.Shared.{IsStored, Stores}
use p4_ubpf_scripts.Launcher.Shared.Steps.{set_p4runtime_id-Stores}
use p4_ubpf_scripts.Launcher.Shared.Looks.{
  Both, link_to_both, unlink_both, when_both, adjust_both, link_add_both, link_del_both, check_both,
  adjust_both-adjust_children,
}

-- A well-formed state, and its table in the memory.
pub record Copied (p : Both) : Type 0 where
  pub valid : IsValid p.0
  pub stored : Stores p.1 p.0

-- Only the session table is in the memory.
pub Stores-same :
    (m : Memory) (s t : Server) → t.session_table ≡ s.session_table → Stores m s → Stores m t
Stores-same m s t same stored i below =
    subst (λ (table : List Connection). IsStored m i (get_or table i no_session)) (sym same)
      (stored i below)

link_to_both-Copied :
    (idx : ℕ) (o : Option ℕ) (p : Both)
    → idx < max_connections
    → Finds p.0.runtimes_table o
    → Copied p
    → Copied (link_to_both idx o p)
unfolding link_to_both link_to use_runtime
link_to_both-Copied idx none p below found copied = copied
link_to_both-Copied idx (some i) p below found copied = record {
  valid = link_to-IsValid idx p.0 copied.valid (some i) found;
  stored =
      set_p4runtime_id-Stores p.1 p.0 idx (runtime p.0 i).pid copied.valid.sessions_size below
        copied.stored;
}

unlink_both-Copied :
    (idx : ℕ) (p : Both) → idx < max_connections → Copied p → Copied (unlink_both idx p)
unfolding unlink_both unlink
unlink_both-Copied idx p below copied = record {
  valid = unlink-IsValid idx p.0 copied.valid;
  stored =
      set_p4runtime_id-Stores p.1 p.0 idx minus_one copied.valid.sessions_size below copied.stored;
}

when_both-Copied :
    (b : Bool) (act : Both → Option Both) (p q : Both)
    → (act p ≡ some q → Copied q)
    → Copied p
    → when_both b act p ≡ some q
    → Copied q
when_both-Copied true act p q keeps copied e = keeps e
when_both-Copied false act p q keeps copied e = subst Copied (some_inj.0 e) copied

module _ (fork : ℕ → ℤ) (fuel : ℕ) where
  adjust_both-Copied :
      (num : ℤ) (p q : Both) → Copied p → adjust_both fork fuel num p ≡ some q → Copied q
  adjust_both-Copied num p q copied e =
      let (done, same) = adjust_both-adjust_children fork fuel num p q e in
      let adjusted = adjust_children-Adjusted fork fuel num p.0 copied.valid q.0 done in
      record {
        valid = adjusted.valid;
        stored =
            subst (λ m. Stores m q.0) (sym same)
              (Stores-same p.1 p.0 q.0 adjusted.sessions copied.stored);
      }

  module _ (i : ℕ) (below : i < max_connections) where
    link_add_both-Copied : (p q : Both) → Copied p → link_add_both fork fuel i p ≡ some q → Copied q
    unfolding link_add_both
    link_add_both-Copied p q copied e =
        let (r, adjusts, links) =
          >>=-eq-some (adjust_both fork fuel (increment p.0.runtimes) p) _ e in
        subst Copied (some_inj.0 links) (
          link_to_both-Copied i (find_free_runtime_index r.0.runtimes_table) r below
            (find_free_runtime_index-Finds r.0.runtimes_table)
            (adjust_both-Copied (increment p.0.runtimes) p r copied adjusts))

    link_del_both-Copied : (p q : Both) → Copied p → link_del_both fork fuel i p ≡ some q → Copied q
    unfolding link_del_both
    link_del_both-Copied p q copied e =
        adjust_both-Copied _ (unlink_both i p) q (unlink_both-Copied i p below copied) e

    pub check_both-Copied : (p q : Both) → Copied p → check_both fork fuel i p ≡ some q → Copied q
    unfolding check_both
    check_both-Copied p q copied e =
        let (r, first, second) =
          >>=-eq-some (when_both (is_new (session p.0 i)) (link_add_both fork fuel i) p) _ e in
        when_both-Copied (is_lost (session r.0 i)) (link_del_both fork fuel i) r q
          (λ done.
            link_del_both-Copied r q
              (when_both-Copied (is_new (session p.0 i)) (link_add_both fork fuel i) p r
                (link_add_both-Copied p r copied) copied first)
              done)
          (when_both-Copied (is_new (session p.0 i)) (link_add_both fork fuel i) p r
            (link_add_both-Copied p r copied) copied first)
          second
