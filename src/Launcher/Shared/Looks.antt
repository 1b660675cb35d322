-- ===== src/Launcher/Shared/Looks.antt =====
-- A look at one session, with the stores that it makes in the shared memory.
use mathlib.Core.Option.{some_inj}
use p4_ubpf_scripts.Common.{
  ℕ, ℤ, minus_one, increment, decrement, ◌≡◌, refl, sym, ap, ◌∙◌, Bool, true, false, Option, none,
  some, ◌>>=◌, >>=-eq-some,
}
use p4_ubpf_scripts.Shm.{Memory}
use p4_ubpf_scripts.Launcher.State.{Server}
use p4_ubpf_scripts.Launcher.Runtimes.{adjust_children, find_free_runtime_index}
use p4_ubpf_scripts.Launcher.Sessions.{
  session, runtime, link_to, unlink, is_new, is_lost, link_add, link_del, when, check_session,
}
use p4_ubpf_scripts.Launcher.Shared.{store_p4runtime_id}

-- the launcher's statics and the shared memory
abbrev pub Both : Type 0
Both = Server × Memory

-- `session_table[idx].p4runtime_id = runtimes_table[free_idx].pid;`
unfoldable pub link_to_both : ℕ → Option ℕ → Both → Both
link_to_both idx none (s, m) = (s, m)
link_to_both idx (some i) (s, m) =
    (link_to idx (some i) s, store_p4runtime_id idx (runtime s i).pid m)

unfoldable pub unlink_both : ℕ → Both → Both
unlink_both idx (s, m) = (unlink idx s, store_p4runtime_id idx minus_one m)

abbrev pub when_both : Bool → (Both → Option Both) → Both → Option Both
when_both true act p = act p
when_both false act p = some p

module _ (fork : ℕ → ℤ) (fuel : ℕ) where
  -- `adjust_children` reads and writes nothing in the shared memory.
  abbrev pub adjust_both : ℤ → Both → Option Both
  adjust_both num (s, m) = adjust_children fork fuel num s >>= λ t. some (t, m)

  unfoldable pub link_add_both : ℕ → Both → Option Both
  link_add_both idx (s, m) = adjust_both (increment s.runtimes) (s, m) >>= λ p.
      some (link_to_both idx (find_free_runtime_index p.0.runtimes_table) p)

  unfoldable pub link_del_both : ℕ → Both → Option Both
  link_del_both idx p = let q = unlink_both idx p in adjust_both (decrement q.0.runtimes) q

  unfoldable pub check_both : ℕ → Both → Option Both
  check_both i p = when_both (is_new (session p.0 i)) (link_add_both i) p >>= λ q.
      when_both (is_lost (session q.0 i)) (link_del_both i) q

-- The first part of each is the function on the statics alone.
link_to_both-link_to :
    (idx : ℕ) (o : Option ℕ) (p : Both) → (link_to_both idx o p).0 ≡ link_to idx o p.0
unfolding link_to_both link_to
link_to_both-link_to idx none p = refl
link_to_both-link_to idx (some i) p = refl

when_both-when :
    (b : Bool) (act : Both → Option Both) (act' : Server → Option Server) (p q : Both)
    → (act p ≡ some q → act' p.0 ≡ some q.0)
    → when_both b act p ≡ some q
    → when b act' p.0 ≡ some q.0
when_both-when true act act' p q same e = same e
when_both-when false act act' p q same e = ap (λ (r : Both). some r.0) (some_inj.0 e)

module _ (fork : ℕ → ℤ) (fuel : ℕ) where
  pub adjust_both-adjust_children :
      (num : ℤ) (p q : Both)
      → adjust_both fork fuel num p ≡ some q
      → (adjust_children fork fuel num p.0 ≡ some q.0) × (q.1 ≡ p.1)
  adjust_both-adjust_children num p q e =
      let (t, done, same) = >>=-eq-some (adjust_children fork fuel num p.0) _ e in
      let pair = some_inj.0 same in
      (done ∙ ap (λ (r : Both). some r.0) pair, sym (ap (λ (r : Both). r.1) pair))

  link_add_both-link_add :
      (idx : ℕ) (p q : Both)
      → link_add_both fork fuel idx p ≡ some q
      → link_add fork fuel idx p.0 ≡ some q.0
  unfolding link_add_both link_add
  link_add_both-link_add idx p q e =
      let (r, adjusts, links) =
        >>=-eq-some (adjust_both fork fuel (increment p.0.runtimes) p) _ e in
      let (done, _) = adjust_both-adjust_children (increment p.0.runtimes) p r adjusts in
      rw done (
        ap (λ x. some x)
          (sym (link_to_both-link_to idx (find_free_runtime_index r.0.runtimes_table) r)
            ∙ ap (λ (x : Both). x.0) (some_inj.0 links)))

  link_del_both-link_del :
      (idx : ℕ) (p q : Both)
      → link_del_both fork fuel idx p ≡ some q
      → link_del fork fuel idx p.0 ≡ some q.0
  unfolding link_del_both link_del unlink_both
  link_del_both-link_del idx p q e =
      (adjust_both-adjust_children (decrement (unlink idx p.0).runtimes) (unlink_both idx p) q e).0

  pub check_both-check_session :
      (i : ℕ) (p q : Both)
      → check_both fork fuel i p ≡ some q
      → check_session fork fuel i p.0 ≡ some q.0
  unfolding check_both check_session
  check_both-check_session i p q e =
      let (r, first, second) =
        >>=-eq-some (when_both (is_new (session p.0 i)) (link_add_both fork fuel i) p) _ e in
      rw
        (when_both-when (is_new (session p.0 i)) (link_add_both fork fuel i) (link_add fork fuel i)
          p r (link_add_both-link_add i p r) first)
        (when_both-when (is_lost (session r.0 i)) (link_del_both fork fuel i) (link_del fork fuel i)
          r q (link_del_both-link_del i r q) second)
