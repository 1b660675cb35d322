-- ===== src/Launcher/Promise/Pids.antt =====
-- Each child of the daemon, in every state that it reaches: in the pool once, or ended once for each
-- time it was started.
use p4_ubpf_scripts.Common.{
  ℕ, zero, suc, ℤ, pos, ltb_ℤ, ◌+◌, ◌≤◌, ◌≡◌, refl, ◌∙◌, Bool, true, false, List, [], ◌∷◌, ◌++◌,
  count, replicate, minus_one, arith,
}
use p4_ubpf_scripts.CString.{Text, codes, starts_with}
use p4_ubpf_scripts.Launcher.State.{P4runtime, Event, Server, max_connections}
use p4_ubpf_scripts.Launcher.Sessions.Rows.{has_pid, holds}
use p4_ubpf_scripts.Launcher.Sessions.Linked.{linked_to, NoReuse}
use p4_ubpf_scripts.Launcher.Sessions.Link.{IsSound}
use p4_ubpf_scripts.Launcher.Commands.Reach.{Reach, Reach-IsSound}
use p4_ubpf_scripts.Launcher.Promise.{served_by, notes}
use p4_ubpf_scripts.Launcher.Promise.Laws.{notes-earlier}
use p4_ubpf_scripts.Launcher.Promise.View.{waits, view}
use p4_ubpf_scripts.Launcher.Promise.Pool.{served_by-holds}
use p4_ubpf_scripts.Launcher.Promise.Life.{nothing, Reach-Promised}
use p4_ubpf_scripts.Launcher.Promise.Children.{
  is_started, is_sigterm, is_waited, Accounts, run-Accounts,
}

has_pid-waits :
    (p : ℤ) (es : List P4runtime)
    → ltb_ℤ (pos 0) p ≡ true
    → count (has_pid p) es ≡ count (waits p) es + count (holds p) es
has_pid-waits p [] positive = omega arith
has_pid-waits p (e ∷ es) positive = ground (arith, has_pid-waits p es)

served_by-none : (p : ℤ) (n : ℕ) → ltb_ℤ (pos 0) p ≡ true → served_by p (replicate n minus_one) ≡ 0
served_by-none p zero positive = refl
served_by-none p (suc n) positive = ground (arith, served_by-none p n)

nothing-Accounts : (p : ℤ) → ltb_ℤ (pos 0) p ≡ true → Accounts p [] nothing
nothing-Accounts p positive =
    let unserved = served_by-none p max_connections positive in
    record { balance = omega (arith, unserved); reaped = refl; alone = omega (arith, unserved) }

-- In the pool once at most, started as often as ended or still there, and waited for when ended.
pub record Kept (p : ℤ) (log : List Event) (s : Server) : Type 0 where
  pub balance :
      count (is_started p) log ≡ count (is_sigterm p) log + count (has_pid p) s.runtimes_table
  pub reaped : count (is_waited p) log ≡ count (is_sigterm p) log
  pub once : count (has_pid p) s.runtimes_table ≤ 1
  pub unshared : count (linked_to p) s.session_table ≤ 1

module _ (fork : ℕ → ℤ) (fuel : ℕ) (allowed : Text → Bool) (no_reuse : NoReuse fork)
    (no_stop : (command : Text)
      → allowed command ≡ true
      → starts_with (codes "stop") command ≡ false) where
  kept :
      {s : Server} (p : ℤ) (log : List Event)
      → IsSound fork s
      → ltb_ℤ (pos 0) p ≡ true
      → Accounts p log (view s)
      → Kept p log s
  kept {s} p log sound positive acc =
      let there = has_pid-waits p s.runtimes_table positive in
      let served = served_by-holds fork s p sound.linked positive in
      let linked = sound.linked.balance p positive in
      record {
        balance = omega (arith, acc.balance, there, served);
        reaped = acc.reaped;
        once = omega (arith, acc.alone, there, served);
        unshared = omega (arith, acc.alone, served, linked);
      }

  -- If fork gives out no pid twice and no client's text is one that ends the children (`stop`),
  -- then in every state that the daemon reaches a first part of its log accounts for every positive
  -- pid: it was started as often as it was sent SIGTERM and is in the pool, taken together, it was
  -- waited for as often as it was sent SIGTERM, it is in the pool once at most, and at most one
  -- session is linked to it.
  pub Reach-Kept :
      {s : Server}
      → Reach fork fuel allowed s
      → (log earlier : List Event) × (s.events ≡ log ++ earlier)
        × ((k : ℕ) → Kept (pos (k + 1)) log s)
  Reach-Kept {s} r =
      let promised = Reach-Promised fork fuel allowed no_reuse no_stop r in
      let sound = Reach-IsSound fork fuel allowed no_reuse no_stop r in
      (
        notes promised.acts [],
        promised.earlier,
        promised.noted ∙ notes-earlier promised.acts [] promised.earlier,
        λ k.
            let p = pos (k + 1) in
            let positive : ltb_ℤ (pos 0) p ≡ true = ground arith in
            kept p (notes promised.acts []) sound positive (
              run-Accounts p positive promised.acts nothing (view s) [] promised.done
                (nothing-Accounts p positive)),
      )
