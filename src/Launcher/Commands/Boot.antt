-- ===== src/Launcher/Commands/Boot.antt =====
-- What holds after `main` of p4l_server.c has set up its tables, and what a command can do.
use p4_ubpf_scripts.Common.{
  ℕ, ℤ, pos, ltb_ℤ, ◌≡◌, refl, sym, ◌∙◌, ap, subst, inl, inr, Bool, true, false, List, [], ◌∷◌,
  Option, some, map, arith, length, count, All, length-map, Bool-cases, >>=-eq-some,
}
use mathlib.Core.Option.{some_inj}
use p4_ubpf_scripts.CString.{Text, codes, starts_with, skip, atoi}
use p4_ubpf_scripts.Launcher.State.{
  Server, vacant, cleared, max_connections, ran_pkill, shm_initialize_table, init_runtimes_table,
}
use p4_ubpf_scripts.Launcher.Invariant.{IsValid}
use p4_ubpf_scripts.Launcher.Runtimes.{is_live, start_children, adjust_children, stop_all_children}
use p4_ubpf_scripts.Launcher.Runtimes.Rows.{IsRow, is_busy, live, busy}
use p4_ubpf_scripts.Launcher.Runtimes.Start.{spawn_until-Started}
use p4_ubpf_scripts.Launcher.Sessions.Rows.{has_pid, holds}
use p4_ubpf_scripts.Launcher.Sessions.Linked.{
  is_linked, linked_to, IsSessionId, IsLinked, NoReuse, spawn_until-IsLinked,
}
use p4_ubpf_scripts.Launcher.Sessions.Link.{IsSound}
use p4_ubpf_scripts.Launcher.Commands.{
  Reply, handle_client, handle_start_command, handle_update_command, handle_stop_command,
  handle_status_command, handle_shutdown_command, boot,
}

-- no element passes a test that the mapped ones fail
pub count-map_none {ℓ κ} :
    {A : Type ℓ} {B : Type κ} (p : B → Bool) (f : A → B) (xs : List A)
    → ((a : A) → p (f a) ≡ false)
    → count p (map f xs) ≡ 0
count-map_none p f [] h = refl
count-map_none p f (x ∷ xs) h = rw (h x, count-map_none p f xs h)

All-map {ℓ κ μ} :
    {A : Type ℓ} {B : Type κ} (P : B → Type μ) (f : A → B) (xs : List A)
    → ((a : A) → P (f a))
    → All P (map f xs)
All-map P f [] h = tt
All-map P f (x ∷ xs) h = (h x, All-map P f xs h)

-- The tables before `start_children`.
abbrev pub blank : Server → Server
blank s = record s {
  session_table = map cleared s.session_table;
  table_locked = false;
  runtimes_table = map (λ _. vacant) s.runtimes_table;
  runtimes = pos 0;
}

module _ (fork : ℕ → ℤ) (s : Server) (pool : length s.runtimes_table ≡ max_connections)
    (sessions : length s.session_table ≡ max_connections) where
  pub blank-IsValid : IsValid (blank s)
  blank-IsValid = record {
    pool_size = length-map s.runtimes_table (λ _. vacant) ∙ pool;
    sessions_size = length-map s.session_table cleared ∙ sessions;
    rows = All-map IsRow (λ _. vacant) s.runtimes_table (λ _. inr (refl, refl));
    counted =
        rw (count-map_none (λ e. ltb_ℤ (pos 0) e.pid) (λ _. vacant) s.runtimes_table (λ _. refl));
  }

  pub blank-IsLinked : IsLinked fork (blank s)
  blank-IsLinked = record {
    ids = All-map IsSessionId cleared s.session_table (λ _. inr refl);
    total =
        count-map_none is_busy (λ _. vacant) s.runtimes_table (λ _. refl)
        ∙ sym (count-map_none is_linked cleared s.session_table (λ _. refl));
    balance = λ p h.
        count-map_none (holds p) (λ _. vacant) s.runtimes_table (λ _. refl)
        ∙ sym (count-map_none (linked_to p) cleared s.session_table (λ _. ground arith));
    unique = λ p h. omega (arith, nowhere p h);
    issued = λ p h k. absurd (omega (arith, nowhere p h, k));
  }
    where
      nowhere :
          (p : ℤ)
          → ltb_ℤ (pos 0) p ≡ true
          → count (has_pid p) (map (λ _. vacant) s.runtimes_table) ≡ 0
      nowhere p h = count-map_none (has_pid p) (λ _. vacant) s.runtimes_table (λ _. ground arith)

  pub boot-IsValid : (fuel : ℕ) (t : Server) → boot fork fuel s ≡ some t → IsValid t
  unfolding boot start_children shm_initialize_table init_runtimes_table
  boot-IsValid fuel t e =
      (spawn_until-Started fork (pos 1) (omega arith) fuel (blank s) t blank-IsValid e).valid

  -- If both tables have 32 rows and fork gives out no pid twice, then whenever the start of `main`
  -- comes back the tables agree, there is one child, which is not in use, every session is cleared,
  -- with its packet count as it was, and the table is unlocked.
  pub boot-IsSound :
      NoReuse fork
      → (fuel : ℕ) (t : Server) → boot fork fuel s ≡ some t
      → IsSound fork t
        × (live t.runtimes_table ≡ 1)
        × (busy t.runtimes_table ≡ 0)
        × (t.session_table ≡ map cleared s.session_table)
        × (t.table_locked ≡ false)
  unfolding boot start_children shm_initialize_table init_runtimes_table
  boot-IsSound no_reuse fuel t e =
      let started =
        spawn_until-Started fork (pos 1) (omega arith) fuel (blank s) t blank-IsValid e in
      let none_live = count-map_none is_live (λ _. vacant) s.runtimes_table (λ _. refl) in
      (
        record {
          valid = started.valid;
          linked = spawn_until-IsLinked fork no_reuse fuel (pos 1) (blank s) t blank-IsLinked e;
        },
        omega (arith, started.enough, none_live),
        started.busy_rows ∙ count-map_none is_busy (λ _. vacant) s.runtimes_table (λ _. refl),
        started.sessions,
        started.lock,
      )

pub answered :
    {s t : Server} {l replies : List Reply}
    → ◌≡◌ {A = Option (Server × List Reply)} (some (s, l)) (some (t, replies))
    → s ≡ t
answered e = ap (λ q. q.0) (some_inj.0 e)

module _ (fork : ℕ → ℤ) (fuel : ℕ) where
  updated :
      (arg : Text) (s t : Server) (replies : List Reply)
      → handle_update_command fork fuel arg s ≡ some (t, replies)
      → adjust_children fork fuel (atoi arg) s ≡ some t
  unfolding handle_update_command
  updated arg s t replies e =
      let (u, e₁, e₂) = >>=-eq-some (adjust_children fork fuel (atoi arg) s) _ e in
      e₁ ∙ ap (λ x. some x) (answered e₂)

  -- What a command can do to the state: nothing that the tables show, an adjustment, or a stop.
  pub handle_client_cases {ℓ} :
      (P : Server → Type ℓ) (pkill : ℤ) (command : Text) (s t : Server) (replies : List Reply)
      → P s
      → P (record s { events = ran_pkill ∷ s.events })
      → ((u : Server) → adjust_children fork fuel (atoi (skip 7 command)) s ≡ some u → P u)
      → (starts_with (codes "stop") command ≡ true → P (stop_all_children s))
      → handle_client fork fuel pkill command s ≡ some (t, replies)
      → P t
  unfolding handle_client handle_start_command handle_stop_command handle_status_command
      handle_shutdown_command
  handle_client_cases P pkill [] s t replies same killed adjusted stopped e =
      subst P (answered e) same
  handle_client_cases P pkill (c ∷ cs) s t replies same killed adjusted stopped e =
      let command : Text = c ∷ cs in
      elim (Bool-cases (starts_with (codes "start ") command)) [
        | inl y ↦ subst P (answered (rw y at e)) same
        | inr n₁ ↦ elim (Bool-cases (starts_with (codes "update ") command)) [
          | inl y ↦ adjusted t (updated (skip 7 command) s t replies (rw (n₁, y) at e))
          | inr n₂ ↦ elim (Bool-cases (starts_with (codes "stop") command)) [
            | inl y ↦ subst P (answered (rw (n₁, n₂, y) at e)) (stopped y)
            | inr n₃ ↦ elim (Bool-cases (starts_with (codes "status") command)) [
              | inl y ↦ subst P (answered (rw (n₁, n₂, n₃, y) at e)) same
              | inr n₄ ↦ elim (Bool-cases (starts_with (codes "shutdown") command)) [
                | inl y ↦ subst P (answered (rw (n₁, n₂, n₃, n₄, y) at e)) killed
                | inr n₅ ↦ subst P (answered (rw (n₁, n₂, n₃, n₄, n₅) at e)) same
              ]
            ]
          ]
        ]
      ]
