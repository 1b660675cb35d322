-- ===== src/Former/Reach.antt =====
-- The loop of the former `main`: its passes come back, and its pool stays well formed.
use mathlib.Core.Option.{some_inj}
use p4_ubpf_scripts.Common.{
  ℕ, zero, suc, ℤ, pos, increment, decrement, ◌+◌, ◌≤◌, ◌<◌, ◌≡◌, ◌≢◌, refl, ap, subst, inl, inr,
  Bool, true, false, Bool-cases, List, [], ◌∷◌, Option, some, >>=-eq-some, length, set, arith,
}
use p4_ubpf_scripts.CString.{Text, codes, starts_with, skip, atoi}
use p4_ubpf_scripts.Launcher.State.{
  Connection, ran_pkill, Server, max_connections, shm_initialize_table,
}
use p4_ubpf_scripts.Launcher.Invariant.{IsValid}
use p4_ubpf_scripts.Launcher.Runtimes.{find_free_runtime_index}
use p4_ubpf_scripts.Launcher.Runtimes.Rows.{live}
use p4_ubpf_scripts.Launcher.Runtimes.Adjust.{live-le}
use p4_ubpf_scripts.Launcher.Sessions.{session, link_to, unlink, is_new, is_lost, when}
use p4_ubpf_scripts.Launcher.Sessions.Rows.{find_free_runtime_index-Finds}
use p4_ubpf_scripts.Launcher.Sessions.Valid.{link_to-IsValid, unlink-IsValid, when-IsValid}
use p4_ubpf_scripts.Launcher.Commands.{Reply}
use p4_ubpf_scripts.Launcher.Commands.Boot.{blank, blank-IsValid, answered}
use p4_ubpf_scripts.Launcher.Commands.Reach.{ovs_writes-IsValid, IsValid-touched}
use p4_ubpf_scripts.Former.{
  find_unused, adjust_children, link_add, link_del, check_session, check_from, check_ovs,
  handle_client, boot, start_children,
}
use p4_ubpf_scripts.Former.Adjust.{
  adjust_children-Kept, adjust_children-comes_back, start_from-Kept,
}
use p4_ubpf_scripts.Former.Same.{find_unused-agrees}
use p4_ubpf_scripts.Former.Stop.{stop_all_children-agrees}

-- A run that comes back to a well-formed state.
abbrev pub Survives : Option Server → Type 0
Survives out = (t : Server) × (out ≡ some t) × IsValid t

when-Survives :
    (b : Bool) (act : Server → Option Server) (s : Server)
    → Survives (act s)
    → IsValid s
    → Survives (when b act s)
when-Survives true act s survives v = survives
when-Survives false act s survives v = (s, refl, v)

module _ (fork : ℕ → ℤ) (fuel : ℕ) where
  linked-IsValid :
      (i : ℕ) (t : Server) → IsValid t → IsValid (link_to i (find_unused t.runtimes_table) t)
  linked-IsValid i t v = rw (find_unused-agrees t.runtimes_table v.rows) (
      link_to-IsValid i t v (find_free_runtime_index t.runtimes_table)
        (find_free_runtime_index-Finds t.runtimes_table))

  module _ (launcher : (k : ℕ) → fork k ≢ pos 0) (enough : max_connections ≤ fuel) where
    link_add-Survives : (i : ℕ) (s : Server) → IsValid s → Survives (link_add fork fuel i s)
    unfolding link_add
    link_add-Survives i s v =
        let (t, e, kept) =
          adjust_children-comes_back fork fuel (increment s.runtimes) s v launcher enough in
        (link_to i (find_unused t.runtimes_table) t, rw e refl, linked-IsValid i t kept.valid)

    link_del-Survives : (i : ℕ) (s : Server) → IsValid s → Survives (link_del fork fuel i s)
    unfolding link_del
    link_del-Survives i s v =
        let u : Server = unlink i s in
        let (t, e, kept) =
          adjust_children-comes_back fork fuel (decrement u.runtimes) u (unlink-IsValid i s v)
            launcher enough in
        (t, e, kept.valid)

    check_session-Survives :
        (i : ℕ) (s : Server) → IsValid s → Survives (check_session fork fuel i s)
    unfolding check_session
    check_session-Survives i s v =
        let (m, e, mid) =
          when-Survives (is_new (session s i)) (link_add fork fuel i) s (link_add-Survives i s v)
            v in
        let (t, e', last) =
          when-Survives (is_lost (session m i)) (link_del fork fuel i) m (link_del-Survives i m mid)
            mid in
        (t, rw e e', last)

    check_from-Survives : (n i : ℕ) (s : Server) → IsValid s → Survives (check_from fork fuel i n s)
    unfolding check_from
    check_from-Survives zero i s v = (s, refl, v)
    check_from-Survives (suc n) i s v =
        let (m, e, mid) = check_session-Survives i s v in
        let (t, e', last) = check_from-Survives n (i + 1) m mid in (t, rw e e', last)

    -- If fork never returns 0 to the former launcher, a pass of its `check_ovs` from a well-formed
    -- state comes back to a well-formed state, also when fork fails, with 32 rounds for each loop
    -- of `start_children`.
    pub check_ovs-Survives : (s : Server) → IsValid s → Survives (check_ovs fork fuel s)
    unfolding check_ovs
    check_ovs-Survives s v = check_from-Survives max_connections 0 s v

  link_add-IsValid :
      (i : ℕ) (s t : Server) → IsValid s → link_add fork fuel i s ≡ some t → IsValid t
  unfolding link_add
  link_add-IsValid i s t v e =
      let (m, e₁, e₂) = >>=-eq-some (adjust_children fork fuel (increment s.runtimes) s) _ e in
      subst IsValid (some_inj.0 e₂)
        (linked-IsValid i m (adjust_children-Kept fork fuel (increment s.runtimes) s v m e₁).valid)

  link_del-IsValid :
      (i : ℕ) (s t : Server) → IsValid s → link_del fork fuel i s ≡ some t → IsValid t
  unfolding link_del
  link_del-IsValid i s t v e =
      let u : Server = unlink i s in
      (adjust_children-Kept fork fuel (decrement u.runtimes) u (unlink-IsValid i s v) t e).valid

  check_session-IsValid :
      (i : ℕ) (s t : Server) → IsValid s → check_session fork fuel i s ≡ some t → IsValid t
  unfolding check_session
  check_session-IsValid i s t v e =
      let (m, first, second) =
        >>=-eq-some (when (is_new (session s i)) (link_add fork fuel i) s) _ e in
      let valid =
        when-IsValid (is_new (session s i)) (link_add fork fuel i) s m
          (λ u. link_add-IsValid i s u v) v first in
      when-IsValid (is_lost (session m i)) (link_del fork fuel i) m t
        (λ u. link_del-IsValid i m u valid) valid second

  -- The commands: every answer but `update`'s comes from a state that is known.
  handle_client-IsValid :
      (pkill : ℤ) (command : Text) (s t : Server) (replies : List Reply)
      → IsValid s
      → handle_client fork fuel pkill command s ≡ some (t, replies)
      → IsValid t
  unfolding handle_client
  handle_client-IsValid pkill [] s t replies v e =
      subst IsValid (ap (λ (o : Server × List Reply). o.0) (some_inj.0 e)) v
  handle_client-IsValid pkill (c ∷ cs) s t replies v e =
      let command : Text = c ∷ cs in
      let num = atoi (skip 7 command) in
      elim (Bool-cases (starts_with (codes "start ") command)) [
        | inl y ↦ subst IsValid (answered (rw y at e)) v
        | inr n₁ ↦ elim (Bool-cases (starts_with (codes "update ") command)) [
          | inl y ↦
              let (u, e₁, e₂) = >>=-eq-some (adjust_children fork fuel num s) _ (rw (n₁, y) at e) in
              subst IsValid (answered e₂) (adjust_children-Kept fork fuel num s v u e₁).valid
          | inr n₂ ↦ elim (Bool-cases (starts_with (codes "stop") command)) [
            | inl y ↦
                subst IsValid (answered (rw (n₁, n₂, y) at e))
                  (stop_all_children-agrees s v).0.valid
            | inr n₃ ↦ elim (Bool-cases (starts_with (codes "status") command)) [
              | inl y ↦ subst IsValid (answered (rw (n₁, n₂, n₃, y) at e)) v
              | inr n₄ ↦ elim (Bool-cases (starts_with (codes "shutdown") command)) [
                | inl y ↦ subst IsValid (answered (rw (n₁, n₂, n₃, n₄, y) at e)) (
                    IsValid-touched fork fuel (λ _. true) s.table_locked (ran_pkill ∷ s.events) s v)
                | inr n₅ ↦ subst IsValid (answered (rw (n₁, n₂, n₃, n₄, n₅) at e)) v
              ]
            ]
          ]
        ]
      ]

  boot-IsValid :
      (s t : Server)
      → length s.runtimes_table ≡ max_connections
      → length s.session_table ≡ max_connections
      → s.runtimes ≡ pos 0
      → boot fork fuel s ≡ some t
      → IsValid t
  unfolding boot start_children shm_initialize_table
  boot-IsValid s t pool sessions none_yet e =
      (start_from-Kept fork (pos 1) (omega arith) fuel (blank s) t
        (blank-IsValid fork s pool sessions) (rw none_yet at e)).valid

  -- The loop of the former `main`: OVS writes, the launcher checks a session or answers a client.
  pub data Turn (s : Server) : Server → Type 0 where
    ovs_opens :
        (idx : ℕ) (c : Connection)
        → idx < max_connections
        → Turn s (record s { session_table = set s.session_table idx c })
    ovs_locks : (b : Bool) → Turn s (record s { table_locked = b })
    sees :
        (i : ℕ) {t : Server} → i < max_connections → check_session fork fuel i s ≡ some t → Turn s t
    replies :
        (pkill : ℤ) (command : Text) (answer : List Reply) {t : Server}
        → handle_client fork fuel pkill command s ≡ some (t, answer)
        → Turn s t

  -- The states after `boot`.
  pub data Life : Server → Type 0 where
    born :
        (s : Server) {t : Server}
        → length s.runtimes_table ≡ max_connections
        → length s.session_table ≡ max_connections
        → s.runtimes ≡ pos 0
        → boot fork fuel s ≡ some t
        → Life t
    next : {s t : Server} → Life s → Turn s t → Life t

  Turn-IsValid : {s t : Server} → Turn s t → IsValid s → IsValid t
  Turn-IsValid {s} (ovs_opens idx c in_table) v = ovs_writes-IsValid fork fuel (λ _. true) s idx c v
  Turn-IsValid {s} (ovs_locks b) v = IsValid-touched fork fuel (λ _. true) b s.events s v
  Turn-IsValid {s} (sees i {t} in_table e) v = check_session-IsValid i s t v e
  Turn-IsValid {s} (replies pkill command answer {t} e) v =
      handle_client-IsValid pkill command s t answer v e

  -- In every state that the former launcher reaches from a start with no runtimes, whatever fork
  -- returns, the clients send and OVS writes, the tables have their 32 rows, `runtimes` is the
  -- number of children in the pool, and there are 32 of them at most.
  pub Life-IsValid : {s : Server} → Life s → IsValid s × (live s.runtimes_table ≤ max_connections)
  Life-IsValid l = let v = kept l in (v, live-le _ v)
    where
      kept : {s : Server} → Life s → IsValid s
      kept {s} (born b pool sessions none_yet e) = boot-IsValid b s pool sessions none_yet e
      kept (next l turn) = Turn-IsValid turn (kept l)
