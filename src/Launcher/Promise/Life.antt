-- ===== src/Launcher/Promise/Life.antt =====
-- The daemon keeps its promise in every state that it reaches, and loses no child.
use p4_ubpf_scripts.Common.{
  ℕ, ℤ, pos, minus_one, ◌<◌, ◌≡◌, refl, sym, ◌∙◌, ap, Bool, true, false, List, [], ◌∷◌, ◌++◌, some,
  map, set, map-set, set-same, get_or-map, replicate, length, arith,
}
use p4_ubpf_scripts.CString.{Text, codes, starts_with, skip, atoi}
use p4_ubpf_scripts.Launcher.State.{
  Connection, vacant, cleared, Event, Server, max_connections, shm_initialize_table,
  init_runtimes_table,
}
use p4_ubpf_scripts.Launcher.Runtimes.{start_children}
use p4_ubpf_scripts.Launcher.Sessions.{session, no_session}
use p4_ubpf_scripts.Launcher.Sessions.Linked.{NoReuse}
use p4_ubpf_scripts.Launcher.Sessions.Link.{IsSound}
use p4_ubpf_scripts.Launcher.Commands.{boot}
use p4_ubpf_scripts.Launcher.Commands.Boot.{
  blank, blank-IsValid, blank-IsLinked, count-map_none, handle_client_cases,
}
use p4_ubpf_scripts.Launcher.Commands.Reach.{
  Step, ovs_writes, ovs_locks, checks, answers, Reach, booted, later, Reach-IsSound,
}
use p4_ubpf_scripts.Launcher.Promise.{Promise, Act, shuts_down, run, notes}
use p4_ubpf_scripts.Launcher.Promise.Laws.{run-append, notes-append, waiting_ext, shuts_down_lem}
use p4_ubpf_scripts.Launcher.Promise.View.{
  waits, waiting_in, runtime_id, view, Follows, Follows-same, Follows-by,
}
use p4_ubpf_scripts.Launcher.Promise.Pool.{spawn_until-Follows, adjust_children-Follows}
use p4_ubpf_scripts.Launcher.Promise.Links.{check_session-Keeps}

-- No session is served, and no child waits.
abbrev pub nothing : Promise
nothing = record { serving = replicate max_connections minus_one; waiting = λ q. 0 }

serving-cleared :
    (table : List Connection)
    → map runtime_id (map cleared table) ≡ replicate (length table) minus_one
serving-cleared [] = refl
serving-cleared (c ∷ table) = ap (◌∷◌ minus_one) (serving-cleared table)

view-blank : (b : Server) → length b.session_table ≡ max_connections → view (blank b) ≡ nothing
view-blank b sessions =
    waiting_ext (view (blank b)) (waiting_in (blank b).runtimes_table) (λ q. 0)
      (λ q. count-map_none (waits q) (λ _. vacant) b.runtimes_table (λ _. refl))
    ∙ ap (λ l. record { serving = l; waiting = λ q. 0 })
        (serving-cleared b.session_table ∙ ap (λ n. replicate n minus_one) sessions)

-- Some acts from nothing lead to what the state shows, and its log has their events on top.
pub record Promised (s : Server) : Type 0 where
  pub acts : List Act
  pub earlier : List Event
  pub done : run acts nothing ≡ some (view s)
  pub noted : s.events ≡ notes acts earlier

Promised-Follows : {s t : Server} → Promised s → Follows s t → Promised t
Promised-Follows {s} {t} p f = record {
  acts = p.acts ++ f.acts;
  earlier = p.earlier;
  done = run-append p.acts f.acts nothing (view s) p.done ∙ f.done;
  noted = f.noted ∙ ap (notes f.acts) p.noted ∙ sym (notes-append p.acts f.acts p.earlier);
}

module _ (fork : ℕ → ℤ) (fuel : ℕ) (allowed : Text → Bool) (no_reuse : NoReuse fork)
    (no_stop : (command : Text)
      → allowed command ≡ true
      → starts_with (codes "stop") command ≡ false) where
  view-ovs_writes :
      (s : Server) (idx : ℕ) (c : Connection)
      → IsSound fork s
      → idx < max_connections
      → c.p4runtime_id ≡ (session s idx).p4runtime_id
      → view (record s { session_table = set s.session_table idx c }) ≡ view s
  view-ovs_writes s idx c sound in_table same =
      let size : idx < length s.session_table =
        omega (arith, in_table, sound.valid.sessions_size) in
      ap (λ l. record { serving = l; waiting = waiting_in s.runtimes_table })
        (map-set runtime_id s.session_table idx c
          ∙ set-same (map runtime_id s.session_table) idx c.p4runtime_id minus_one
              (same ∙ sym (get_or-map runtime_id s.session_table idx no_session minus_one size)))

  Step-Follows : {s t : Server} → Step fork fuel allowed s t → IsSound fork s → Follows s t
  Step-Follows {s} (ovs_writes idx c in_table same) sound =
      Follows-same (view-ovs_writes s idx c sound in_table same) refl
  Step-Follows {s} (ovs_locks b) sound = Follows-same refl refl
  Step-Follows {s} (checks i {t} in_table e) sound =
      (check_session-Keeps fork no_reuse fuel i in_table sound e).1
  Step-Follows {s} (answers pkill command replies {t} ok e) sound =
      handle_client_cases fork fuel (Follows s) pkill command s t replies (Follows-same refl refl)
        (Follows-by shuts_down (shuts_down_lem (view s)) refl)
        (λ u h. adjust_children-Follows fork no_reuse fuel (atoi (skip 7 command)) s u sound h)
        (λ stop. cc (no_stop command ok)) e

  -- If fork gives out no pid twice and no client's text is one that ends the children (`stop`),
  -- every state that the daemon reaches is what an allocator without tables comes to from nothing
  -- by some acts that it allows: a new child has a pid that nobody has, only a child that waits is
  -- ended or given to a session, only a session without a child is given one, and a session that
  -- gives up its child leaves it waiting. The log has the events of these acts, in their order, on
  -- top of earlier ones.
  pub Reach-Promised : {s : Server} → Reach fork fuel allowed s → Promised s
  unfolding boot start_children shm_initialize_table init_runtimes_table run notes
  Reach-Promised {s} (booted b pool sessions e) =
      let sound : IsSound fork (blank b) = record {
        valid = blank-IsValid fork b pool sessions;
        linked = blank-IsLinked fork b pool sessions;
      } in
      let start : Promised (blank b) = record {
        acts = [];
        earlier = b.events;
        done = ap some (sym (view-blank b sessions));
        noted = refl;
      } in
      Promised-Follows start
        (spawn_until-Follows fork no_reuse fuel (pos 1) (blank b) s (omega arith) sound e)
  Reach-Promised (later r step) =
      Promised-Follows (Reach-Promised r)
        (Step-Follows step (Reach-IsSound fork fuel allowed no_reuse no_stop r))
