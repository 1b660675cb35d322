-- ===== src/Launcher/Commands/Reach.antt =====
-- The loop of `main` in p4l_server.c as a step relation: the launcher looks at one session or
-- answers one client, and between its steps OVS writes to the session table.
use p4_ubpf_scripts.Common.{
  ℕ, ℤ, ◌≤◌, ◌<◌, ◌≡◌, ◌∙◌, Bool, true, false, List, ◌∷◌, some, arith, length, set, All-set,
  length-set, count-set, get_or-All,
}
use p4_ubpf_scripts.CString.{Text, codes, starts_with, skip, atoi}
use p4_ubpf_scripts.Launcher.State.{Connection, Server, Event, ran_pkill, max_connections}
use p4_ubpf_scripts.Launcher.Invariant.{IsValid}
use p4_ubpf_scripts.Launcher.Runtimes.Adjust.{adjust_children-Adjusted, live-le}
use p4_ubpf_scripts.Launcher.Runtimes.Rows.{live}
use p4_ubpf_scripts.Launcher.Runtimes.Stop.{stop_all_children-Stopped}
use p4_ubpf_scripts.Launcher.Sessions.{no_session, session, check_session}
use p4_ubpf_scripts.Launcher.Sessions.Valid.{check_session-IsValid}
use p4_ubpf_scripts.Launcher.Sessions.Linked.{
  is_linked, linked_to, IsSessionId, NoReuse, adjust_children-IsLinked,
}
use p4_ubpf_scripts.Launcher.Sessions.Link.{IsSound}
use p4_ubpf_scripts.Launcher.Sessions.Check.{check_session-Checked}
use p4_ubpf_scripts.Launcher.Commands.{Reply, handle_client, boot}
use p4_ubpf_scripts.Launcher.Commands.Boot.{handle_client_cases, boot-IsSound, boot-IsValid}

-- `allowed` says which commands the clients send.
module _ (fork : ℕ → ℤ) (fuel : ℕ) (allowed : Text → Bool) where
  pub data Step (s : Server) : Server → Type 0 where
    -- OVS opens or closes a session, or counts a packet; the launcher's id is not its field.
    ovs_writes :
        (idx : ℕ) (c : Connection)
        → idx < max_connections
        → c.p4runtime_id ≡ (session s idx).p4runtime_id
        → Step s (record s { session_table = set s.session_table idx c })
    ovs_locks : (b : Bool) → Step s (record s { table_locked = b })
    checks :
        (i : ℕ) {t : Server} → i < max_connections → check_session fork fuel i s ≡ some t → Step s t
    answers :
        (pkill : ℤ) (command : Text) (replies : List Reply) {t : Server}
        → allowed command ≡ true
        → handle_client fork fuel pkill command s ≡ some (t, replies)
        → Step s t

  -- The states after `boot`.
  pub data Reach : Server → Type 0 where
    booted :
        (s : Server) {t : Server}
        → length s.runtimes_table ≡ max_connections
        → length s.session_table ≡ max_connections
        → boot fork fuel s ≡ some t
        → Reach t
    later : {s t : Server} → Reach s → Step s t → Reach t

  pub ovs_writes-IsValid :
      (s : Server) (idx : ℕ) (c : Connection)
      → IsValid s
      → IsValid (record s { session_table = set s.session_table idx c })
  ovs_writes-IsValid s idx c v = record {
    pool_size = v.pool_size;
    sessions_size = length-set s.session_table idx c ∙ v.sessions_size;
    rows = v.rows;
    counted = v.counted;
  }

  -- The lock and the log are in neither invariant.
  pub IsValid-touched :
      (b : Bool) (log : List Event) (s : Server)
      → IsValid s
      → IsValid (record s { table_locked = b; events = log })
  IsValid-touched b log s v = record {
    pool_size = v.pool_size;
    sessions_size = v.sessions_size;
    rows = v.rows;
    counted = v.counted;
  }

  IsSound-touched :
      (b : Bool) (log : List Event) (s : Server)
      → IsSound fork s
      → IsSound fork (record s { table_locked = b; events = log })
  IsSound-touched b log s sound =
      let l = sound.linked in
      record {
        valid = IsValid-touched b log s sound.valid;
        linked = record {
          ids = l.ids;
          total = l.total;
          balance = l.balance;
          unique = l.unique;
          issued = l.issued;
        };
      }

  Step-IsValid : {s t : Server} → Step s t → IsValid s → IsValid t
  Step-IsValid {s} (ovs_writes idx c in_table same) v = ovs_writes-IsValid s idx c v
  Step-IsValid {s} (ovs_locks b) v = IsValid-touched b s.events s v
  Step-IsValid {s} (checks i {t} in_table e) v = check_session-IsValid fork fuel i s t v e
  Step-IsValid {s} (answers pkill command replies {t} ok e) v =
      handle_client_cases fork fuel IsValid pkill command s t replies v
        (IsValid-touched s.table_locked (ran_pkill ∷ s.events) s v)
        (λ u h. (adjust_children-Adjusted fork fuel (atoi (skip 7 command)) s v u h).valid)
        (λ _. (stop_all_children-Stopped s v).valid) e

  -- In every state that the daemon reaches, whatever the clients send and OVS writes, the tables
  -- have their 32 rows, `runtimes` is the number of children in the pool, and there are 32 of them
  -- at most.
  pub Reach-IsValid : {s : Server} → Reach s → IsValid s × (live s.runtimes_table ≤ max_connections)
  Reach-IsValid r = let v = kept r in (v, live-le _ v)
    where
      kept : {s : Server} → Reach s → IsValid s
      kept {s} (booted b pool sessions e) = boot-IsValid fork b pool sessions fuel s e
      kept (later r step) = Step-IsValid step (kept r)

  module _ (s : Server) (idx : ℕ) (c : Connection) (in_table : idx < max_connections)
      (same : c.p4runtime_id ≡ (session s idx).p4runtime_id) where
    pub ovs_writes-IsSound :
        IsSound fork s → IsSound fork (record s { session_table = set s.session_table idx c })
    ovs_writes-IsSound sound =
        let inside : idx < length s.session_table = omega (arith, sound.valid.sessions_size) in
        let l = sound.linked in
        record {
          valid = ovs_writes-IsValid s idx c sound.valid;
          linked = record {
            ids =
                All-set IsSessionId s.session_table idx c
                  (rw same (get_or-All IsSessionId s.session_table idx no_session inside l.ids))
                  l.ids;
            total =
                ground (
                  arith,
                  l.total,
                  same,
                  count-set is_linked s.session_table idx c no_session inside,
                );
            balance = λ p h. ground (
              arith,
              l.balance p h,
              same,
              count-set (linked_to p) s.session_table idx c no_session inside,
            );
            unique = l.unique;
            issued = l.issued;
          };
        }

  module _ (no_reuse : NoReuse fork)
      (no_stop : (command : Text)
        → allowed command ≡ true
        → starts_with (codes "stop") command ≡ false) where
    handle_client-IsSound :
        (pkill : ℤ) (command : Text) (s t : Server) (replies : List Reply)
        → allowed command ≡ true
        → IsSound fork s
        → handle_client fork fuel pkill command s ≡ some (t, replies)
        → IsSound fork t
    handle_client-IsSound pkill command s t replies ok sound e =
        handle_client_cases fork fuel (IsSound fork) pkill command s t replies sound
          (IsSound-touched s.table_locked (ran_pkill ∷ s.events) s sound)
          (λ u h.
            let num = atoi (skip 7 command) in
            record {
              valid = (adjust_children-Adjusted fork fuel num s sound.valid u h).valid;
              linked = adjust_children-IsLinked fork no_reuse fuel num s u sound.linked h;
            })
          (λ stop. cc (no_stop command ok)) e

    Step-IsSound : {s t : Server} → Step s t → IsSound fork s → IsSound fork t
    Step-IsSound {s} (ovs_writes idx c in_table same) sound =
        ovs_writes-IsSound s idx c in_table same sound
    Step-IsSound {s} (ovs_locks b) sound = IsSound-touched b s.events s sound
    Step-IsSound {s} (checks i {t} in_table e) sound =
        (check_session-Checked fork no_reuse fuel i s t sound in_table e).sound
    Step-IsSound {s} (answers pkill command replies {t} ok e) sound =
        handle_client-IsSound pkill command s t replies ok sound e

    -- If fork gives out no pid twice and no client's text is one that ends the children (`stop`),
    -- then in every state that the daemon reaches, whatever OVS writes to the session ids between
    -- its steps, the pool is well formed and the tables agree: each session's runtime is a child in
    -- use, no two sessions share one, and no child is in use without a session.
    pub Reach-IsSound : {s : Server} → Reach s → IsSound fork s
    Reach-IsSound {s} (booted b pool sessions e) =
        (boot-IsSound fork b pool sessions no_reuse fuel s e).0
    Reach-IsSound (later r step) = Step-IsSound step (Reach-IsSound r)
