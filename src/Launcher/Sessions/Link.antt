-- ===== src/Launcher/Sessions/Link.antt =====
-- `link_add` and `link_del`: a session gets a runtime of its own, and gives it back.
use p4_ubpf_scripts.Common.{
  List, ℕ, ℤ, pos, pos_part, min, ltb_ℤ, increment, ◌+◌, ◌<◌, ◌≡◌, ◌≢◌, refl, sym, ap, true, Option,
  none, some, >>=-eq-some, arith, length, set, get_or, count-set, count-lt, All-set,
  get_or-set_self, get_or-set_ne,
}
use mathlib.Core.Option.{some_inj}
use p4_ubpf_scripts.Launcher.State.{Connection, Server, P4runtime, vacant, max_connections}
use p4_ubpf_scripts.Launcher.Invariant.{IsValid}
use p4_ubpf_scripts.Launcher.Runtimes.{
  is_idle, at_most_max, adjust_children, find_free_runtime_index,
}
use p4_ubpf_scripts.Launcher.Runtimes.Rows.{is_busy, live, busy, idle, live-eq-busy-add-idle}
use p4_ubpf_scripts.Launcher.Runtimes.Adjust.{Adjusted, adjust_children-Adjusted}
use p4_ubpf_scripts.Launcher.Sessions.{no_session, session, runtime, use_runtime, link_to, link_add}
use p4_ubpf_scripts.Launcher.Sessions.Rows.{has_pid, holds, Finds, find_free_runtime_index-Finds}
use p4_ubpf_scripts.Launcher.Sessions.Valid.{use_runtime-IsValid}
use p4_ubpf_scripts.Launcher.Sessions.Linked.{
  linked_to, is_linked, IsSessionId, NoReuse, IsLinked, adjust_children-IsLinked,
}

pub record IsSound (fork : ℕ → ℤ) (s : Server) : Type 0 where
  pub valid : IsValid s
  pub linked : IsLinked fork s

-- All rows of the session table but `idx` are as they were, and that one keeps its OVS side.
pub record SameBut (idx : ℕ) (before after : List Connection) : Type 0 where
  pub others : (j : ℕ) → idx ≢ j → get_or after j no_session ≡ get_or before j no_session
  pub same_ovs :
      (get_or after idx no_session).ovs_thread_id ≡ (get_or before idx no_session).ovs_thread_id
  pub same_count :
      (get_or after idx no_session).packet_count ≡ (get_or before idx no_session).packet_count

pub SameBut-refl : (idx : ℕ) (table : List Connection) → SameBut idx table table
SameBut-refl idx table = record { others = λ j ne. refl; same_ovs = refl; same_count = refl }

pub set_p4runtime_id-SameBut :
    (idx : ℕ) (id : ℤ) (table : List Connection)
    → idx < length table
    → SameBut idx table (set table idx (record (get_or table idx no_session) { p4runtime_id = id }))
set_p4runtime_id-SameBut idx id table h =
    let new : Connection = record (get_or table idx no_session) { p4runtime_id = id } in
    let at = get_or-set_self table idx new no_session h in
    record {
      others = λ j ne. get_or-set_ne table idx j new no_session ne;
      same_ovs = ap (λ (c : Connection). c.ovs_thread_id) at;
      same_count = ap (λ (c : Connection). c.packet_count) at;
    }

module _ (fork : ℕ → ℤ) (idx i : ℕ) (s : Server) (sound : IsSound fork s)
    (in_table : idx < max_connections) (in_pool : i < length s.runtimes_table)
    (free : is_idle (runtime s i) ≡ true)
    (unlinked : ltb_ℤ (session s idx).p4runtime_id (pos 0) ≡ true) where
  abbrev taken : P4runtime
  taken = record (runtime s i) { in_use = true }

  abbrev served : Connection
  served = record (session s idx) { p4runtime_id = (runtime s i).pid }

  in_sessions : idx < length s.session_table
  in_sessions = omega (arith, sound.valid.sessions_size)

  use_runtime-IsLinked : IsLinked fork (use_runtime idx i s)
  unfolding use_runtime
  use_runtime-IsLinked =
      let l = sound.linked in
      let rows = s.runtimes_table in
      let same_pids = λ (p : ℤ). count-set (has_pid p) rows i taken vacant in_pool in
      record {
        ids = All-set IsSessionId s.session_table idx served (ground arith) l.ids;
        total = ground (
          arith,
          l.total,
          count-set is_busy rows i taken vacant in_pool,
          count-set is_linked s.session_table idx served no_session in_sessions,
        );
        balance = λ p h. ground (
          arith,
          l.balance p h,
          count-set (holds p) rows i taken vacant in_pool,
          count-set (linked_to p) s.session_table idx served no_session in_sessions,
        );
        unique = λ p h. omega (arith, same_pids p, l.unique p h);
        issued = λ p h k. l.issued p h (omega (arith, same_pids p, k));
      }

  use_runtime_links : is_linked (session (use_runtime idx i s) idx) ≡ true
  unfolding use_runtime
  use_runtime_links =
      rw (get_or-set_self s.session_table idx served no_session in_sessions) (ground arith)

  pub use_runtime-IsSound : IsSound fork (use_runtime idx i s)
  use_runtime-IsSound = record {
    valid = use_runtime-IsValid idx i s sound.valid in_pool free;
    linked = use_runtime-IsLinked;
  }

  pub use_runtime-SameBut : SameBut idx s.session_table (use_runtime idx i s).session_table
  unfolding use_runtime
  use_runtime-SameBut = set_p4runtime_id-SameBut idx (runtime s i).pid s.session_table in_sessions

one_more :
    (s : Server)
    → IsValid s
    → pos_part (at_most_max (increment s.runtimes))
      ≡ min max_connections (live s.runtimes_table + 1)
one_more s v = ground (arith, v.counted)

room :
    (s m : Server)
    → IsValid s
    → Adjusted (increment s.runtimes) s m
    → busy s.runtimes_table < max_connections
    → 0 < idle m.runtimes_table
room s m v adjusted few = omega (
  arith,
  adjusted.size,
  adjusted.busy_rows,
  one_more s v,
  live-eq-busy-add-idle s.runtimes_table,
  live-eq-busy-add-idle m.runtimes_table,
)

-- What a session gains: a child that was idle, now in use for it.
pub record Links (fork : ℕ → ℤ) (idx : ℕ) (s t : Server) : Type 0 where
  pub sound : IsSound fork t
  pub same_but : SameBut idx s.session_table t.session_table
  pub has_runtime : is_linked (session t idx) ≡ true

link_to-Links :
    (fork : ℕ → ℤ) (idx : ℕ) (m : Server) (o : Option ℕ)
    → IsSound fork m
    → idx < max_connections
    → ltb_ℤ (session m idx).p4runtime_id (pos 0) ≡ true
    → 0 < idle m.runtimes_table
    → Finds m.runtimes_table o
    → Links fork idx m (link_to idx o m)
unfolding link_to
link_to-Links fork idx m none sound in_table unlinked some_idle found = absurd (omega arith)
link_to-Links fork idx m (some i) sound in_table unlinked some_idle found = record {
  sound = use_runtime-IsSound fork idx i m sound in_table found.0 found.1 unlinked;
  same_but = use_runtime-SameBut fork idx i m sound in_table found.0 found.1 unlinked;
  has_runtime = use_runtime_links fork idx i m sound in_table found.0 found.1 unlinked;
}

module _ (fork : ℕ → ℤ) (no_reuse : NoReuse fork) (fuel idx : ℕ) (s t : Server)
    (sound : IsSound fork s) (in_table : idx < max_connections)
    (unlinked : ltb_ℤ (session s idx).p4runtime_id (pos 0) ≡ true)
    (done : link_add fork fuel idx s ≡ some t) where
  -- The state between the adjustment and the search.
  abbrev Between : Server → Type 0
  Between m =
      IsSound fork m
      × (m.session_table ≡ s.session_table)
      × (0 < idle m.runtimes_table)
      × (t ≡ link_to idx (find_free_runtime_index m.runtimes_table) m)

  -- A session without a runtime leaves room for one: `adjust_children` provides an idle child.
  between : (m : Server) × Between m
  unfolding link_add
  between =
      let (m, e₁, e₂) = >>=-eq-some (adjust_children fork fuel (increment s.runtimes) s) _ done in
      let adjusted = adjust_children-Adjusted fork fuel (increment s.runtimes) s sound.valid m e₁ in
      let few =
        count-lt is_linked s.session_table idx no_session (omega (arith, sound.valid.sessions_size))
          (ground arith) in
      let linked =
        adjust_children-IsLinked fork no_reuse fuel (increment s.runtimes) s m sound.linked e₁ in
      (
        m,
        (
          record { valid = adjusted.valid; linked = linked },
          adjusted.sessions,
          room s m sound.valid adjusted
              (omega (arith, few, sound.linked.total, sound.valid.sessions_size)),
          sym (some_inj.0 e₂),
        ),
      )

  -- If fork gives out no pid twice, the tables agree, and the session in the table has no runtime,
  -- then whenever `link_add` comes back the tables agree, that session has a runtime, and nothing
  -- else changes in the session table.
  pub link_add-Links : Links fork idx s t
  link_add-Links =
      let (m, found) = between in
      let (sound_m, same, some_idle, result) = found in
      let linked =
        link_to-Links fork idx m (find_free_runtime_index m.runtimes_table) sound_m in_table
          (rw same unlinked) some_idle (find_free_runtime_index-Finds m.runtimes_table) in
      record {
        sound = rw result linked.sound;
        same_but = rw (result, ← same) linked.same_but;
        has_runtime = rw result linked.has_runtime;
      }
