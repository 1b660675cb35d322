-- ===== src/Launcher/Promise/Links.antt =====
-- `check_ovs_sessions` does what the promise allows: a session without a runtime gets a child that
-- waits, and a closed one gives its child back.
use p4_ubpf_scripts.Common.{
  ℕ, ℤ, pos, minus_one, ltb_ℤ, increment, decrement, ◌+◌, ◌-◌, ◌<◌, ◌≡◌, refl, sym, ◌∙◌, ap, subst,
  Bool, true, false, Option, none, some, >>=-eq-some, map, map-set, get_or-map, get_or, set,
  count-set, count-pos, length, arith, ==ℤ_refl,
}
use mathlib.Core.Option.{some_inj}
use p4_ubpf_scripts.Launcher.State.{P4runtime, vacant, Server, max_connections}
use p4_ubpf_scripts.Launcher.Runtimes.{is_idle, adjust_children, find_free_runtime_index}
use p4_ubpf_scripts.Launcher.Runtimes.Adjust.{adjust_children-Adjusted}
use p4_ubpf_scripts.Launcher.Sessions.{
  no_session, session, runtime, use_runtime, free_runtime, link_to, unlink, is_new, is_lost, when,
  link_add, link_del, check_session,
}
use p4_ubpf_scripts.Launcher.Sessions.Rows.{Finds, find_free_runtime_index-Finds}
use p4_ubpf_scripts.Launcher.Sessions.Valid.{unlink-IsValid}
use p4_ubpf_scripts.Launcher.Sessions.Linked.{is_linked, NoReuse, adjust_children-IsLinked}
use p4_ubpf_scripts.Launcher.Sessions.Link.{IsSound, link_add-Links}
use p4_ubpf_scripts.Launcher.Sessions.Unlink.{held, unlink-IsLinked, link_del-Unlinks}
use p4_ubpf_scripts.Launcher.Promise.{Promise, links, unlinks, one_if}
use p4_ubpf_scripts.Launcher.Promise.Laws.{waiting_ext, links_lem, unlinks_lem}
use p4_ubpf_scripts.Launcher.Promise.View.{
  waits, waiting_in, runtime_id, view, Follows, Follows-trans, Follows-same, Follows-by,
  waits-free_runtime,
}
use p4_ubpf_scripts.Launcher.Promise.Pool.{adjust_children-Follows}

-- What a write to the session table shows.
serving-set :
    (s : Server) (idx : ℕ) (id : ℤ)
    → map runtime_id (set s.session_table idx (record (session s idx) { p4runtime_id = id }))
      ≡ set (view s).serving idx id
serving-set s idx id =
    map-set runtime_id s.session_table idx (record (session s idx) { p4runtime_id = id })

module _ (fork : ℕ → ℤ) (idx : ℕ) (s : Server) (sound : IsSound fork s)
    (in_table : idx < max_connections) where
  serving-idx : get_or (view s).serving idx (pos 0) ≡ (session s idx).p4runtime_id
  serving-idx =
      get_or-map runtime_id s.session_table idx no_session (pos 0)
        (omega (arith, in_table, sound.valid.sessions_size))

  use_runtime-Follows :
      (i : ℕ)
      → i < length s.runtimes_table
      → is_idle (runtime s i) ≡ true
      → ltb_ℤ (session s idx).p4runtime_id (pos 0) ≡ true
      → Follows s (use_runtime idx i s)
  unfolding use_runtime
  use_runtime-Follows i in_pool free unlinked =
      let p = (runtime s i).pid in
      let rows = s.runtimes_table in
      let here : waits p (runtime s i) ≡ true = ground (arith, ==ℤ_refl p) in
      let taken : P4runtime = record (runtime s i) { in_use = true } in
      let a : Promise = record (view s) { serving = set (view s).serving idx p } in
      Follows-by (links idx p)
        (links_lem (view s) p (ground arith) idx (count-pos (waits p) rows i vacant in_pool here)
            (rw serving-idx unlinked)
          ∙ ap some (
              waiting_ext a (λ q. waiting_in rows q - one_if p q) (waiting_in (set rows i taken))
                (λ q. ground (arith, count-set (waits q) rows i taken vacant in_pool))
              ∙ ap (λ l. record { serving = l; waiting = waiting_in (set rows i taken) })
                  (sym (serving-set s idx p))))
        refl

  link_to-Follows :
      (o : Option ℕ)
      → Finds s.runtimes_table o
      → ltb_ℤ (session s idx).p4runtime_id (pos 0) ≡ true
      → Follows s (link_to idx o s)
  unfolding link_to
  link_to-Follows none found unlinked = Follows-same refl refl
  link_to-Follows (some i) found unlinked = use_runtime-Follows i found.0 found.1 unlinked

  unlink-Follows : is_linked (session s idx) ≡ true → Follows s (unlink idx s)
  unfolding unlink
  unlink-Follows linked =
      let p = (session s idx).p4runtime_id in
      let rows = s.runtimes_table in
      let a : Promise = record (view s) { serving = set (view s).serving idx minus_one } in
      Follows-by (unlinks idx)
        (unlinks_lem (view s) p linked idx serving-idx
          ∙ ap some (
              waiting_ext a (λ q. waiting_in rows q + one_if p q) (waiting_in (free_runtime p rows))
                (λ q. sym (
                  waits-free_runtime q p rows linked (sound.linked.unique p linked)
                    (held fork idx s sound in_table linked)))
              ∙ ap (λ l. record { serving = l; waiting = waiting_in (free_runtime p rows) })
                  (sym (serving-set s idx minus_one))))
        refl

-- A state from which the launcher goes on in agreement, and what it has done to come there.
abbrev pub Keeps : (ℕ → ℤ) → Server → Server → Type 0
Keeps fork s t = IsSound fork t × Follows s t

Keeps-same : {fork : ℕ → ℤ} {s t : Server} → IsSound fork s → s ≡ t → Keeps fork s t
Keeps-same {fork} {s} sound same = subst (Keeps fork s) same (sound, Follows-same refl refl)

when-Keeps :
    {fork : ℕ → ℤ} (b : Bool) (act : Server → Option Server) {s t : Server}
    → (b ≡ true → act s ≡ some t → Keeps fork s t)
    → IsSound fork s
    → when b act s ≡ some t
    → Keeps fork s t
when-Keeps true act keeps sound e = keeps refl e
when-Keeps false act keeps sound e = Keeps-same sound (some_inj.0 e)

module _ (fork : ℕ → ℤ) (no_reuse : NoReuse fork) (fuel : ℕ) where
  module _ (i : ℕ) (in_table : i < max_connections) {s t : Server} (sound : IsSound fork s) where
    link_add-Keeps : is_new (session s i) ≡ true → link_add fork fuel i s ≡ some t → Keeps fork s t
    unfolding link_add
    link_add-Keeps new e =
        let num = increment s.runtimes in
        let unlinked : ltb_ℤ (session s i).p4runtime_id (pos 0) ≡ true = ground arith in
        let (m, e₁, e₂) = >>=-eq-some (adjust_children fork fuel num s) _ e in
        let adjusted = adjust_children-Adjusted fork fuel num s sound.valid m e₁ in
        let sound_m : IsSound fork m = record {
          valid = adjusted.valid;
          linked = adjust_children-IsLinked fork no_reuse fuel num s m sound.linked e₁;
        } in
        let linked =
          link_to-Follows fork i m sound_m in_table (find_free_runtime_index m.runtimes_table)
            (find_free_runtime_index-Finds m.runtimes_table) (rw adjusted.sessions unlinked) in
        (
          (link_add-Links fork no_reuse fuel i s t sound in_table unlinked e).sound,
          Follows-trans (adjust_children-Follows fork no_reuse fuel num s m sound e₁)
              (subst (Follows m) (some_inj.0 e₂) linked),
        )

    link_del-Keeps : is_lost (session s i) ≡ true → link_del fork fuel i s ≡ some t → Keeps fork s t
    unfolding link_del
    link_del-Keeps lost e =
        let linked : is_linked (session s i) ≡ true = ground arith in
        let u : Server = unlink i s in
        let sound_u : IsSound fork u = record {
          valid = unlink-IsValid i s sound.valid;
          linked = unlink-IsLinked fork i s sound in_table linked;
        } in
        (
          (link_del-Unlinks fork no_reuse fuel i s t sound in_table linked e).sound,
          Follows-trans (unlink-Follows fork i s sound in_table linked)
              (adjust_children-Follows fork no_reuse fuel (decrement u.runtimes) u t sound_u e),
        )

  pub check_session-Keeps :
      (i : ℕ) {s t : Server}
      → i < max_connections
      → IsSound fork s
      → check_session fork fuel i s ≡ some t
      → Keeps fork s t
  unfolding check_session
  check_session-Keeps i {s} {t} in_table sound e =
      let (m, first, second) =
        >>=-eq-some (when (is_new (session s i)) (link_add fork fuel i) s) _ e in
      let (sound_m, added) =
        when-Keeps (is_new (session s i)) (link_add fork fuel i) (link_add-Keeps i in_table sound)
          sound first in
      let (sound_t, removed) =
        when-Keeps (is_lost (session m i)) (link_del fork fuel i)
          (link_del-Keeps i in_table sound_m) sound_m second in
      (sound_t, Follows-trans added removed)
