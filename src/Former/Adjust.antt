-- ===== src/Former/Adjust.antt =====
-- What the former `adjust_children` leaves of the pool, and that it always comes back.
use mathlib.Core.Option.{some_inj}
use p4_ubpf_scripts.Common.{
  ℕ, zero, suc, ℤ, pos, pos_part, ltb_ℤ, ◌==ℤ◌, ==ℤ_iff, ◌+◌, ◌≤◌, ◌≡◌, ◌≢◌, ◌∙◌, refl, sym, ap,
  subst, inl, inr, true, false, if◌then◌else◌, List, [], ◌∷◌, length, All, some, arith, Bool-cases,
  sign, below, at_zero, above,
}
use p4_ubpf_scripts.Launcher.State.{P4runtime, Event, sigterm, waited, Server, max_connections}
use p4_ubpf_scripts.Launcher.Invariant.{IsValid}
use p4_ubpf_scripts.Launcher.Runtimes.{is_idle, at_most_max, fork_failed, child_started}
use p4_ubpf_scripts.Launcher.Runtimes.Rows.{live, busy, IsRow}
use p4_ubpf_scripts.Launcher.Runtimes.Start.{
  Spawned, fork_failed-Spawned, child_started-Spawned, under_max, enough_stops,
}
use p4_ubpf_scripts.Launcher.Runtimes.Adjust.{at_most_max-le, live-le}
use p4_ubpf_scripts.Former.{
  end_idle, count_in_use, shrink, start_from, start_children, adjust_children,
}

pub length-end_idle :
    (es : List P4runtime) (log : List Event) → length (end_idle es log).0 ≡ length es
unfolding end_idle
length-end_idle [] log = refl
length-end_idle (e ∷ es) log = ap suc (length-end_idle es _)

pub end_idle-IsRow :
    (es : List P4runtime) (log : List Event) → All IsRow es → All IsRow (end_idle es log).0
unfolding end_idle
end_idle-IsRow [] log rows = tt
end_idle-IsRow (e ∷ es) log rows = (ground arith, end_idle-IsRow es _ rows.1)

pub busy-end_idle : (es : List P4runtime) (log : List Event) → busy (end_idle es log).0 ≡ busy es
unfolding end_idle
busy-end_idle [] log = refl
busy-end_idle (e ∷ es) log =
    let rest = busy-end_idle es (if is_idle e then waited e.pid ∷ sigterm e.pid ∷ log else log) in
    ground (arith, rest)

-- No idle child is left.
live-end_idle : (es : List P4runtime) (log : List Event) → live (end_idle es log).0 ≡ busy es
unfolding end_idle
live-end_idle [] log = refl
live-end_idle (e ∷ es) log =
    let rest = live-end_idle es (if is_idle e then waited e.pid ∷ sigterm e.pid ∷ log else log) in
    ground (arith, rest)

pub count_in_use-busy : (es : List P4runtime) → All IsRow es → count_in_use es ≡ busy es
count_in_use-busy [] rows = refl
count_in_use-busy (e ∷ es) rows = ground (arith, count_in_use-busy es rows.1)

-- What is kept when the pool changes: it is well formed, with the same children in use, and
-- nothing but the pool has changed.
pub record Kept (s t : Server) : Type 0 where
  pub valid : IsValid t
  pub busy_rows : busy t.runtimes_table ≡ busy s.runtimes_table
  pub sessions : t.session_table ≡ s.session_table
  pub lock : t.table_locked ≡ s.table_locked

shrink-Kept : (s : Server) → IsValid s → Kept s (shrink s)
unfolding shrink
shrink-Kept s v =
    let rows = (end_idle s.runtimes_table s.events).0 in
    let good = end_idle-IsRow s.runtimes_table s.events v.rows in
    record {
      valid = record {
        pool_size = length-end_idle s.runtimes_table s.events ∙ v.pool_size;
        sessions_size = v.sessions_size;
        rows = good;
        counted = ap pos (
            count_in_use-busy rows good
            ∙ busy-end_idle s.runtimes_table s.events
            ∙ sym (live-end_idle s.runtimes_table s.events));
      };
      busy_rows = busy-end_idle s.runtimes_table s.events;
      sessions = refl;
      lock = refl;
    }

Spawned-Kept : {fork : ℕ → ℤ} {s t : Server} → Spawned fork s t → Kept s t
Spawned-Kept round = record {
  valid = round.valid;
  busy_rows = round.busy_rows;
  sessions = round.sessions;
  lock = round.lock;
}

Kept-trans : {s m t : Server} → Kept s m → Kept m t → Kept s t
Kept-trans first second = record {
  valid = second.valid;
  busy_rows = second.busy_rows ∙ first.busy_rows;
  sessions = second.sessions ∙ first.sessions;
  lock = second.lock ∙ first.lock;
}

Kept-refl : (s : Server) → IsValid s → Kept s s
Kept-refl s v = record { valid = v; busy_rows = refl; sessions = refl; lock = refl }

module _ (fork : ℕ → ℤ) (num : ℤ) (small : pos_part num ≤ max_connections) where
  pub start_from-Kept :
      (fuel : ℕ) (s t : Server) → IsValid s → start_from fork fuel num s ≡ some t → Kept s t
  unfolding start_from
  start_from-Kept zero s t v e = elim (Bool-cases (ltb_ℤ s.runtimes num)) [
    | inl more ↦ cc (rw more at e)
    | inr done ↦ subst (Kept s) (some_inj.0 (rw done at e)) (Kept-refl s v)
  ]
  start_from-Kept (suc fuel) s t v e = elim (Bool-cases (ltb_ℤ s.runtimes num)) [
    | inr done ↦ subst (Kept s) (some_inj.0 (rw (done, start_from) at e)) (Kept-refl s v)
    | inl more ↦ elim (sign (fork s.forks)) [
      | below failed ↦
          subst (Kept s) (some_inj.0 (rw (more, failed, start_from) at e))
            (Spawned-Kept (fork_failed-Spawned fork s v failed))
      | at_zero a b ↦ cc (rw (more, a, b, start_from) at e)
      | above a b positive ↦
          let short = under_max num s v small more in
          let round = child_started-Spawned fork s v (omega (arith, short, small)) positive in
          Kept-trans (Spawned-Kept round) (
            start_from-Kept fuel (child_started (fork s.forks) s) t round.valid
              (rw (more, a, b, start_from) at e))
    ]
  ]

  -- A failing fork ends the loop, and a child that is started brings its end closer.
  start_from-returns :
      ((k : ℕ) → fork k ≢ pos 0)
      → (fuel : ℕ) (s : Server) → IsValid s
      → pos_part num ≤ live s.runtimes_table + fuel
      → (t : Server) × (start_from fork fuel num s ≡ some t)
  unfolding start_from
  start_from-returns launcher zero s v need = (s, rw (enough_stops num s v (omega arith)))
  start_from-returns launcher (suc fuel) s v need = elim (Bool-cases (ltb_ℤ s.runtimes num)) [
    | inr done ↦ (s, rw (done, start_from))
    | inl more ↦ elim (sign (fork s.forks)) [
      | below failed ↦ (fork_failed s, rw (more, failed, start_from))
      | at_zero a b ↦ absurd (launcher s.forks ((==ℤ_iff _ _).0 b))
      | above a b positive ↦
          let short = under_max num s v small more in
          let round = child_started-Spawned fork s v (omega (arith, short, small)) positive in
          let (t, e) =
            start_from-returns launcher fuel (child_started (fork s.forks) s) round.valid
              (omega (arith, need, rw positive at round.more)) in
          (t, rw (more, a, b, start_from) e)
    ]
  ]

at_most_max_idem : (n : ℤ) → at_most_max (at_most_max n) ≡ at_most_max n
at_most_max_idem n = ground arith

module _ (fork : ℕ → ℤ) (fuel : ℕ) (target : ℤ) (s : Server) (v : IsValid s) where
  abbrev goal : ℤ
  goal = at_most_max target

  pub adjust_children-Kept : (t : Server) → adjust_children fork fuel target s ≡ some t → Kept s t
  unfolding adjust_children start_children
  adjust_children-Kept t e = elim (Bool-cases (target ==ℤ s.runtimes)) [
    | inl same ↦ subst (Kept s) (some_inj.0 (rw same at e)) (Kept-refl s v)
    | inr differs ↦ elim (Bool-cases (ltb_ℤ s.runtimes goal)) [
      | inl more ↦
          start_from-Kept fork (at_most_max goal) (at_most_max-le goal) fuel s t v
            (rw (differs, more) at e)
      | inr enough ↦ elim (Bool-cases (ltb_ℤ goal s.runtimes)) [
        | inl less ↦ subst (Kept s) (some_inj.0 (rw (differs, enough, less) at e)) (shrink-Kept s v)
        | inr full ↦ subst (Kept s) (some_inj.0 (rw (differs, enough, full) at e)) (Kept-refl s v)
      ]
    ]
  ]

  returns :
      ((k : ℕ) → fork k ≢ pos 0)
      → max_connections ≤ fuel
      → (t : Server) × (adjust_children fork fuel target s ≡ some t)
  unfolding adjust_children start_children
  returns launcher enough = elim (Bool-cases (target ==ℤ s.runtimes)) [
    | inl same ↦ (s, rw same refl)
    | inr differs ↦ elim (Bool-cases (ltb_ℤ s.runtimes goal)) [
      | inl more ↦
          let room = at_most_max-le goal in
          let (t, e) =
            start_from-returns fork (at_most_max goal) room launcher fuel s v
              (omega (arith, room, enough)) in
          (t, rw (differs, more) e)
      | inr stays ↦ elim (Bool-cases (ltb_ℤ goal s.runtimes)) [
        | inl less ↦ (shrink s, rw (differs, stays, less) refl)
        | inr full ↦ (s, rw (differs, stays, full) refl)
      ]
    ]
  ]

  -- 32 rounds are enough.
  pub adjust_children-comes_back :
      ((k : ℕ) → fork k ≢ pos 0)
      → max_connections ≤ fuel
      → (t : Server) × (adjust_children fork fuel target s ≡ some t) × Kept s t
  adjust_children-comes_back launcher enough =
      let (t, e) = returns launcher enough in (t, e, adjust_children-Kept t e)

  -- From a well-formed state, when the former `adjust_children` is to have fewer runtimes than
  -- there are, it comes back to a well-formed state that has as many as were in use, however many
  -- were asked for.
  pub adjust_children-ends_idle :
      ltb_ℤ target s.runtimes ≡ true
      → (t : Server) × (adjust_children fork fuel target s ≡ some t)
        × IsValid t
        × (live t.runtimes_table ≡ busy s.runtimes_table)
  unfolding adjust_children shrink
  adjust_children-ends_idle less =
      let few = live-le s v in
      let differs : (target ==ℤ s.runtimes) ≡ false = ground arith in
      let not_more : ltb_ℤ s.runtimes goal ≡ false = ground (arith, few) in
      let fewer : ltb_ℤ goal s.runtimes ≡ true = ground (arith, few) in
      (
        shrink s,
        rw (differs, not_more, fewer) refl,
        (shrink-Kept s v).valid,
        live-end_idle s.runtimes_table s.events,
      )
