-- ===== src/Launcher/Promise/View.antt =====
-- What the tables of the launcher show of the promise, and how its loops over the pool act on that.
use p4_ubpf_scripts.Common.{
  ℕ, ℤ, pos, ltb_ℤ, ==ℤ_iff, ==ℤ_refl, ◌+◌, ◌-◌, ◌≤◌, ◌<◌, ◌≡◌, refl, sym, ◌∙◌, ap, inl, inr, Bool,
  true, ◌&&◌, if◌then◌else◌, Bool-cases, List, [], ◌∷◌, ◌++◌, some, map, count, length, All, arith,
}
use p4_ubpf_scripts.Launcher.State.{Connection, P4runtime, vacant, Event, sigterm, waited, Server}
use p4_ubpf_scripts.Launcher.Runtimes.{is_idle, add_runtime_entry, shrink_rows}
use p4_ubpf_scripts.Launcher.Runtimes.Rows.{IsRow, live, idle-terminated}
use p4_ubpf_scripts.Launcher.Sessions.{free_runtime}
use p4_ubpf_scripts.Launcher.Sessions.Rows.{has_pid, holds, holds-le-has_pid}
use p4_ubpf_scripts.Launcher.Promise.{Promise, Act, ends, one_if, perform, run, note, notes}
use p4_ubpf_scripts.Launcher.Promise.Laws.{ends_lem, run-append, notes-append, waiting_ext}

-- The child `p` runs in this row and waits for a session.
abbrev pub waits : ℤ → P4runtime → Bool
waits p e = is_idle e && has_pid p e

abbrev pub waiting_in : List P4runtime → ℤ → ℕ
waiting_in rows p = count (waits p) rows

abbrev pub runtime_id : Connection → ℤ
runtime_id c = c.p4runtime_id

abbrev pub view : Server → Promise
view s = record { serving = map runtime_id s.session_table; waiting = waiting_in s.runtimes_table }

-- The launcher has done what some acts do, and left their events.
pub record Follows (s t : Server) : Type 0 where
  pub acts : List Act
  pub done : run acts (view s) ≡ some (view t)
  pub noted : t.events ≡ notes acts s.events

pub Follows-trans : {s m t : Server} → Follows s m → Follows m t → Follows s t
Follows-trans {s} {m} {t} f g = record {
  acts = f.acts ++ g.acts;
  done = run-append f.acts g.acts (view s) (view m) f.done ∙ g.done;
  noted = g.noted ∙ ap (notes g.acts) f.noted ∙ sym (notes-append f.acts g.acts s.events);
}

-- Nothing that the promise is about has changed.
pub Follows-same : {s t : Server} → view t ≡ view s → t.events ≡ s.events → Follows s t
unfolding run notes
Follows-same same quiet = record { acts = []; done = ap (λ a. some a) (sym same); noted = quiet }

-- One act.
pub Follows-by :
    {s t : Server} (x : Act)
    → perform x (view s) ≡ some (view t)
    → t.events ≡ note x s.events
    → Follows s t
unfolding run notes
Follows-by x does logged = record { acts = x ∷ []; done = rw does refl; noted = logged }

pub waits-le-has_pid : (p : ℤ) (es : List P4runtime) → count (waits p) es ≤ count (has_pid p) es
waits-le-has_pid p [] = omega arith
waits-le-has_pid p (e ∷ es) = ground (arith, waits-le-has_pid p es)

-- While a row is vacant, the new child waits in one.
pub waits-add_runtime_entry :
    (q pid : ℤ) (es : List P4runtime)
    → ltb_ℤ (pos 0) pid ≡ true
    → All IsRow es
    → live es < length es
    → waiting_in (add_runtime_entry pid es) q ≡ waiting_in es q + one_if pid q
unfolding add_runtime_entry
waits-add_runtime_entry q pid [] positive rows room = absurd (omega arith)
waits-add_runtime_entry q pid (e ∷ es) positive rows room =
    ground (arith, waits-add_runtime_entry q pid es)

-- The row that is freed waits again.
pub waits-free_runtime :
    (q pid : ℤ) (es : List P4runtime)
    → ltb_ℤ (pos 0) pid ≡ true
    → count (has_pid pid) es ≤ 1
    → 0 < count (holds pid) es
    → waiting_in (free_runtime pid es) q ≡ waiting_in es q + one_if pid q
unfolding free_runtime
waits-free_runtime q pid [] positive unique held = absurd (omega arith)
waits-free_runtime q pid (e ∷ es) positive unique held =
    ground (arith, waits-free_runtime q pid es, holds-le-has_pid pid es, ==ℤ_iff e.pid pid)

-- The loop of `adjust_children`, after rows in which `rest` children wait.
pub record Shrinks (serving : List ℤ) (rest : ℤ → ℕ) (es out : List P4runtime)
    (log log' : List Event) : Type 0 where
  pub acts : List Act
  pub done :
      run acts (record { serving = serving; waiting = λ q. rest q + waiting_in es q })
      ≡ some (record { serving = serving; waiting = λ q. rest q + waiting_in out q })
  pub noted : log' ≡ notes acts log

module _ (serving : List ℤ) (target : ℤ) where
  Shrinks-none :
      (rest : ℤ → ℕ) (es : List P4runtime) (log : List Event) → Shrinks serving rest es es log log
  unfolding run notes
  Shrinks-none rest es log = record { acts = []; done = refl; noted = refl }

  abbrev with_waiting : (ℤ → ℕ) → Promise
  with_waiting w = record { serving = serving; waiting = w }

  performs-ends :
      (rest : ℤ → ℕ) (e : P4runtime) (es : List P4runtime)
      → is_idle e ≡ true
      → perform (ends e.pid) (with_waiting (λ q. rest q + waiting_in (e ∷ es) q))
        ≡ some (with_waiting (λ q. rest q + waiting_in es q))
  performs-ends rest e es stops =
      let here : waits e.pid e ≡ true = ground (arith, ==ℤ_refl e.pid) in
      ends_lem (with_waiting (λ q. rest q + waiting_in (e ∷ es) q)) e.pid (ground arith)
        (rw here (omega arith))
      ∙ ap some (
          waiting_ext (with_waiting rest) (λ q. rest q + waiting_in (e ∷ es) q - one_if e.pid q)
            (λ q. rest q + waiting_in es q) (λ q. ground arith))

  Shrinks-stops :
      (rest : ℤ → ℕ) (e : P4runtime) (es out : List P4runtime) (log log' : List Event)
      → is_idle e ≡ true
      → Shrinks serving rest es out (waited e.pid ∷ sigterm e.pid ∷ log) log'
      → Shrinks serving rest (e ∷ es) (vacant ∷ out) log log'
  unfolding run notes
  Shrinks-stops rest e es out log log' stops later = record {
    acts = ends e.pid ∷ later.acts;
    done = rw (performs-ends rest e es stops) (
        later.done
        ∙ ap some (
            waiting_ext (with_waiting rest) (λ q. rest q + waiting_in out q)
              (λ q. rest q + waiting_in (vacant ∷ out) q) (λ q. omega arith)));
    noted = later.noted;
  }

  Shrinks-stays :
      (rest : ℤ → ℕ) (e : P4runtime) (es out : List P4runtime) (log log' : List Event)
      → Shrinks serving (λ q. rest q + (if waits q e then 1 else 0)) es out log log'
      → Shrinks serving rest (e ∷ es) (e ∷ out) log log'
  Shrinks-stays rest e es out log log' later =
      let one = λ (q : ℤ). if waits q e then 1 else 0 in
      let around = λ (rows : List P4runtime).
        waiting_ext (with_waiting rest) (λ q. rest q + one q + waiting_in rows q)
          (λ q. rest q + waiting_in (e ∷ rows) q) (λ q. omega arith) in
      record {
        acts = later.acts;
        done = ap (run later.acts) (sym (around es)) ∙ later.done ∙ ap some (around out);
        noted = later.noted;
      }

  pub shrink_rows-Shrinks :
      (es : List P4runtime) (left : ℤ) (log : List Event) (rest : ℤ → ℕ)
      → let out = shrink_rows target left es log in Shrinks serving rest es out.rows log out.log
  unfolding shrink_rows
  shrink_rows-Shrinks [] left log rest = Shrinks-none rest [] log
  shrink_rows-Shrinks (e ∷ es) left log rest = elim (Bool-cases (ltb_ℤ target left)) [
    | inr done ↦ rw (done, shrink_rows) (Shrinks-none rest (e ∷ es) log)
    | inl more ↦
        rw (more, shrink_rows)
          (elim (Bool-cases (is_idle e)) [
            | inl stops ↦
                rw (stops, idle-terminated e log stops)
                  (Shrinks-stops rest e es _ log _ stops (shrink_rows-Shrinks es _ _ rest))
            | inr stays ↦
                rw stays (Shrinks-stays rest e es _ log _ (shrink_rows-Shrinks es left log _))
          ])
  ]
