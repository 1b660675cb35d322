-- ===== src/Launcher/Promise/Children.antt =====
-- What becomes of each child: however the launcher goes on, none is lost and none is shared.
use p4_ubpf_scripts.Common.{
  ℕ, zero, suc, ℤ, pos, minus_one, ltb_ℤ, ◌==ℤ◌, ==ℤ_iff, ◌+◌, ◌-◌, ◌≤◌, ◌<◌, ◌≡◌, ◌⊎◌, refl, ap,
  subst, inl, inr, Bool, true, false, if◌then◌else◌, Bool-cases, List, [], ◌∷◌, some, >>=-eq-some,
  if-eq-some, get_or, set, length, count, count-set, arith,
}
use mathlib.Core.Option.{some_inj}
use p4_ubpf_scripts.Launcher.State.{Event, started, sigterm, waited, ran_pkill}
use p4_ubpf_scripts.Launcher.Promise.{
  Promise, Act, starts, ends, links, unlinks, shuts_down, one_if, served_by, perform, run, note,
  notes,
}

abbrev pub is_started : ℤ → Event → Bool
is_started p (started q) = q ==ℤ p
is_started p _ = false

abbrev pub is_sigterm : ℤ → Event → Bool
is_sigterm p (sigterm q) = q ==ℤ p
is_sigterm p _ = false

abbrev pub is_waited : ℤ → Event → Bool
is_waited p (waited q) = q ==ℤ p
is_waited p _ = false

-- Each child that was started waits, serves one session, or has been ended and waited for.
pub record Accounts (p : ℤ) (log : List Event) (a : Promise) : Type 0 where
  pub balance :
      count (is_started p) log ≡ count (is_sigterm p) log + (a.waiting p + served_by p a.serving)
  pub reaped : count (is_waited p) log ≡ count (is_sigterm p) log
  pub alone : a.waiting p + served_by p a.serving ≤ 1

below_inside : (l : List ℤ) (i : ℕ) → ltb_ℤ (get_or l i (pos 0)) (pos 0) ≡ true → i < length l
below_inside [] i h = cc
below_inside (x ∷ l) zero h = omega arith
below_inside (x ∷ l) (suc i) h = omega (arith, below_inside l i h)

above_inside : (l : List ℤ) (i : ℕ) → ltb_ℤ (pos 0) (get_or l i (pos 0)) ≡ true → i < length l
above_inside [] i h = cc
above_inside (x ∷ l) zero h = omega arith
above_inside (x ∷ l) (suc i) h = omega (arith, above_inside l i h)

module _ (p : ℤ) (log : List Event) (a : Promise) (acc : Accounts p log a) where
  -- The child of an act is `p`, or `p` is not concerned.
  concerns :
      (q : ℤ)
      → ((one_if q p ≡ 1)
          × ((q ==ℤ p) ≡ true)
          × (a.waiting q ≡ a.waiting p)
          × (served_by q a.serving ≡ served_by p a.serving))
        ⊎ ((one_if q p ≡ 0) × ((q ==ℤ p) ≡ false))
  concerns q = elim (Bool-cases (q ==ℤ p)) [
    | inl same ↦
        let e = (==ℤ_iff q p).0 same in
        inl (rw same refl, same, ap a.waiting e, ap (λ x. served_by x a.serving) e)
    | inr differs ↦ inr (rw differs refl, differs)
  ]

  starts-Accounts :
      (q : ℤ)
      → a.waiting q ≡ 0
      → served_by q a.serving ≡ 0
      → Accounts p (started q ∷ log) (record a { waiting = λ x. a.waiting x + one_if q x })
  starts-Accounts q none_waits none_serves = elim (concerns q) [
    | inl (one, same, w, s) ↦ record {
      balance = rw same (omega (arith, one, acc.balance));
      reaped = omega (arith, acc.reaped);
      alone = omega (arith, one, w, s, none_waits, none_serves);
    }
    | inr (none_of, differs) ↦ record {
      balance = rw differs (omega (arith, none_of, acc.balance));
      reaped = omega (arith, acc.reaped);
      alone = omega (arith, none_of, acc.alone);
    }
  ]

  ends-Accounts :
      (q : ℤ)
      → 0 < a.waiting q
      → Accounts p
          (waited q ∷ sigterm q ∷ log)
          (record a { waiting = λ x. a.waiting x - one_if q x })
  ends-Accounts q some_wait = elim (concerns q) [
    | inl (one, same, w, s) ↦ record {
      balance = rw same (omega (arith, one, w, some_wait, acc.balance));
      reaped = rw same (omega (arith, acc.reaped));
      alone = omega (arith, one, acc.alone);
    }
    | inr (none_of, differs) ↦ record {
      balance = rw differs (omega (arith, none_of, acc.balance));
      reaped = rw differs (omega (arith, acc.reaped));
      alone = omega (arith, none_of, acc.alone);
    }
  ]

  -- A child that waited serves, or one that served waits: `x` is written over `get_or a.serving i`.
  moved-Accounts :
      (i : ℕ) (x : ℤ) (waiting : ℤ → ℕ)
      → i < length a.serving
      → waiting p + (if x ==ℤ p then 1 else 0)
        ≡ a.waiting p + (if get_or a.serving i (pos 0) ==ℤ p then 1 else 0)
      → Accounts p log (record { serving = set a.serving i x; waiting = waiting })
  moved-Accounts i x waiting inside moves =
      let written = count-set (λ id. id ==ℤ p) a.serving i x (pos 0) inside in
      record {
        balance = omega (arith, acc.balance, written, moves);
        reaped = acc.reaped;
        alone = omega (arith, acc.alone, written, moves);
      }

module _ (p : ℤ) (positive : ltb_ℤ (pos 0) p ≡ true) where
  not_below : (x : ℤ) → ltb_ℤ x (pos 0) ≡ true → (x ==ℤ p) ≡ false
  not_below x h = ground arith

  not_minus_one : (minus_one ==ℤ p) ≡ false
  not_minus_one = ground arith

  perform-Accounts :
      (x : Act) (a b : Promise) (log : List Event)
      → perform x a ≡ some b
      → Accounts p log a
      → Accounts p (note x log) b
  unfolding perform
  perform-Accounts (starts q) a b log e acc =
      let (guard, same) = if-eq-some _ e in
      subst (Accounts p (started q ∷ log)) same
        (starts-Accounts p log a acc q (ground (arith, guard)) (ground (arith, guard)))
  perform-Accounts (ends q) a b log e acc =
      let (guard, same) = if-eq-some _ e in
      subst (Accounts p (waited q ∷ sigterm q ∷ log)) same
        (ends-Accounts p log a acc q (ground (arith, guard)))
  perform-Accounts (links i q) a b log e acc =
      let (guard, same) = if-eq-some _ e in
      let free : ltb_ℤ (get_or a.serving i (pos 0)) (pos 0) ≡ true = ground (arith, guard) in
      let some_wait : 0 < a.waiting q = ground (arith, guard) in
      subst (Accounts p log) same (
        moved-Accounts p log a acc i q _ (below_inside a.serving i free) (
          rw (not_below (get_or a.serving i (pos 0)) free) (elim (concerns p log a acc q) [
            | inl (one, here, w, s) ↦ omega (arith, one, w, some_wait)
            | inr (none_of, differs) ↦ omega (arith, none_of)
          ])))
  perform-Accounts (unlinks i) a b log e acc =
      let (guard, same) = if-eq-some _ e in
      subst (Accounts p log) same (
        moved-Accounts p log a acc i minus_one _ (above_inside a.serving i guard)
          (rw not_minus_one (omega arith)))
  perform-Accounts shuts_down a b log e acc =
      subst (Accounts p (ran_pkill ∷ log)) (some_inj.0 e) (record {
        balance = omega (arith, acc.balance);
        reaped = omega (arith, acc.reaped);
        alone = acc.alone;
      })

  -- Every run keeps the accounts of each child.
  pub run-Accounts :
      (acts : List Act) (a b : Promise) (log : List Event)
      → run acts a ≡ some b
      → Accounts p log a
      → Accounts p (notes acts log) b
  unfolding run notes
  run-Accounts [] a b log e acc = subst (Accounts p log) (some_inj.0 e) acc
  run-Accounts (x ∷ acts) a b log e acc =
      let (m, first, rest) = >>=-eq-some (perform x a) (run acts) e in
      run-Accounts acts m b (note x log) rest (perform-Accounts x a m log first acc)
