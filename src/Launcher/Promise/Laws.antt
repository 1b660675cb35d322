-- ===== src/Launcher/Promise/Laws.antt =====
-- Runs of the promise in sequence, and what every run keeps of each child.
use mathlib.Core.Path.{fun_ext}
use p4_ubpf_scripts.Common.{
  ℕ, ℤ, pos, minus_one, ltb_ℤ, ltb, ◌-◌, ◌+◌, ◌<◌, ◌≡◌, refl, ◌∙◌, ap, true, List, [], ◌∷◌, ◌++◌,
  some, ◌>>=◌, >>=-eq-some, get_or, set, arith,
}
use p4_ubpf_scripts.Launcher.State.{Event}
use p4_ubpf_scripts.Launcher.Promise.{
  Promise, Act, starts, ends, links, unlinks, shuts_down, one_if, served_by, perform, run, note,
  notes,
}

pub run-append :
    (xs ys : List Act) (a b : Promise) → run xs a ≡ some b → run (xs ++ ys) a ≡ run ys b
unfolding run
run-append [] ys a b e = ap (λ o. o >>= run ys) e
run-append (x ∷ xs) ys a b e =
    let (m, first, rest) = >>=-eq-some (perform x a) (run xs) e in
    rw first (run-append xs ys m b rest)

pub notes-append :
    (xs ys : List Act) (log : List Event) → notes (xs ++ ys) log ≡ notes ys (notes xs log)
unfolding notes
notes-append [] ys log = refl
notes-append (x ∷ xs) ys log = notes-append xs ys (note x log)

note-append : (x : Act) (log earlier : List Event) → note x (log ++ earlier) ≡ note x log ++ earlier
note-append (starts p) log earlier = refl
note-append (ends p) log earlier = refl
note-append (links i p) log earlier = refl
note-append (unlinks i) log earlier = refl
note-append shuts_down log earlier = refl

-- What was logged before stays below.
pub notes-earlier :
    (xs : List Act) (log earlier : List Event) → notes xs (log ++ earlier) ≡ notes xs log ++ earlier
unfolding notes
notes-earlier [] log earlier = refl
notes-earlier (x ∷ xs) log earlier =
    ap (notes xs) (note-append x log earlier) ∙ notes-earlier xs (note x log) earlier

-- Only the numbers count.
pub waiting_ext :
    (a : Promise) (w w' : ℤ → ℕ)
    → ((q : ℤ) → w q ≡ w' q)
    → ◌≡◌ {A = Promise} (record a { waiting = w }) (record a { waiting = w' })
waiting_ext a w w' same = ap (λ (f : ℤ → ℕ). record a { waiting = f }) (fun_ext same)

-- An act that the promise allows is done.
module _ (a : Promise) (p : ℤ) (positive : ltb_ℤ (pos 0) p ≡ true) where
  pub starts_lem :
      a.waiting p ≡ 0
      → served_by p a.serving ≡ 0
      → perform (starts p) a ≡ some (record a { waiting = λ q. a.waiting q + one_if p q })
  unfolding perform
  starts_lem none_waits none_serves = rw (positive, none_waits, none_serves) refl

  pub ends_lem :
      0 < a.waiting p
      → perform (ends p) a ≡ some (record a { waiting = λ q. a.waiting q - one_if p q })
  unfolding perform
  ends_lem some_wait =
      let test : ltb 0 (a.waiting p) ≡ true = ground arith in rw (positive, test) refl

  pub links_lem :
      (i : ℕ)
      → 0 < a.waiting p
      → ltb_ℤ (get_or a.serving i (pos 0)) (pos 0) ≡ true
      → perform (links i p) a
        ≡ some (record { serving = set a.serving i p; waiting = λ q. a.waiting q - one_if p q })
  unfolding perform
  links_lem i some_wait free =
      let test : ltb 0 (a.waiting p) ≡ true = ground arith in rw (positive, test, free) refl

  pub unlinks_lem :
      (i : ℕ)
      → get_or a.serving i (pos 0) ≡ p
      → perform (unlinks i) a
        ≡ some (record {
          serving = set a.serving i minus_one;
          waiting = λ q. a.waiting q + one_if p q;
        })
  unfolding perform
  unlinks_lem i serves = rw (serves, positive) refl

pub shuts_down_lem : (a : Promise) → perform shuts_down a ≡ some a
unfolding perform
shuts_down_lem a = refl
