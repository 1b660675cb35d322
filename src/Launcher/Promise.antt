-- ===== src/Launcher/Promise.antt =====
-- What p4l_server.c promises, without its tables: which runtime serves which session, and which
-- children wait for one. The order of the rows and the counter are forgotten.
pub mod Laws
pub mod View
pub mod Pool
pub mod Links
pub mod Life
pub mod Children
pub mod Pids
mod Examples
use p4_ubpf_scripts.Common.{
  ℕ, ℤ, pos, minus_one, ltb_ℤ, ◌==ℤ◌, ◌+◌, ◌-◌, Bool, true, false, ◌&&◌, if◌then◌else◌, ltb, ◌==◌,
  List, [], ◌∷◌, Option, none, some, ◌>>=◌, get_or, set, count,
}
use p4_ubpf_scripts.Launcher.State.{Event, started, sigterm, waited, ran_pkill}

-- `serving` has a pid or -1 for each session; `waiting` counts the idle children of each pid.
pub record Promise : Type 0 where
  pub serving : List ℤ
  pub waiting : ℤ → ℕ

pub data Act : Type 0 where
  starts : ℤ → Act
  ends : ℤ → Act
  links : ℕ → ℤ → Act
  unlinks : ℕ → Act
  shuts_down : Act

abbrev pub one_if : ℤ → ℤ → ℕ
one_if p q = if p ==ℤ q then 1 else 0

-- The sessions that a child serves.
abbrev pub served_by : ℤ → List ℤ → ℕ
served_by p = count (λ id. id ==ℤ p)

-- A new child has a pid of its own, only a waiting child is ended or linked, and only to a session
-- that has none; `none` where the promise forbids it.
unfoldable pub perform : Act → Promise → Option Promise
perform (starts p) a =
    if ltb_ℤ (pos 0) p && (a.waiting p == 0) && (served_by p a.serving == 0)
    then some (record a { waiting = λ q. a.waiting q + one_if p q })
    else none
perform (ends p) a =
    if ltb_ℤ (pos 0) p && ltb 0 (a.waiting p)
    then some (record a { waiting = λ q. a.waiting q - one_if p q })
    else none
perform (links i p) a =
    if ltb_ℤ (pos 0) p && ltb 0 (a.waiting p) && ltb_ℤ (get_or a.serving i (pos 0)) (pos 0)
    then some (record { serving = set a.serving i p; waiting = λ q. a.waiting q - one_if p q })
    else none
perform (unlinks i) a =
    let p = get_or a.serving i (pos 0) in
    if ltb_ℤ (pos 0) p
    then some
        (record { serving = set a.serving i minus_one; waiting = λ q. a.waiting q + one_if p q })
    else none
perform shuts_down a = some a

unfoldable pub run : List Act → Promise → Option Promise
run [] a = some a
run (x ∷ xs) a = perform x a >>= run xs

-- What other processes see of an act, the newest first.
abbrev pub note : Act → List Event → List Event
note (starts p) log = started p ∷ log
note (ends p) log = waited p ∷ sigterm p ∷ log
note (links i p) log = log
note (unlinks i) log = log
note shuts_down log = ran_pkill ∷ log

unfoldable pub notes : List Act → List Event → List Event
notes [] log = log
notes (x ∷ xs) log = notes xs (note x log)
