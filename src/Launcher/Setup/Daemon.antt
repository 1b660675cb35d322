-- ===== src/Launcher/Setup/Daemon.antt =====
-- What process is left when `daemonize_process` comes back, and how the others end.
use p4_ubpf_scripts.Common.{
  ℕ, ℤ, pos, ltb_ℤ, ◌==ℤ◌, ==ℤ_iff, ◌≡◌, sign, below, at_zero, above, ◌&&◌, inl, inr, refl, Bool,
  true, false, if◌then◌else◌, Bool-cases, [], ◌∷◌, some, arith,
}
use p4_ubpf_scripts.CString.{codes}
use p4_ubpf_scripts.Posix.{Call, Answer, Log, Result, returned, exited, success, failure}
use p4_ubpf_scripts.Posix.Effects.{Target, file, nothing, succeeded, Process, process, effect}
use p4_ubpf_scripts.Launcher.Setup.{daemonize_process}

-- Where a descriptor that was closed stands after dup2 has been answered.
abbrev pub copied : Answer → Target
copied a = if succeeded a then file (codes "/dev/null") else nothing

-- A daemon: the child of a child, in a session of its own that it does not lead, at the root, with
-- its standard descriptors on /dev/null, but for those whose dup2, answered `one` or `two`, has
-- failed, which are closed.
pub record IsDaemon (one two : Answer) (p : Process) : Type 0 where
  pub grandchild : p.generation ≡ 2
  pub left : p.left_session ≡ true
  pub no_leader : p.leads_session ≡ false
  pub at_root : p.directory ≡ some (codes "/")
  pub input : p.descriptor (pos 0) ≡ file (codes "/dev/null")
  pub output : p.descriptor (pos 1) ≡ copied one
  pub errors : p.descriptor (pos 2) ≡ copied two

abbrev is_fork : Call → Bool
is_fork Call.fork = true
is_fork _ = false

-- The last call was a fork that gave this process a child.
abbrev pub after_fork : Log → Bool
after_fork [] = false
after_fork (d ∷ earlier) = is_fork d.call && ltb_ℤ (pos 0) d.answer.result

-- The calls of dup2 are the tenth and the eleventh.
abbrev pub Daemonizes : (ℕ → Answer) → Result (Unit {0}) × Log → Type 0
Daemonizes answer (returned _, log) = IsDaemon (answer 9) (answer 10) (process log)
Daemonizes answer (exited status, log) = status ≡ (if after_fork log then success else failure)

pub below_lem : (x : ℤ) → ltb_ℤ x (pos 0) ≡ true → ltb_ℤ (pos 0) x ≡ false
below_lem x h = ground arith

pub at_zero_lem : (x : ℤ) → (x ==ℤ pos 0) ≡ true → ltb_ℤ (pos 0) x ≡ false
at_zero_lem x h = ground arith

-- On every way through `daemonize_process`.
pub daemonize_process-Daemonizes :
    (answer : ℕ → Answer) → Daemonizes answer (daemonize_process answer [])
unfolding daemonize_process process effect
daemonize_process-Daemonizes answer = elim (sign (answer 0).result) [
  | below a ↦ rw (a, below_lem _ a) refl
  | above a b c ↦ rw (a, c) (rw c refl)
  | at_zero a b ↦ elim (Bool-cases (ltb_ℤ (answer 1).result (pos 0))) [
    | inl fails ↦ rw (a, at_zero_lem _ b, fails) refl
    | inr leads ↦ elim (sign (answer 2).result) [
      | below c ↦ rw (a, at_zero_lem _ b, leads, c, below_lem _ c) refl
      | above c d e ↦ rw (a, at_zero_lem _ b, leads, c, e) (rw e refl)
      | at_zero c d ↦ elim (Bool-cases (ltb_ℤ (answer 3).result (pos 0))) [
        | inl fails ↦ rw (a, at_zero_lem _ b, leads, c, at_zero_lem _ d, fails) refl
        | inr moves ↦ elim (Bool-cases ((answer 8).result ==ℤ pos 0)) [
          | inr other ↦ rw (a, at_zero_lem _ b, leads, c, at_zero_lem _ d, moves, other) refl
          | inl input ↦
              let null : (answer 8).result ≡ pos 0 = (==ℤ_iff _ _).0 input in
              rw (a, at_zero_lem _ b, leads, c, at_zero_lem _ d, moves, input)
                (rw (b, d, leads, moves, null)
                  (record {
                    grandchild = refl;
                    left = refl;
                    no_leader = refl;
                    at_root = refl;
                    input = refl;
                    output = refl;
                    errors = refl;
                  }))
        ]
      ]
    ]
  ]
]
