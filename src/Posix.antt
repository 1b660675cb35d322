-- ===== src/Posix.antt =====
-- The system calls that the programs make while they set themselves up, and a monad over them: a
-- program makes calls, gets what `answer` holds for each, and returns or exits.
pub mod Effects
pub mod Laws
pub mod Examples
use p4_ubpf_scripts.Common.{
  ℕ, ℤ, pos, minus_one, Bool, true, false, if◌then◌else◌, List, ◌∷◌, length,
}
use p4_ubpf_scripts.CString.{Text}

-- The calls, without the arguments that are the same in each use: addresses, sizes and flags.
pub data Call : Type 0 where
  fork : Call
  syslog : Call
  setsid : Call
  chdir : Text → Call
  umask : ℕ → Call
  open_path : Text → Call
  close : ℤ → Call
  dup2 : ℤ → ℤ → Call
  mmap : ℤ → Call
  munmap : ℤ → Call
  sigaction : Call
  waitpid_any : Call
  unlink : Text → Call
  socket : Call
  bind : ℤ → Call
  listen : ℤ → Call
  set_nonblocking : ℤ → Call
  accept : ℤ → Call
  connect : ℤ → Call
  select_writable : ℤ → Call
  get_socket_error : ℤ → Call
  getaddrinfo : Call
  freeaddrinfo : Call
  write : ℤ → Text → Call
  read : ℤ → ℕ → Call

-- What a call gives back: its result, errno after it, and what it wrote through a pointer.
pub record Answer : Type 0 where
  pub result : ℤ
  pub errno : ℤ
  pub out : ℤ

pub record Done : Type 0 where
  pub call : Call
  pub answer : Answer

-- The calls made, the newest first.
abbrev pub Log : Type 0
Log = List Done

pub data Result (A : Type 0) : Type 0 where
  returned : A → Result A
  exited : ℤ → Result A

abbrev pub Program : Type 0 → Type 0
Program A = Log → Result A × Log

abbrev pub pure : {A : Type 0} → A → Program A
pure a log = (returned a, log)

-- `exit(status)`
abbrev pub exit : {A : Type 0} → ℤ → Program A
exit status log = (exited status, log)

infixl 5 ◌>>=◌ ◌>>◌
abbrev pub ◌>>=◌ : {A B : Type 0} → Program A → (A → Program B) → Program B
◌>>=◌ m f log =
    let (r, log') = m log in elim r [ returned a ↦ f a log' | exited n ↦ (exited n, log') ]

abbrev pub ◌>>◌ : {A B : Type 0} → Program A → Program B → Program B
m >> k = m >>= λ _. k

-- `if (test) exit(status);`
abbrev pub exit_if : Bool → ℤ → Program (Unit {0})
exit_if test status log = (if test then exited status else returned tt, log)

-- EXIT_SUCCESS and EXIT_FAILURE
abbrev pub success : ℤ
success = pos 0

abbrev pub failure : ℤ
failure = pos 1

-- The call number `k` is answered by `answer k`.
abbrev pub perform : (ℕ → Answer) → Call → Program Answer
perform answer call log =
    let a = answer (length log) in (returned a, record { call = call; answer = a } ∷ log)
