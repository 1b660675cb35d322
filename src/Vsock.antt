-- ===== src/Vsock.antt =====
-- virtio-vsock/guest.c and virtio-vsock/host.c: two samples that exchange a text between the VM and
-- the host.
pub mod Laws
mod Examples
use p4_ubpf_scripts.Common.{
  ℕ, ℤ, pos, negsuc, ltb_ℤ, ◌==ℤ◌, Bool, true, false, if◌then◌else◌, ◌++◌, [], ◌∷◌,
}
use p4_ubpf_scripts.CString.{codes}
use p4_ubpf_scripts.Posix.{
  Call, Answer, Program, returned, exited, exit_if, failure, perform, pure, ◌>>=◌, ◌>>◌,
}

-- `char buf[128]`
abbrev pub buffer_size : ℕ
buffer_size = 128

-- The bytes around `buf`: the one at each offset from its start.
abbrev pub Stack : Type 0
Stack = ℤ → ℕ

-- What `read` does to the bytes when it returns `n`.
abbrev pub filled : ℤ → (ℕ → ℕ) → Stack → Stack
filled n received stack (pos j) = if ltb_ℤ (pos j) n then received j else stack (pos j)
filled n received stack (negsuc j) = stack (negsuc j)

-- `buf[n] = c;`
abbrev pub store : ℤ → ℕ → Stack → Stack
store n c stack k = if k ==ℤ n then c else stack k

module _ (answer : ℕ → Answer) where
  -- `perror("connect"); close(sock); exit(1);`
  abbrev pub close_and_exit_if : Bool → ℤ → Program (Unit {0})
  close_and_exit_if fails sock log = (
    if fails then exited failure else returned tt,
    if fails then (perform answer (Call.close sock) log).1 else log,
  )

  -- `received` is what the other side has sent; the result is the stack at the end.
  unfoldable pub guest : (ℕ → ℕ) → Stack → Program Stack
  guest received stack = do
    sock ← perform answer Call.socket
    exit_if (ltb_ℤ sock.result (pos 0)) failure
    met ← perform answer (Call.connect sock.result)
    close_and_exit_if (ltb_ℤ met.result (pos 0)) sock.result
    perform answer (Call.write sock.result (codes "Hello host"))
    n ← perform answer (Call.read sock.result buffer_size)
    perform answer (Call.close sock.result)
    pure (store n.result 0 (filled n.result received stack))

  -- The host checks no result; the text that it writes ends with its NUL.
  unfoldable pub host : (ℕ → ℕ) → Stack → Program Stack
  host received stack = do
    s ← perform answer Call.socket
    perform answer (Call.bind s.result)
    perform answer (Call.listen s.result)
    client ← perform answer (Call.accept s.result)
    perform answer (Call.write client.result (codes "Hello guest" ++ (0 ∷ [])))
    n ← perform answer (Call.read client.result buffer_size)
    perform answer (Call.close client.result)
    perform answer (Call.close s.result)
    pure (store n.result 0 (filled n.result received stack))
