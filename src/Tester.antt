-- ===== src/Tester.antt =====
-- user/p4agent/tester.c: it connects to a web server again and again and prints how that went.
pub mod Laws
mod Examples
use p4_ubpf_scripts.Common.{
  ℕ, zero, suc, ℤ, pos, ltb_ℤ, ◌==ℤ◌, Bool, true, false, not, ◌&&◌, if◌then◌else◌, List, [], ◌∷◌,
}
use p4_ubpf_scripts.Posix.{Call, Answer, Program, pure, perform, ◌>>=◌, ◌>>◌}

-- Linux's EINPROGRESS
abbrev pub in_progress : ℤ
in_progress = pos 115

-- What a round of the loop prints; the numbers are errors for strerror.
pub data Attempt : Type 0 where
  no_address : Attempt
  no_socket : Attempt
  refused : ℤ → Attempt
  connected : Attempt
  failed : ℤ → Attempt
  timed_out : Attempt
  select_failed : Attempt

module _ (answer : ℕ → Answer) where
  -- `close(sock); freeaddrinfo(res);` and the next round
  abbrev pub give_back : ℤ → Attempt → Program Attempt
  give_back sock attempt = do
    perform answer (Call.close sock)
    perform answer Call.freeaddrinfo
    pure attempt

  -- What is printed once select has come back.
  abbrev pub verdict : Answer → Answer → Attempt
  verdict waited error =
      if ltb_ℤ (pos 0) waited.result
      then (if error.out ==ℤ pos 0 then connected else failed error.out)
      else if waited.result ==ℤ pos 0
      then timed_out
      else select_failed

  -- getsockopt is called only when select reports the socket.
  abbrev pub socket_error : ℤ → Answer → Program Answer
  socket_error sock waited =
      if ltb_ℤ (pos 0) waited.result
      then perform answer (Call.get_socket_error sock)
      else pure waited

  unfoldable pub wait_for : ℤ → Program Attempt
  wait_for sock = do
    waited ← perform answer (Call.select_writable sock)
    error ← socket_error sock waited
    give_back sock (verdict waited error)

  unfoldable pub connect_to : ℤ → Program Attempt
  connect_to sock = do
    perform answer (Call.set_nonblocking sock)
    tried ← perform answer (Call.connect sock)
    if ltb_ℤ tried.result (pos 0) && not (tried.errno ==ℤ in_progress)
        then give_back sock (refused tried.errno)
        else wait_for sock

  -- `freeaddrinfo(res);` and the next round
  abbrev pub free_address : Attempt → Program Attempt
  free_address attempt = perform answer Call.freeaddrinfo >> pure attempt

  unfoldable pub open_socket : Program Attempt
  open_socket = do
    sock ← perform answer Call.socket
    if ltb_ℤ sock.result (pos 0) then free_address no_socket else connect_to sock.result

  -- The body of `while (1)`.
  unfoldable pub round : Program Attempt
  round = do
    status ← perform answer Call.getaddrinfo
    if not (status.result ==ℤ pos 0) then pure no_address else open_socket

  -- `n` rounds, and what they print.
  unfoldable pub rounds : ℕ → Program (List Attempt)
  rounds zero = pure []
  rounds (suc n) = do attempt ← round; rest ← rounds n; pure (attempt ∷ rest)
