-- ===== src/Tester/Laws.antt =====
-- The tester gives back what it takes, in every round.
use p4_ubpf_scripts.Common.{
  ℕ, zero, suc, ℤ, pos, ltb_ℤ, ◌==ℤ◌, ==ℤ_refl, ◌≡◌, refl, sym, subst, inl, inr, not, ◌&&◌,
  Bool-cases, [], ◌∷◌, some, length,
}
use p4_ubpf_scripts.Posix.{Call, Answer, Log, Result, returned, Program, pure, ◌>>=◌}
use p4_ubpf_scripts.Posix.Laws.{>>=-returned}
use p4_ubpf_scripts.Posix.Effects.{Held, held, account, account_from, without}
use p4_ubpf_scripts.Tester.{
  Attempt, no_socket, no_address, refused, in_progress, verdict, give_back, socket_error, wait_for,
  connect_to, open_socket, round, rounds,
}

-- The program comes back holding `h`.
abbrev pub EndsWith : {A : Type 0} → Held → Result A × Log → Type 0
EndsWith {A} h out = (a : A) × (log : Log) × (out ≡ (returned a, log)) × (held log ≡ some h)

abbrev pub taking : ℤ → Held → Held
taking sock h = record { addresses = suc h.addresses; sockets = sock ∷ h.sockets }

-- A first part that ends with `h`, and a second that goes on from there.
>>=-EndsWith :
    {A B : Type 0} (m : Program A) (f : A → Program B) (log : Log) (h h' : Held)
    → EndsWith h (m log)
    → ((a : A) (log' : Log) → held log' ≡ some h → EndsWith h' (f a log'))
    → EndsWith h' ((m >>= f) log)
>>=-EndsWith m f log h h' (a, log', e, now) then_ends =
    subst (EndsWith h') (sym (>>=-returned m f log log' a e)) (then_ends a log' now)

module _ (answer : ℕ → Answer) (h : Held) where
  give_back-EndsWith :
      (sock : ℤ) (attempt : Attempt) (log : Log)
      → held log ≡ some (taking sock h)
      → EndsWith h (give_back answer sock attempt log)
  unfolding held account without
  give_back-EndsWith sock attempt log e =
      (attempt, _, refl, rw (e, account_from) (rw (==ℤ_refl sock, account_from) refl))

  socket_error-EndsWith :
      (sock : ℤ) (waited : Answer) (log : Log)
      → held log ≡ some (taking sock h)
      → EndsWith (taking sock h) (socket_error answer sock waited log)
  unfolding held account
  socket_error-EndsWith sock waited log e = elim (Bool-cases (ltb_ℤ (pos 0) waited.result)) [
    | inl writable ↦ rw writable (_, _, refl, rw e refl)
    | inr none_yet ↦ rw none_yet (waited, log, refl, e)
  ]

  wait_for-EndsWith :
      (sock : ℤ) (log : Log)
      → held log ≡ some (taking sock h)
      → EndsWith h (wait_for answer sock log)
  unfolding wait_for held account
  wait_for-EndsWith sock log e =
      let waited = answer (length log) in
      let log' : Log = record { call = Call.select_writable sock; answer = waited } ∷ log in
      >>=-EndsWith (socket_error answer sock waited)
        (λ error. give_back answer sock (verdict answer waited error)) log' (taking sock h) h
        (socket_error-EndsWith sock waited log' (rw e refl))
        (λ error later now. give_back-EndsWith sock (verdict answer waited error) later now)

  connect_to-EndsWith :
      (sock : ℤ) (log : Log)
      → held log ≡ some (taking sock h)
      → EndsWith h (connect_to answer sock log)
  unfolding connect_to held account
  connect_to-EndsWith sock log e =
      let tried = answer (suc (length log)) in
      let log' : Log =
        record { call = Call.connect sock; answer = tried }
        ∷ record { call = Call.set_nonblocking sock; answer = answer (length log) }
        ∷ log in
      let now : held log' ≡ some (taking sock h) = rw e refl in
      elim (Bool-cases (ltb_ℤ tried.result (pos 0) && not (tried.errno ==ℤ in_progress))) [
        | inl fails ↦ rw fails (give_back-EndsWith sock (refused tried.errno) log' now)
        | inr goes_on ↦ rw goes_on (wait_for-EndsWith sock log' now)
      ]

  open_socket-EndsWith :
      (log : Log)
      → held log ≡ some (record h { addresses = suc h.addresses })
      → EndsWith h (open_socket answer log)
  unfolding open_socket held account
  open_socket-EndsWith log e =
      let made = answer (length log) in
      let log' : Log = record { call = Call.socket; answer = made } ∷ log in
      elim (Bool-cases (ltb_ℤ made.result (pos 0))) [
        | inl fails ↦ rw fails (no_socket, _, refl, rw (e, account_from) (rw fails refl))
        | inr opens ↦ rw opens (connect_to-EndsWith made.result log' (rw e (rw opens refl)))
      ]

  round-EndsWith : (log : Log) → held log ≡ some h → EndsWith h (round answer log)
  unfolding round held account
  round-EndsWith log e =
      let status = answer (length log) in
      let log' : Log = record { call = Call.getaddrinfo; answer = status } ∷ log in
      elim (Bool-cases (status.result ==ℤ pos 0)) [
        | inl found ↦ rw found (open_socket-EndsWith log' (rw e (rw found refl)))
        | inr missing ↦ rw missing (no_address, log', refl, rw e (rw missing refl))
      ]

-- Whatever its system calls return, and after any calls that have given back nothing that was not
-- held, the tester goes through any number of rounds, gives back nothing that it does not hold, and
-- holds the same sockets and address lists after them as before.
pub rounds-EndsWith :
    (answer : ℕ → Answer) (n : ℕ) (log : Log) (h : Held)
    → held log ≡ some h
    → EndsWith h (rounds answer n log)
unfolding rounds
rounds-EndsWith answer zero log h e = ([], log, refl, e)
rounds-EndsWith answer (suc n) log h e =
    >>=-EndsWith (round answer) (λ attempt. rounds answer n >>= λ rest. pure (attempt ∷ rest)) log h
      h (round-EndsWith answer h log e)
      (λ attempt later now.
        >>=-EndsWith (rounds answer n) (λ rest. pure (attempt ∷ rest)) later h h
          (rounds-EndsWith answer n later h now)
          (λ rest last still. (attempt ∷ rest, last, refl, still)))
