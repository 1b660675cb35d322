-- ===== src/Posix/Effects.antt =====
-- What the calls do, as their manual pages say: to the process that makes them, to a server's
-- socket, and to the things that have to be given back.
use p4_ubpf_scripts.Common.{
  ℕ, zero, suc, ℤ, pos, ltb_ℤ, ◌==ℤ◌, ◌+◌, Bool, true, false, not, ◌&&◌, if◌then◌else◌, List, [],
  ◌∷◌, Option, none, some,
}
use p4_ubpf_scripts.CString.{Text}
use p4_ubpf_scripts.Posix.{
  Call, fork, syslog, setsid, chdir, open_path, close, dup2, socket, bind, listen, set_nonblocking,
  accept, getaddrinfo, freeaddrinfo, Answer, Log,
}

-- `result >= 0`
abbrev pub succeeded : Answer → Bool
succeeded a = not (ltb_ℤ a.result (pos 0))

-- What a descriptor stands for.
pub data Target : Type 0 where
  inherited : Target
  nothing : Target
  file : Text → Target
  socket_end : Target
  logger : Target

-- The process: how many times it is the child of a fork, whether it leads its session, whether it
-- has left the session it was started in, its working directory where it has changed it, and its
-- descriptors.
pub record Process : Type 0 where
  pub generation : ℕ
  pub leads_session : Bool
  pub left_session : Bool
  pub directory : Option Text
  pub descriptor : ℤ → Target

abbrev pub started : Process
started = record {
  generation = 0;
  leads_session = false;
  left_session = false;
  directory = none;
  descriptor = λ fd. inherited;
}

abbrev pub redirect : Process → ℤ → Target → Process
redirect p fd target = record p { descriptor = λ n. if n ==ℤ fd then target else p.descriptor n }

-- What a descriptor stands for once the connection to the logger is given up.
abbrev pub without_logger : Target → Target
without_logger logger = nothing
without_logger target = target

-- dup2 changes nothing where it fails. syslog and openlog come back with the descriptor of the one
-- connection to the logger that the C library then holds, or with a negative number where it holds
-- none: it opens the connection when it first needs it, and again where it was lost.
unfoldable pub effect : Call → Answer → Process → Process
effect fork a p =
    if a.result ==ℤ pos 0
    then record p { generation = p.generation + 1; leads_session = false }
    else p
effect setsid a p =
    if succeeded a then record p { leads_session = true; left_session = true } else p
effect (chdir path) a p = if succeeded a then record p { directory = some path } else p
effect (open_path path) a p = if succeeded a then redirect p a.result (file path) else p
effect (close fd) a p = redirect p fd nothing
effect (dup2 fd to) a p = redirect p to (if succeeded a then p.descriptor fd else p.descriptor to)
effect socket a p = if succeeded a then redirect p a.result socket_end else p
effect syslog a p = record p {
  descriptor =
      λ n. if succeeded a && (n ==ℤ a.result) then logger else without_logger (p.descriptor n);
}
effect _ a p = p

unfoldable pub process : Log → Process
process [] = started
process (d ∷ earlier) = effect d.call d.answer (process earlier)

-- A server's socket, as far as it has come; `closed` again once it is given back.
pub data Endpoint : Type 0 where
  closed : Endpoint
  created : ℤ → Endpoint
  bound : ℤ → Endpoint
  listening : ℤ → Endpoint
  polled : ℤ → Endpoint

-- `none` where a call is made on another descriptor or out of order.
unfoldable pub advance : Call → Answer → Endpoint → Option Endpoint
advance socket a closed = some (if succeeded a then created a.result else closed)
advance socket a e = none
advance (bind fd) a (created s) =
    if fd ==ℤ s then some (if succeeded a then bound s else created s) else none
advance (bind fd) a e = none
advance (listen fd) a (bound s) =
    if fd ==ℤ s then some (if succeeded a then listening s else bound s) else none
advance (listen fd) a e = none
advance (set_nonblocking fd) a (listening s) = if fd ==ℤ s then some (polled s) else none
advance (set_nonblocking fd) a e = none
advance (close fd) a closed = none
advance (close fd) a (created s) = if fd ==ℤ s then some closed else none
advance (close fd) a (bound s) = if fd ==ℤ s then some closed else none
advance (close fd) a (listening s) = if fd ==ℤ s then some closed else none
advance (close fd) a (polled s) = if fd ==ℤ s then some closed else none
advance _ a e = some e

abbrev pub advance_from : Call → Answer → Option Endpoint → Option Endpoint
advance_from c a none = none
advance_from c a (some e) = advance c a e

unfoldable pub endpoint : Log → Option Endpoint
endpoint [] = some closed
endpoint (d ∷ earlier) = advance_from d.call d.answer (endpoint earlier)

-- What has to be given back: address lists and sockets.
pub record Held : Type 0 where
  pub addresses : ℕ
  pub sockets : List ℤ

abbrev pub nothing_held : Held
nothing_held = record { addresses = 0; sockets = [] }

-- The sockets without the first that is `fd`; `none` where there is none.
unfoldable pub without : ℤ → List ℤ → Option (List ℤ)
without fd [] = none
without fd (s ∷ ss) =
    let rest = without fd ss in
    if s ==ℤ fd then some ss else elim rest [ none ↦ none | some ss' ↦ some (s ∷ ss') ]

abbrev pub with_sockets : Held → Option (List ℤ) → Option Held
with_sockets h none = none
with_sockets h (some ss) = some (record h { sockets = ss })

-- `none` where something is given back that is not held.
unfoldable pub account : Call → Answer → Held → Option Held
account getaddrinfo a h =
    some (if a.result ==ℤ pos 0 then record h { addresses = suc h.addresses } else h)
account freeaddrinfo a h = elim h.addresses [
  | zero ↦ none
  | suc n ↦ some (record h { addresses = n })
]
account socket a h = some (if succeeded a then record h { sockets = a.result ∷ h.sockets } else h)
account (accept fd) a h =
    some (if succeeded a then record h { sockets = a.result ∷ h.sockets } else h)
account (close fd) a h = with_sockets h (without fd h.sockets)
account _ a h = some h

abbrev pub account_from : Call → Answer → Option Held → Option Held
account_from c a none = none
account_from c a (some h) = account c a h

unfoldable pub held : Log → Option Held
held [] = some nothing_held
held (d ∷ earlier) = account_from d.call d.answer (held earlier)
