-- ===== src/Client.antt =====
-- p4/p4launcher/p4l_client.c: the command line, joined with spaces, is sent to the launcher.
pub mod Laws
pub mod Delivery
mod Examples
use p4_ubpf_scripts.Common.{
  ℕ, ℤ, pos, ◌+◌, ◌-◌, Bool, true, false, if◌then◌else◌, leb, ltb_ℤ, List, [], ◌∷◌, ◌++◌, length,
  take,
}
use p4_ubpf_scripts.CString.{Text}

abbrev pub buffer_size : ℕ
buffer_size = 256

-- `snprintf(command, sizeof(command), "%s", text)`
abbrev pub snprintf : Text → Text
snprintf text = take (buffer_size - 1) text

-- `strncat(command, text, sizeof(command) - strlen(command) - 1)`
abbrev pub strncat : Text → Text → Text
strncat command text = command ++ take (buffer_size - length command - 1) text

-- The loop over argv[2], argv[3], ...
unfoldable pub append_arguments : Text → List Text → Text
append_arguments command [] = command
append_arguments command (argument ∷ rest) =
    append_arguments (strncat (strncat command (32 ∷ [])) argument) rest

-- How the program ends.
pub data Outcome : Type 0 where
  usage : Outcome
  socket_failed : Outcome
  connect_failed : Outcome
  too_long : Outcome
  write_failed : Outcome
  sent : Text → Outcome

-- `sock` and `connected` are what socket and connect return, `write` what write returns for the
-- bytes it is given; the arguments are argv[1], argv[2], ...
unfoldable pub main : (sock connected : ℤ) → (write : Text → ℤ) → List Text → Outcome
main sock connected write [] = usage
main sock connected write (first ∷ rest) =
    let command = append_arguments (snprintf first) rest in
    if ltb_ℤ sock (pos 0)
    then socket_failed
    else if ltb_ℤ connected (pos 0)
    then connect_failed
    else if leb (buffer_size - 1) (length command)
    then too_long
    else if ltb_ℤ (write command) (pos 0)
    then write_failed
    else sent command
