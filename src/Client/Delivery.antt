-- ===== src/Client/Delivery.antt =====
-- A command of p4/p4launcher/p4l_client.c on its way to p4/p4launcher/p4l_server.c.
use p4_ubpf_scripts.Common.{
  ℕ, zero, suc, ℤ, pos, ◌+◌, ◌^◌, ◌≤◌, ◌<◌, ◌≡◌, ◌∙◌, ◌/◌, ◌%◌, refl, false, Bool-cases, inl, inr,
  leb, ltb, ltb_ℤ, [], ◌∷◌, ◌++◌, length, some, ◌>>=◌, arith,
}
use p4_ubpf_scripts.CString.{Text, codes}
use p4_ubpf_scripts.CString.Laws.{print_digits}
use p4_ubpf_scripts.Launcher.State.{Server}
use p4_ubpf_scripts.Launcher.Runtimes.{adjust_children}
use p4_ubpf_scripts.Launcher.Commands.{handle_client, adjusted_to}
use p4_ubpf_scripts.Launcher.Commands.Replies.{handle_client-update}
use p4_ubpf_scripts.Client.{main, sent}
use p4_ubpf_scripts.Client.Laws.{main-joined}

length-print_digits :
    (fuel n : ℕ) (rest : Text) → length (print_digits fuel n rest) ≤ fuel + length rest
unfolding print_digits
length-print_digits zero n rest = omega arith
length-print_digits (suc fuel) n rest = elim (Bool-cases (ltb n 10)) [
  | inl small ↦ rw small (omega arith)
  | inr large ↦ rw large (omega (arith, length-print_digits fuel (n / 10) ((b'0' + n % 10) ∷ rest)))
]

-- For a number below 2 ^ 31, when socket, connect and write succeed, the client run with `update`
-- and the number in decimal sends a text of fewer than 255 bytes, on which the launcher adjusts the
-- pool to that number and reports it.
pub main-handle_client :
    (sock connected : ℤ) (write : Text → ℤ) (n : ℕ) (fork : ℕ → ℤ) (fuel : ℕ) (pkill : ℤ)
    (s : Server)
    → ltb_ℤ sock (pos 0) ≡ false
    → ltb_ℤ connected (pos 0) ≡ false
    → ((text : Text) → ltb_ℤ (write text) (pos 0) ≡ false)
    → n < 2 ^ 31
    → (text : Text) × (main sock connected write (codes "update" ∷ print_digits 10 n [] ∷ [])
        ≡ sent text)
      × (length text < 255)
      × (handle_client fork fuel pkill text s
          ≡ (adjust_children fork fuel (pos n) s >>= λ t. some (t, adjusted_to (pos n) ∷ [])))
main-handle_client sock connected write n fork fuel pkill s has_socket has_peer writes small =
    let text = codes "update " ++ print_digits 10 n [] in
    let digits = length-print_digits 10 n [] in
    let short : leb 255 (length text) ≡ false = ground (arith, digits) in
    (
      text,
      main-joined sock connected write (codes "update") (print_digits 10 n [] ∷ []) has_socket
            has_peer
          ∙ rw (short, writes text) refl,
      omega (arith, digits),
      handle_client-update fork fuel 9 n pkill s (omega arith) small,
    )
