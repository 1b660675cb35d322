-- ===== src/Client/Laws.antt =====
-- What the client sends.
use p4_ubpf_scripts.Common.{
  ℕ, ℤ, pos, ◌-◌, ◌≤◌, ◌≡◌, min, refl, sym, ap, ◌∙◌, inl, inr, true, false, Bool-cases,
  if◌then◌else◌, leb, ltb_ℤ, List, [], ◌∷◌, ◌++◌, length, take, take-all, length-take, take-append,
  arith,
}
use p4_ubpf_scripts.CString.{Text}
use p4_ubpf_scripts.Client.{
  sent, too_long, write_failed, buffer_size, strncat, append_arguments, main,
}

-- The arguments with a space between each two.
abbrev pub joined : Text → List Text → Text
joined command [] = command
joined command (argument ∷ rest) = joined ((command ++ (32 ∷ [])) ++ argument) rest

-- Appending to a buffer is appending, cut to the buffer.
strncat-take : (command text : Text) → strncat (take 255 command) text ≡ take 255 (command ++ text)
strncat-take command text =
    let size = length-take 255 command in
    let room : buffer_size - length (take 255 command) - 1 ≡ 255 - length command =
      omega (arith, size) in
    ap (λ n. take 255 command ++ take n text) room ∙ sym (take-append 255 command text)

append_arguments-joined :
    (command : Text) (rest : List Text)
    → append_arguments (take 255 command) rest ≡ take 255 (joined command rest)
unfolding append_arguments
append_arguments-joined command [] = refl
append_arguments-joined command (argument ∷ rest) =
    ap (λ c. append_arguments c rest)
      (ap (λ c. strncat c argument) (strncat-take command (32 ∷ []))
        ∙ strncat-take (command ++ (32 ∷ [])) argument)
    ∙ append_arguments-joined ((command ++ (32 ∷ [])) ++ argument) rest

full_buffer : (n : ℕ) → leb 255 n ≡ true → leb 255 (min 255 n) ≡ true
full_buffer n long = ground arith

room_left : (n : ℕ) → leb 255 n ≡ false → n ≤ 255
room_left n short = ground arith

-- Once connected, the client refuses a command of 255 bytes or more, and otherwise writes exactly
-- its arguments with a space between each two, never a part of them.
pub main-joined :
    (sock connected : ℤ) (write : Text → ℤ) (first : Text) (rest : List Text)
    → ltb_ℤ sock (pos 0) ≡ false
    → ltb_ℤ connected (pos 0) ≡ false
    → main sock connected write (first ∷ rest) ≡ (
        if leb 255 (length (joined first rest))
        then too_long
        else if ltb_ℤ (write (joined first rest)) (pos 0)
        then write_failed
        else sent (joined first rest))
unfolding main
main-joined sock connected write first rest has_socket has_peer =
    let whole = append_arguments-joined first rest in
    let size = length-take 255 (joined first rest) in
    elim (Bool-cases (leb 255 (length (joined first rest)))) [
      | inl long ↦
          let cut : leb 255 (length (take 255 (joined first rest))) ≡ true =
            rw size (full_buffer (length (joined first rest)) long) in
          rw (has_socket, has_peer, whole, cut, long) refl
      | inr short ↦
          let kept : take 255 (joined first rest) ≡ joined first rest =
            take-all 255 (joined first rest) (room_left (length (joined first rest)) short) in
          rw (has_socket, has_peer, whole, kept, short) refl
    ]
