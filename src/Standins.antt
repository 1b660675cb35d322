-- ===== src/Standins.antt =====
-- p4/ubpf-test.c and p4/p4launcher/demo_app.c, which stand in for a P4 runtime, and the arguments
-- that p4/p4launcher/p4l_server.c starts a runtime with.
mod Tests
use p4_ubpf_scripts.Common.{
  ℕ, zero, suc, ℤ, pos, not, ◌==◌, if◌then◌else◌, List, [], ◌∷◌, ◌++◌, get_or, length,
}
use p4_ubpf_scripts.CString.{Text, codes}

-- What a program has printed, and its exit status.
pub record Ran : Type 0 where
  pub printed : Text
  pub status : ℤ

-- `\n`
abbrev newline : Text
newline = 10 ∷ []

unfoldable pub ubpf_test : List Text → Ran
ubpf_test argv =
    if not (length argv == 2)
    then record { printed = codes "Usage: ./ubpf-test <ubpf byte code>" ++ newline; status = pos 1 }
    else record { printed = get_or argv 1 [] ++ newline; status = pos 0 }

-- `n` rounds of demo_app's loop: the pid in each line.
unfoldable pub demo_app : ℤ → ℕ → List ℤ
demo_app pid zero = []
demo_app pid (suc n) = pid ∷ demo_app pid n

-- The arguments of `execl` in `spawn_runtime_process`.
abbrev pub ubpf_bytecode : Text
ubpf_bytecode = codes "/home/iwai/p4c/testdata/p4_16_samples/ubpf.o"

abbrev pub runtime_argv : List Text
runtime_argv = codes "ubpf_test" ∷ ubpf_bytecode ∷ []
