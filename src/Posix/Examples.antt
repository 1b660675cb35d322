-- ===== src/Posix/Examples.antt =====
-- A system to run the programs on.
use p4_ubpf_scripts.Common.{ℕ, pos}
use p4_ubpf_scripts.Posix.{Answer}

-- Every call returns 0, so that each fork is left in the child, and no call fails.
abbrev pub calm : ℕ → Answer
calm k = record { result = pos 0; errno = pos 0; out = pos 0 }
