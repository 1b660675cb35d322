-- ===== src/Standins/Tests.antt =====
-- The stand-in as the launcher starts it, and without an argument.
use p4_ubpf_scripts.Common.{pos, ◌≡◌, refl, [], ◌∷◌, ◌++◌}
use p4_ubpf_scripts.CString.{codes}
use p4_ubpf_scripts.Standins.{ubpf_test, ubpf_bytecode, runtime_argv}

-- It prints the path of the bytecode and ends at once: a child that it stands in for does not stay.
started_runs :
    ubpf_test runtime_argv ≡ record { printed = ubpf_bytecode ++ (10 ∷ []); status = pos 0 }
unfolding ubpf_test
started_runs = refl

alone_runs :
    ubpf_test (codes "ubpf-test" ∷ [])
    ≡ record { printed = codes "Usage: ./ubpf-test <ubpf byte code>" ++ (10 ∷ []); status = pos 1 }
unfolding ubpf_test
alone_runs = refl
