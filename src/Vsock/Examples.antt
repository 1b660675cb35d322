-- ===== src/Vsock/Examples.antt =====
-- The guest on a system in which no call fails, and its read fills the buffer.
use p4_ubpf_scripts.Common.{ℕ, pos, ◌==◌, if◌then◌else◌, [], refl}
use p4_ubpf_scripts.Posix.{Answer}
use p4_ubpf_scripts.Posix.Examples.{calm}
use p4_ubpf_scripts.Vsock.{Stack, guest}
use p4_ubpf_scripts.Vsock.Laws.{Exchanges, guest-Exchanges}

-- The fourth call, the read, returns 128.
abbrev filling : ℕ → Answer
filling k = record (calm k) { result = if k == 3 then pos 128 else pos 0 }

abbrev letters : ℕ → ℕ
letters j = 97

-- The byte behind the buffer is 7.
abbrev sevens : Stack
sevens k = 7

guest-Exchanges_example : Exchanges (pos 128) (pos 128) sevens (guest filling letters sevens [])
guest-Exchanges_example = guest-Exchanges filling letters sevens (pos 128) (refl, refl) refl
