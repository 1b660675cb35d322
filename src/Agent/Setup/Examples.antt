-- ===== src/Agent/Setup/Examples.antt =====
-- The agent's start on a system in which no call fails, and syslog takes a descriptor of its own.
use p4_ubpf_scripts.Common.{ℕ, pos, ◌==◌, ◌||◌, if◌then◌else◌, [], refl}
use p4_ubpf_scripts.Posix.{Answer}
use p4_ubpf_scripts.Agent.Setup.{start_up}
use p4_ubpf_scripts.Agent.Setup.Daemon.{StartsUp, start_up-StartsUp}

-- The seventh and the ninth call are of syslog.
abbrev logging : ℕ → Answer
logging k = record {
  result = if (k == 6) || (k == 8) then pos 1 else pos 0;
  errno = pos 0;
  out = pos 0;
}

start_up-StartsUp_example : StartsUp logging (start_up logging [])
start_up-StartsUp_example = start_up-StartsUp logging refl refl
