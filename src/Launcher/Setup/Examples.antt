-- ===== src/Launcher/Setup/Examples.antt =====
-- The launcher's start on a system in which no call fails.
use p4_ubpf_scripts.Common.{[]}
use p4_ubpf_scripts.Posix.Examples.{calm}
use p4_ubpf_scripts.Launcher.Setup.{set_up}
use p4_ubpf_scripts.Launcher.Setup.Whole.{SetsUp, set_up-SetsUp}

set_up-SetsUp_example : SetsUp calm (set_up calm [])
set_up-SetsUp_example = set_up-SetsUp calm
