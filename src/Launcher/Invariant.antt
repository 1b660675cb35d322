-- ===== src/Launcher/Invariant.antt =====
-- What every operation of p4l_server.c keeps true of its state.
use p4_ubpf_scripts.Common.{pos, ◌≡◌, length, All}
use p4_ubpf_scripts.Launcher.State.{Server, max_connections}
use p4_ubpf_scripts.Launcher.Runtimes.Rows.{IsRow, live}

-- Both tables have 32 rows, every row of the pool holds a running child or is vacant, and
-- `runtimes` is the number of the children in the table.
pub record IsValid (s : Server) : Type 0 where
  pub pool_size : length s.runtimes_table ≡ max_connections
  pub sessions_size : length s.session_table ≡ max_connections
  pub rows : All IsRow s.runtimes_table
  pub counted : s.runtimes ≡ pos (live s.runtimes_table)
