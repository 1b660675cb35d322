-- ===== src/Launcher/Setup/Close.antt =====
-- What stands behind the loop of `main`.
use p4_ubpf_scripts.Common.{ℕ, ℤ, pos, ◌==ℤ◌, ◌≡◌, ◌||◌, inl, inr, refl, Bool-cases}
use p4_ubpf_scripts.Posix.{Answer, Log, ◌>>=◌}
use p4_ubpf_scripts.Launcher.Setup.{map_failed, safe_close, shm_unmap_and_close}

-- Giving the mapping back a second time makes no call.
pub shm_unmap_and_close_twice :
    (answer : ℕ → Answer) (base fd : ℤ) (log : Log)
    → (shm_unmap_and_close answer base fd >>= λ (left, closed_fd).
          shm_unmap_and_close answer left closed_fd)
        log
      ≡ shm_unmap_and_close answer base fd log
unfolding shm_unmap_and_close safe_close
shm_unmap_and_close_twice answer base fd log =
    elim (Bool-cases ((base ==ℤ pos 0) || (base ==ℤ map_failed))) [
      | inl none_left ↦ rw none_left (rw none_left refl)
      | inr mapped ↦ rw mapped refl
    ]
