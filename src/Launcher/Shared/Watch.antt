-- ===== src/Launcher/Shared/Watch.antt =====
-- From the launcher's table to the agent's warnings: the agent's rounds on the memory that the three
-- programs share.
use p4_ubpf_scripts.Common.{
  ℕ, ℤ, ◌%◌, ◌^◌, ◌≡◌, refl, ap, ap₂, ◌∙◌, Bool, true, false, List, [], ◌∷◌, some, length, map, sum,
  All,
}
use p4_ubpf_scripts.CString.{Text, codes, starts_with}
use p4_ubpf_scripts.Agent.Frame.{Gcm, executions, ciphertext_size}
use p4_ubpf_scripts.Agent.Detector.{Verdict, start}
use p4_ubpf_scripts.Agent.Detector.Refine.{warns}
use p4_ubpf_scripts.Agent.Detector.Runs.{watch_rounds, no_rounds}
use p4_ubpf_scripts.Agent.Rounds.{State}
use p4_ubpf_scripts.Agent.Main.{Turn, main_encrypt}
use p4_ubpf_scripts.Agent.Main.Runs.{IsReadable, since, main_encrypt-watch}
use p4_ubpf_scripts.Launcher.State.{Server}
use p4_ubpf_scripts.Launcher.Sessions.Linked.{NoReuse}
use p4_ubpf_scripts.Launcher.Shared.Counts.{counts}
use p4_ubpf_scripts.Launcher.Shared.Runs.{Shared, Shared-executions}

-- A turn of the agent, and the launcher's state at that time.
pub record Moment : Type 0 where
  pub turn : Turn
  pub server : Server

-- What OVS has counted in the launcher's table, and what has passed the network stack.
abbrev pub told : Gcm → List Text → Moment → ℕ × ℕ
told gcm first moment = (sum (counts gcm moment.server) % 2 ^ 64, since first moment.turn)

module _ (gcm : Gcm) (fork : ℕ → ℤ) (fuel : ℕ) (allowed : Text → Bool) where
  -- The agent finds the memory as the three programs have left it.
  pub record IsMet (moment : Moment) : Type 0 where
    pub readable : IsReadable moment.turn
    pub shared : Shared gcm fork fuel allowed moment.turn.shm moment.server

  IsMet-IsReadable :
      (moments : List Moment)
      → All IsMet moments
      → All IsReadable (map (λ (m : Moment). m.turn) moments)
  IsMet-IsReadable [] met = tt
  IsMet-IsReadable (m ∷ moments) (here, later) = (here.readable, IsMet-IsReadable moments later)

  module _ (no_reuse : NoReuse fork)
      (no_stop : (command : Text)
        → allowed command ≡ true
        → starts_with (codes "stop") command ≡ false) where
    seen-told :
        (first : List Text) (moments : List Moment)
        → All IsMet moments
        → map
            (λ (turn : Turn). (executions gcm turn.shm, since first turn))
            (map (λ (m : Moment). m.turn) moments)
          ≡ map (told gcm first) moments
    seen-told first [] met = refl
    seen-told first (m ∷ moments) (here, later) =
        ap₂ ◌∷◌
          (ap (λ n. (n, since first m.turn))
            (Shared-executions gcm fork fuel allowed no_reuse no_stop here.shared).1)
          (seen-told first moments later)

    -- If fork gives out no pid twice and no client's text is one that ends the children (`stop`),
    -- /proc/net/snmp can be read at the start and in each round, the thresholds can be read, the
    -- buffers have their sizes, and the agent, from the start of its detector, finds in each round
    -- a memory that the launcher, OVS and the agent have come to by their stores in some order
    -- since the launcher's start: `main` with ENCRYPT goes through the rounds, and it warns in the
    -- same rounds as a plain list of the judged rounds does on the sum of the counts in the
    -- launcher's table, those that do not open left out, modulo 2 ^ 64, and on the packets that
    -- have passed the network stack since the start.
    pub main_encrypt-Shared :
        (pagesize low pressure high : ℕ) (first : List Text) (moments : List Moment) (s : State)
        → s.detector ≡ start
        → length s.agent.ciphertext ≡ ciphertext_size
        → All IsMet moments
        → (t : State) × (verdicts : List Verdict) × (main_encrypt gcm
              (some first)
              pagesize
              (some (low, pressure, high))
              (map (λ (m : Moment). m.turn) moments)
              s
            ≡ some (t, verdicts))
          × (map warns verdicts ≡ watch_rounds no_rounds (map (told gcm first) moments))
    main_encrypt-Shared pagesize low pressure high first moments s fresh full met =
        let (t, verdicts, runs, warned) =
          main_encrypt-watch gcm pagesize low pressure high first
            (map (λ (m : Moment). m.turn) moments) s fresh full (IsMet-IsReadable moments met) in
        (t, verdicts, runs, warned ∙ ap (watch_rounds no_rounds) (seen-told first moments met))
