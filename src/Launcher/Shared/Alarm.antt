-- ===== src/Launcher/Shared/Alarm.antt =====
-- What the users are told about the runtimes that serve the sessions in the launcher's table.
use p4_ubpf_scripts.Common.{
  ℕ, suc, ℤ, ◌+◌, ◌<◌, ◌≡◌, sym, ◌∙◌, subst, Bool, true, false, List, ◌∷◌, ◌++◌, some, length,
  length-map, map-append-cons, map, drop, All,
}
use p4_ubpf_scripts.CString.{Text, codes, starts_with}
use p4_ubpf_scripts.Agent.Frame.{Gcm, ciphertext_size}
use p4_ubpf_scripts.Agent.Detector.{Verdict, start, window}
use p4_ubpf_scripts.Agent.Detector.Refine.{warns}
use p4_ubpf_scripts.Agent.Detector.Runs.{Readings, watch, watch_refines, any}
use p4_ubpf_scripts.Agent.Detector.Advance.{Lags, KeepsUp, Lags-warns, KeepsUp-quiet}
use p4_ubpf_scripts.Agent.Rounds.{State}
use p4_ubpf_scripts.Agent.Main.{main_encrypt}
use p4_ubpf_scripts.Launcher.Sessions.Linked.{NoReuse}
use p4_ubpf_scripts.Launcher.Shared.Watch.{Moment, IsMet, told, main_encrypt-Shared}

module _ (gcm : Gcm) (fork : ℕ → ℤ) (fuel : ℕ) (allowed : Text → Bool) (no_reuse : NoReuse fork)
    (no_stop : (command : Text)
      → allowed command ≡ true
      → starts_with (codes "stop") command ≡ false)
    (pagesize low pressure high : ℕ) (first : List Text) (s : State) (fresh : s.detector ≡ start)
    (full : length s.agent.ciphertext ≡ ciphertext_size) where
  -- The agent goes through these moments, and its warnings have this property.
  abbrev Ends : List Moment → (List Bool → Type 0) → Type 0
  Ends moments P =
      (t : State) × (verdicts : List Verdict) × (main_encrypt gcm (some first) pagesize
          (some (low, pressure, high)) (map (λ (m : Moment). m.turn) moments) s
        ≡ some (t, verdicts))
      × P (map warns verdicts)

  watched :
      (moments : List Moment) (P : List Bool → Type 0)
      → All (IsMet gcm fork fuel allowed) moments
      → P (watch start (map (told gcm first) moments))
      → Ends moments P
  watched moments P met holds =
      let (t, verdicts, runs, warned) =
        main_encrypt-Shared gcm fork fuel allowed no_reuse no_stop pagesize low pressure high first
          moments s fresh full met in
      (t, verdicts, runs, subst P (watch_refines (map (told gcm first) moments) ∙ sym warned) holds)

  -- If fork gives out no pid twice and no client's text is one that ends the children (`stop`),
  -- /proc/net/snmp can be read at the start and in each round, the thresholds can be read, the
  -- buffers have their sizes, and the agent, from the start of its detector, finds in each round a
  -- memory that the launcher, OVS and the agent have come to by their stores in some order since
  -- the launcher's start: where in the last five rounds of a run, each compared with the round
  -- before, the sum modulo 2 ^ 64 of the counts in the launcher's table has not gone back and has
  -- grown by less than the packets that have passed the network stack since the start (modulo 2 ^
  -- 64), and the round before the five has read something other than 0 and 0, `main` with ENCRYPT
  -- goes through the rounds and warns in one of these five.
  pub main_encrypt-warns :
      (before : List Moment) (m : Moment) (five : List Moment)
      → length five ≡ window
      → 0 < (told gcm first m).0 + (told gcm first m).1
      → Lags (told gcm first m).0 (told gcm first m).1 (map (told gcm first) five)
      → All (IsMet gcm fork fuel allowed) (before ++ (m ∷ five))
      → Ends (before ++ (m ∷ five)) (λ warnings. any (drop (suc (length before)) warnings) ≡ true)
  main_encrypt-warns before m five size some_read lags met =
      let rs : List Moment → Readings = map (told gcm first) in
      let (e, p) = told gcm first m in
      watched (before ++ (m ∷ five)) (λ warnings. any (drop (suc (length before)) warnings) ≡ true)
        met
        (subst (λ n. any (drop (suc n) (watch start (rs (before ++ (m ∷ five))))) ≡ true)
          (length-map before (told gcm first))
          (subst (λ readings. any (drop (suc (length (rs before))) (watch start readings)) ≡ true)
            (sym (map-append-cons (told gcm first) before m five))
            (Lags-warns (rs five) e p (length-map five (told gcm first) ∙ size) some_read lags
              (rs before))))

  -- If fork gives out no pid twice and no client's text is one that ends the children (`stop`),
  -- /proc/net/snmp can be read at the start and in each round, the thresholds can be read, the
  -- buffers have their sizes, and the agent, from the start of its detector, finds in each round a
  -- memory that the launcher, OVS and the agent have come to by their stores in some order since
  -- the launcher's start: where in every round after the first the packets that have passed since
  -- the start (modulo 2 ^ 64) have not gone back and the sum modulo 2 ^ 64 of the counts in the
  -- launcher's table has grown by no less than they have, `main` with ENCRYPT goes through the
  -- rounds and never warns.
  pub main_encrypt-quiet :
      (m : Moment) (later : List Moment)
      → KeepsUp (told gcm first m).0 (told gcm first m).1 (map (told gcm first) later)
      → All (IsMet gcm fork fuel allowed) (m ∷ later)
      → Ends (m ∷ later) (λ warnings. any warnings ≡ false)
  main_encrypt-quiet m later keeps met =
      watched (m ∷ later) (λ warnings. any warnings ≡ false) met
        (KeepsUp-quiet (told gcm first m).0 (told gcm first m).1 (map (told gcm first) later) keeps)
