-- ===== src/Launcher/Sessions/Check.antt =====
-- `check_ovs_sessions`: after one pass every session has a runtime exactly if OVS has it open.
use p4_ubpf_scripts.Common.{
  ℕ, zero, suc, ℤ, pos, minus_one, ltb_ℤ, sign, below, at_zero, above, ==ℤ_iff, ◌+◌, ◌≤◌, ◌<◌, ◌≡◌,
  refl, ◌∙◌, ap, subst, inl, inr, true, false, get_or-All, some, >>=-eq-some, arith, Bool-cases,
}
use mathlib.Core.Option.{some_inj}
use native.Mathlib.Decide.{dec_lt, ℕ_discrete}
use p4_ubpf_scripts.Launcher.State.{Connection, Server, max_connections}
use p4_ubpf_scripts.Launcher.Sessions.{
  no_session, session, is_new, is_lost, link_add, link_del, when, check_session, check_from,
}
use p4_ubpf_scripts.Launcher.Sessions.Linked.{is_linked, IsSessionId, NoReuse}
use p4_ubpf_scripts.Launcher.Sessions.Link.{IsSound, SameBut, SameBut-refl, link_add-Links}
use p4_ubpf_scripts.Launcher.Sessions.Unlink.{link_del-Unlinks}

-- An open session has a runtime, a closed one has none; OVS gives no session the id 0.
pub data IsSettled (c : Connection) : Type 0 where
  serving : ltb_ℤ (pos 0) c.ovs_thread_id ≡ true → is_linked c ≡ true → IsSettled c
  closed : ltb_ℤ c.ovs_thread_id (pos 0) ≡ true → is_linked c ≡ false → IsSettled c
  unnumbered : c.ovs_thread_id ≡ pos 0 → IsSettled c

IsSettled-opened :
    (c d : Connection)
    → is_new c ≡ true
    → d.ovs_thread_id ≡ c.ovs_thread_id
    → is_linked d ≡ true
    → IsSettled d × (is_lost d ≡ false)
IsSettled-opened c d new same linked = (serving (ground arith) linked, ground arith)

IsSettled-closed :
    (c d : Connection)
    → is_lost c ≡ true
    → d.ovs_thread_id ≡ c.ovs_thread_id
    → d.p4runtime_id ≡ minus_one
    → IsSettled d
IsSettled-closed c d lost same unlinked = closed (ground arith) (ground arith)

IsSettled-quiet :
    (c : Connection) → IsSessionId c → is_new c ≡ false → is_lost c ≡ false → IsSettled c
IsSettled-quiet c id old kept = elim (sign c.ovs_thread_id) [
  | below negative ↦ closed negative (ground arith)
  | at_zero a b ↦ unnumbered ((==ℤ_iff c.ovs_thread_id (pos 0)).0 b)
  | above a b positive ↦ serving positive (ground arith)
]

pub record Checked (fork : ℕ → ℤ) (i : ℕ) (s t : Server) : Type 0 where
  pub sound : IsSound fork t
  pub same_but : SameBut i s.session_table t.session_table
  pub settled : IsSettled (session t i)

module _ (fork : ℕ → ℤ) (no_reuse : NoReuse fork) (fuel : ℕ) where
  module _ (i : ℕ) (s t : Server) (sound : IsSound fork s) (in_table : i < max_connections) where
    pub check_session-new :
        is_new (session s i) ≡ true
        → link_add fork fuel i s ≡ some t
        → Checked fork i s t × (is_lost (session t i) ≡ false)
    check_session-new new done =
        let links = link_add-Links fork no_reuse fuel i s t sound in_table (ground arith) done in
        let (settled, kept) =
          IsSettled-opened (session s i) (session t i) new links.same_but.same_ovs
            links.has_runtime in
        (record { sound = links.sound; same_but = links.same_but; settled = settled }, kept)

    check_session-lost :
        is_lost (session s i) ≡ true → link_del fork fuel i s ≡ some t → Checked fork i s t
    check_session-lost lost done =
        let unlinks =
          link_del-Unlinks fork no_reuse fuel i s t sound in_table (ground arith) done in
        record {
          sound = unlinks.sound;
          same_but = unlinks.same_but;
          settled =
              IsSettled-closed (session s i) (session t i) lost unlinks.same_but.same_ovs
                unlinks.no_runtime;
        }

  check_session-quiet :
      (i : ℕ) (s : Server)
      → IsSound fork s
      → i < max_connections
      → is_new (session s i) ≡ false
      → is_lost (session s i) ≡ false
      → Checked fork i s s
  check_session-quiet i s sound in_table old kept = record {
    sound = sound;
    same_but = SameBut-refl i s.session_table;
    settled =
        IsSettled-quiet (session s i)
          (get_or-All IsSessionId s.session_table i no_session
            (omega (arith, sound.valid.sessions_size)) sound.linked.ids)
          old kept;
  }

  pub check_session-Checked :
      (i : ℕ) (s t : Server)
      → IsSound fork s
      → i < max_connections
      → check_session fork fuel i s ≡ some t
      → Checked fork i s t
  unfolding check_session
  check_session-Checked i s t sound in_table done =
      let (m, first, second) =
        >>=-eq-some (when (is_new (session s i)) (link_add fork fuel i) s)
          (λ u. when (is_lost (session u i)) (link_del fork fuel i) u) done in
      elim (Bool-cases (is_new (session s i))) [
        | inl new ↦
            let (checked, kept) = check_session-new i s m sound in_table new (rw new at first) in
            subst (Checked fork i s) (some_inj.0 (rw kept at second)) checked
        | inr old ↦
            let same : s ≡ m = some_inj.0 (rw old at first) in
            let then_lost = rw (← same) at second in
            elim (Bool-cases (is_lost (session s i))) [
              | inl lost ↦ check_session-lost i s t sound in_table lost (rw lost at then_lost)
              | inr kept ↦
                  subst (Checked fork i s) (some_inj.0 (rw kept at then_lost))
                    (check_session-quiet i s sound in_table old kept)
            ]
      ]

  ovs_kept :
      (i j : ℕ) {s m : Server}
      → Checked fork i s m
      → (session m j).ovs_thread_id ≡ (session s j).ovs_thread_id
  ovs_kept i j {s} {m} checked = elim (ℕ_discrete i j) [
    | yes here ↦
        subst (λ x. (session m x).ovs_thread_id ≡ (session s x).ovs_thread_id) here
          checked.same_but.same_ovs
    | no apart ↦ ap (λ (c : Connection). c.ovs_thread_id) (checked.same_but.others j apart)
  ]

  -- What a pass over the rows from `i` to `i + n` leaves; the rows before `i` are as they were.
  pub record Passed (i n : ℕ) (s t : Server) : Type 0 where
    pub sound : IsSound fork t
    pub before : (j : ℕ) → j < i → session t j ≡ session s j
    pub settled : (j : ℕ) → i ≤ j → j < i + n → IsSettled (session t j)
    pub same_ovs : (j : ℕ) → (session t j).ovs_thread_id ≡ (session s j).ovs_thread_id

  Passed-none : (i : ℕ) (s : Server) → IsSound fork s → Passed i 0 s s
  Passed-none i s sound = record {
    sound = sound;
    before = λ j h. refl;
    settled = λ j h k. absurd (omega arith);
    same_ovs = λ j. refl;
  }

  Passed-step :
      (i n : ℕ) {s m t : Server} → Checked fork i s m → Passed (i + 1) n m t → Passed i (suc n) s t
  Passed-step i n {s} {m} {t} checked passed = record {
    sound = passed.sound;
    before = λ j h. passed.before j (omega arith) ∙ checked.same_but.others j (omega arith);
    settled = λ j h k. elim (dec_lt i j) [
      | yes later ↦ passed.settled j (omega arith) (omega arith)
      | no now ↦
          let here : i ≡ j = omega arith in
          subst (λ x. IsSettled (session t x)) here
            (rw (passed.before i (omega arith)) checked.settled)
    ];
    same_ovs = λ j. passed.same_ovs j ∙ ovs_kept i j checked;
  }

  pub check_from-Passed :
      (n i : ℕ) (s t : Server)
      → IsSound fork s
      → i + n ≤ max_connections
      → check_from fork fuel i n s ≡ some t
      → Passed i n s t
  unfolding check_from
  check_from-Passed zero i s t sound fits done =
      subst (Passed i 0 s) (some_inj.0 done) (Passed-none i s sound)
  check_from-Passed (suc n) i s t sound fits done =
      let (m, first, rest) =
        >>=-eq-some (check_session fork fuel i s) (check_from fork fuel (i + 1) n) done in
      let checked = check_session-Checked i s m sound (omega arith) first in
      let passed = check_from-Passed n (i + 1) m t checked.sound (omega arith) rest in
      Passed-step i n checked passed
