-- ===== src/Agent/Nic/Laws.antt =====
-- What the agent reads of /proc/net/snmp, and what it counts from there.
use p4_ubpf_scripts.Common.{
  ℕ, ◌%◌, ◌^◌, ◌≤◌, ◌<◌, ◌≡◌, refl, ap, ap₂, ◌∙◌, inl, inr, true, false, Bool-cases, if◌then◌else◌,
  ◌>>=◌, Option, some, List, [], ◌∷◌, ◌++◌, length, take, take-all, All, arith,
}
use p4_ubpf_scripts.CString.{Text, codes, starts_with, same_text, strtoull}
use p4_ubpf_scripts.Agent.Word.{add64, sub64}
use p4_ubpf_scripts.Agent.Nic.{
  is_delimiter, split, tokens, max_tokens, Totals, scan, no_totals, read_snmp, Nic, get_nic_stat,
  init_nic_stat,
}

-- Nonempty, without blanks.
abbrev pub IsWord : Text → Type 0
IsWord w = (0 < length w) × All (λ d. is_delimiter d ≡ false) w

-- A line as the kernel writes it: its words, one space between each two, and the line feed.
abbrev pub line : List Text → Text
line [] = 10 ∷ []
line (w ∷ []) = w ++ (10 ∷ [])
line (w ∷ (v ∷ ws)) = w ++ (32 ∷ line (v ∷ ws))

split-word :
    (w : Text) (blank : ℕ) (rest : Text)
    → All (λ d. is_delimiter d ≡ false) w
    → is_delimiter blank ≡ true
    → split (w ++ (blank ∷ rest)) ≡ (w, tokens rest)
unfolding split
split-word [] blank rest h ends = rw ends refl
split-word (c ∷ cs) blank rest (h, hs) ends = rw (split-word cs blank rest hs ends, h) refl

-- A nonempty word and a blank come before the tokens of the rest.
tokens-word :
    (w : Text) (blank : ℕ) (rest : Text)
    → IsWord w
    → is_delimiter blank ≡ true
    → tokens (w ++ (blank ∷ rest)) ≡ w ∷ tokens rest
tokens-word [] blank rest (nonempty, h) ends = absurd (omega arith)
tokens-word (c ∷ cs) blank rest (nonempty, h) ends = rw (split-word (c ∷ cs) blank rest h ends) refl

-- strtok delivers the words of a line.
tokens-line : (ws : List Text) → All IsWord ws → tokens (line ws) ≡ ws
unfolding split
tokens-line [] h = refl
tokens-line (w ∷ []) (word, h) = tokens-word w 10 [] word refl
tokens-line (w ∷ (v ∷ ws)) (word, h) =
    tokens-word w 32 (line (v ∷ ws)) word refl ∙ ap (◌∷◌ w) (tokens-line (v ∷ ws) h)

-- The value in the last column of that name, or `d` where no column has it.
unfoldable pub column : Text → List Text → List Text → ℕ → ℕ
column name [] vs d = d
column name (h ∷ hs) [] d = d
column name (h ∷ hs) (v ∷ vs) d = column name hs vs (if same_text h name then strtoull v else d)

-- No column is of both names.
distinct_names :
    (h : Text) → same_text h (codes "InReceives") ≡ true → same_text h (codes "OutRequests") ≡ false
unfolding same_text
distinct_names [] e = refl
distinct_names (c ∷ cs) e = ground arith

scan-column :
    (hs vs : List Text) (t : Totals)
    → scan hs vs t ≡ record {
      in_receives = column (codes "InReceives") hs vs t.in_receives;
      out_requests = column (codes "OutRequests") hs vs t.out_requests;
    }
unfolding scan column
scan-column [] vs t = refl
scan-column (h ∷ hs) [] t = refl
scan-column (h ∷ hs) (v ∷ vs) t = elim (Bool-cases (same_text h (codes "InReceives"))) [
  | inl is_in ↦
      let is_not_out = distinct_names h is_in in
      rw (is_in, is_not_out) (scan-column hs vs (record t { in_receives = strtoull v }))
  | inr is_not_in ↦ elim (Bool-cases (same_text h (codes "OutRequests"))) [
    | inl is_out ↦
        rw (is_not_in, is_out) (scan-column hs vs (record t { out_requests = strtoull v }))
    | inr is_not_out ↦ rw (is_not_in, is_not_out) (scan-column hs vs t)
  ]
]

-- In a file whose first line that begins with "Ip:" is of at most 64 words with one space between
-- each two and a line feed at the end, and the line behind it too, the agent reads the values in
-- the last columns named InReceives and OutRequests, and 0 where no column has the name.
pub read_snmp-columns :
    (before : List Text) (names values : List Text) (after : List Text)
    → All (λ text. starts_with (codes "Ip:") text ≡ false) before
    → starts_with (codes "Ip:") (line names) ≡ true
    → All IsWord names
    → All IsWord values
    → length names ≤ 64
    → length values ≤ 64
    → read_snmp (before ++ (line names ∷ line values ∷ after)) ≡ record {
      in_receives = column (codes "InReceives") names values 0;
      out_requests = column (codes "OutRequests") names values 0;
    }
unfolding read_snmp
read_snmp-columns [] names values after none_before is_ip ns vs few_names few_values = rw is_ip (
    ap₂ (λ hs ws. scan (take max_tokens hs) (take max_tokens ws) no_totals) (tokens-line names ns)
      (tokens-line values vs)
    ∙ ap₂ (λ hs ws. scan hs ws no_totals) (take-all max_tokens names few_names)
        (take-all max_tokens values few_values)
    ∙ scan-column names values no_totals)
read_snmp-columns (text ∷ before) names values after (other, none_before) is_ip ns vs few_names
      few_values =
    rw other
      (read_snmp-columns before names values after none_before is_ip ns vs few_names few_values)

-- What `get_nic_stat(false)` sets the count to, after `init_nic_stat` has run on `first`.
unfoldable pub counted : List Text → List Text → Nic → Option ℕ
counted first later nic = do
  initial ← init_nic_stat (some first) nic
  now ← get_nic_stat false (some later) initial
  some now.passed_packets

sub64-add64 : (a k : ℕ) → a < 2 ^ 64 → sub64 (add64 a k) a ≡ k % 2 ^ 64
sub64-add64 a k small = omega arith

add64-mod : (k l : ℕ) → add64 (k % 2 ^ 64) (l % 2 ^ 64) ≡ add64 k l
add64-mod k l = omega arith

-- When both counters of a first reading fit in 64 bits, and in a later one they have advanced by
-- `k` and `l` modulo 2 ^ 64, the count after `init_nic_stat` on the first and `get_nic_stat(false)`
-- on the later is `k + l` modulo 2 ^ 64, whatever the globals held.
pub get_nic_stat-counts :
    (first later : List Text) (nic : Nic) (k l : ℕ)
    → (read_snmp first).in_receives < 2 ^ 64
    → (read_snmp first).out_requests < 2 ^ 64
    → (read_snmp later).in_receives ≡ add64 (read_snmp first).in_receives k
    → (read_snmp later).out_requests ≡ add64 (read_snmp first).out_requests l
    → counted first later nic ≡ some (add64 k l)
unfolding counted get_nic_stat
get_nic_stat-counts first later nic k l small_in small_out e_in e_out = ap some (
    ap₂ add64
      (ap (λ r. sub64 r (read_snmp first).in_receives) e_in
        ∙ sub64-add64 (read_snmp first).in_receives k small_in)
      (ap (λ r. sub64 r (read_snmp first).out_requests) e_out
        ∙ sub64-add64 (read_snmp first).out_requests l small_out)
    ∙ add64-mod k l)
