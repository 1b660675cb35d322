-- ===== src/Posix/Laws.antt =====
-- How a program goes on, and how it ends, once its first part is known.
use p4_ubpf_scripts.Common.{ℤ, ◌≡◌, ◌⊎◌, inl, inr, refl, sym, ◌∙◌, ap}
use p4_ubpf_scripts.Posix.{Log, Result, returned, exited, Program, ◌>>=◌, ◌>>◌}

module _ {A B : Type 0} (m : Program A) (k : Program B) (log log' : Log) where
  abbrev ended : ℤ → Log → Result B × Log
  ended n later = (exited n, later)

  pub >>-returned : (a : A) → m log ≡ (returned a, log') → (m >> k) log ≡ k log'
  >>-returned a e = rw (e, ◌>>◌, ◌>>=◌) (ap (λ (o : Result A × Log). k o.1) e)

  pub >>-exited : (n : ℤ) → m log ≡ (exited n, log') → (m >> k) log ≡ (exited n, log')
  >>-exited n e = rw (e, ◌>>◌, ◌>>=◌) (ap (λ (o : Result A × Log). ended n o.1) e)

pub >>=-returned :
    {A B : Type 0} (m : Program A) (f : A → Program B) (log log' : Log) (a : A)
    → m log ≡ (returned a, log')
    → (m >>= f) log ≡ f a log'
>>=-returned {A} m f log log' a e = rw (e, ◌>>=◌) (ap (λ (o : Result A × Log). f a o.1) e)

pub >>=-exited :
    {A B : Type 0} (m : Program A) (f : A → Program B) (log log' : Log) (n : ℤ)
    → m log ≡ (exited n, log')
    → (m >>= f) log ≡ (exited n, log')
>>=-exited {A} m f log log' n e = rw (e, ◌>>=◌) (ap (λ (o : Result A × Log). (exited n, o.1)) e)

pub ends :
    {A : Type 0} (o : Result A × Log)
    → ((a : A) × (o ≡ (returned a, o.1))) ⊎ ((n : ℤ) × (o ≡ (exited n, o.1)))
ends (returned a, log) = inl (a, refl)
ends (exited n, log) = inr (n, refl)

-- What comes before counts by its end only.
>>=-ends :
    {A B : Type 0} (p q : Program A) (g : A → Program B) (log log' : Log)
    → p log ≡ q log'
    → (p >>= g) log ≡ (q >>= g) log'
>>=-ends p q g log log' same = elim (ends (q log')) [
  | inl (a, e) ↦ >>=-returned p g log _ a (same ∙ e) ∙ sym (>>=-returned q g log' _ a e)
  | inr (n, e) ↦ >>=-exited p g log _ n (same ∙ e) ∙ sym (>>=-exited q g log' _ n e)
]

module _ {A A' B C : Type 0} (m : Program A) (m' : Program A') (f : A → Program B)
    (f' : A' → Program C) (g : C → Program B) (log later : Log) where
  -- Two programs whose first parts have both come back go on from there.
  pub both-returned :
      (a : A) (a' : A')
      → m log ≡ (returned a, later)
      → m' log ≡ (returned a', later)
      → f a later ≡ (f' a' >>= g) later
      → (m >>= f) log ≡ ((m' >>= f') >>= g) log
  both-returned a a' e e' same =
      >>=-returned m f log later a e
      ∙ same
      ∙ sym (>>=-ends (m' >>= f') (f' a') g log later (>>=-returned m' f' log later a' e'))

  pub both-exited :
      (n : ℤ)
      → m log ≡ (exited n, later)
      → m' log ≡ (exited n, later)
      → (m >>= f) log ≡ ((m' >>= f') >>= g) log
  both-exited n e e' =
      >>=-exited m f log later n e
      ∙ sym (>>=-exited (m' >>= f') g log later n (>>=-exited m' f' log later n e'))

-- A program that starts like `m'` and goes on like `f'` before `g` ends like them before `g`.
pub >>=-follows :
    {A B C : Type 0} (m m' : Program A) (f : A → Program B) (f' : A → Program C) (g : C → Program B)
    → ((log : Log) → m log ≡ m' log)
    → ((a : A) (log : Log) → f a log ≡ (f' a >>= g) log)
    → (log : Log) → (m >>= f) log ≡ ((m' >>= f') >>= g) log
>>=-follows m m' f f' g same same_rest log = elim (ends (m' log)) [
  | inl (a, e) ↦ both-returned m m' f f' g log _ a a (same log ∙ e) e (same_rest a _)
  | inr (n, e) ↦ both-exited m m' f f' g log _ n (same log ∙ e) e
]
