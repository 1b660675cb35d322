-- ===== src/Common/Maps.antt =====
-- Lists mapped, written and counted at once.
use Prim.Native.Nat.{ℕ, zero, suc, ◌+◌, ◌<◌}
use mathlib.Core.Path.{◌≡◌, refl, ap, ap₂}
use mathlib.Core.Bool.{Bool}
use mathlib.Core.List.{List, [], ◌∷◌, ◌++◌, map}
use native.Mathlib.Omega.{arith}
use p4_ubpf_scripts.Common.Lists.{length, get_or, set, count}

-- Two arrays of one length that agree at each index under `f`.
pub map_ext_get_or {ℓ κ} :
    {A : Type ℓ} {B : Type κ} (f : A → B) (xs ys : List A) (d : A)
    → length xs ≡ length ys
    → ((i : ℕ) → f (get_or xs i d) ≡ f (get_or ys i d))
    → map f xs ≡ map f ys
map_ext_get_or f [] [] d e h = refl
map_ext_get_or f [] (y ∷ ys) d e h = absurd (omega arith)
map_ext_get_or f (x ∷ xs) [] d e h = absurd (omega arith)
map_ext_get_or f (x ∷ xs) (y ∷ ys) d e h =
    ap₂ ◌∷◌ (h 0) (map_ext_get_or f xs ys d (omega arith) (λ i. h (suc i)))

pub count-map {ℓ κ} :
    {A : Type ℓ} {B : Type κ} (p : B → Bool) (f : A → B) (xs : List A)
    → count p (map f xs) ≡ count (λ x. p (f x)) xs
count-map p f [] = refl
count-map p f (x ∷ xs) = omega (arith, count-map p f xs)

pub map-set {ℓ κ} :
    {A : Type ℓ} {B : Type κ} (f : A → B) (xs : List A) (i : ℕ) (a : A)
    → map f (set xs i a) ≡ set (map f xs) i (f a)
map-set f [] i a = refl
map-set f (x ∷ xs) zero a = refl
map-set f (x ∷ xs) (suc i) a = ap (◌∷◌ (f x)) (map-set f xs i a)

pub set-same {ℓ} :
    {A : Type ℓ} (xs : List A) (i : ℕ) (a d : A) → a ≡ get_or xs i d → set xs i a ≡ xs
set-same [] i a d e = refl
set-same (x ∷ xs) zero a d e = ap (λ y. y ∷ xs) e
set-same (x ∷ xs) (suc i) a d e = ap (◌∷◌ x) (set-same xs i a d e)

abbrev pub sum : List ℕ → ℕ
sum [] = 0
sum (n ∷ ns) = n + sum ns

pub get_or-map {ℓ κ} :
    {A : Type ℓ} {B : Type κ} (f : A → B) (xs : List A) (i : ℕ) (d : A) (d' : B)
    → i < length xs
    → get_or (map f xs) i d' ≡ f (get_or xs i d)
get_or-map f [] i d d' h = absurd (omega arith)
get_or-map f (x ∷ xs) zero d d' h = refl
get_or-map f (x ∷ xs) (suc i) d d' h = get_or-map f xs i d d' (omega arith)

pub map_ext {ℓ κ} :
    {A : Type ℓ} {B : Type κ} {f g : A → B}
    → ((a : A) → f a ≡ g a)
    → (xs : List A) → map f xs ≡ map g xs
map_ext h [] = refl
map_ext h (x ∷ xs) = ap₂ ◌∷◌ (h x) (map_ext h xs)

pub map-append-cons {ℓ κ} :
    {A : Type ℓ} {B : Type κ} (f : A → B) (xs : List A) (y : A) (ys : List A)
    → map f (xs ++ (y ∷ ys)) ≡ map f xs ++ (f y ∷ map f ys)
map-append-cons f [] y ys = refl
map-append-cons f (x ∷ xs) y ys = ap (◌∷◌ (f x)) (map-append-cons f xs y ys)
