-- ===== src/Prelude/Lists.antt =====
-- Lists measured by native numbers, predicates on all entries, and membership tests.
use Prim.Native.Nat.{ℕ, suc, ◌+◌, ◌≤◌, ◌<◌}
use Prim.Native.String.{String}
use mathlib.Core.Logic.{inl, inr}
use mathlib.Core.Path.{sym, subst, ◌≡◌, refl}
use mathlib.Core.Bool.{Bool, true, false, ◌||◌}
use mathlib.Core.List.{List, [], ◌∷◌, ◌++◌}
use native.Mathlib.Omega.{arith}
use text.Mathlib.TextEquality.{eq_iff}
use erp_agent.Prelude.Tests.{Bool-cases, elem, if◌then◌else◌, ◌==◌}

module _ {ℓ} {A : Type ℓ} where
  abbrev pub length : List A → ℕ
  length [] = 0
  length (x ∷ xs) = suc (length xs)

  abbrev pub is_empty : List A → Bool
  is_empty [] = true
  is_empty (x ∷ xs) = false

  pub length-append : (xs ys : List A) → length (xs ++ ys) ≡ length xs + length ys
  length-append [] ys = omega arith
  length-append (x ∷ xs) ys = omega (arith, length-append xs ys)

  -- `[x for x in xs if p x]`
  abbrev pub keep : (A → Bool) → List A → List A
  keep p [] = []
  keep p (x ∷ xs) = if p x then x ∷ keep p xs else keep p xs

module _ {ℓ κ} {A : Type ℓ} (P : A → Type κ) where
  abbrev pub All : List A → Type κ
  All [] = Unit
  All (x ∷ xs) = P x × All xs

  pub All-append : (xs ys : List A) → All xs → All ys → All (xs ++ ys)
  All-append [] ys _ k = k
  All-append (x ∷ xs) ys (p, h) k = (p, All-append xs ys h k)

  pub All-snoc : (xs : List A) {x : A} → All xs → P x → All (xs ++ x ∷ [])
  All-snoc xs h p = All-append xs _ h (p, tt)

module _ {ℓ κ ρ} {A : Type ℓ} {P : A → Type κ} {Q : A → Type ρ} (f : (a : A) → P a → Q a) where
  pub All-map : (xs : List A) → All P xs → All Q xs
  All-map [] h = tt
  All-map (x ∷ xs) (p, h) = (f x p, All-map xs h)

pub elem-append : (x : String) (ys zs : List String) → elem x (ys ++ zs) ≡ elem x ys || elem x zs
elem-append x [] zs = refl
elem-append x (y ∷ ys) zs = ground (arith, elem-append x ys zs)

-- No text twice.
abbrev pub Distinct : List String → Type 0
Distinct [] = Unit
Distinct (x ∷ xs) = (elem x xs ≡ false) × Distinct xs

pub Distinct-snoc :
    (xs : List String) (x : String) → Distinct xs → elem x xs ≡ false → Distinct (xs ++ x ∷ [])
Distinct-snoc [] x h e = (refl, tt)
Distinct-snoc (y ∷ ys) x (fresh, h) e = (
  ground (arith, elem-append y ys (x ∷ []), eq_iff x y, eq_iff y x),
  Distinct-snoc ys x h (ground arith),
)

-- All occurrences of a text taken out.
abbrev pub without : String → List String → List String
without x [] = []
without x (y ∷ ys) = if x == y then without x ys else y ∷ without x ys

length-without-le : (x : String) (ys : List String) → length (without x ys) ≤ length ys
length-without-le x [] = omega arith
length-without-le x (y ∷ ys) = ground (arith, length-without-le x ys)

length-without-lt :
    (x : String) (ys : List String) → elem x ys ≡ true → length (without x ys) < length ys
length-without-lt x [] h = ground arith
length-without-lt x (y ∷ ys) h = ground (arith, length-without-lt x ys, length-without-le x ys)

elem-without :
    (z x : String) (ys : List String)
    → elem z ys ≡ true
    → (z == x) ≡ false
    → elem z (without x ys) ≡ true
elem-without z x [] h n = h
elem-without z x (y ∷ ys) h n =
    ground (arith, elem-without z x ys, eq_iff z x, eq_iff x y, eq_iff z y)

abbrev Among : List String → List String → Type 0
Among ys = All (λ x. elem x ys ≡ true)

Among-without :
    (x : String) (xs ys : List String) → elem x xs ≡ false → Among ys xs → Among (without x ys) xs
Among-without x [] ys e h = tt
Among-without x (z ∷ xs) ys e (here, later) = (
  elem-without z x ys here (ground (arith, eq_iff x z, eq_iff z x)),
  Among-without x xs ys (ground arith) later,
)

-- The pigeonhole principle: distinct texts taken from `ys` are no more than `ys` has.
pub length-le_of_Among :
    (xs ys : List String) → Distinct xs → All (λ x. elem x ys ≡ true) xs → length xs ≤ length ys
length-le_of_Among [] ys d h = omega arith
length-le_of_Among (x ∷ xs) ys (fresh, d) (here, later) = omega (
  arith,
  length-le_of_Among xs (without x ys) d (Among-without x xs ys fresh later),
  length-without-lt x ys here,
)

pub All-elem {ℓ} :
    {P : String → Type ℓ} (xs : List String) → ((x : String) → elem x xs ≡ true → P x) → All P xs
All-elem [] h = tt
All-elem (x ∷ xs) h = (h x (ground (arith, eq_iff x x)), All-elem xs (λ y m. h y (ground arith)))

pub All_elim {ℓ} :
    (P : String → Type ℓ) (xs : List String) (x : String) → All P xs → elem x xs ≡ true → P x
All_elim P [] x a m = cc
All_elim P (y ∷ ys) x (p, a) m = elim (Bool-cases (x == y)) [
  | inl same ↦ subst P (sym ((eq_iff x y).0 same)) p
  | inr other ↦ All_elim P ys x a (ground arith)
]
