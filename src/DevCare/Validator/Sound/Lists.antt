-- ===== src/DevCare/Validator/Sound/Lists.antt =====
-- Lists and tests that come out empty.
use erp_agent.Prelude.{Bool, true, false, List, [], ◌∷◌, ◌++◌, if◌then◌else◌, ◌≡◌, refl}

pub of_true {ℓ} : {A : Type ℓ} (b : Bool) (x y z : A) → b ≡ true → (if b then x else y) ≡ z → x ≡ z
of_true true x y z e h = h
of_true false x y z e h = cc

pub of_false {ℓ} :
    {A : Type ℓ} (b : Bool) (x y z : A) → b ≡ false → (if b then x else y) ≡ z → y ≡ z
of_false true x y z e h = cc
of_false false x y z e h = h

pub append-nil-left {ℓ} : {A : Type ℓ} (xs ys : List A) → xs ++ ys ≡ [] → xs ≡ []
append-nil-left [] ys h = refl
append-nil-left (x ∷ xs) ys h = cc

pub append-nil-right {ℓ} : {A : Type ℓ} (xs ys : List A) → xs ++ ys ≡ [] → ys ≡ []
append-nil-right [] ys h = h
append-nil-right (x ∷ xs) ys h = cc
