-- ===== src/Prelude/Exec.antt =====
-- Methods that change an object's state and may raise: what was written before a raise stays written,
-- so the state comes back beside the error too.
use mathlib.Core.Path.{◌≡◌, refl}
use mathlib.Core.Option.{Option, none, some}
use erp_agent.Prelude.Results.{Result, ok, err}

abbrev pub Exec : Type 0 → Type 0 → Type 0 → Type 0
Exec E S A = S → Result E A × S

module _ {E S A : Type 0} where
  abbrev pub pure : A → Exec E S A
  pure a s = (ok a, s)

  abbrev pub raise : E → Exec E S A
  raise e s = (err e, s)

  abbrev pub lift : Result E A → Exec E S A
  lift r s = (r, s)

  abbrev pub gets : (S → A) → Exec E S A
  gets f s = (ok (f s), s)

  -- the value, or the error where there is none
  abbrev pub require : Option A → E → Exec E S A
  require none e = raise e
  require (some a) e = pure a

abbrev pub modify : {E S : Type 0} → (S → S) → Exec E S (Unit {0})
modify f s = (ok tt, f s)

infixl 5 ◌>>=◌ ◌>>◌
abbrev pub ◌>>=◌ : {E S A B : Type 0} → Exec E S A → (A → Exec E S B) → Exec E S B
◌>>=◌ m f s = let (r, s') = m s in elim r [ ok a ↦ f a s' | err e ↦ raise e s' ]

abbrev pub ◌>>◌ : {E S A B : Type 0} → Exec E S A → Exec E S B → Exec E S B
m >> k = m >>= λ _. k

-- A step keeps `P` of the state, also where it raises.
pub record Preserves {E S A : Type 0} (P : S → Type 0) (m : Exec E S A) : Type 0 where
  pub at : (s : S) → P s → P (m s).1

module _ {E S : Type 0} {P : S → Type 0} where
  pub Preserves-bind :
      {A B : Type 0} {m : Exec E S A} {f : A → Exec E S B}
      → Preserves P m
      → ((a : A) → Preserves P (f a))
      → Preserves P (m >>= f)
  Preserves-bind {A} {B} {m} {f} hm hf = record { at = λ s h. cases (m s) (hm.at s h) }
    where
      cases : (out : Result E A × S) → P out.1 → P (((λ (s : S). out) >>= f) out.1).1
      cases (ok a, s) h = (hf a).at s h
      cases (err e, s) h = h

  pub Preserves-pure : {A : Type 0} (a : A) → Preserves {E = E} P (pure a)
  Preserves-pure a = record { at = λ s h. h }

  pub Preserves-lift : {A : Type 0} (r : Result E A) → Preserves P (lift r)
  Preserves-lift r = record { at = λ s h. h }

  pub Preserves-modify : (f : S → S) → ((s : S) → P s → P (f s)) → Preserves {E = E} P (modify f)
  Preserves-modify f k = record { at = λ s h. k s h }

  pub Preserves-then :
      {A : Type 0} {m : Exec E S (Unit {0})} {k : Exec E S A}
      → Preserves P m
      → Preserves P k
      → Preserves P (m >> k)
  Preserves-then hm hk = Preserves-bind hm (λ u. hk)

-- What a method has come through that ends well: the first step did, and the rest goes on from there.
module _ {E S A B : Type 0} {b : B} {s' : S} where
  pub require-then :
      (found : Option A) (e : E) (f : A → Exec E S B) (s : S)
      → ◌≡◌ {A = Result E B × S} ((require found e >>= f) s) (ok b, s')
      → (a : A) × (found ≡ some a) × ◌≡◌ {A = Result E B × S} (f a s) (ok b, s')
  require-then none e f s h = cc
  require-then (some a) e f s h = (a, refl, h)

  pub lift-then :
      (r : Result E A) (f : A → Exec E S B) (s : S)
      → ◌≡◌ {A = Result E B × S} ((lift r >>= f) s) (ok b, s')
      → (a : A) × (r ≡ ok a) × ◌≡◌ {A = Result E B × S} (f a s) (ok b, s')
  lift-then (err e) f s h = cc
  lift-then (ok a) f s h = (a, refl, h)

pub >>=_assoc :
    {E S A B C : Type 0} (m : Exec E S A) (f : A → Exec E S B) (k : B → Exec E S C) (s : S)
    → ((m >>= f) >>= k) s ≡ (m >>= λ a. f a >>= k) s
>>=_assoc {E} {S} {A} {B} {C} m f k s = cases (m s)
  where
    cases :
        (out : Result E A × S)
        → (((λ (s' : S). out) >>= f) >>= k) s ≡ ((λ (s' : S). out) >>= λ a. f a >>= k) s
    cases (ok a, s') = refl
    cases (err e, s') = refl

pub >>=-ends :
    {E S A B : Type 0} {b : B} {s' : S} (m : Exec E S A) (f : A → Exec E S B) (s : S)
    → ◌≡◌ {A = Result E B × S} ((m >>= f) s) (ok b, s')
    → (a : A) × (t : S) × ◌≡◌ {A = Result E A × S} (m s) (ok a, t)
      × ◌≡◌ {A = Result E B × S} (f a t) (ok b, s')
>>=-ends {E} {S} {A} {B} {b} {s'} m f s h = cases (m s) h
  where
    cases :
        (out : Result E A × S)
        → ◌≡◌ {A = Result E B × S} (((λ (u : S). out) >>= f) s) (ok b, s')
        → (a : A) × (t : S) × ◌≡◌ {A = Result E A × S} out (ok a, t)
          × ◌≡◌ {A = Result E B × S} (f a t) (ok b, s')
    cases (ok a, t) k = (a, t, refl, k)
    cases (err e, t) k = cc
