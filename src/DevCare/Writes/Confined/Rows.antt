-- ===== src/DevCare/Writes/Confined/Rows.antt =====
-- Rows that a write leaves alone, and the key of a new row.
use mathlib.Core.Path.{subst}
use erp_agent.Prelude.{
  String, false, not, Option, none, some, List, [], ◌∷◌, elem, keep, map, Dict, lookup, contains,
  insert, update, ◌≡◌, ◌≢◌, refl, sym, ap, inl, inr, arith, eq_iff, lookup-insert, Bool-cases,
  Option-cases, All, All-map,
}
use erp_agent.Prelude.Int.{ℤ, pos, ◌+ℤ◌, ◌≤ℤ◌, +ℤ_parts}
use erp_agent.DevCare.Rules.{Scalar, null, int, float, text, Record}
use erp_agent.DevCare.Writes.{first_outside, put_if, has_key, larger, max_key, next_key, set_row}

-- The rows that do not have the key.
abbrev pub keyless : String → Option Scalar → List Record → List Record
keyless pk key = keep (λ row. not (has_key pk key row))

pub lookup-update-other {ℓ} :
    {V : Type ℓ} (k : String) (d e : Dict V)
    → contains k e ≡ false
    → lookup k (update d e) ≡ lookup k d
lookup-update-other k d [] h = refl
lookup-update-other k d ((j, v) ∷ e) h =
    ground (arith, lookup-update-other k (insert j v d) e, lookup-insert j k v d, eq_iff k j)

pub first_outside-elem :
    (k : String) (allowed names : List String)
    → first_outside allowed names ≡ none
    → elem k allowed ≡ false
    → elem k names ≡ false
first_outside-elem k allowed [] h out = refl
first_outside-elem k allowed (name ∷ rest) h out =
    ground (arith, first_outside-elem k allowed rest, eq_iff k name)

pub contains-put_if :
    (k : String) (column : Option String) (v : Scalar) (row : Record)
    → column ≢ some k
    → contains k row ≡ false
    → contains k (put_if column v row) ≡ false
contains-put_if k none v row n h = h
contains-put_if k (some c) v row n h = ground (arith, lookup-insert c k v row, eq_iff k c)

pub lookup-put_if :
    (k : String) (column : Option String) (v : Scalar) (row : Record)
    → column ≢ some k
    → lookup k (put_if column v row) ≡ lookup k row
lookup-put_if k none v row n = refl
lookup-put_if k (some c) v row n = ground (arith, lookup-insert c k v row, eq_iff k c)

module _ (pk : String) (key : Option Scalar) (sets : Record) (free : contains pk sets ≡ false) where
  lookup-set_row : (row : Record) → lookup pk (set_row pk key sets row) ≡ lookup pk row
  lookup-set_row row = elim (Bool-cases (has_key pk key row)) [
    | inl e ↦ rw e (lookup-update-other pk row sets free)
    | inr e ↦ rw e refl
  ]

  has_key_of_lookup :
      (row row' : Record)
      → lookup pk row ≡ lookup pk row'
      → has_key pk key row ≡ has_key pk key row'
  unfolding has_key
  has_key_of_lookup row row' e = elim (Option-cases key) [
    | inl n ↦ rw n refl
    | inr (k, s) ↦ rw (s, e) refl
  ]

  -- Setting columns of the rows with the key touches no other row.
  pub keyless-map :
      (rows : List Record) → keyless pk key (map (set_row pk key sets) rows) ≡ keyless pk key rows
  keyless-map [] = refl
  keyless-map (row ∷ rows) = elim (Bool-cases (has_key pk key row)) [
    | inl e ↦
        rw (has_key_of_lookup (set_row pk key sets row) row (lookup-set_row row), e)
          (keyless-map rows)
    | inr e ↦
        rw (has_key_of_lookup (set_row pk key sets row) row (lookup-set_row row), e)
          (ap (λ rest. row ∷ rest) (keyless-map rows))
  ]

  pub map-lookup-set_row :
      (rows : List Record) → map (lookup pk) (map (set_row pk key sets) rows) ≡ map (lookup pk) rows
  map-lookup-set_row [] = refl
  map-lookup-set_row (row ∷ rows) = rw (lookup-set_row row, map-lookup-set_row rows) refl

abbrev Below : ℤ → Option ℤ → Type 0
Below n none = ⊥
Below n (some m) = n ≤ℤ m

Below-larger :
    (n : ℤ) (v : Option Scalar) (best : Option ℤ) → Below n best → Below n (larger v best)
Below-larger n v none h = absurd h
Below-larger n none (some m) h = h
Below-larger n (some (int k)) (some m) h = ground arith
Below-larger n (some null) (some m) h = h
Below-larger n (some (float d)) (some m) h = h
Below-larger n (some (text s)) (some m) h = h

Below-larger_self : (n : ℤ) (best : Option ℤ) → Below n (larger (some (int n)) best)
Below-larger_self n none = omega arith
Below-larger_self n (some m) = ground arith

abbrev IsBelow : String → Option ℤ → Record → Type 0
IsBelow pk best row = (n : ℤ) → lookup pk row ≡ some (int n) → Below n best

max_key-IsBelow : (pk : String) (rows : List Record) → All (IsBelow pk (max_key pk rows)) rows
max_key-IsBelow pk [] = tt
max_key-IsBelow pk (row ∷ rows) = (
  λ n e.
      subst (λ v. Below n (larger v (max_key pk rows))) (sym e)
        (Below-larger_self n (max_key pk rows)),
  All-map (λ r h n e. Below-larger n (lookup pk row) (max_key pk rows) (h n e)) rows
      (max_key-IsBelow pk rows),
)

above : (n m : ℤ) → n ≤ℤ m → n ≢ m +ℤ pos 1
above n m h e = ground (arith, +ℤ_parts m (pos 1), h, e)

Below-next :
    (n : ℤ) (best : Option ℤ) → Below n best → n ≢ elim best [ none ↦ pos 1 | some m ↦ m +ℤ pos 1 ]
Below-next n none h e = absurd h
Below-next n (some m) h e = above n m h e

-- The new key is no key of the table.
pub next_key_new :
    (pk : String) (rows : List Record)
    → All (λ row. lookup pk row ≢ some (int (next_key pk rows))) rows
unfolding next_key
next_key_new pk rows =
    All-map
      (λ row h e. Below-next (next_key pk rows) (max_key pk rows) (h (next_key pk rows) e) refl)
      rows (max_key-IsBelow pk rows)
