-- ===== src/Chat/Transcript/Capped.antt =====
-- What capping and sanitizing a transcript promise.
use mathlib.Core.Path.{subst}
use erp_agent.Prelude.{
  ℕ, zero, suc, ◌-◌, ◌≤◌, ◌<◌, ◌≡◌, refl, sym, ap, ◌⊎◌, inl, inr, arith, Bool, true, false, ◌||◌,
  ◌&&◌, Option, none, some, List, [], ◌∷◌, ◌++◌, leb, eqb, if◌then◌else◌, length, Bool-cases,
}
use erp_agent.Chat.Transcript.{
  Message, is_boundary, first_fit, last_turn, drop, take_last, cap_long, cap_to_turn_boundary,
}

abbrev pub has_boundary : List Message → Bool
has_boundary [] = false
has_boundary (m ∷ ms) = is_boundary m || has_boundary ms

-- The transcript starts at a turn boundary.
abbrev pub starts_turn : List Message → Bool
starts_turn [] = false
starts_turn (m ∷ ms) = is_boundary m

-- One turn: it starts at a boundary, and no other follows.
abbrev pub IsOneTurn : List Message → Type 0
IsOneTurn [] = false ≡ true
IsOneTurn (m ∷ ms) = (is_boundary m ≡ true) × (has_boundary ms ≡ false)

abbrev pub IsSuffix : List Message → List Message → Type 0
IsSuffix out ms = (front : List Message) × (ms ≡ front ++ out)

IsSuffix-cons : (m : Message) (out ms : List Message) → IsSuffix out ms → IsSuffix out (m ∷ ms)
IsSuffix-cons m out ms (front, e) = (m ∷ front, ap (λ t. m ∷ t) e)

drop-IsSuffix : (n : ℕ) (ms : List Message) → IsSuffix (drop n ms) ms
unfolding drop
drop-IsSuffix zero ms = ([], refl)
drop-IsSuffix (suc n) [] = ([], refl)
drop-IsSuffix (suc n) (m ∷ ms) = IsSuffix-cons m _ ms (drop-IsSuffix n ms)

abbrev FitsIn : ℕ → List Message → Option (List Message) → Type 0
FitsIn n ms none = Unit
FitsIn n ms (some out) = IsSuffix out ms × (starts_turn out ≡ true) × (length out ≤ n)

FitsIn-cons :
    (n : ℕ) (m : Message) (ms : List Message) (o : Option (List Message))
    → FitsIn n ms o
    → FitsIn n (m ∷ ms) o
FitsIn-cons n m ms none h = tt
FitsIn-cons n m ms (some out) (s, b, l) = (IsSuffix-cons m out ms s, b, l)

first_fit-FitsIn : (n : ℕ) (ms : List Message) → FitsIn n ms (first_fit n ms)
unfolding first_fit
first_fit-FitsIn n [] = tt
first_fit-FitsIn n (m ∷ ms) = elim (Bool-cases (is_boundary m && leb (length (m ∷ ms)) n)) [
  | inl fits ↦
      subst (λ b. FitsIn n (m ∷ ms) (if b then some (m ∷ ms) else first_fit n ms)) (sym fits)
        (([], refl), ground (arith, fits), ground (arith, fits))
  | inr other ↦
      subst (λ b. FitsIn n (m ∷ ms) (if b then some (m ∷ ms) else first_fit n ms)) (sym other)
        (FitsIn-cons n m ms (first_fit n ms) (first_fit-FitsIn n ms))
]

abbrev IsLastOf : List Message → Option (List Message) → Type 0
IsLastOf ms none = has_boundary ms ≡ false
IsLastOf ms (some out) = IsSuffix out ms × IsOneTurn out

last_turn_step :
    (m : Message) (ms : List Message) (o : Option (List Message))
    → IsLastOf ms o
    → IsLastOf
        (m ∷ ms)
        (elim o [ some turn ↦ some turn | none ↦ if is_boundary m then some (m ∷ ms) else none ])
last_turn_step m ms (some turn) (s, h) = (IsSuffix-cons m turn ms s, h)
last_turn_step m ms none h = elim (Bool-cases (is_boundary m)) [
  | inl here ↦
      subst (λ b. IsLastOf (m ∷ ms) (if b then some (m ∷ ms) else none)) (sym here)
        (([], refl), (here, h))
  | inr other ↦
      subst (λ b. IsLastOf (m ∷ ms) (if b then some (m ∷ ms) else none)) (sym other)
        (ground (arith, other, h))
]

last_turn-IsLastOf : (ms : List Message) → IsLastOf ms (last_turn ms)
unfolding last_turn
last_turn-IsLastOf [] = refl
last_turn-IsLastOf (m ∷ ms) = last_turn_step m ms (last_turn ms) (last_turn-IsLastOf ms)

-- A transcript that has a boundary somewhere is capped to a part of it that starts at a boundary and is
-- within the bound, or is the one last turn.
abbrev pub IsCapped : ℕ → List Message → List Message → Type 0
IsCapped n ms out =
    IsSuffix out ms
    × (has_boundary ms ≡ true → (starts_turn out ≡ true) × ((length out ≤ n) ⊎ IsOneTurn out))

IsOneTurn-starts : (out : List Message) → IsOneTurn out → starts_turn out ≡ true
IsOneTurn-starts [] h = h
IsOneTurn-starts (m ∷ ms) (h, k) = h

cap_long-IsCapped :
    (n : ℕ) (ms : List Message) (turn fit : Option (List Message))
    → IsLastOf ms turn
    → FitsIn n ms fit
    → IsCapped n ms (cap_long n ms turn fit)
unfolding cap_long take_last
cap_long-IsCapped n ms none fit h k = elim (Bool-cases (eqb n 0)) [
  | inl all ↦
      subst (λ b. IsCapped n ms (if b then ms else drop (length ms - n) ms)) (sym all)
        (([], refl), λ b. cc)
  | inr some_of ↦
      subst (λ b. IsCapped n ms (if b then ms else drop (length ms - n) ms)) (sym some_of)
        (drop-IsSuffix (length ms - n) ms, λ b. cc)
]
cap_long-IsCapped n ms (some turn) (some fit) h (s, b, l) = (s, λ _. (b, inl l))
cap_long-IsCapped n ms (some turn) none (s, h) k = (s, λ _. (IsOneTurn-starts turn h, inr h))

-- A transcript within the bound is kept as it is. A longer one is cut to a suffix; where the transcript
-- has a turn boundary, the suffix starts at one, and it is within the bound unless it is a single turn.
pub cap_to_turn_boundary-IsCapped :
    (n : ℕ) (ms : List Message)
    → ((length ms ≤ n) × (cap_to_turn_boundary ms n ≡ ms))
      ⊎ ((n < length ms) × IsCapped n ms (cap_to_turn_boundary ms n))
unfolding cap_to_turn_boundary
cap_to_turn_boundary-IsCapped n ms = elim (Bool-cases (leb (length ms) n)) [
  | inl short ↦ inl (ground (arith, short), ground (arith, short))
  | inr long ↦ inr (
    ground (arith, long),
    subst (λ b. IsCapped n ms (if b then ms else cap_long n ms (last_turn ms) (first_fit n ms)))
        (sym long)
        (cap_long-IsCapped n ms (last_turn ms) (first_fit n ms) (last_turn-IsLastOf ms)
          (first_fit-FitsIn n ms)),
  )
]
