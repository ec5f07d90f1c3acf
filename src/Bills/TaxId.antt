-- ===== src/Bills/TaxId.antt =====
-- logic/bills/tax_id.py: the check digit of a Portuguese tax number. `strip`, `upper` and `isdigit` are
-- those of ASCII texts.
pub mod CheckDigit
use Prim.Native.Char.{code}
use Prim.Native.String.{String, [] as no_text, ◌∷◌ as ◌∷ₜ◌}
use erp_agent.Prelude.{
  ℕ, ◌+◌, ◌-◌, ◌*◌, ◌%◌, Bool, ◌&&◌, ◌||◌, Option, none, some, List, [], ◌∷◌, eqb, leb,
  if◌then◌else◌,
}

-- `_WEIGHTS`
abbrev pub weights : List ℕ
weights = 9 ∷ 8 ∷ 7 ∷ 6 ∷ 5 ∷ 4 ∷ 3 ∷ 2 ∷ []

-- the ASCII characters that `strip` takes off
abbrev pub is_space : ℕ → Bool
is_space c = eqb c 32 || (leb 9 c && leb c 13) || (leb 28 c && leb c 31)

abbrev pub code_points : String → List ℕ
code_points no_text = []
code_points (c ∷ₜ s) = code c ∷ code_points s

unfoldable pub lstrip : List ℕ → List ℕ
lstrip [] = []
lstrip (c ∷ cs) = let rest = lstrip cs in if is_space c then rest else c ∷ cs

unfoldable pub rstrip : List ℕ → List ℕ
rstrip [] = []
rstrip (c ∷ cs) = elim (rstrip cs) [
  | [] ↦ if is_space c then [] else c ∷ []
  | d ∷ ds ↦ c ∷ (d ∷ ds)
]

-- A leading "PT" or "pt" is taken off.
abbrev pub is_letter : ℕ → ℕ → Bool
is_letter upper c = eqb c upper || eqb c (upper + 32)

unfoldable pub drop_country : List ℕ → List ℕ
drop_country (p ∷ t ∷ cs) = if is_letter 80 p && is_letter 84 t then cs else p ∷ t ∷ cs
drop_country cs = cs

-- `int(c)` of each digit; nothing when some character is no digit
unfoldable pub to_digits : List ℕ → Option (List ℕ)
to_digits [] = some []
to_digits (c ∷ cs) =
    let rest = to_digits cs in
    if leb 48 c && leb c 57
    then elim rest [ none ↦ none | some ds ↦ some ((c - 48) ∷ ds) ]
    else none

-- `sum(d * w for d, w in zip(digits, weights))`
unfoldable pub weighted_sum : List ℕ → List ℕ → ℕ
weighted_sum (d ∷ ds) (w ∷ ws) = d * w + weighted_sum ds ws
weighted_sum ds ws = 0

unfoldable pub check_digit : ℕ → ℕ
check_digit total = let r = total % 11 in if leb r 1 then 0 else 11 - r

-- The check of nine digits.
unfoldable pub digits_valid : List ℕ → Option Bool
unfolding weighted_sum check_digit
digits_valid (a ∷ b ∷ c ∷ d ∷ e ∷ f ∷ g ∷ h ∷ last ∷ []) =
    some (eqb (check_digit (weighted_sum (a ∷ b ∷ c ∷ d ∷ e ∷ f ∷ g ∷ h ∷ []) weights)) last)
digits_valid ds = none

unfoldable pub pt_nif_is_valid : Option String → Option Bool
unfolding lstrip rstrip drop_country to_digits digits_valid
pt_nif_is_valid none = none
pt_nif_is_valid (some value) =
    elim (to_digits (drop_country (rstrip (lstrip (code_points value))))) [
      | none ↦ none
      | some ds ↦ digits_valid ds
    ]
