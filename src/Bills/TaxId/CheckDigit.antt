-- ===== src/Bills/TaxId/CheckDigit.antt =====
-- The check digit detects a wrong digit.
use erp_agent.Prelude.{
  ℕ, zero, suc, ◌%◌, ◌≤◌, ◌<◌, ◌≡◌, ◌≢◌, ap, arith, true, false, some, List, [], ◌∷◌, eqb,
}
use erp_agent.Bills.TaxId.{check_digit, digits_valid, weighted_sum}

abbrev pub set_at : ℕ → ℕ → List ℕ → List ℕ
set_at i x [] = []
set_at zero x (d ∷ ds) = x ∷ ds
set_at (suc i) x (d ∷ ds) = d ∷ set_at i x ds

abbrev pub digit_at : ℕ → List ℕ → ℕ
digit_at i [] = 0
digit_at zero (d ∷ ds) = d
digit_at (suc i) (d ∷ ds) = digit_at i ds

-- Sums that differ modulo 11 have different check digits, unless both are 0.
detected :
    (t u last : ℕ)
    → some (eqb (check_digit t) last) ≡ some true
    → last ≢ 0
    → t % 11 ≢ u % 11
    → some (eqb (check_digit u) last) ≡ some false
unfolding check_digit
detected t u last valid nonzero apart = ap some (ground (arith, valid, nonzero, apart))

-- In a number whose check digit is right and not 0, any one of the first eight digits that is misread as
-- another digit makes the check fail.
pub digits_valid-misread :
    (a b c d e f g h last i x : ℕ)
    → a ≤ 9
    → b ≤ 9
    → c ≤ 9
    → d ≤ 9
    → e ≤ 9
    → f ≤ 9
    → g ≤ 9
    → h ≤ 9
    → i < 8
    → x ≤ 9
    → digit_at i (a ∷ b ∷ c ∷ d ∷ e ∷ f ∷ g ∷ h ∷ []) ≢ x
    → digits_valid (a ∷ b ∷ c ∷ d ∷ e ∷ f ∷ g ∷ h ∷ last ∷ []) ≡ some true
    → last ≢ 0
    → digits_valid (set_at i x (a ∷ b ∷ c ∷ d ∷ e ∷ f ∷ g ∷ h ∷ last ∷ [])) ≡ some false
unfolding digits_valid weighted_sum
digits_valid-misread a b c d e f g h last zero x ha hb hc hd he hf hg hh low hx n valid nonzero =
    detected _ _ last valid nonzero (omega (arith, n, ha, hx))
digits_valid-misread a b c d e f g h last (suc zero) x ha hb hc hd he hf hg hh low hx n valid
      nonzero =
    detected _ _ last valid nonzero (omega (arith, n, hb, hx))
digits_valid-misread a b c d e f g h last (suc (suc zero)) x ha hb hc hd he hf hg hh low hx n valid
      nonzero =
    detected _ _ last valid nonzero (omega (arith, n, hc, hx))
digits_valid-misread a b c d e f g h last (suc (suc (suc zero))) x ha hb hc hd he hf hg hh low hx n
      valid nonzero =
    detected _ _ last valid nonzero (omega (arith, n, hd, hx))
digits_valid-misread a b c d e f g h last (suc (suc (suc (suc zero)))) x ha hb hc hd he hf hg hh low
      hx n valid nonzero =
    detected _ _ last valid nonzero (omega (arith, n, he, hx))
digits_valid-misread a b c d e f g h last (suc (suc (suc (suc (suc zero))))) x ha hb hc hd he hf hg
      hh low hx n valid nonzero =
    detected _ _ last valid nonzero (omega (arith, n, hf, hx))
digits_valid-misread a b c d e f g h last (suc (suc (suc (suc (suc (suc zero)))))) x ha hb hc hd he
      hf hg hh low hx n valid nonzero =
    detected _ _ last valid nonzero (omega (arith, n, hg, hx))
digits_valid-misread a b c d e f g h last (suc (suc (suc (suc (suc (suc (suc zero))))))) x ha hb hc
      hd he hf hg hh low hx n valid nonzero =
    detected _ _ last valid nonzero (omega (arith, n, hh, hx))
digits_valid-misread a b c d e f g h last (suc (suc (suc (suc (suc (suc (suc (suc i)))))))) x ha hb
      hc hd he hf hg hh low hx n valid nonzero =
    ground (arith, low)
