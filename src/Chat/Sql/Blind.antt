-- ===== src/Chat/Sql/Blind.antt =====
-- What the check of SQL does not see.
use erp_agent.Prelude.{Bool, true, false, none, [], ◌∷◌, ◌++◌, eqb, ◌≡◌, refl, ap, ◌∙◌, arith}
use erp_agent.Bills.TaxId.{code_points, lstrip, rstrip}
use erp_agent.Chat.Sql.{
  Text, opens, Place, outside, strip_blocks, strip_lines, normalise, strip_string_literals, tokens,
  has_code, validate_normalised, validate_sql, is_unwrapped, statement_of, sent_as, to_execute,
}

-- A text with no slash has no block comment.
strip_blocks_none : (s : Text) → has_code 47 s ≡ false → strip_blocks outside s ≡ s
unfolding strip_blocks
strip_blocks_none [] h = refl
strip_blocks_none (c ∷ s) h =
    by_code (opens c s) (ground arith) (strip_blocks_none s (ground arith))
  where
    by_code :
        (b : Bool)
        → b ≡ false
        → strip_blocks outside s ≡ s
        → elim b [ true ↦ 32 ∷ strip_blocks Place.opening s | false ↦ c ∷ strip_blocks outside s ]
          ≡ c ∷ s
    by_code true e ih = cc
    by_code false e ih = ap (λ (rest : Text). c ∷ rest) ih

-- A line comment takes the rest of a text of one line.
strip_lines_all : (s : Text) → has_code 10 s ≡ false → strip_lines true s ≡ []
unfolding strip_lines
strip_lines_all [] h = refl
strip_lines_all (c ∷ s) h = by_code (eqb c 10) (ground arith) (strip_lines_all s (ground arith))
  where
    by_code :
        (b : Bool)
        → b ≡ false
        → strip_lines true s ≡ []
        → elim b [ true ↦ c ∷ strip_lines false s | false ↦ strip_lines true s ] ≡ []
    by_code true e ih = cc
    by_code false e ih = ih

-- A query that orders by a literal which starts with two dashes.
abbrev pub dashes : Text
dashes = code_points "SELECT 1 ORDER BY '--"

abbrev seen : Text
seen = code_points "SELECT 1 ORDER BY '"

normalise-dashes :
    (w : Text) → has_code 47 w ≡ false → has_code 10 w ≡ false → normalise (dashes ++ w) ≡ seen
unfolding normalise strip_blocks strip_lines lstrip rstrip
normalise-dashes w h k =
    ap (λ (t : Text). rstrip (lstrip (strip_lines false (dashes ++ t)))) (strip_blocks_none w h)
    ∙ ap (λ (t : Text). rstrip (lstrip (seen ++ 32 ∷ t))) (strip_lines_all w k)

seen_accepted : validate_normalised seen ≡ none
unfolding strip_string_literals tokens
seen_accepted = refl

seen_unwrapped : is_unwrapped seen ≡ true
unfolding tokens
seen_unwrapped = refl

-- A text of one line that starts with SELECT 1 ORDER BY '-- and has no slash behind that passes the check,
-- whatever else follows, a second statement too, and it is sent as it stands, less spaces and semicolons at
-- its end: comments are taken off before quoted texts are seen.
pub validate_sql_blind :
    (w : Text)
    → has_code 47 w ≡ false
    → has_code 10 w ≡ false
    → (validate_sql (dashes ++ w) ≡ none) × (to_execute (dashes ++ w) ≡ statement_of (dashes ++ w))
unfolding validate_sql to_execute
validate_sql_blind w h k = (
  ap validate_normalised (normalise-dashes w h k) ∙ seen_accepted,
  ap (λ (t : Text). sent_as (dashes ++ w) (is_unwrapped t)) (normalise-dashes w h k)
      ∙ ap (λ (b : Bool). sent_as (dashes ++ w) b) seen_unwrapped,
)
