-- ===== src/Chat/Sql.antt =====
-- logic/chat/sql_executor.py: which SQL is let through, and what is sent. A text is its code points; letters,
-- digits and spaces are those of ASCII. The database, the clock and the hints added to an error are parameters.
pub mod Blind
pub mod Capped
mod Tests
use erp_agent.Prelude.{
  ℕ, zero, suc, ◌-◌, leb, ltb, eqb, String, Bool, true, false, not, ◌&&◌, ◌||◌, Option, none, some,
  List, [], ◌∷◌, ◌++◌, if◌then◌else◌, length, is_empty, Result, ok, err,
}
use erp_agent.Bills.TaxId.{code_points, lstrip, rstrip, is_space}

abbrev pub Text : Type 0
Text = List ℕ

abbrev pub head_is : ℕ → Text → Bool
head_is c [] = false
head_is c (d ∷ s) = eqb c d

abbrev pub tail : Text → Text
tail [] = []
tail (c ∷ s) = s

-- Whether a block comment is closed somewhere.
abbrev pub closes : Text → Bool
closes [] = false
closes (c ∷ s) = (eqb c 42 && head_is 47 s) || closes s

pub data Place : Type 0 where
  outside opening inside closing : Place

abbrev pub opens : ℕ → Text → Bool
opens c s = eqb c 47 && (head_is 42 s && closes (tail s))

-- `_BLOCK_COMMENT.sub(" ", sql)`
unfoldable pub strip_blocks : Place → Text → Text
strip_blocks place [] = []
strip_blocks outside (c ∷ s) = elim (opens c s) [
  | true ↦ 32 ∷ strip_blocks opening s
  | false ↦ c ∷ strip_blocks outside s
]
strip_blocks opening (c ∷ s) = strip_blocks inside s
strip_blocks inside (c ∷ s) = elim (eqb c 42 && head_is 47 s) [
  | true ↦ strip_blocks closing s
  | false ↦ strip_blocks inside s
]
strip_blocks closing (c ∷ s) = strip_blocks outside s

-- `_LINE_COMMENT.sub(" ", s)`, outside or inside a comment
unfoldable pub strip_lines : Bool → Text → Text
strip_lines in_comment [] = []
strip_lines false (c ∷ s) = elim (eqb c 45 && head_is 45 s) [
  | true ↦ 32 ∷ strip_lines true s
  | false ↦ c ∷ strip_lines false s
]
strip_lines true (c ∷ s) = elim (eqb c 10) [
  | true ↦ c ∷ strip_lines false s
  | false ↦ strip_lines true s
]

unfoldable pub normalise : Text → Text
unfolding strip_blocks strip_lines lstrip rstrip
normalise sql = rstrip (lstrip (strip_lines false (strip_blocks outside sql)))

-- What follows a quoted text; a quote that is doubled belongs to it where a later quote closes it.
abbrev pub after_quoted : ℕ → (at_quote : Bool) → Text → Option Text
after_quoted q false [] = none
after_quoted q true [] = some []
after_quoted q false (c ∷ s) = after_quoted q (eqb c q) s
after_quoted q true (c ∷ s) = elim (eqb c q) [
  | true ↦ elim (after_quoted q false s) [ none ↦ some (c ∷ s) | some r ↦ some r ]
  | false ↦ some (c ∷ s)
]

abbrev pub is_quote : ℕ → Bool
is_quote c = eqb c 39 || eqb c 34

abbrev pub quoted_rest : ℕ → Text → Option Text
quoted_rest c s = elim (is_quote c) [ true ↦ after_quoted c false s | false ↦ none ]

-- On fuel; the length of the text is enough.
unfoldable pub strip_literals : ℕ → Text → Text
strip_literals zero s = s
strip_literals (suc n) [] = []
strip_literals (suc n) (c ∷ s) = elim (quoted_rest c s) [
  | some r ↦ strip_literals n r
  | none ↦ c ∷ strip_literals n s
]

unfoldable pub strip_string_literals : Text → Text
unfolding strip_literals
strip_string_literals s = strip_literals (length s) s

-- `s.rstrip(";")`
abbrev pub rstrip_semicolons : Text → Text
rstrip_semicolons [] = []
rstrip_semicolons (c ∷ s) = elim (rstrip_semicolons s) [
  | [] ↦ if eqb c 59 then [] else c ∷ []
  | d ∷ ds ↦ c ∷ (d ∷ ds)
]

abbrev pub has_code : ℕ → Text → Bool
has_code c [] = false
has_code c (d ∷ s) = eqb c d || has_code c s

abbrev pub to_upper : ℕ → ℕ
to_upper c = if leb 97 c && leb c 122 then c - 32 else c

abbrev pub is_word_code : ℕ → Bool
is_word_code c =
    (leb 48 c && leb c 57) || ((leb 65 c && leb c 90) || ((leb 97 c && leb c 122) || eqb c 95))

-- A text as its words, in capitals, and the gaps between them, which are spaces only or not.
pub data Token : Type 0 where
  word : Text → Token
  gap : (blank : Bool) → Token

abbrev pub add_code : ℕ → List Token → List Token
add_code c (word w ∷ ts) =
    if is_word_code c then word (to_upper c ∷ w) ∷ ts else gap (is_space c) ∷ (word w ∷ ts)
add_code c (gap blank ∷ ts) =
    if is_word_code c
    then word (to_upper c ∷ []) ∷ (gap blank ∷ ts)
    else gap (is_space c && blank) ∷ ts
add_code c [] = if is_word_code c then word (to_upper c ∷ []) ∷ [] else gap (is_space c) ∷ []

unfoldable pub tokens : Text → List Token
tokens [] = []
tokens (c ∷ s) = add_code c (tokens s)

abbrev pub same_text : Text → Text → Bool
same_text [] [] = true
same_text (c ∷ s) (d ∷ t) = eqb c d && same_text s t
same_text s t = false

abbrev pub starts : Text → Text → Bool
starts [] t = true
starts (c ∷ s) [] = false
starts (c ∷ s) (d ∷ t) = eqb c d && starts s t

abbrev pub is_one_of : List String → Text → Bool
is_one_of [] w = false
is_one_of (k ∷ ks) w = same_text (code_points k) w || is_one_of ks w

-- `_FORBIDDEN`
abbrev pub forbidden_words : List String
forbidden_words =
    "INSERT" ∷ "UPDATE" ∷ "DELETE" ∷ "MERGE" ∷ "DROP" ∷ "ALTER" ∷ "TRUNCATE" ∷ "CREATE" ∷ "GRANT"
    ∷ "REVOKE" ∷ "EXEC" ∷ "EXECUTE" ∷ "INTO" ∷ []

abbrev pub is_forbidden : Text → Bool
is_forbidden w =
    is_one_of forbidden_words w || (starts (code_points "XP_") w || starts (code_points "SP_") w)

abbrev pub first_forbidden : List Token → Option Text
first_forbidden [] = none
first_forbidden (gap blank ∷ ts) = first_forbidden ts
first_forbidden (word w ∷ ts) =
    let rest = first_forbidden ts in if is_forbidden w then some w else rest

abbrev pub starts_with_word : List String → List Token → Bool
starts_with_word ks (word w ∷ ts) = is_one_of ks w
starts_with_word ks ts = false

pub data Rejection : Type 0 where
  empty_sql : Rejection
  many_statements : Rejection
  not_a_select : Rejection
  forbidden_keyword : Text → Rejection

abbrev pub check_forbidden : Option Text → Option Rejection
check_forbidden none = none
check_forbidden (some w) = some (forbidden_keyword w)

abbrev pub validate_normalised : Text → Option Rejection
validate_normalised normalised =
    if is_empty normalised
    then some empty_sql
    else if has_code 59 (rstrip_semicolons (strip_string_literals normalised))
    then some many_statements
    else if not (starts_with_word ("SELECT" ∷ "WITH" ∷ []) (tokens normalised))
    then some not_a_select
    else check_forbidden (first_forbidden (tokens normalised))

unfoldable pub validate_sql : Text → Option Rejection
unfolding normalise strip_string_literals tokens
validate_sql sql = validate_normalised (normalise sql)

-- `\bORDER\s+BY\b`
abbrev pub has_order_by : List Token → Bool
has_order_by [] = false
has_order_by (gap blank ∷ ts) = has_order_by ts
has_order_by (word w ∷ ts) = (is_one_of ("ORDER" ∷ []) w && by_follows ts) || has_order_by ts
  where
    by_follows : List Token → Bool
    by_follows (gap true ∷ (word v ∷ us)) = is_one_of ("BY" ∷ []) v
    by_follows us = false

-- Whether the query is sent as it stands.
abbrev pub is_unwrapped : Text → Bool
is_unwrapped normalised =
    starts_with_word ("WITH" ∷ []) (tokens normalised) || has_order_by (tokens normalised)

abbrev pub row_cap : ℕ
row_cap = 1000

abbrev pub statement_of : Text → Text
statement_of sql = rstrip_semicolons (rstrip sql)

-- `_wrap`, and what is sent instead where it gives nothing
abbrev pub sent_as : Text → (unwrapped : Bool) → Text
sent_as sql true = statement_of sql
sent_as sql false =
    code_points "SELECT TOP (1000) * FROM (\n" ++ (statement_of sql ++ code_points "\n) AS _capped")

unfoldable pub to_execute : Text → Text
unfolding normalise tokens rstrip
to_execute sql = sent_as sql (is_unwrapped (normalise sql))

pub data DbFailure : Type 0 where
  timeout : DbFailure
  db_error : (message : String) → DbFailure

-- `execute` runs a statement, and `enrich` adds hints to the message of an error and cuts it.
pub record Session : Type 0 where
  pub execute : Text → Result DbFailure (List String × List String)
  pub enrich : Text → String → String
  pub duration_ms : Text → ℕ

pub record QueryResult : Type 0 where
  pub columns : List String
  pub rows : List String
  pub row_count : ℕ
  pub truncated : Bool
  pub duration_ms : ℕ

pub data QueryOutcome : Type 0 where
  rejected : Rejection → QueryOutcome
  failed : DbFailure → QueryOutcome
  answered : QueryResult → QueryOutcome

abbrev pub take : ℕ → List String → List String
take zero rows = []
take (suc n) [] = []
take (suc n) (row ∷ rows) = row ∷ take n rows

module _ (session : Session) where
  -- The row cap of a query that was sent as it stands is kept here; else the statement has it.
  abbrev pub capped : Text → (unwrapped : Bool) → List String → List String → QueryResult
  capped sql true columns rows = record {
    columns = columns;
    rows = take row_cap rows;
    row_count = length (take row_cap rows);
    truncated = ltb row_cap (length rows);
    duration_ms = session.duration_ms sql;
  }
  capped sql false columns rows = record {
    columns = columns;
    rows = rows;
    row_count = length rows;
    truncated = leb row_cap (length rows);
    duration_ms = session.duration_ms sql;
  }

  abbrev pub outcome_of :
      Text → (unwrapped : Bool) → Result DbFailure (List String × List String) → QueryOutcome
  outcome_of sql unwrapped (ok (columns, rows)) = answered (capped sql unwrapped columns rows)
  outcome_of sql unwrapped (err timeout) = failed timeout
  outcome_of sql unwrapped (err (db_error message)) = failed (db_error (session.enrich sql message))

  abbrev pub run_valid : Text → Option Rejection → QueryOutcome
  run_valid sql (some r) = rejected r
  run_valid sql none =
      outcome_of sql (is_unwrapped (normalise sql)) (session.execute (to_execute sql))

  unfoldable pub run_query : Text → QueryOutcome
  unfolding validate_sql to_execute
  run_query sql = run_valid sql (validate_sql sql)
