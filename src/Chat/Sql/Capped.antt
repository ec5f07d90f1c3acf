-- ===== src/Chat/Sql/Capped.antt =====
-- What a query answers.
use erp_agent.Prelude.{
  ℕ, zero, suc, String, Bool, true, false, Option, none, some, List, [], ◌∷◌, ◌++◌, ltb, leb,
  Result, ok, err, length, ◌≤◌, ◌<◌, ◌≡◌, refl, ap, arith,
}
use erp_agent.Bills.TaxId.{code_points}
use erp_agent.Chat.Sql.{
  statement_of, Text, Rejection, validate_sql, normalise, is_unwrapped, sent_as, to_execute,
  DbFailure, timeout, db_error, Session, QueryResult, QueryOutcome, rejected, failed, answered,
  take, row_cap, capped, outcome_of, run_valid, run_query,
}

-- A statement that is let through is sent once, and what comes of it is an answer or a failure.
pub data IsAnswered (session : Session) (sql : Text) (outcome : QueryOutcome) : Type 0 where
  not_sent :
      (r : Rejection)
      → validate_sql sql ≡ some r
      → outcome ≡ rejected r
      → IsAnswered session sql outcome
  not_answered :
      (e e' : DbFailure)
      → validate_sql sql ≡ none
      → session.execute (to_execute sql) ≡ err e
      → outcome ≡ failed e'
      → IsAnswered session sql outcome
  -- sent as it stands: the rows are cut here
  cut_here :
      (columns rows : List String) (result : QueryResult)
      → validate_sql sql ≡ none
      → is_unwrapped (normalise sql) ≡ true
      → session.execute (statement_of sql) ≡ ok (columns, rows)
      → outcome ≡ answered result
      → result.columns ≡ columns
      → (rest : List String) × (rows ≡ result.rows ++ rest)
        × (result.truncated ≡ true → length result.rows ≡ row_cap)
        × (result.truncated ≡ false → rest ≡ [])
      → result.row_count ≡ length result.rows
      → length result.rows ≤ row_cap
      → IsAnswered session sql outcome
  -- sent inside of SELECT TOP (1000) * FROM (...): the rows are those that the database answers
  cut_there :
      (columns rows : List String) (result : QueryResult)
      → validate_sql sql ≡ none
      → is_unwrapped (normalise sql) ≡ false
      → session.execute (
          code_points "SELECT TOP (1000) * FROM (\n"
          ++ (statement_of sql ++ code_points "\n) AS _capped"))
        ≡ ok (columns, rows)
      → outcome ≡ answered result
      → result.columns ≡ columns
      → result.rows ≡ rows
      → result.row_count ≡ length rows
      → (result.truncated ≡ false → length rows < row_cap)
      → (result.truncated ≡ true → row_cap ≤ length rows)
      → IsAnswered session sql outcome

length-take-le : (n : ℕ) (rows : List String) → length (take n rows) ≤ n
length-take-le zero rows = omega arith
length-take-le (suc n) [] = omega arith
length-take-le (suc n) (row ∷ rows) = omega (arith, length-take-le n rows)

-- What `take` leaves: nothing, unless it took all that it may.
take_rest :
    (n : ℕ) (rows : List String)
    → (rest : List String) × (rows ≡ take n rows ++ rest)
      × (n < length rows → length (take n rows) ≡ n)
      × (length rows ≤ n → rest ≡ [])
take_rest zero [] = ([], refl, (λ h. omega (arith, h)), λ h. refl)
take_rest zero (row ∷ rows) = (row ∷ rows, refl, (λ h. refl), λ h. absurd (omega (arith, h)))
take_rest (suc n) [] = ([], refl, (λ h. absurd (omega (arith, h))), λ h. refl)
take_rest (suc n) (row ∷ rows) =
    let (rest, e, full, whole) = take_rest n rows in
    (
      rest,
      ap (λ rs. row ∷ rs) e,
      (λ h. ap suc (full (omega (arith, h)))),
      λ h. whole (omega (arith, h)),
    )

ltb-lt : (a b : ℕ) → ltb a b ≡ true → a < b
ltb-lt a b h = ground arith

ltb-ge : (a b : ℕ) → ltb a b ≡ false → b ≤ a
ltb-ge a b h = ground arith

leb-le : (a b : ℕ) → leb a b ≡ true → a ≤ b
leb-le a b h = ground arith

leb-gt : (a b : ℕ) → leb a b ≡ false → b < a
leb-gt a b h = ground arith

module _ (session : Session) (sql : Text) (valid : validate_sql sql ≡ none) where
  outcome-IsAnswered :
      (b : Bool) (r : Result DbFailure (List String × List String))
      → is_unwrapped (normalise sql) ≡ b
      → session.execute (sent_as sql b) ≡ r
      → session.execute (to_execute sql) ≡ r
      → IsAnswered session sql (outcome_of session sql b r)
  outcome-IsAnswered b (err timeout) u s e = not_answered timeout timeout valid e refl
  outcome-IsAnswered b (err (db_error message)) u s e =
      not_answered (db_error message) (db_error (session.enrich sql message)) valid e refl
  outcome-IsAnswered true (ok (columns, rows)) u s e =
      let (rest, split, full, whole) = take_rest row_cap rows in
      cut_here columns rows (capped session sql true columns rows) valid u s refl refl
        (
          rest,
          split,
          (λ h. full (ltb-lt row_cap (length rows) h)),
          λ h. whole (ltb-ge row_cap (length rows) h),
        )
        refl (length-take-le row_cap rows)
  outcome-IsAnswered false (ok (columns, rows)) u s e =
      cut_there columns rows (capped session sql false columns rows) valid u s refl refl refl refl
        (leb-gt row_cap (length rows)) (leb-le row_cap (length rows))

run_valid-IsAnswered :
    (session : Session) (sql : Text) (o : Option Rejection)
    → validate_sql sql ≡ o
    → IsAnswered session sql (run_valid session sql o)
unfolding to_execute
run_valid-IsAnswered session sql (some r) e = not_sent r e refl
run_valid-IsAnswered session sql none e =
    outcome-IsAnswered session sql e (is_unwrapped (normalise sql))
      (session.execute (to_execute sql)) refl refl refl

-- A query that does not pass the check is not sent. One that passes ends in a failure if the database fails.
-- If it was sent as it stands, it answers with at most the first 1000 of the rows, counted, with all of them
-- where the answer is not marked as truncated, and with exactly 1000 where it is. If it was sent inside of
-- SELECT TOP (1000), it answers with the database's rows, counted, whose number is below 1000 exactly where
-- the answer is not marked as truncated.
pub run_query-IsAnswered :
    (session : Session) (sql : Text) → IsAnswered session sql (run_query session sql)
unfolding run_query
run_query-IsAnswered session sql = run_valid-IsAnswered session sql (validate_sql sql) refl
