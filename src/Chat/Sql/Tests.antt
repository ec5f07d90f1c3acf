-- ===== src/Chat/Sql/Tests.antt =====
-- Queries that are let through and queries that are not.
use erp_agent.Prelude.{none, some, [], ◌∷◌, ◌++◌, ok, ◌≡◌, refl}
use erp_agent.Bills.TaxId.{code_points}
use erp_agent.Chat.Sql.{
  Text, many_statements, forbidden_keyword, not_a_select, validate_sql, statement_of, to_execute,
  Session, run_query,
}
use erp_agent.Chat.Sql.Blind.{dashes, validate_sql_blind}
use erp_agent.Chat.Sql.Capped.{IsAnswered, run_query-IsAnswered}

two_statements_test : validate_sql (code_points "SELECT 1; DROP TABLE x") ≡ some many_statements
unfolding validate_sql
two_statements_test = refl

drop_test :
    validate_sql (code_points "WITH a AS (SELECT 1) drop table x")
    ≡ some (forbidden_keyword (code_points "DROP"))
unfolding validate_sql
drop_test = refl

comment_test : validate_sql (code_points "/* x */ DELETE FROM x") ≡ some not_a_select
unfolding validate_sql
comment_test = refl

literal_test : validate_sql (code_points "SELECT 'it''s; fine' FROM x;") ≡ none
unfolding validate_sql
literal_test = refl

wrapped_test :
    to_execute (code_points "SELECT a FROM x;")
    ≡ code_points "SELECT TOP (1000) * FROM (\nSELECT a FROM x\n) AS _capped"
unfolding to_execute
wrapped_test = refl

abbrev hidden : Text
hidden = code_points "'; DROP TABLE Artigos"

validate_sql_blind_example :
    (validate_sql (dashes ++ hidden) ≡ none)
    × (to_execute (dashes ++ hidden) ≡ statement_of (dashes ++ hidden))
validate_sql_blind_example = validate_sql_blind hidden refl refl

abbrev one_row : Session
one_row = record {
  execute = λ sql. ok ("n" ∷ [], "1" ∷ []);
  enrich = λ sql m. m;
  duration_ms = λ sql. 2;
}

run_query-IsAnswered_example :
    IsAnswered one_row (code_points "SELECT 1") (run_query one_row (code_points "SELECT 1"))
run_query-IsAnswered_example = run_query-IsAnswered one_row (code_points "SELECT 1")
