-- ===== src/Lib.antt =====
-- ERP agent: the calculation core of a payroll engine, the ingestion of purchase bills, a chat over the
-- database, and confirmed changes of registered entities. The parts share only the chat's store of
-- conversations. Below a module of code stand modules that state and prove what it promises, named for
-- that.
--
-- Prelude: tests on numbers and texts, lists, dicts in insertion order (Prelude/Dicts), results of code
-- that raises (Prelude/Results), methods with state (Prelude/Exec), integers (Prelude/Int).
-- Decimal: `decimal.Decimal` as a coefficient and a scale; sums and products are exact, the 28 digits
-- of the context, above which Python rounds and `quantize` raises, are not modelled. Decimal/Rounding: what `quantize` promises.
--
-- Payroll (logic/payroll). Rules are declared in layers of YAML documents, merged into one stack, checked
-- and ordered into a plan, and the plan is run into a payslip with an audit trail.
--   Payroll/Errors        errors.py
--   Payroll/Rounding      rounding.py (RoundingPolicy.apply)
--   Payroll/Schemas       public/schemas (identity.py, period.py, output.py)
--   Payroll/Rules         rules/models.py; `dict[str, Any]` as values without floating point
--   Payroll/Rules/Loader  rules/loader.py; the file system, the YAML parser and the schema check are the
--                         fields of `Files`, and the cache is the state
--   Payroll/Rules/Resolver, Payroll/Rules/Snapshot
--                         rules/resolver.py (_merge_component, RuleResolver.resolve)
--   Payroll/Rules/Sort    rules/plan.py (_topological_sort). Python's recursion is recursion on fuel: one
--                         more than the number of codes, which is enough because the stack of the search
--                         never holds a code twice
--   Payroll/Rules/Plan    rules/plan.py (CalculationPlanBuilder.build)
--   Payroll/Primitives    primitives/base.py, basesalary.py, tsu.py; a primitive's parameter schema is a
--                         test, and reading and printing a Decimal are parameters
--   Payroll/Engine        engine/audit.py and engine/executor.py; the clock is the sequence of its readings
--   Payroll/Tests         a small stack run through all of it
--   Payroll/Sql           db/models.py; the database is its tables' rows, and a column's type says what it keeps
--                         of a value; keys are compared exactly, a database's collation is not modelled
--   Payroll/Sql/Repositories
--                         db/repositories/sqlserver.py, a module per repository; the JSON of pydantic is a codec
--   Payroll/Sql/Memory    db/repositories/memory.py (InMemoryPayslipRepository), and the same upserts run on
--                         either kind of repositories
--   Payroll/Runs          models.py, calculator.py, validator.py: the older payroll run; its numbers are
--                         abstract floating point numbers
--   Payroll/Runs/Tables   db/repositories/payroll_runs.py, employees.py and audit.py; the tables that they name
--                         are not in db/models.py, so a row is what is written into it
--   Payroll/Runs/Workflow engine.py, each request in a session of db/database.py (get_db)
--   Payroll/Runs/History  requests one after the other (none at once), and the counts of the audit log
--   Payroll/Service       public/service.py, public/schemas/requests.py and db/repositories/memory.py; the
--                         state is what the repositories and the loader hold
--
-- Bills (logic/bills). A bill is matched against the database, reviewed, staged into a write plan and
-- committed in one transaction.
--   Bills/Rules           rules/models.py
--   Bills/Models          models.py
--   Bills/TaxId           tax_id.py; a text is read as its code points
--   Bills/Qr              extract/at_qr.py (parse from the split fields, merge)
--   Bills/Extract         extract/media.py, extract/image.py and service.py (_extract); what Pillow, the language
--                         model and the QR decoder do are parameters
--   Bills/Matching        matching.py; the database answers three kinds of query
--   Bills/Fields          service.py (_build_header, _build_line)
--   Bills/Service         service.py (upload, stage, _rematch, commit) and pending.py
--   Bills/Executor        write_executor.py; the database is its tables' rows
--   Bills/Tests           a bill of one line
--
-- Chat (logic/chat).
--   Chat/Transcript       history.py (_cap_to_turn_boundary, _sanitize_transcript)
--   Chat/History          history.py (HistoryStore) as two tables
--   Chat/Compress         service.py (_compress_past_turns_for_claude and what it calls)
--   Chat/Turn             service.py (stream_turn, _emit_envelope, _write_turn_summary); the loop has no bound in
--                         the source, so it runs on the number of calls of the model that are allowed, and
--                         `k + 1` are enough where the model asks for no more queries after `k` messages
--   Chat/Sql              sql_executor.py (validate_sql, _wrap, run_query); a text is its code points
--   Chat/Reports          report_store.py
--   Chat/Tests, Chat/Turn/Tests, Chat/Sql/Tests
--                         a short conversation, a turn of a model, and short queries
--
-- Dev-care (logic/devcare). A change of a registered entity is validated and staged in a conversation, and
-- written when the operator confirms it.
--   DevCare/Rules         rules/models.py, rules/loader.py, errors.py
--   DevCare/Validator     validator.py; the database answers queries
--   DevCare/Forms         form_builder.py
--   DevCare/Writes        write_executor.py; the database is its tables' rows
--   DevCare/Pending       pending.py, audit_writer.py
--   DevCare/Service       service.py (stage_change, commit_change), and the service over time as steps
--   DevCare/Service/Turn  service.py (stream_turn, _handle_tool); the loop runs on the calls of the model that are
--                         left, 11 at first, since it stops after 10 rounds of tools
--   DevCare/Tests         an entity with one field
--
-- All recursion is structural but that of the sort, of the loops that call a model, and of the removal of
-- quoted texts in Chat/Sql, which runs on the length of the text: each step takes one character off at
-- least.
--
-- Not modelled: pydantic's coercions other than the bounds that are written out; message texts, error
-- hints, the cost of a call and the drawing up of titles; the search for JSON in a reply; HTTP
-- applications, the calls of language models, connections and migrations, what a SQL session keeps of the
-- objects that it has read, OCR, the payroll conversation and the browser code. The older payroll run
-- (logic/payroll/engine.py) is modelled although the package of the same name hides it from its importers.
pub mod Prelude
pub mod Decimal
pub mod Payroll
pub mod Bills
pub mod Chat
pub mod DevCare
