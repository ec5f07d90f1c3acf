-- ===== src/Payroll/Errors.antt =====
-- logic/payroll/errors.py: the errors that the engine raises, each with the data its message shows.
use erp_agent.Prelude.{String, List}

pub data PayrollError : Type 0 where
  -- RuleLoadError
  yaml_file_not_found : String → PayrollError
  yaml_float_literal : String → PayrollError
  yaml_parse_error : String → PayrollError
  yaml_schema_invalid : String → PayrollError
  -- RuleValidationError
  locked_component_override : String → PayrollError
  cyclic_dependency : List String → PayrollError
  unresolved_dependency : (component : String) (dep : String) → PayrollError
  unknown_primitive : String → PayrollError
  parameter_schema_invalid : String → PayrollError
  -- MissingInput
  tsu_missing_base_component : String → PayrollError
  employee_not_found : String → PayrollError
  contract_not_found : String → PayrollError
  period_not_found : String → PayrollError
  time_input_not_found : (period : String) (employee : String) → PayrollError
  -- Python's own: `KeyError`, pydantic's `ValidationError`, `ValueError`
  key_error : String → PayrollError
  validation_error : String → PayrollError
  value_error : PayrollError
  -- the fuel of a recursion ran out; shown not to happen
  recursion_error : PayrollError
