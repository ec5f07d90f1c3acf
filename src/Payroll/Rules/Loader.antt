-- ===== src/Payroll/Rules/Loader.antt =====
-- logic/payroll/rules/loader.py: `RuleLoader`, which reads each document once. The file system, the
-- YAML parser and the schema check are parameters.
pub mod Caching
use erp_agent.Prelude.{String, Option, none, some, [], Dict, lookup, insert}
use erp_agent.Prelude.Exec.{Exec, pure, raise, modify, ◌>>=◌, ◌>>◌}
use erp_agent.Payroll.Errors.{
  PayrollError, yaml_file_not_found, yaml_float_literal, yaml_parse_error, yaml_schema_invalid,
}
use erp_agent.Payroll.Rules.{Value, RuleDocument}

-- What `yaml.load` with `NoFloatYamlLoader` does with a text.
pub data YamlOutcome : Type 0 where
  loaded : Value → YamlOutcome
  float_literal : YamlOutcome
  parse_error : YamlOutcome

pub record Files : Type 0 where
  pub resolve_path : String → String
  pub read_text : String → Option String
  pub load_yaml : String → YamlOutcome
  pub model_validate : Value → Option RuleDocument

abbrev pub Cache : Type 0
Cache = Dict RuleDocument

abbrev pub Loading : Type 0 → Type 0
Loading A = Exec PayrollError Cache A

module _ (files : Files) where
  -- The schema check, and the write to the cache.
  unfoldable pub keep_document : String → Option RuleDocument → Loading RuleDocument
  keep_document path none = raise (yaml_schema_invalid path)
  keep_document path (some doc) = do modify (insert path doc); pure doc

  unfoldable pub check_yaml : String → YamlOutcome → Loading RuleDocument
  unfolding keep_document
  check_yaml path (loaded raw) = keep_document path (files.model_validate raw)
  check_yaml path float_literal = raise (yaml_float_literal path)
  check_yaml path parse_error = raise (yaml_parse_error path)

  unfoldable pub read_document : String → Option String → Loading RuleDocument
  unfolding check_yaml
  read_document path none = raise (yaml_file_not_found path)
  read_document path (some content) = check_yaml path (files.load_yaml content)

  unfoldable pub cached_or_read : String → Option RuleDocument → Loading RuleDocument
  unfolding read_document
  cached_or_read path (some doc) = pure doc
  cached_or_read path none = read_document path (files.read_text path)

  unfoldable pub load_document : String → Loading RuleDocument
  unfolding cached_or_read
  load_document path cache =
      let p = files.resolve_path path in cached_or_read p (lookup p cache) cache

unfoldable pub reload : Loading (Unit {0})
reload = modify (λ _. [])
