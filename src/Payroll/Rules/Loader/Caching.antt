-- ===== src/Payroll/Rules/Loader/Caching.antt =====
-- What the loader's cache promises.
use erp_agent.Prelude.{
  String, ◌≡◌, refl, ◌∙◌, ◌⊎◌, inl, inr, Option, none, some, lookup, insert, lookup-insert, eq_refl,
  Result, ok, err, Option-cases,
}
use erp_agent.Payroll.Errors.{
  PayrollError, yaml_file_not_found, yaml_float_literal, yaml_parse_error, yaml_schema_invalid,
}
use erp_agent.Payroll.Rules.{RuleDocument}
use erp_agent.Payroll.Rules.Loader.{
  Files, Cache, keep_document, check_yaml, read_document, cached_or_read, load_document,
  YamlOutcome, loaded, float_literal, parse_error,
}

-- A read either fails and leaves the cache alone, or enters the document under its path.
abbrev IsRead : String → Cache → Result PayrollError RuleDocument × Cache → Type 0
IsRead path cache out =
    ((e : PayrollError) × (out ≡ (err e, cache)))
    ⊎ ((doc : RuleDocument) × (out ≡ (ok doc, insert path doc cache)))

module _ (files : Files) (path : String) (cache : Cache) where
  keep_document-IsRead :
      (o : Option RuleDocument) → IsRead path cache (keep_document files path o cache)
  unfolding keep_document
  keep_document-IsRead none = inl (yaml_schema_invalid path, refl)
  keep_document-IsRead (some doc) = inr (doc, refl)

  check_yaml-IsRead : (y : YamlOutcome) → IsRead path cache (check_yaml files path y cache)
  unfolding check_yaml
  check_yaml-IsRead (loaded raw) = keep_document-IsRead (files.model_validate raw)
  check_yaml-IsRead float_literal = inl (yaml_float_literal path, refl)
  check_yaml-IsRead parse_error = inl (yaml_parse_error path, refl)

  read_document-IsRead : (o : Option String) → IsRead path cache (read_document files path o cache)
  unfolding read_document
  read_document-IsRead none = inl (yaml_file_not_found path, refl)
  read_document-IsRead (some content) = check_yaml-IsRead (files.load_yaml content)

  cached_or_read-IsRead :
      lookup path cache ≡ none
      → IsRead path cache (cached_or_read files path (lookup path cache) cache)
  unfolding cached_or_read
  cached_or_read-IsRead miss = rw miss (read_document-IsRead (files.read_text path))

load_document-hit :
    (files : Files) (path : String) (cache : Cache) (doc : RuleDocument)
    → lookup (files.resolve_path path) cache ≡ some doc
    → load_document files path cache ≡ (ok doc, cache)
unfolding load_document
load_document-hit files path cache doc hit = rw hit

-- A document that has been loaded is served from the cache from then on, whatever becomes of the
-- files, until the cache is cleared; a load that fails leaves the cache as it was.
pub load_document-cached :
    (files later : Files) (path : String) (cache : Cache)
    → files.resolve_path path ≡ later.resolve_path path
    → ((e : PayrollError) × (load_document files path cache ≡ (err e, cache)))
      ⊎ ((doc : RuleDocument) × (cache' : Cache) × (load_document files path cache
            ≡ (ok doc, cache'))
          × (load_document later path cache' ≡ (ok doc, cache')))
unfolding load_document
load_document-cached files later path cache same =
    let p = files.resolve_path path in
    elim (Option-cases (lookup p cache)) [
      | inl miss ↦ elim (cached_or_read-IsRead files p cache miss) [
        | inl failed ↦ inl failed
        | inr (doc, read) ↦ inr (
          doc,
          insert p doc cache,
          read,
          load_document-hit later path (insert p doc cache) doc
              (rw (← same) (lookup-insert p p doc cache ∙ rw (eq_refl p))),
        )
      ]
      | inr (doc, hit) ↦ inr (
        doc,
        cache,
        load_document-hit files path cache doc hit,
        load_document-hit later path cache doc (rw same at hit),
      )
    ]
