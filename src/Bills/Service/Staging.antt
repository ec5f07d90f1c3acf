-- ===== src/Bills/Service/Staging.antt =====
-- What a staged plan promises, and that a plan is committed once.
use mathlib.Core.Path.{subst}
use erp_agent.Prelude.{
  map, ℕ, suc, ◌≡◌, ◌≢◌, refl, ap, ◌⊎◌, inl, inr, arith, String, Bool, true, false, not, none, some,
  List, [], ◌∷◌, ◌++◌, ◌==◌, eqb, eq_refl, length, All, Bool-cases, lookup, insert, erase,
  lookup-insert, lookup-erase, Result, ok, err,
}
use erp_agent.Bills.Rules.{PurchaseInvoiceRule}
use erp_agent.Bills.Models.{BillLine, MatchResult, BillProposal, LinePlan, WritePlan, Warning}
use erp_agent.Bills.TaxId.{pt_nif_is_valid}
use erp_agent.Bills.Matching.{Reader}
use erp_agent.Bills.Fields.{
  Violation, StageError, FieldValue, build_header, build_line, build_lines,
}
use erp_agent.Bills.Executor.{Record}
use erp_agent.Bills.Service.{
  proposal_item, plan_item, Pending, plan_key, StageOutcome, rejected, staged, rematch, is_false,
  is_unconfirmed, is_unpicked, violation_if, gate_lines, gate, keep_plan, stage_proposal, stage,
}

append-nil_left : {A : Type 0} (xs ys : List A) → xs ++ ys ≡ [] → (xs ≡ []) × (ys ≡ [])
append-nil_left [] ys h = (refl, h)
append-nil_left (x ∷ xs) ys h = cc

violation_if-nil : (b : Bool) (v : Violation) → violation_if b v ≡ [] → b ≡ false
violation_if-nil true v h = cc
violation_if-nil false v h = refl

-- The operator's decisions are all there.
abbrev pub IsDecided : MatchResult → Type 0
IsDecided m = (is_unconfirmed m ≡ false) × (is_unpicked m ≡ false)

gate_lines-nil : (i : ℕ) (ms : List MatchResult) → gate_lines i ms ≡ [] → All IsDecided ms
unfolding gate_lines
gate_lines-nil i [] h = tt
gate_lines-nil i (m ∷ ms) h =
    let (a, h') = append-nil_left (violation_if (is_unconfirmed m) _) _ h in
    let (b, c) = append-nil_left (violation_if (is_unpicked m) _) _ h' in
    (
      (violation_if-nil (is_unconfirmed m) _ a, violation_if-nil (is_unpicked m) _ b),
      gate_lines-nil (suc i) ms c,
    )

-- What the gate lets through.
pub record IsPassed (p : BillProposal) : Type 0 where
  pub tax_id : is_false (pt_nif_is_valid p.bill.supplier_tax_id) ≡ false
  pub line_count : length p.bill.lines ≡ length p.line_matches
  pub supplier : IsDecided p.supplier_match
  pub articles : All IsDecided p.line_matches

gate-nil : (p : BillProposal) → gate p ≡ [] → IsPassed p
unfolding gate
gate-nil p h =
    let (a, h1) =
      append-nil_left (violation_if (is_false (pt_nif_is_valid p.bill.supplier_tax_id)) _) _ h in
    let (b, h2) =
      append-nil_left (violation_if (not (eqb (length p.bill.lines) (length p.line_matches))) _) _
        h1 in
    let (c, h3) = append-nil_left (violation_if (is_unconfirmed p.supplier_match) _) _ h2 in
    let (d, e) = append-nil_left (gate_lines 0 p.line_matches) _ h3 in
    let same = violation_if-nil (not (eqb (length p.bill.lines) (length p.line_matches))) _ b in
    record {
      tax_id = violation_if-nil (is_false (pt_nif_is_valid p.bill.supplier_tax_id)) _ a;
      line_count = ground (arith, same);
      supplier = (
        violation_if-nil (is_unconfirmed p.supplier_match) _ c,
        violation_if-nil (is_unpicked p.supplier_match) _ e,
      );
      articles = gate_lines-nil 0 p.line_matches d;
    }

abbrev pub article_of : LinePlan → MatchResult
article_of l = l.article

joined :
    (m : MatchResult) (ms : List MatchResult) (here : Result StageError (Record × List Violation))
    (rest : Result StageError (List LinePlan × List Violation)) (plans : List LinePlan)
    (vs : List Violation)
    → ◌≡◌ {A = Result StageError (List LinePlan × List Violation)}
        (elim here [
          | err e ↦ err e
          | ok (cols, lv) ↦ elim rest [
            | err e ↦ err e
            | ok (ps, ws) ↦ ok (record { article = m; columns = cols } ∷ ps, lv ++ ws)
          ]
        ])
        (ok (plans, vs))
    → ((ps : List LinePlan) (ws : List Violation) → rest ≡ ok (ps, ws) → map article_of ps ≡ ms)
    → map article_of plans ≡ m ∷ ms
joined m ms (err e) rest plans vs k tail = cc
joined m ms (ok here) (err e) plans vs k tail = cc
joined m ms (ok (cols, lv)) (ok (ps, ws)) plans vs k tail =
    let line : LinePlan = record { article = m; columns = cols } in
    let same : line ∷ ps ≡ plans = cc in
    subst (λ x. map article_of x ≡ m ∷ ms) same (ap (λ t. m ∷ t) (tail ps ws refl))

-- The articles of the plan's lines are the reviewed ones, in order.
build_lines-articles :
    (show : FieldValue → String) (rule : PurchaseInvoiceRule) (lines : List BillLine)
    (ms : List MatchResult) (plans : List LinePlan) (vs : List Violation)
    → length lines ≡ length ms
    → build_lines show rule lines ms ≡ ok (plans, vs)
    → map article_of plans ≡ ms
unfolding build_lines
build_lines-articles show rule [] [] plans vs n h = cc
build_lines-articles show rule [] (m ∷ ms) plans vs n h = ground (arith, n)
build_lines-articles show rule (l ∷ ls) [] plans vs n h = ground (arith, n)
build_lines-articles show rule (l ∷ ls) (m ∷ ms) plans vs n h =
    joined m ms (build_line show rule l) (build_lines show rule ls ms) plans vs h
      (λ ps ws r. build_lines-articles show rule ls ms ps ws (omega (arith, n)) r)

-- What a plan that may be committed has: every decision of the operator, on the supplier and on each of the
-- articles, and a tax number that does not fail its check.
pub record IsCommittable (p : BillProposal) (plan : WritePlan) : Type 0 where
  pub tax_id : is_false (pt_nif_is_valid p.bill.supplier_tax_id) ≡ false
  pub supplier : plan.supplier ≡ p.supplier_match
  pub articles : map article_of plan.lines ≡ p.line_matches
  pub line_count : length p.bill.lines ≡ length p.line_matches
  pub supplier_decided : IsDecided plan.supplier
  pub articles_decided : All IsDecided p.line_matches

-- No plan stands under the key.
abbrev pub HasNoPlan : String → Pending → Type 0
HasNoPlan proposal_id pending =
    (plan : WritePlan) → lookup (plan_key proposal_id) pending ≢ some (plan_item plan)

abbrev pub IsStaged : String → BillProposal → Result StageError StageOutcome × Pending → Type 0
IsStaged proposal_id p x =
    (plan : WritePlan) × (warnings : List Warning) × (x.0 ≡ ok (staged plan warnings))
    × (lookup (plan_key proposal_id) x.1 ≡ some (plan_item plan))
    × IsCommittable p plan

abbrev pub IsNotStaged : String → Result StageError StageOutcome × Pending → Type 0
IsNotStaged proposal_id x =
    (((e : StageError) × (x.0 ≡ err e)) ⊎ ((vs : List Violation) × (x.0 ≡ ok (rejected vs))))
    × HasNoPlan proposal_id x.1

lookup_erased : (k : String) (pending : Pending) → lookup k (erase k pending) ≡ none
lookup_erased k pending = ground (arith, lookup-erase k k pending, eq_refl k)

erased-HasNoPlan :
    (proposal_id : String) (pending : Pending)
    → HasNoPlan proposal_id (erase (plan_key proposal_id) pending)
erased-HasNoPlan proposal_id pending plan h =
    let gone = lookup_erased (plan_key proposal_id) pending in cc

-- The proposal that is kept is no plan, wherever it is kept.
kept-HasNoPlan :
    (proposal_id : String) (p : BillProposal) (pending : Pending)
    → HasNoPlan proposal_id pending
    → HasNoPlan proposal_id (insert proposal_id (proposal_item p) pending)
kept-HasNoPlan proposal_id p pending none_there plan h =
    let at = lookup-insert proposal_id (plan_key proposal_id) (proposal_item p) pending in
    elim (Bool-cases (plan_key proposal_id == proposal_id)) [
      | inl same ↦
          let there : lookup (plan_key proposal_id) (insert proposal_id (proposal_item p) pending)
              ≡ some (proposal_item p) =
            ground (arith, at, same) in
          cc
      | inr other ↦ none_there plan (ground (arith, at, other, h))
    ]

module _ (reader : Reader) (rule : PurchaseInvoiceRule) (show : FieldValue → String) where
  keep_plan-outcome :
      (proposal_id : String) (p : BillProposal) (header : Record) (lines : List LinePlan)
      (lv vs more : List Violation) (pending : Pending)
      → gate p ++ more ≡ vs
      → build_lines show rule p.bill.lines p.line_matches ≡ ok (lines, lv)
      → HasNoPlan proposal_id pending
      → IsStaged proposal_id p (keep_plan reader rule show proposal_id p header lines vs pending)
        ⊎ IsNotStaged proposal_id (keep_plan reader rule show proposal_id p header lines vs pending)
  unfolding keep_plan
  keep_plan-outcome proposal_id p header lines lv (v ∷ vs) more pending e built none_there =
      inr (inr (v ∷ vs, refl), none_there)
  keep_plan-outcome proposal_id p header lines lv [] more pending e built none_there =
      let passed = gate-nil p (append-nil_left (gate p) more e).0 in
      let plan : WritePlan = record {
        proposal_id = proposal_id;
        supplier = p.supplier_match;
        header = header;
        lines = lines;
        rule_doc = rule.document;
        rule_version = rule.version;
      } in
      inl (
        plan,
        _,
        refl,
        ground (
          arith,
          lookup-insert (plan_key proposal_id) (plan_key proposal_id) (plan_item plan) pending,
          eq_refl (plan_key proposal_id),
        ),
        record {
          tax_id = passed.tax_id;
          supplier = refl;
          articles =
              build_lines-articles show rule p.bill.lines p.line_matches lines lv passed.line_count
                built;
          line_count = passed.line_count;
          supplier_decided = passed.supplier;
          articles_decided = passed.articles;
        },
      )

  stage_proposal-outcome :
      (proposal_id : String) (p : BillProposal) (pending : Pending)
      (header : Result StageError (Record × List Violation))
      (lines : Result StageError (List LinePlan × List Violation))
      → build_header show rule p.bill ≡ header
      → build_lines show rule p.bill.lines p.line_matches ≡ lines
      → HasNoPlan proposal_id pending
      → IsStaged proposal_id p (stage_proposal reader rule show proposal_id p pending)
        ⊎ IsNotStaged proposal_id (stage_proposal reader rule show proposal_id p pending)
  unfolding stage_proposal
  stage_proposal-outcome proposal_id p pending (err e) lines eh el h =
      rw eh (inr (inl (e, refl), kept-HasNoPlan proposal_id p pending h))
  stage_proposal-outcome proposal_id p pending (ok (header, hv)) (err e) eh el h =
      rw (eh, el) (inr (inl (e, refl), kept-HasNoPlan proposal_id p pending h))
  stage_proposal-outcome proposal_id p pending (ok (header, hv)) (ok (lines, lv)) eh el h =
      rw (eh, el)
        (keep_plan-outcome proposal_id p header lines lv (gate p ++ (hv ++ lv)) (hv ++ lv) _ refl el
          (kept-HasNoPlan proposal_id p pending h))

  -- However a proposal is posted, staging either leaves a plan under its key in which the operator has
  -- decided on the supplier and on every article and no tax number fails its check, or it reports why
  -- not and leaves no plan, not even one of an earlier stage.
  pub stage-outcome :
      (proposal_id : String) (posted : Result (List Violation) BillProposal) (pending : Pending)
      → ((p : BillProposal) × (posted ≡ ok p)
          × IsStaged proposal_id
              (rematch reader rule p)
              (stage reader rule show proposal_id posted pending))
        ⊎ IsNotStaged proposal_id (stage reader rule show proposal_id posted pending)
  unfolding stage
  stage-outcome proposal_id (err vs) pending =
      inr (inr (vs, refl), erased-HasNoPlan proposal_id pending)
  stage-outcome proposal_id (ok p) pending =
      let p' = rematch reader rule p in
      elim (stage_proposal-outcome proposal_id p' (erase (plan_key proposal_id) pending) _ _ refl
        refl (erased-HasNoPlan proposal_id pending)) [
          | inl done ↦ inl (p, refl, done)
          | inr why ↦ inr why
        ]
