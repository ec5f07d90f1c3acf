-- ===== src/Bills/Service/Rematch.antt =====
-- Staging again matches again, and changes nothing more.
use erp_agent.Prelude.{◌≡◌, sym, ◌∙◌, arith, refl, List, [], ◌∷◌}
use erp_agent.Bills.Rules.{PurchaseInvoiceRule}
use erp_agent.Bills.Models.{
  MatchStatus, matched, ambiguous, new, MatchResult, BillLine, BillProposal,
}
use erp_agent.Bills.Matching.{Reader, match_supplier, match_line}
use erp_agent.Bills.Service.{keep_confirmation, rematch_one, rematch_lines, rematch}

rematch_one-twice :
    (old fresh : MatchResult) → rematch_one (rematch_one old fresh) fresh ≡ rematch_one old fresh
unfolding rematch_one keep_confirmation
rematch_one-twice old fresh = ground arith

cong_cons : {x y : MatchResult} {xs ys : List MatchResult} → x ≡ y → xs ≡ ys → x ∷ xs ≡ y ∷ ys
cong_cons h k = cc

proposal_eq :
    (p : BillProposal) {x y : MatchResult} {xs ys : List MatchResult}
    → x ≡ y
    → xs ≡ ys
    → ◌≡◌ {A = BillProposal}
        (record p { supplier_match = x; line_matches = xs })
        (record p { supplier_match = y; line_matches = ys })
proposal_eq p h k = cc

rematch_lines-twice :
    (reader : Reader) (rule : PurchaseInvoiceRule) (lines : List BillLine) (ms : List MatchResult)
    → rematch_lines reader rule lines (rematch_lines reader rule lines ms)
      ≡ rematch_lines reader rule lines ms
unfolding rematch_lines
rematch_lines-twice reader rule [] ms = refl
rematch_lines-twice reader rule (l ∷ ls) [] = refl
rematch_lines-twice reader rule (l ∷ ls) (m ∷ ms) =
    cong_cons (rematch_one-twice m (match_line reader rule l))
      (rematch_lines-twice reader rule ls ms)

-- What becomes of a match, given what a fresh one finds: a pick stays; a record that was new is what the fresh
-- match finds, with the operator's tick carried over while it is still new.
pub data IsRematched (old fresh after : MatchResult) : Type 0 where
  picked : ¬ (old.status ≡ new) → after ≡ old → IsRematched old fresh after
  found : old.status ≡ new → ¬ (fresh.status ≡ new) → after ≡ fresh → IsRematched old fresh after
  still_new :
      old.status ≡ new
      → fresh.status ≡ new
      → after.status ≡ new
      → after.confirmed ≡ old.confirmed
      → after.proposed_new ≡ fresh.proposed_new
      → after.chave ≡ fresh.chave
      → after.label ≡ fresh.label
      → after.candidates ≡ fresh.candidates
      → IsRematched old fresh after

-- The same for the matches of the lines that the bill has; matches beyond them stay.
abbrev pub AreRematched :
    (BillLine → MatchResult) → List BillLine → List MatchResult → List MatchResult → Type 0
AreRematched fresh ls [] [] = Unit
AreRematched fresh [] (m ∷ ms) after = after ≡ m ∷ ms
AreRematched fresh ls [] (a ∷ rest) = ⊥
AreRematched fresh (l ∷ ls) (m ∷ ms) [] = ⊥
AreRematched fresh (l ∷ ls) (m ∷ ms) (a ∷ rest) =
    IsRematched m (fresh l) a × AreRematched fresh ls ms rest

rematch_one-IsRematched : (old fresh : MatchResult) → IsRematched old fresh (rematch_one old fresh)
unfolding rematch_one keep_confirmation
rematch_one-IsRematched old fresh = by_status old.status fresh.status refl refl
  where
    by_status :
        (s f : MatchStatus)
        → old.status ≡ s
        → fresh.status ≡ f
        → IsRematched old fresh (elim s [
          | matched ↦ old
          | ambiguous ↦ old
          | new ↦ elim f [
            | matched ↦ fresh
            | ambiguous ↦ fresh
            | new ↦ record fresh { confirmed = old.confirmed }
          ]
        ])
    by_status matched f e h = picked (λ n. cc (sym e ∙ n)) refl
    by_status ambiguous f e h = picked (λ n. cc (sym e ∙ n)) refl
    by_status new matched e h = found e (λ n. cc (sym h ∙ n)) refl
    by_status new ambiguous e h = found e (λ n. cc (sym h ∙ n)) refl
    by_status new new e h = still_new e h h refl refl refl refl refl

rematch_lines-AreRematched :
    (reader : Reader) (rule : PurchaseInvoiceRule) (ls : List BillLine) (ms : List MatchResult)
    → AreRematched (match_line reader rule) ls ms (rematch_lines reader rule ls ms)
unfolding rematch_lines
rematch_lines-AreRematched reader rule [] [] = tt
rematch_lines-AreRematched reader rule (l ∷ ls) [] = tt
rematch_lines-AreRematched reader rule [] (m ∷ ms) = refl
rematch_lines-AreRematched reader rule (l ∷ ls) (m ∷ ms) = (
  rematch_one-IsRematched m (match_line reader rule l),
  rematch_lines-AreRematched reader rule ls ms,
)

-- Matching a proposal again leaves its bill and its warnings, and each pick of the operator; a record that
-- was new becomes what is found for the edited bill, and while it is still new it has the edited values and
-- keeps the operator's tick. To match once more, as long as the database answers the same, changes nothing.
pub rematch-IsRematched :
    (reader : Reader) (rule : PurchaseInvoiceRule) (p : BillProposal)
    → let after = rematch reader rule p in
      (after.bill ≡ p.bill)
      × (after.warnings ≡ p.warnings)
      × IsRematched p.supplier_match (match_supplier reader rule p.bill) after.supplier_match
      × AreRematched (match_line reader rule) p.bill.lines p.line_matches after.line_matches
      × (rematch reader rule after ≡ after)
unfolding rematch
rematch-IsRematched reader rule p = (
  refl,
  refl,
  rematch_one-IsRematched p.supplier_match (match_supplier reader rule p.bill),
  rematch_lines-AreRematched reader rule p.bill.lines p.line_matches,
  proposal_eq p (rematch_one-twice p.supplier_match (match_supplier reader rule p.bill))
      (rematch_lines-twice reader rule p.bill.lines p.line_matches),
)
