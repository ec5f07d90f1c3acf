-- ===== src/Bills/Service/Commit.antt =====
-- A staged plan is committed once, whole or not at all.
use mathlib.Core.Path.{subst}
use erp_agent.Prelude.{
  sym, ◌≡◌, refl, ap, ◌∙◌, ◌⊎◌, inl, inr, arith, String, Option, none, some, eq_refl, lookup, erase,
  lookup-erase, Result, ok, err,
}
use erp_agent.Bills.Rules.{PurchaseInvoiceRule}
use erp_agent.Bills.Models.{WritePlan}
use erp_agent.Bills.Executor.{WriteError, WriteResult, Database, Session, write_plan}
use erp_agent.Bills.Executor.Rows.{Appends, Extends}
use erp_agent.Bills.Executor.Whole.{IsWritten, write_plan-IsWritten}
use erp_agent.Bills.Executor.Atomic.{IsWhitelisted, write_plan-atomic}
use erp_agent.Bills.Service.{
  Item, proposal_item, plan_item, Pending, plan_key, Backend, CommitOutcome, no_staged_plan,
  committed, failed, settle, commit_plan, commit_item, commit,
}

abbrev HasNothing : String → Pending → Type 0
HasNothing k pending = lookup k pending ≡ none

erase-HasNothing : (k : String) (pending : Pending) → HasNothing k (erase k pending)
erase-HasNothing k pending = ground (arith, lookup-erase k k pending, eq_refl k)

erase_other-HasNothing :
    (k j : String) (pending : Pending) → HasNothing k pending → HasNothing k (erase j pending)
erase_other-HasNothing k j pending h = ground (arith, lookup-erase j k pending, h)

module _ (session : Session) (rule : PurchaseInvoiceRule)
    (record_failure : WritePlan → Database → Database) where
  settle-HasNothing :
      (proposal_id : String) (plan : WritePlan) (pending : Pending)
      (r : Result WriteError WriteResult × Database)
      → HasNothing (plan_key proposal_id) pending
      → HasNothing
          (plan_key proposal_id)
          (settle session rule record_failure proposal_id plan pending r).1.pending
  unfolding settle
  settle-HasNothing proposal_id plan pending (ok result, db') h =
      erase_other-HasNothing (plan_key proposal_id) proposal_id pending h
  settle-HasNothing proposal_id plan pending (err e, db') h = h

  commit_item-HasNothing :
      (proposal_id : String) (item : Option Item) (b : Backend)
      → HasNothing (plan_key proposal_id) b.pending
      → HasNothing
          (plan_key proposal_id)
          (commit_item session rule record_failure proposal_id item b).1.pending
  unfolding commit_item commit_plan
  commit_item-HasNothing proposal_id none b h = h
  commit_item-HasNothing proposal_id (some (proposal_item p)) b h = h
  commit_item-HasNothing proposal_id (some (plan_item plan)) b h =
      settle-HasNothing proposal_id plan b.pending (write_plan session rule plan b.database) h

  -- Whatever a commit came to, the same proposal cannot be committed again before it is staged again: the
  -- second commit reports that there is no staged plan and leaves the database as the first one left it.
  pub commit_once :
      (proposal_id : String) (b : Backend)
      → let after = (commit session rule record_failure proposal_id b).1 in
        ((commit session rule record_failure proposal_id after).0 ≡ ok no_staged_plan)
        × ((commit session rule record_failure proposal_id after).1.database ≡ after.database)
  unfolding commit commit_item
  commit_once proposal_id b =
      let k = plan_key proposal_id in
      let gone =
        commit_item-HasNothing proposal_id (lookup k b.pending)
          (record b { pending = erase k b.pending }) (erase-HasNothing k b.pending) in
      (rw gone refl, rw gone refl)

  -- The commit of the plan failed and only its failure was recorded, or it was written whole.
  abbrev pub IsSettled : WritePlan → Database → Result WriteError CommitOutcome × Backend → Type 0
  IsSettled plan db x =
      ((e : WriteError) × (x.0 ≡ ok (failed e)) × (x.1.database ≡ record_failure plan db))
      ⊎ ((result : WriteResult) × (x.0 ≡ ok (committed result))
          × IsWhitelisted rule plan
          × Extends db x.1.database
          × IsWritten session rule plan result db x.1.database)

  settled :
      (proposal_id : String) (plan : WritePlan) (b : Backend)
      (r : Result WriteError WriteResult × Database)
      → lookup (plan_key proposal_id) b.pending ≡ some (plan_item plan)
      → write_plan session rule plan b.database ≡ r
      → commit session rule record_failure proposal_id b
        ≡ settle session rule record_failure proposal_id plan
            (erase (plan_key proposal_id) b.pending)
            r
  unfolding commit commit_item commit_plan
  settled proposal_id plan b r staged e =
      let pending = erase (plan_key proposal_id) b.pending in
      ap
        (λ item.
          commit_item session rule record_failure proposal_id item (record b { pending = pending }))
        staged
      ∙ ap (λ w. settle session rule record_failure proposal_id plan pending w) e

  -- The commit of a staged plan either fails, and then the database is as before but for the audit of the
  -- failure, or it writes the plan whole, with declared columns only and behind the rows that the tables hold:
  -- the supplier is the matched record or a new row, then come the document's row and, for each line of the
  -- plan in order, its article, matched or a new row, and its own row, all with the keys that the result
  -- reports, and last the audit row, and nothing else is written. The audit row's statement is assumed to append
  -- rows only.
  pub commit-atomic :
      (proposal_id : String) (plan : WritePlan) (b : Backend)
      → ((p : WritePlan) (result : WriteResult) → Appends (session.audit_insert p result))
      → lookup (plan_key proposal_id) b.pending ≡ some (plan_item plan)
      → IsSettled plan b.database (commit session rule record_failure proposal_id b)
  unfolding settle
  commit-atomic proposal_id plan b audit staged =
      elim (write_plan-atomic session rule plan b.database audit) [
        | inl (e, r) ↦
            subst (IsSettled plan b.database)
              (sym (settled proposal_id plan b (err e, b.database) staged r)) (inl (e, refl, refl))
        | inr (declared, (result, db', r, g)) ↦
            subst (IsSettled plan b.database)
              (sym (settled proposal_id plan b (ok result, db') staged r))
              (inr (
                result,
                refl,
                declared,
                g,
                write_plan-IsWritten session rule plan result b.database db' r,
              ))
      ]
