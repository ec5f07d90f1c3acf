-- ===== src/DevCare/Service/Commit.antt =====
-- What a commit does to the database, the staged changes and the audit log.
use erp_agent.Prelude.{
  String, true, Option, none, some, ◌==◌, lookup, erase, Result, ok, err, ◌≡◌, refl, ◌⊎◌, inl, inr,
  is_some, arith, eq_iff, Bool-cases, Option-cases,
}
use erp_agent.Chat.History.{ConversationDetail, get_conversation}
use erp_agent.DevCare.Rules.{Scalar, Record, EntityRule, get_rule}
use erp_agent.DevCare.Writes.{Database}
use erp_agent.DevCare.Writes.Confined.{IsKeyFree, IsEffect}
use erp_agent.DevCare.Pending.{
  StagedChange, PendingChangeStore, pop, pop_found, audit_entry, append_entry,
}
use erp_agent.DevCare.Service.{
  State, Env, Failure, CommitAnswer, done, no_conversation, no_change, failed, when_owned,
  execute_change, settle, commit_staged, commit_popped, commit_change,
}

-- The change that a commit takes: staged by this conversation, which belongs to the session.
abbrev pub IsTaken : String → String → String → StagedChange → State → Type 0
IsTaken conversation_id session_id change_id staged s =
    (is_some (get_conversation conversation_id session_id s.history) ≡ true)
    × (lookup change_id s.pending ≡ some staged)
    × (staged.conversation_id ≡ conversation_id)

-- What a commit did with the change that it took: written, with one entry `ok`; or nothing written, with one
-- entry `error`.
pub data IsSettled (env : Env) (operator : String) (staged : StagedChange) (s : State)
    (answer : CommitAnswer) (after : State) : Type 0 where
  written :
      (rule : EntityRule) (primary_key : Option Scalar) (before : Option Record)
      → answer ≡ done primary_key staged.change.operation staged.change.entity
      → get_rule staged.change.entity env.registry ≡ ok rule
      → IsEffect rule staged.change s.database (ok primary_key) after.database
      → after.audit
        ≡ append_entry env.writable
            (audit_entry env.clock operator staged primary_key before "ok")
            s.audit
      → IsSettled env operator staged s answer after
  not_written :
      (e : Failure) (before : Option Record)
      → answer ≡ failed e
      → after.database ≡ s.database
      → after.audit
        ≡ append_entry env.writable
            (audit_entry env.clock operator staged staged.change.target_pk before "error")
            s.audit
      → IsSettled env operator staged s answer after

module _ (env : Env)
    (keys_free : (entity : String) (rule : EntityRule)
      → get_rule entity env.registry ≡ ok rule
      → IsKeyFree rule)
    (operator : String) (staged : StagedChange) where
  abbrev Settled : State → CommitAnswer × State → Type 0
  Settled s out = IsSettled env operator staged s out.0 out.1

pop_taken :
    (conversation_id change_id : String) (staged : StagedChange) (items : PendingChangeStore)
    → lookup change_id items ≡ some staged
    → staged.conversation_id ≡ conversation_id
    → pop conversation_id change_id items ≡ (some staged, erase change_id items)
unfolding pop
pop_taken c cid staged items found mine = rw (found, (eq_iff staged.conversation_id c).1 mine) refl

pub commit_change_taken :
    (env : Env) (conversation_id session_id operator change_id : String) (staged : StagedChange)
    (s : State)
    → IsTaken conversation_id session_id change_id staged s
    → commit_change env conversation_id session_id operator change_id s
      ≡ commit_popped env operator (some staged) (record s { pending = erase change_id s.pending })
unfolding commit_change
commit_change_taken env c sid operator cid staged s (owned, found, mine) =
    elim (Option-cases (get_conversation c sid s.history)) [
      | inl n ↦ ground (arith, owned, n)
      | inr (d, e) ↦ rw (e, pop_taken c cid staged s.pending found mine) refl
    ]

pub commit_staged-pending :
    (env : Env) (operator : String) (staged : StagedChange) (o : Option (Option Record)) (s : State)
    → (commit_staged env operator staged o s).1.pending ≡ s.pending
unfolding commit_staged
commit_staged-pending env operator staged none s = unfold settle in refl
commit_staged-pending env operator staged (some before) s =
    settled (execute_change env staged.change s.database)
  where
    settled :
        (out : Result Failure (Option Scalar) × Database)
        → (settle env operator staged before out.0 out.1 s).1.pending ≡ s.pending
    settled (ok pk, db) = unfold settle in refl
    settled (err e, db) = unfold settle in refl

-- A commit is refused and changes nothing, the staged changes included, unless the session owns the
-- conversation and the change is staged and was staged by this conversation.
pub commit_change_refused :
    (env : Env) (conversation_id session_id operator change_id : String) (s : State)
    → ((staged : StagedChange) → ¬ IsTaken conversation_id session_id change_id staged s)
    → ((commit_change env conversation_id session_id operator change_id s).1 ≡ s)
      × (((commit_change env conversation_id session_id operator change_id s).0 ≡ no_conversation)
          ⊎ ((commit_change env conversation_id session_id operator change_id s).0 ≡ no_change))
unfolding commit_change pop
commit_change_refused env c sid operator cid s h =
    by_conversation (get_conversation c sid s.history) refl
  where
    Refused : CommitAnswer × State → Type 0
    Refused out = (out.1 ≡ s) × ((out.0 ≡ no_conversation) ⊎ (out.0 ≡ no_change))

    by_change :
        (d : ConversationDetail) (o : Option StagedChange)
        → get_conversation c sid s.history ≡ some d
        → lookup cid s.pending ≡ o
        → Refused (
            commit_popped env operator
              (pop_found c cid o s.pending).0
              (record s { pending = (pop_found c cid o s.pending).1 }))
    by_change d none e l = (refl, inr refl)
    by_change d (some staged) e l = elim (Bool-cases (staged.conversation_id == c)) [
      | inl same ↦ absurd (h staged (rw e refl, l, (eq_iff staged.conversation_id c).0 same))
      | inr other ↦ rw other (refl, inr refl)
    ]

    by_conversation :
        (o : Option ConversationDetail)
        → get_conversation c sid s.history ≡ o
        → Refused (
            when_owned o
              (no_conversation, s)
              (commit_popped env operator
                (pop_found c cid (lookup cid s.pending) s.pending).0
                (record s { pending = (pop_found c cid (lookup cid s.pending) s.pending).1 })))
    by_conversation none e = (refl, inl refl)
    by_conversation (some d) e = by_change d (lookup cid s.pending) e refl
