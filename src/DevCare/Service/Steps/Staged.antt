-- ===== src/DevCare/Service/Steps/Staged.antt =====
-- What is staged can be executed, after any steps of the service.
use mathlib.Core.Path.{subst}
use erp_agent.Prelude.{
  ℕ, String, true, Option, none, some, ◌==◌, elem, is_some, lookup, insert, erase, Result, ok, err,
  ◌≡◌, refl, sym, ap, inl, inr, arith, Bool-cases, Option-cases, lookup-insert, lookup-erase,
}
use erp_agent.Chat.History.{Store, get_conversation}
use erp_agent.DevCare.Rules.{
  Scalar, Record, EntityRule, RegistryError, get_rule, NormalizedChange, ValidationResult, valid,
  invalid,
}
use erp_agent.DevCare.Validator.{is_existing, validate}
use erp_agent.DevCare.Validator.Sound.{validate-IsChecked}
use erp_agent.DevCare.Writes.{Database, undeclared}
use erp_agent.DevCare.Pending.{StagedChange, PendingChangeStore, stage, pop, pop_found}
use erp_agent.DevCare.Service.{
  State, Env, keep_change, stage_result, validate_and_stage, stage_change, fetch_before,
  commit_popped, commit_change,
}
use erp_agent.DevCare.Service.Turn.{Model, stream_turn}
use erp_agent.DevCare.Service.Preserved.{stream_turn-OfState}
use erp_agent.DevCare.Service.Commit.{commit_staged-pending}

-- A change that the executor takes: its rule is registered, and declares its operation and its columns.
pub record IsExecutable (env : Env) (staged : StagedChange) : Type 0 where
  pub rule : EntityRule
  pub registered : get_rule staged.change.entity env.registry ≡ ok rule
  pub permitted : elem staged.change.operation rule.operations ≡ true
  pub declared : undeclared rule staged.change.columns ≡ none
  pub keyed : is_existing staged.change.operation ≡ true → is_some staged.change.target_pk ≡ true

abbrev pub AreExecutable : Env → PendingChangeStore → Type 0
AreExecutable env items =
    (change_id : String) (staged : StagedChange)
    → lookup change_id items ≡ some staged
    → IsExecutable env staged

pub data Step (env : Env) (s : State) (after : State) : Type 0 where
  turn :
      (model : Model) (conversation_id session_id user_message : String)
      → after ≡ (stream_turn env model conversation_id session_id user_message s).0
      → Step env s after
  form :
      (conversation_id session_id entity operation : String) (fields : Record)
      (target_pk : Option Scalar)
      → after ≡ (stage_change env conversation_id session_id entity operation fields target_pk s).1
      → Step env s after
  commit :
      (conversation_id session_id operator change_id : String)
      → after ≡ (commit_change env conversation_id session_id operator change_id s).1
      → Step env s after
  manage : (history : Store) → after ≡ record s { history = history } → Step env s after

pub data Reach (env : Env) (s : State) : State → Type 0 where
  here : Reach env s s
  next : {t u : State} → Reach env s t → Step env t u → Reach env s u

module _ (env : Env) where
  IsExecutable-checked :
      (entity operation : String) (fields : Record) (target_pk : Option Scalar) (db : Database)
      (conversation_id : String) (change : NormalizedChange) (doc : String) (version : ℕ)
      → validate (env.world db) env.registry entity operation fields target_pk
        ≡ ok (valid change doc version)
      → IsExecutable env (record {
        conversation_id = conversation_id;
        change = change;
        rule_doc = doc;
        rule_version = version;
      })
  IsExecutable-checked entity operation fields target_pk db c change doc version h =
      let checked =
        validate-IsChecked (env.world db) env.registry entity operation fields target_pk change doc
          version h in
      let e : change.entity ≡ entity =
        ap (λ (ch : NormalizedChange). ch.entity) checked.described in
      let o : change.operation ≡ operation =
        ap (λ (ch : NormalizedChange). ch.operation) checked.described in
      let k : change.target_pk ≡ target_pk =
        ap (λ (ch : NormalizedChange). ch.target_pk) checked.described in
      record {
        rule = checked.rule;
        registered =
            subst (λ x. get_rule x env.registry ≡ ok checked.rule) (sym e) checked.registered;
        permitted = subst (λ x. elem x checked.rule.operations ≡ true) (sym o) checked.permitted;
        declared = checked.declared;
        keyed =
            subst (λ x. is_existing x ≡ true → is_some change.target_pk ≡ true) (sym o)
              (subst (λ x. is_existing operation ≡ true → is_some x ≡ true) (sym k) checked.keyed);
      }

  AreExecutable-insert :
      (change_id : String) (staged : StagedChange) (items : PendingChangeStore)
      → IsExecutable env staged
      → AreExecutable env items
      → AreExecutable env (insert change_id staged items)
  AreExecutable-insert k v items p h j w e = elim (Bool-cases (j == k)) [
    | inl same ↦ subst (IsExecutable env) (ground (arith, lookup-insert k j v items, e, same)) p
    | inr other ↦ h j w (ground (arith, lookup-insert k j v items, e, other))
  ]

  AreExecutable-erase :
      (change_id : String) (items : PendingChangeStore)
      → AreExecutable env items
      → AreExecutable env (erase change_id items)
  AreExecutable-erase k items h j w e = h j w (ground (arith, lookup-erase k j items, e))

  abbrev Inv : State → Type 0
  Inv s = AreExecutable env s.pending

  stage_result-Inv :
      (conversation_id entity operation : String) (fields : Record) (target_pk : Option Scalar)
      (s : State) (r : Result RegistryError ValidationResult)
      → validate (env.world s.database) env.registry entity operation fields target_pk ≡ r
      → Inv s
      → Inv (stage_result env conversation_id entity r s).1
  unfolding keep_change stage
  stage_result-Inv c entity operation fields pk s (err e) g h = h
  stage_result-Inv c entity operation fields pk s (ok (invalid vs doc version)) g h = h
  stage_result-Inv c entity operation fields pk s (ok (valid change doc version)) g h =
      AreExecutable-insert (env.draw_id s.pending) _ s.pending
        (IsExecutable-checked entity operation fields pk s.database c change doc version g) h

  validate_and_stage-Inv :
      (conversation_id entity operation : String) (fields : Record) (target_pk : Option Scalar)
      (s : State)
      → Inv s
      → Inv (validate_and_stage env conversation_id entity operation fields target_pk s).1
  unfolding validate_and_stage
  validate_and_stage-Inv c entity operation fields pk s h =
      stage_result-Inv c entity operation fields pk s _ refl h

  stage_change-Inv :
      (conversation_id session_id entity operation : String) (fields : Record)
      (target_pk : Option Scalar) (s : State)
      → Inv s
      → Inv (stage_change env conversation_id session_id entity operation fields target_pk s).1
  unfolding stage_change
  stage_change-Inv c sid entity operation fields pk s h =
      elim (Option-cases (get_conversation c sid s.history)) [
        | inl n ↦ rw n h
        | inr (d, e) ↦ rw e (validate_and_stage-Inv c entity operation fields pk s h)
      ]

  popped-Inv :
      (conversation_id change_id : String) (o : Option StagedChange) (items : PendingChangeStore)
      → AreExecutable env items
      → AreExecutable env (pop_found conversation_id change_id o items).1
  popped-Inv c k none items h = h
  popped-Inv c k (some staged) items h = elim (Bool-cases (staged.conversation_id == c)) [
    | inl e ↦ rw e (AreExecutable-erase k items h)
    | inr e ↦ rw e h
  ]

  commit_popped-Inv :
      (operator : String) (o : Option StagedChange) (s : State)
      → Inv s
      → Inv (commit_popped env operator o s).1
  commit_popped-Inv operator none s h = h
  commit_popped-Inv operator (some staged) s h =
      subst (AreExecutable env)
        (sym
          (commit_staged-pending env operator staged (fetch_before env staged.change s.database) s))
        h

  commit_change-Inv :
      (conversation_id session_id operator change_id : String) (s : State)
      → Inv s
      → Inv (commit_change env conversation_id session_id operator change_id s).1
  unfolding commit_change pop
  commit_change-Inv c sid operator k s h = elim (Option-cases (get_conversation c sid s.history)) [
    | inl n ↦ rw n h
    | inr (d, e) ↦
        let popped = pop c k s.pending in
        rw e (
          commit_popped-Inv operator popped.0 (record s { pending = popped.1 })
            (popped-Inv c k (lookup k s.pending) s.pending h))
  ]

  Step-Inv : {s u : State} → Step env s u → Inv s → Inv u
  Step-Inv {s} (turn model c sid m e) h = subst Inv (sym e) (
      stream_turn-OfState env model Inv (λ sql t k. k) validate_and_stage-Inv (λ hist t k. k) c sid
        m s h)
  Step-Inv {s} (form c sid entity operation fields pk e) h =
      subst Inv (sym e) (stage_change-Inv c sid entity operation fields pk s h)
  Step-Inv {s} (commit c sid operator k e) h =
      subst Inv (sym e) (commit_change-Inv c sid operator k s h)
  Step-Inv (manage hist e) h = subst Inv (sym e) h

  pub Reach-AreExecutable :
      {s u : State} → AreExecutable env s.pending → Reach env s u → AreExecutable env u.pending
  Reach-AreExecutable h here = h
  Reach-AreExecutable h (next r st) = Step-Inv st (Reach-AreExecutable h r)
