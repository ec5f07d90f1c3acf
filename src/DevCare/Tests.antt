-- ===== src/DevCare/Tests.antt =====
-- Runs of the dev-care model on one entity, and concrete instances of its theorems.
use mathlib.Core.Path.{subst}
use erp_agent.Prelude.{
  String, Bool, true, false, Option, none, some, List, [], ◌∷◌, ◌==◌, lookup, length, keep, Result,
  ok, err, ◌≡◌, refl, sym, ◌∙◌, eq_iff, All, ok-injective, Bool-cases, inl, inr, ◌⊎◌, arith,
}
use erp_agent.Prelude.Int.{pos, ◌+ℤ◌}
use erp_agent.Chat.Transcript.{Message}
use erp_agent.Chat.History.{Store, get_conversation, get_transcript}
use erp_agent.DevCare.Rules.{
  Scalar, null, int, float, text, Record, scalar_eq, string_type, FieldRule, EntityRule, Registry,
  get_rule, NormalizedChange, valid, load_rules, allowed_values,
}
use erp_agent.DevCare.Validator.{
  Query, equal_columns, referenced, count_key, row_of_key, choices, World, validate,
}
use erp_agent.DevCare.Validator.Sound.{IsChecked, validate-IsChecked}
use erp_agent.DevCare.Writes.{Database, Session, refused, undeclared, has_key, rows_in, execute}
use erp_agent.DevCare.Writes.Confined.{IsKeyFree, IsEffect, execute-IsEffect}
use erp_agent.DevCare.Writes.Failures.{is_operation}
use erp_agent.DevCare.Pending.{StagedChange, stage, pop}
use erp_agent.DevCare.Service.{
  State, Env, done, no_conversation, no_change, failed, write_failed, validate_and_stage,
  stage_change, commit_change,
}
use erp_agent.DevCare.Service.Turn.{propose_change, ReplyBlock, say, use_tool, Model, stream_turn}
use erp_agent.DevCare.Service.Ends.{IsEnded, stream_turn-IsEnded}
use erp_agent.DevCare.Service.Commit.{IsTaken, commit_change_refused}
use erp_agent.DevCare.Service.Steps.{IsExcused, Reach-IsExcused, IsReadOnly, stream_turn_unwritten}
use erp_agent.DevCare.Service.Steps.Staged.{Reach, Step}

abbrev name_field : FieldRule
name_field = record {
  column = "name";
  type = string_type;
  required = true;
  label = none;
  validation = record {
    max_length = some 8;
    regex = none;
    min = none;
    max = none;
    enum = none;
    options = none;
  };
}

abbrev dog_rule : EntityRule
dog_rule = record {
  entity = "dog";
  version = 2;
  table = "Dogs";
  primary_key = "Id";
  operations = "create" ∷ "update" ∷ "delete" ∷ [];
  fields = ("name", name_field) ∷ [];
  soft_delete = some (record { column = "active"; active_value = pos 1; deleted_value = pos 0 });
  references = [];
  uniqueness = ("name" ∷ []) ∷ [];
  audit_columns = record {
    created_at = some "made";
    updated_at = some "changed";
    created_by = none;
    updated_by = none;
  };
  create_defaults = [];
}

abbrev dogs : Registry
dogs = ("dog", dog_rule) ∷ []

abbrev rex : Record
rex = ("Id", int (pos 4)) ∷ ("name", text "Rex") ∷ ("active", int (pos 1)) ∷ []

abbrev kennel : Database
kennel = ("Dogs", rex ∷ []) ∷ []

-- A database with one named column to search.
abbrev has_name : Option Scalar → Record → Bool
has_name none row = false
has_name (some v) row = has_key "name" (some v) row

abbrev answer : Database → Query → List Record
answer db (equal_columns table columns active other_than) =
    keep (has_name (lookup "name" columns)) (rows_in table db)
answer db (referenced table column value) = []
answer db (count_key table pk key) =
    (("cnt", int (pos (length (keep (has_key pk key) (rows_in table db))))) ∷ []) ∷ []
answer db (row_of_key table pk key) = keep (has_key pk key) (rows_in table db)
answer db (choices table value label active) = []

abbrev world_of : Database → World
world_of db = record {
  read = answer db;
  to_int = λ v. none;
  to_float = λ v. none;
  to_text = λ v. elim v [ null ↦ "None" | int n ↦ "" | float d ↦ "" | text s ↦ s ];
  is_date = λ s. false;
  regex_matches = λ p s. true;
}

abbrev new_dog : NormalizedChange
new_dog = record {
  entity = "dog";
  operation = "create";
  table = "Dogs";
  primary_key = "Id";
  columns = ("name", text "Bo") ∷ [];
  target_pk = none;
}

abbrev session_of : (Database → Bool) → Session
session_of allows = record { now = "2026-01-01"; operator_key = pos 0; allows = allows }

abbrev env_of : (Database → Bool) → Env
env_of allows = record {
  registry = dogs;
  world = world_of;
  reachable = λ db. true;
  session = session_of allows;
  writable = λ e. true;
  clock = "now";
  draw_id = λ items. "chg_1";
}

abbrev talk : Store
talk = record {
  conversations =
      record { id = "c"; session_id = "s"; title = ""; created_at = 0; updated_at = 0 } ∷ [];
  turns = [];
}

abbrev start : State
start = record { history = talk; pending = []; database = kennel; audit = [] }

abbrev staged_state : State
staged_state = record start {
  pending =
      (
        "chg_1",
        record { conversation_id = "c"; change = new_dog; rule_doc = "dog"; rule_version = 2 },
      )
      ∷ [];
}

load_test : load_rules (dog_rule ∷ []) [] ≡ ok dogs
unfolding load_rules
load_test = refl

abbrev bo_fields : Record
bo_fields = ("name", text "Bo") ∷ []

validate_test :
    validate (world_of kennel) dogs "dog" "create" bo_fields none ≡ ok (valid new_dog "dog" 2)
unfolding validate get_rule allowed_values has_key scalar_eq
validate_test = refl

stage_test :
    (stage_change (env_of (λ db. true)) "c" "s" "dog" "create" bo_fields none start).1
    ≡ staged_state
unfolding stage_change validate get_conversation get_rule allowed_values has_key scalar_eq stage
stage_test = refl

dog-IsKeyFree : IsKeyFree dog_rule
dog-IsKeyFree = record {
  fields = refl;
  defaults = refl;
  soft = λ e. ground (arith, eq_iff "active" "Id", e);
  created_at = λ e. ground (arith, eq_iff "made" "Id", e);
  created_by = λ e. cc;
  updated_at = λ e. ground (arith, eq_iff "changed" "Id", e);
  updated_by = λ e. cc;
}

commit_test :
    (commit_change (env_of (λ db. true)) "c" "s" "op" "chg_1" staged_state).0
    ≡ done (some (int (pos 5))) "create" "dog"
unfolding commit_change get_conversation pop execute undeclared ◌+ℤ◌
commit_test = refl

execute-IsEffect_example :
    IsEffect dog_rule new_dog kennel
      (execute (session_of (λ db. true)) dog_rule new_dog kennel).0
      (execute (session_of (λ db. true)) dog_rule new_dog kennel).1
execute-IsEffect_example =
    execute-IsEffect (session_of (λ db. true)) dog_rule new_dog kennel dog-IsKeyFree

validate-IsChecked_example : IsChecked (world_of kennel) dogs "dog" "create" bo_fields none new_dog
validate-IsChecked_example =
    validate-IsChecked (world_of kennel) dogs "dog" "create" bo_fields none new_dog "dog" 2
      validate_test

only_dog : (entity : String) (rule : EntityRule) → get_rule entity dogs ≡ ok rule → dog_rule ≡ rule
unfolding get_rule
only_dog entity rule h = elim (Bool-cases (entity == "dog")) [
  | inl e ↦ ok-injective (sym (rw e refl) ∙ h)
  | inr e ↦ ground (arith, e, h)
]

abbrev bo : StagedChange
bo = record { conversation_id = "c"; change = new_dog; rule_doc = "dog"; rule_version = 2 }

bo-IsTaken : IsTaken "c" "s" "chg_1" bo staged_state
unfolding get_conversation
bo-IsTaken = (refl, refl, refl)

-- Another conversation of the same session does not take the change.
other-IsTaken : (staged : StagedChange) → ¬ IsTaken "d" "s" "chg_1" staged staged_state
unfolding get_conversation
other-IsTaken staged (owned, found, mine) = cc

commit_change_refused_example :
    ((commit_change (env_of (λ db. true)) "d" "s" "op" "chg_1" staged_state).1 ≡ staged_state)
    × (((commit_change (env_of (λ db. true)) "d" "s" "op" "chg_1" staged_state).0 ≡ no_conversation)
        ⊎ ((commit_change (env_of (λ db. true)) "d" "s" "op" "chg_1" staged_state).0 ≡ no_change))
commit_change_refused_example =
    commit_change_refused (env_of (λ db. true)) "d" "s" "op" "chg_1" staged_state other-IsTaken

dogs_known :
    (entity : String) (rule : EntityRule)
    → get_rule entity dogs ≡ ok rule
    → All (λ o. is_operation o ≡ true) rule.operations
dogs_known entity rule h =
    subst (λ (r : EntityRule). All (λ o. is_operation o ≡ true) r.operations)
      (only_dog entity rule h) (refl, (refl, (refl, tt)))

abbrev strict : Env
strict = env_of (λ db. false)

reached : Reach strict start staged_state
unfolding stage_change validate get_conversation get_rule allowed_values has_key scalar_eq stage
reached = Reach.next Reach.here (Step.form "c" "s" "dog" "create" bo_fields none refl)

refused_test :
    (commit_change strict "c" "s" "op" "chg_1" staged_state).0 ≡ failed (write_failed refused)
unfolding commit_change get_conversation pop execute undeclared ◌+ℤ◌
refused_test = refl

Reach-IsExcused_example : IsExcused (write_failed refused)
Reach-IsExcused_example =
    Reach-IsExcused strict dogs_known start staged_state refl reached "c" "s" "op" "chg_1" bo
      bo-IsTaken (write_failed refused) refused_test

-- A model that proposes a change and then ends its turn.
abbrev replies : List Message → Result String (List ReplyBlock)
replies [] = err "no messages"
replies (m ∷ []) =
    ok (use_tool (record { id = "t1"; call = propose_change "dog" "create" bo_fields none }) ∷ [])
replies (m ∷ n ∷ ms) = ok (say "Staged." ∷ [])

abbrev proposer : Model
proposer = record {
  reply = replies;
  run_sql = λ sql db. (ok "[]", db);
  capitalize = λ s. s;
  strip_join = λ ts. elim ts [ [] ↦ "" | t ∷ rest ↦ t ];
  print_reply = λ b. "reply";
  print_result = λ id p. id;
  print_block = λ b. "block";
  now = 7;
}

stream_turn_test :
    (stream_turn (env_of (λ db. true)) proposer "c" "s" "A dog called Bo" start).0.pending
    ≡ staged_state.pending
unfolding stream_turn get_conversation get_transcript validate_and_stage validate get_rule
    allowed_values has_key scalar_eq stage
stream_turn_test = refl

stream_turn-IsEnded_example :
    IsEnded (stream_turn (env_of (λ db. true)) proposer "c" "s" "A dog called Bo" start).1
stream_turn-IsEnded_example =
    stream_turn-IsEnded (env_of (λ db. true)) proposer "c" "s" "A dog called Bo" start

proposer-IsReadOnly : IsReadOnly proposer
proposer-IsReadOnly sql db = refl

stream_turn_unwritten_example :
    ((stream_turn (env_of (λ db. true)) proposer "c" "s" "A dog called Bo" start).0.database
      ≡ kennel)
    × ((stream_turn (env_of (λ db. true)) proposer "c" "s" "A dog called Bo" start).0.audit ≡ [])
stream_turn_unwritten_example =
    stream_turn_unwritten (env_of (λ db. true)) proposer proposer-IsReadOnly "c" "s"
      "A dog called Bo" start
