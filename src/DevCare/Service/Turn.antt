-- ===== src/DevCare/Service/Turn.antt =====
-- logic/devcare/service.py (stream_turn, _handle_tool): one turn of a conversation, as the events that it
-- yields. The language model's reply, the SQL that it runs and the printing of JSON are parameters.
use erp_agent.Prelude.{
  ℕ, zero, suc, String, Option, none, some, List, [], ◌∷◌, ◌++◌, ◌==◌, if◌then◌else◌, map, Result,
  ok, err,
}
use erp_agent.Prelude.Exec.{Exec, pure, gets, modify, ◌>>=◌, ◌>>◌}
use erp_agent.Chat.Transcript.{Message, plain, blocks}
use erp_agent.Chat.History.{append_turn, get_conversation, get_transcript}
use erp_agent.DevCare.Rules.{Scalar, Record, EntityRule, RegistryError, get_rule, Violation}
use erp_agent.DevCare.Writes.{Database}
use erp_agent.DevCare.Forms.{Form, build_form}
use erp_agent.DevCare.Service.{
  State, Env, PendingBlock, StageAnswer, staged_as, refused_for, unknown_entity, validate_and_stage,
  when_owned,
}

pub data ToolCall : Type 0 where
  lookup_rows : (sql : String) → ToolCall
  present_form :
      (entity operation : String) (target_pk : Option Scalar) (prefill : Record) → ToolCall
  propose_change :
      (entity operation : String) (fields : Record) (target_pk : Option Scalar) → ToolCall
  other_tool : (name : String) → ToolCall

pub record ToolUse : Type 0 where
  pub id : String
  pub call : ToolCall

-- A block of the model's reply; blocks of other kinds are passed over.
pub data ReplyBlock : Type 0 where
  say : String → ReplyBlock
  use_tool : ToolUse → ReplyBlock

pub data Block : Type 0 where
  text_block : (markdown : String) → Block
  form_block : Form → Block
  pending_change : PendingBlock → Block

pub data ToolPayload : Type 0 where
  rows : (json : String) → ToolPayload
  unknown_entity_named : String → ToolPayload
  form_presented : String → ToolPayload
  violations : List Violation → ToolPayload
  proposed : PendingBlock → ToolPayload
  unknown_tool : String → ToolPayload

pub data ErrorCode : Type 0 where
  unauthorized internal : ErrorCode

pub data Event : Type 0 where
  thinking : Event
  block : Block → Event
  error : ErrorCode → String → Event
  finished : Event

-- `reply` is the model's answer to a transcript, `run_sql` a statement of the reader in its own session.
pub record Model : Type 0 where
  pub reply : List Message → Result String (List ReplyBlock)
  pub run_sql : String → Database → Result String String × Database
  pub capitalize : String → String
  pub strip_join : List String → String
  pub print_reply : ReplyBlock → String
  pub print_result : String → ToolPayload → String
  pub print_block : Block → String
  pub now : ℕ

-- The state of the service, and what the running turn has gathered.
pub record Turning : Type 0 where
  pub state : State
  pub transcript : List Message
  pub emitted : List Block
  pub events : List Event

abbrev pub Turn : Type 0 → Type 0
Turn = Exec String Turning

-- `MAX_TOOL_ROUNDS`
abbrev pub max_tool_rounds : ℕ
max_tool_rounds = 10

abbrev pub tools_of : List ReplyBlock → List ToolUse
tools_of [] = []
tools_of (say s ∷ rest) = tools_of rest
tools_of (use_tool u ∷ rest) = u ∷ tools_of rest

abbrev pub texts_of : List ReplyBlock → List String
texts_of [] = []
texts_of (say s ∷ rest) = s ∷ texts_of rest
texts_of (use_tool u ∷ rest) = texts_of rest

abbrev pub emit : Event → Turn (Unit {0})
emit e = modify (λ t. record t { events = t.events ++ e ∷ [] })

abbrev pub emit_block : Block → Turn (Unit {0})
emit_block b =
    modify (λ t. record t { emitted = t.emitted ++ b ∷ []; events = t.events ++ block b ∷ [] })

abbrev pub emit_if_some : Option Block → Turn (Unit {0})
emit_if_some none = pure tt
emit_if_some (some b) = emit_block b

abbrev pub say_message : Message → Turn (Unit {0})
say_message m = modify (λ t. record t { transcript = t.transcript ++ m ∷ [] })

abbrev pub staged_payload : StageAnswer → ToolPayload × Option Block
staged_payload (staged_as b) = (proposed b, some (pending_change b))
staged_payload (refused_for viols) = (violations viols, none)
staged_payload (unknown_entity e) = (unknown_entity_named e, none)

-- A step on the service's state inside a turn.
abbrev pub on_state : {A : Type 0} → (State → A × State) → Turn A
on_state step t = let out = step t.state in (ok out.0, record t { state = out.1 })

abbrev pub keep_database : Database → State → State
keep_database db s = record s { database = db }

abbrev pub answer_text : String → Turn (Unit {0})
answer_text raw = if raw == "" then pure tt else emit_block (text_block raw)

-- `except Exception`: what was done before stays done.
abbrev pub caught : Result String (Unit {0}) × Turning → State × List Event
caught (ok u, t) = (t.state, t.events)
caught (err message, t) = (t.state, t.events ++ error internal message ∷ [])

-- What a turn starts from.
abbrev pub started : String → String → String → State → Turning
started conversation_id session_id user_message s = record {
  state = s;
  transcript =
      get_transcript conversation_id session_id s.history
      ++ record { role = "user"; content = plain user_message } ∷ [];
  emitted = [];
  events = thinking ∷ [];
}

-- `if not tool_uses`
abbrev pub by_tools : List ToolUse → Turn (Unit {0}) → Turn (Unit {0}) → Turn (Unit {0})
by_tools [] finish continue = finish
by_tools (u ∷ us) finish continue = continue

module _ (env : Env) (model : Model) where
  abbrev pub form_payload :
      String
      → String
      → Option Scalar
      → Record
      → Database
      → Result RegistryError EntityRule
      → ToolPayload × Option Block
  form_payload entity operation target_pk prefill db (err e) = (unknown_entity_named entity, none)
  form_payload entity operation target_pk prefill db (ok rule) = (
    form_presented entity,
    some (
        form_block (
          build_form (env.world db) model.capitalize rule env.registry operation target_pk
            prefill)),
  )

  abbrev pub read_rows : String → Turn String
  read_rows sql t =
      let out = model.run_sql sql t.state.database in
      (out.0, record t { state = keep_database out.1 t.state })

  unfoldable pub handle_tool : String → ToolCall → Turn (ToolPayload × Option Block)
  handle_tool conversation_id (lookup_rows sql) = do json ← read_rows sql; pure (rows json, none)
  handle_tool conversation_id (present_form entity operation target_pk prefill) = gets (λ t.
      form_payload entity operation target_pk prefill t.state.database
        (get_rule entity env.registry))
  handle_tool conversation_id (propose_change entity operation fields target_pk) = do
    answer ← on_state (validate_and_stage env conversation_id entity operation fields target_pk)
    pure (staged_payload answer)
  handle_tool conversation_id (other_tool name) = pure (unknown_tool name, none)

  -- The tools of a reply, in order, and their results.
  unfoldable pub use_tools : String → List ToolUse → Turn (List String)
  unfolding handle_tool
  use_tools conversation_id [] = pure []
  use_tools conversation_id (u ∷ rest) = do
    out ← handle_tool conversation_id u.call
    emit_if_some out.1
    later ← use_tools conversation_id rest
    pure (model.print_result u.id out.0 ∷ later)

  abbrev pub keep_turn : String → String → String → Turn (Unit {0})
  keep_turn conversation_id session_id user_message t = (
    ok tt,
    record t {
      state = record t.state {
        history =
            (append_turn conversation_id session_id
              (record {
                user_message = user_message;
                blocks = map model.print_block t.emitted;
                citations = [];
                steps = [];
                ts = model.now;
              })
              t.transcript t.state.history).1;
      };
    },
  )

  -- A reply that uses no tool ends the turn.
  unfoldable pub finish_turn : String → String → String → List ReplyBlock → Turn (Unit {0})
  finish_turn conversation_id session_id user_message content = do
    let raw = model.strip_join (texts_of content)
    answer_text raw
    say_message (record { role = "assistant"; content = plain raw })
    keep_turn conversation_id session_id user_message
    emit finished

  unfoldable pub tool_round : String → List ReplyBlock → Turn (Unit {0})
  unfolding use_tools
  tool_round conversation_id content = do
    say_message (record { role = "assistant"; content = blocks (map model.print_reply content) })
    results ← use_tools conversation_id (tools_of content)
    say_message (record { role = "user"; content = blocks results })

  abbrev pub call_model : Turn (List ReplyBlock)
  call_model t = (model.reply t.transcript, t)

  -- The `while` loop, with the calls of the model that are left.
  unfoldable pub rounds : ℕ → String → String → String → Turn (Unit {0})
  unfolding finish_turn tool_round
  rounds zero conversation_id session_id user_message =
      emit (error internal "too many tool rounds; stopping")
  rounds (suc n) conversation_id session_id user_message = do
    content ← call_model
    by_tools (tools_of content) (finish_turn conversation_id session_id user_message content)
        (tool_round conversation_id content >> rounds n conversation_id session_id user_message)

  unfoldable pub stream_turn : String → String → String → State → State × List Event
  unfolding rounds
  stream_turn conversation_id session_id user_message s =
      when_owned (get_conversation conversation_id session_id s.history)
        (s, error unauthorized "conversation not found" ∷ [])
        (caught (
          rounds (suc max_tool_rounds) conversation_id session_id user_message
            (started conversation_id session_id user_message s)))
