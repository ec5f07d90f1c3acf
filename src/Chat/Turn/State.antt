-- ===== src/Chat/Turn/State.antt =====
-- logic/chat/service.py: the records of a turn and what is given to it.
use erp_agent.Prelude.{ℕ, String, Bool, Option, List, Dict, Result}
use erp_agent.Chat.Transcript.{Message}
use erp_agent.Chat.History.{Store}
use erp_agent.Chat.Reports.{Report}
use erp_agent.Chat.Sql.{QueryOutcome}
use erp_agent.Chat.Compress.{Json}

-- The tokens of one call of the model.
pub record Usage : Type 0 where
  pub input_tokens : ℕ
  pub output_tokens : ℕ
  pub cache_read_input_tokens : ℕ
  pub cache_creation_input_tokens : ℕ

pub record ToolUse : Type 0 where
  pub id : String
  pub sql : String

pub data ReplyBlock : Type 0 where
  say : String → ReplyBlock
  use_tool : ToolUse → ReplyBlock

pub record Reply : Type 0 where
  pub content : List ReplyBlock
  pub at_max_tokens : Bool
  pub usage : Option Usage

pub data Step : Type 0 where
  usage_step : Usage → Step
  reasoning : String → Step
  query : (sql : String) (outcome : QueryOutcome) (rows_preview : List String) → Step

pub data ErrorCode : Type 0 where
  unauthorized internal answer_truncated envelope_parse : ErrorCode

pub data Event : Type 0 where
  thinking : Event
  querying : (sql : String) → Event
  step : Step → Event
  block : (payload : String) → Event
  citation : (payload : String) → Event
  error : ErrorCode → (message : String) → Event
  done : Event

pub data TurnStatus : Type 0 where
  aborted succeeded in_error : TurnStatus

pub record TurnSummary : Type 0 where
  pub status : TurnStatus
  pub claude_calls : ℕ
  pub sql_queries : ℕ
  pub total_input_tokens : ℕ
  pub total_output_tokens : ℕ
  pub total_cache_read_input_tokens : ℕ
  pub total_cache_creation_input_tokens : ℕ

-- A line of queries.jsonl.
pub data LogLine : Type 0 where
  query_line : (sql : String) (rows duration_ms : Option ℕ) (error_code : Option String) → LogLine
  turn_summary : (conversation_id session_id user_message : String) → TurnSummary → LogLine

-- A reply's JSON object: reports apart from the blocks that are passed on.
pub data EnvelopeBlock : Type 0 where
  raw_report : Report → EnvelopeBlock
  payload_block : (payload : String) → EnvelopeBlock

pub record ClaudeEnvelope : Type 0 where
  pub blocks : List EnvelopeBlock
  pub citations : List String

pub record ChatState : Type 0 where
  pub history : Store
  pub reports : Dict Report
  pub log : List LogLine

pub record Env : Type 0 where
  pub json : Json
  pub reply : List Message → Result String Reply
  pub run_query : String → QueryOutcome
  pub parse_envelope : String → Result String ClaudeEnvelope
  pub strip_join : List String → String
  pub print_reply : ReplyBlock → String
  pub print_outcome : String → QueryOutcome → String
  pub print_report : String → Report → String
  pub print_step : Step → String
  pub draw_id : Dict Report → String
  pub max_reports : ℕ
  pub now : ℕ

pub record Turning : Type 0 where
  pub state : ChatState
  pub transcript : List Message
  pub blocks : List String
  pub citations : List String
  pub steps : List Step
  pub events : List Event
  pub status : TurnStatus
