-- ===== src/Chat/Turn/Tests.antt =====
-- A turn with one query.
use erp_agent.Prelude.{String, false, none, List, [], ◌∷◌, Result, ok}
use erp_agent.Chat.Transcript.{Message}
use erp_agent.Chat.Compress.{Json}
use erp_agent.Chat.Sql.{QueryResult, answered}
use erp_agent.Chat.Turn.State.{Reply, say, use_tool, payload_block, ChatState, Env}

abbrev asking : Reply
asking = record {
  content = use_tool (record { id = "t1"; sql = "SELECT 1" }) ∷ [];
  at_max_tokens = false;
  usage = none;
}

abbrev answering : Reply
answering = record { content = say "One." ∷ []; at_max_tokens = false; usage = none }

-- A query first, and then the answer.
abbrev reply_to : List Message → Result String Reply
reply_to [] = ok answering
reply_to (m ∷ []) = ok asking
reply_to (m ∷ n ∷ ms) = ok answering

abbrev no_json : Json
no_json = record { read = λ s. none; print = λ e. ""; show = λ n. ""; repr = λ s. s }

abbrev one_row : QueryResult
one_row = record {
  columns = "n" ∷ [];
  rows = "1" ∷ [];
  row_count = 1;
  truncated = false;
  duration_ms = 3;
}

abbrev env : Env
env = record {
  json = no_json;
  reply = reply_to;
  run_query = λ sql. answered one_row;
  parse_envelope = λ raw. ok (record { blocks = payload_block raw ∷ []; citations = [] });
  strip_join = λ ts. elim ts [ [] ↦ "" | t ∷ rest ↦ t ];
  print_reply = λ b. "reply";
  print_outcome = λ id o. id;
  print_report = λ id r. id;
  print_step = λ s. "step";
  draw_id = λ d. "r1";
  max_reports = 20;
  now = 7;
}

abbrev fresh : ChatState
fresh = record {
  history = record {
    conversations =
        record { id = "c"; session_id = "s"; title = ""; created_at = 0; updated_at = 0 } ∷ [];
    turns = [];
  };
  reports = [];
  log = [];
}
