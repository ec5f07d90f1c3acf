-- ===== src/Chat/Turn.antt =====
-- logic/chat/service.py (stream_turn, _emit_envelope, _write_turn_summary): one turn of a conversation, as the
-- events that it yields. The language model, the queries, JSON and drawn ids are parameters. The log holds the
-- entries that it is given. The cost of a call, the title that is drawn up in the background after a first turn,
-- and a client that goes away in the middle are left out.
pub mod State
pub mod Accounts
pub mod Ending
mod Tests
use erp_agent.Prelude.{
  ℕ, zero, suc, ◌+◌, String, Bool, true, false, not, Option, none, some, List, [], ◌∷◌, ◌++◌, ◌==◌,
  if◌then◌else◌, map, Result, ok, err,
}
use erp_agent.Prelude.Exec.{Exec, pure, modify, ◌>>=◌, ◌>>◌}
use erp_agent.Chat.Transcript.{Message, plain, blocks}
use erp_agent.Chat.History.{ConversationDetail, get_conversation, get_transcript, append_turn}
use erp_agent.Chat.Reports.{register_report}
use erp_agent.Chat.Sql.{QueryOutcome, answered, rejected, failed, timeout, db_error, take}
use erp_agent.Chat.Compress.{compress_past_turns}
use erp_agent.Chat.Turn.State.{
  say, use_tool, usage_step, reasoning, query, unauthorized, internal, answer_truncated,
  envelope_parse, thinking, querying, step, block, citation, error, done, aborted, succeeded,
  in_error, query_line, turn_summary, raw_report, payload_block, Usage, ToolUse, ReplyBlock, Reply,
  Step, Event, TurnStatus, TurnSummary, LogLine, EnvelopeBlock, ClaudeEnvelope, ChatState, Env,
  Turning,
}

abbrev pub Turn : Type 0 → Type 0
Turn = Exec String Turning

-- `STEP_ROWS_PREVIEW`
abbrev pub step_rows_preview : ℕ
step_rows_preview = 5

abbrev pub tools_of : List ReplyBlock → List ToolUse
tools_of [] = []
tools_of (say s ∷ rest) = tools_of rest
tools_of (use_tool u ∷ rest) = u ∷ tools_of rest

abbrev pub texts_of : List ReplyBlock → List String
texts_of [] = []
texts_of (say s ∷ rest) = s ∷ texts_of rest
texts_of (use_tool u ∷ rest) = texts_of rest

abbrev pub emit : Event → Turn (Unit {0})
emit e = modify (λ t. record t { events = t.events ++ e ∷ [] })

abbrev pub set_status : TurnStatus → Turn (Unit {0})
set_status status = modify (λ t. record t { status = status })

abbrev pub add_step : Step → Turn (Unit {0})
add_step s = modify (λ t. record t { steps = t.steps ++ s ∷ []; events = t.events ++ step s ∷ [] })

abbrev pub add_usage : Option Usage → Turn (Unit {0})
add_usage none = pure tt
add_usage (some u) = add_step (usage_step u)

abbrev pub say_message : Message → Turn (Unit {0})
say_message m = modify (λ t. record t { transcript = t.transcript ++ m ∷ [] })

abbrev pub log_line : LogLine → Turn (Unit {0})
log_line l = modify (λ t. record t { state = record t.state { log = t.state.log ++ l ∷ [] } })

-- Token and query counts of the steps.
abbrev pub is_query : Step → ℕ
is_query (usage_step u) = 0
is_query (reasoning s) = 0
is_query (query sql outcome preview) = 1

abbrev pub usage_or : (Usage → ℕ) → Step → ℕ
usage_or f (usage_step u) = f u
usage_or f (reasoning s) = 0
usage_or f (query sql outcome preview) = 0

abbrev pub total : (Step → ℕ) → List Step → ℕ
total f [] = 0
total f (s ∷ ss) = f s + total f ss

unfoldable pub summary_of : TurnStatus → List Step → TurnSummary
summary_of status steps = record {
  status = status;
  claude_calls = total (usage_or (λ u. 1)) steps;
  sql_queries = total is_query steps;
  total_input_tokens = total (usage_or (λ u. u.input_tokens)) steps;
  total_output_tokens = total (usage_or (λ u. u.output_tokens)) steps;
  total_cache_read_input_tokens = total (usage_or (λ u. u.cache_read_input_tokens)) steps;
  total_cache_creation_input_tokens = total (usage_or (λ u. u.cache_creation_input_tokens)) steps;
}

-- `result.code` of an outcome that is no answer
abbrev pub error_code : QueryOutcome → Option String
error_code (answered r) = none
error_code (rejected r) = some "rejected"
error_code (failed timeout) = some "timeout"
error_code (failed (db_error message)) = some "db_error"

abbrev pub line_of : String → QueryOutcome → LogLine
line_of sql (answered r) = query_line sql (some r.row_count) (some r.duration_ms) none
line_of sql outcome = query_line sql none none (error_code outcome)

abbrev pub preview_of : QueryOutcome → List String
preview_of (answered r) = take step_rows_preview r.rows
preview_of outcome = []

abbrev pub no_room : String
no_room =
    "Claude ran out of room while working on this and stopped before answering. Try breaking the question into smaller parts."

abbrev pub too_large : String
too_large =
    "The answer was too large and got cut off. Ask for a narrower period, fewer columns, or a top-N instead."

abbrev pub truncation_message : List ToolUse → String
truncation_message [] = too_large
truncation_message (u ∷ us) = no_room

-- How the loop comes out: the turn is over, or the calls that were allowed are used up.
pub data Progress : Type 0 where
  over out_of_calls : Progress

-- `if not tool_uses`
abbrev pub by_tools : {A : Type 0} → List ToolUse → A → A → A
by_tools [] finish continue = finish
by_tools (u ∷ us) finish continue = continue

-- `if stop_reason == "max_tokens"`
abbrev pub by_limit : {A : Type 0} → Bool → A → A → A
by_limit true truncated continue = truncated
by_limit false truncated continue = continue

abbrev pub parsed_status : Bool → TurnStatus
parsed_status true = succeeded
parsed_status false = in_error

abbrev pub add_citation : String → Turn (Unit {0})
add_citation c =
    modify
      (λ t. record t { citations = t.citations ++ c ∷ []; events = t.events ++ citation c ∷ [] })

abbrev pub add_citations : List String → Turn (Unit {0})
add_citations [] = pure tt
add_citations (c ∷ cs) = do add_citation c; add_citations cs

abbrev pub announce : List ToolUse → Turn (Unit {0})
announce [] = pure tt
announce (u ∷ us) = do emit (querying u.sql); announce us

abbrev pub add_reasoning : String → Turn (Unit {0})
add_reasoning text = if text == "" then pure tt else add_step (reasoning text)

module _ (env : Env) where
  -- A block's payload; a report is registered first.
  unfoldable pub payload_of : EnvelopeBlock → Turn String
  unfolding register_report
  payload_of (payload_block p) t = (ok p, t)
  payload_of (raw_report r) t =
      let rid = env.draw_id t.state.reports in
      (
        ok (env.print_report rid r),
        record t {
          state = record t.state {
            reports = register_report env.max_reports rid r t.state.reports;
          };
        },
      )

  abbrev pub add_block : String → Turn (Unit {0})
  add_block p =
      modify (λ t. record t { blocks = t.blocks ++ p ∷ []; events = t.events ++ block p ∷ [] })

  unfoldable pub add_blocks : List EnvelopeBlock → Turn (Unit {0})
  unfolding payload_of
  add_blocks [] = pure tt
  add_blocks (b ∷ bs) = do p ← payload_of b; add_block p; add_blocks bs

  abbrev pub emit_parsed : Result String ClaudeEnvelope → Turn Bool
  emit_parsed (err message) = emit (error envelope_parse message) >> pure false
  emit_parsed (ok envelope) = do
    add_blocks envelope.blocks
    add_citations envelope.citations
    pure true

  -- Whether the reply could be parsed.
  unfoldable pub emit_envelope : String → Turn Bool
  unfolding add_blocks
  emit_envelope raw = emit_parsed (env.parse_envelope raw)

  abbrev pub keep_turn : String → String → String → List Message → Turn (Unit {0})
  keep_turn conversation_id session_id user_message transcript t = (
    ok tt,
    record t {
      state = record t.state {
        history =
            (append_turn conversation_id session_id
              (record {
                user_message = user_message;
                blocks = t.blocks;
                citations = t.citations;
                steps = map env.print_step t.steps;
                ts = env.now;
              })
              transcript t.state.history).1;
      };
    },
  )

  abbrev pub keep_transcript : String → String → String → Turn (Unit {0})
  keep_transcript conversation_id session_id user_message t =
      keep_turn conversation_id session_id user_message t.transcript t

  -- A reply that was cut off: the question and the steps are kept, the reply is not.
  unfoldable pub truncated_turn :
      String → String → String → List Message → List ToolUse → Turn Progress
  truncated_turn conversation_id session_id user_message question tools = do
    set_status in_error
    emit (error answer_truncated (truncation_message tools))
    keep_turn conversation_id session_id user_message question
    emit done
    pure over

  abbrev pub close_turn : String → String → String → Bool → Turn Progress
  close_turn conversation_id session_id user_message parsed_ok = do
    keep_transcript conversation_id session_id user_message
    set_status (parsed_status parsed_ok)
    emit done
    pure over

  unfoldable pub finish_turn : String → String → String → List ReplyBlock → Turn Progress
  unfolding emit_envelope
  finish_turn conversation_id session_id user_message content = do
    let raw = env.strip_join (texts_of content)
    say_message (record { role = "assistant"; content = plain raw })
    parsed_ok ← emit_envelope raw
    close_turn conversation_id session_id user_message parsed_ok

  abbrev pub record_result : ToolUse → QueryOutcome → Turn String
  record_result u outcome = do
    log_line (line_of u.sql outcome)
    add_step (query u.sql outcome (preview_of outcome))
    pure (env.print_outcome u.id outcome)

  -- The queries ran at once before; their results are recorded in order.
  unfoldable pub record_results : List ToolUse → Turn (List String)
  record_results [] = pure []
  record_results (u ∷ us) = do
    here ← record_result u (env.run_query u.sql)
    later ← record_results us
    pure (here ∷ later)

  unfoldable pub tool_round : List ReplyBlock → Turn (Unit {0})
  unfolding record_results
  tool_round content = do
    add_reasoning (env.strip_join (texts_of content))
    say_message (record { role = "assistant"; content = blocks (map env.print_reply content) })
    announce (tools_of content)
    results ← record_results (tools_of content)
    say_message (record { role = "user"; content = blocks results })

  unfoldable pub call_claude : Turn Reply
  unfolding compress_past_turns
  call_claude t = (env.reply (compress_past_turns env.json t.transcript), t)

  -- The loop, for at most so many calls of the model.
  unfoldable pub rounds : ℕ → String → String → String → List Message → Turn Progress
  unfolding call_claude truncated_turn finish_turn tool_round
  rounds zero conversation_id session_id user_message question = pure out_of_calls
  rounds (suc n) conversation_id session_id user_message question = do
    reply ← call_claude
    add_usage reply.usage
    by_limit reply.at_max_tokens
        (truncated_turn conversation_id session_id user_message question (tools_of reply.content))
        (by_tools (tools_of reply.content)
          (finish_turn conversation_id session_id user_message reply.content)
          (tool_round reply.content >> rounds n conversation_id session_id user_message question))

  abbrev pub closed : String → String → String → Turning → ChatState × List Event
  closed conversation_id session_id user_message t = (
    record t.state {
      log =
          t.state.log
          ++ turn_summary conversation_id session_id user_message (summary_of t.status t.steps)
            ∷ [];
    },
    t.events,
  )

  -- The `except` and the `finally`; nothing where the allowed calls were used up.
  abbrev pub ending :
      String → String → String → Result String Progress × Turning → Option (ChatState × List Event)
  ending conversation_id session_id user_message (ok over, t) =
      some (closed conversation_id session_id user_message t)
  ending conversation_id session_id user_message (ok out_of_calls, t) = none
  ending conversation_id session_id user_message (err message, t) = some (
      closed conversation_id session_id user_message
        (record t { status = in_error; events = t.events ++ error internal message ∷ [] }))

  abbrev pub question_of : String → String → String → ChatState → List Message
  question_of conversation_id session_id user_message s =
      get_transcript conversation_id session_id s.history
      ++ record { role = "user"; content = plain user_message } ∷ []

  abbrev pub started : String → String → String → ChatState → Turning
  started conversation_id session_id user_message s = record {
    state = s;
    transcript = question_of conversation_id session_id user_message s;
    blocks = [];
    citations = [];
    steps = [];
    events = thinking ∷ [];
    status = aborted;
  }

  abbrev pub begin :
      ℕ
      → String
      → String
      → String
      → Option ConversationDetail
      → ChatState
      → Option (ChatState × List Event)
  begin calls conversation_id session_id user_message none s =
      some (s, error unauthorized "conversation not found" ∷ [])
  begin calls conversation_id session_id user_message (some c) s =
      ending conversation_id session_id user_message (
        rounds calls conversation_id session_id user_message
          (question_of conversation_id session_id user_message s)
          (started conversation_id session_id user_message s))

  -- One turn, of at most so many calls of the model.
  unfoldable pub stream_turn :
      ℕ → String → String → String → ChatState → Option (ChatState × List Event)
  unfolding rounds summary_of
  stream_turn calls conversation_id session_id user_message s =
      begin calls conversation_id session_id user_message
        (get_conversation conversation_id session_id s.history) s
