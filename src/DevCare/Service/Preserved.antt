-- ===== src/DevCare/Service/Preserved.antt =====
-- What the steps of a turn keep, an invariant at a time.
use erp_agent.Prelude.{
  ℕ, zero, suc, String, Option, none, some, List, [], ◌∷◌, ◌==◌, Result, ok, err, Bool-cases,
  Option-cases, inl, inr,
}
use erp_agent.Prelude.Exec.{Preserves, Preserves-bind, Preserves-pure, Preserves-then}
use erp_agent.Chat.Transcript.{Message}
use erp_agent.Chat.History.{Store, get_conversation}
use erp_agent.DevCare.Rules.{Scalar, Record}
use erp_agent.DevCare.Service.{State, Env, validate_and_stage}
use erp_agent.DevCare.Service.Turn.{
  ToolCall, lookup_rows, present_form, propose_change, other_tool, ToolUse, ReplyBlock, Block,
  Model, Turning, Turn, max_tool_rounds, tools_of, emit, emit_block, emit_if_some, say_message,
  read_rows, on_state, handle_tool, use_tools, answer_text, keep_turn, finish_turn, texts_of,
  finished, rows, staged_payload, Event, tool_round, call_model, rounds, caught, stream_turn,
  keep_database, by_tools,
}

-- A round of tools keeps what its messages, its blocks and each of its tools keep.
module _ (env : Env) (model : Model) (P : Turning → Type 0)
    (says : (m : Message) → Preserves P (say_message m))
    (emits : (b : Block) → Preserves P (emit_block b))
    (handles : (conversation_id : String) (call : ToolCall)
      → Preserves P (handle_tool env model conversation_id call)) where
  emit_if_some-Preserves : (b : Option Block) → Preserves P (emit_if_some b)
  emit_if_some-Preserves none = record { at = λ t h. h }
  emit_if_some-Preserves (some b) = emits b

  use_tools-Preserves :
      (conversation_id : String) (us : List ToolUse)
      → Preserves P (use_tools env model conversation_id us)
  unfolding use_tools
  use_tools-Preserves c [] = Preserves-pure []
  use_tools-Preserves c (u ∷ us) = Preserves-bind (handles c u.call) (λ out.
      Preserves-then (emit_if_some-Preserves out.1) (
        Preserves-bind (use_tools-Preserves c us)
          (λ later. Preserves-pure (model.print_result u.id out.0 ∷ later))))

  pub tool_round-Preserves :
      (conversation_id : String) (content : List ReplyBlock)
      → Preserves P (tool_round env model conversation_id content)
  unfolding tool_round
  tool_round-Preserves c content =
      Preserves-then (says _)
        (Preserves-bind (use_tools-Preserves c (tools_of content)) (λ results. says _))

-- A turn keeps what staging, the reader and the history keep of the service's state.
module _ (env : Env) (model : Model) (Q : State → Type 0)
    (reads : (sql : String) (s : State)
      → Q s
      → Q (keep_database (model.run_sql sql s.database).1 s))
    (stages : (conversation_id entity operation : String) (fields : Record)
        (target_pk : Option Scalar) (s : State)
      → Q s
      → Q (validate_and_stage env conversation_id entity operation fields target_pk s).1)
    (writes : (h : Store) (s : State) → Q s → Q (record s { history = h })) where
  abbrev OfState : Turning → Type 0
  OfState t = Q t.state

  say_message-OfState : (m : Message) → Preserves OfState (say_message m)
  say_message-OfState m = record { at = λ t h. h }

  emit_block-OfState : (b : Block) → Preserves OfState (emit_block b)
  emit_block-OfState b = record { at = λ t h. h }

  emit-OfState : (e : Event) → Preserves OfState (emit e)
  emit-OfState e = record { at = λ t h. h }

  keep_turn-OfState :
      (conversation_id session_id user_message : String)
      → Preserves OfState (keep_turn env model conversation_id session_id user_message)
  keep_turn-OfState c sid u = record { at = λ t h. writes _ t.state h }

  propose-OfState :
      (conversation_id entity operation : String) (fields : Record) (target_pk : Option Scalar)
      → Preserves OfState
          (on_state (validate_and_stage env conversation_id entity operation fields target_pk))
  propose-OfState c e o fields pk = record { at = λ t h. stages c e o fields pk t.state h }

  read_rows-OfState : (sql : String) → Preserves OfState (read_rows env model sql)
  read_rows-OfState sql = record { at = λ t h. reads sql t.state h }

  handle_tool-OfState :
      (conversation_id : String) (call : ToolCall)
      → Preserves OfState (handle_tool env model conversation_id call)
  unfolding handle_tool
  handle_tool-OfState c (lookup_rows sql) =
      Preserves-bind (read_rows-OfState sql) (λ json. Preserves-pure (rows json, none))
  handle_tool-OfState c (present_form e o pk prefill) = record { at = λ t h. h }
  handle_tool-OfState c (propose_change e o fields pk) =
      Preserves-bind (propose-OfState c e o fields pk)
        (λ answer. Preserves-pure (staged_payload answer))
  handle_tool-OfState c (other_tool name) = Preserves-pure _

  answer_text-OfState : (raw : String) → Preserves OfState (answer_text raw)
  answer_text-OfState raw = elim (Bool-cases (raw == "")) [
    | inl e ↦ rw e (Preserves-pure tt)
    | inr e ↦ rw e (record { at = λ t h. h })
  ]

  finish_turn-OfState :
      (conversation_id session_id user_message : String) (content : List ReplyBlock)
      → Preserves OfState (finish_turn env model conversation_id session_id user_message content)
  unfolding finish_turn
  finish_turn-OfState c s u content =
      Preserves-then (answer_text-OfState (model.strip_join (texts_of content))) (
        Preserves-then (say_message-OfState _)
          (Preserves-then (keep_turn-OfState c s u) (emit-OfState finished)))

  by_tools-OfState :
      (us : List ToolUse) {finish continue : Turn (Unit {0})}
      → Preserves OfState finish
      → Preserves OfState continue
      → Preserves OfState (by_tools us finish continue)
  by_tools-OfState [] hf hc = hf
  by_tools-OfState (u ∷ us) hf hc = hc

  rounds-OfState :
      (n : ℕ) (conversation_id session_id user_message : String)
      → Preserves OfState (rounds env model n conversation_id session_id user_message)
  unfolding rounds
  rounds-OfState zero c s u = record { at = λ t h. h }
  rounds-OfState (suc n) c s u =
      Preserves-bind {m = call_model env model} (record { at = λ t h. h })
        (λ content. by_tools-OfState (tools_of content) (finish_turn-OfState c s u content) (
          Preserves-then
            (tool_round-Preserves env model OfState say_message-OfState emit_block-OfState
              handle_tool-OfState c content)
            (rounds-OfState n c s u)))

  caught-OfState : (out : Result String (Unit {0}) × Turning) → OfState out.1 → Q (caught out).0
  caught-OfState (ok u, t) h = h
  caught-OfState (err message, t) h = h

  pub stream_turn-OfState :
      (conversation_id session_id user_message : String) (s : State)
      → Q s
      → Q (stream_turn env model conversation_id session_id user_message s).0
  unfolding stream_turn
  stream_turn-OfState c sid u s h = elim (Option-cases (get_conversation c sid s.history)) [
    | inl n ↦ rw n h
    | inr (d, e) ↦ rw e (caught-OfState _ ((rounds-OfState (suc max_tool_rounds) c sid u).at _ h))
  ]
