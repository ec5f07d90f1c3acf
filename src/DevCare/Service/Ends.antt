-- ===== src/DevCare/Service/Ends.antt =====
-- Every turn ends.
use erp_agent.Prelude.{
  ℕ, zero, suc, String, Bool, true, false, Option, none, List, [], ◌∷◌, ◌++◌, ◌==◌, Result, ok, err,
  ◌≡◌, refl, All, All-snoc, Bool-cases, Option-cases, inl, inr,
}
use erp_agent.Prelude.Exec.{◌>>=◌, ◌>>◌}
use erp_agent.Prelude.Exec.{Preserves, Preserves-bind, Preserves-pure}
use erp_agent.Chat.Transcript.{Message}
use erp_agent.Chat.History.{get_conversation}
use erp_agent.DevCare.Rules.{Scalar, Record}
use erp_agent.DevCare.Service.{State, Env, validate_and_stage}
use erp_agent.DevCare.Service.Turn.{
  ToolCall, lookup_rows, present_form, propose_change, other_tool, ToolUse, ReplyBlock, Block,
  unauthorized, internal, Event, thinking, block, error, finished, rows, staged_payload, texts_of,
  Model, Turning, Turn, max_tool_rounds, tools_of, started, emit, emit_block, say_message,
  read_rows, on_state, handle_tool, answer_text, keep_turn, finish_turn, call_model, by_tools,
  rounds, caught, stream_turn,
}
use erp_agent.DevCare.Service.Preserved.{tool_round-Preserves}

abbrev pub is_last : Event → Bool
is_last thinking = false
is_last (block b) = false
is_last (error code message) = true
is_last finished = true

-- No event so far ends the turn.
abbrev pub AreOpen : List Event → Type 0
AreOpen = All (λ e. is_last e ≡ false)

-- One event ends the turn, and it is the last one.
pub record IsEnded (events : List Event) : Type 0 where
  pub before : List Event
  pub last : Event
  pub split : events ≡ before ++ last ∷ []
  pub open_before : AreOpen before
  pub ends : is_last last ≡ true

abbrev IsOpen : Turning → Type 0
IsOpen t = AreOpen t.events

-- How the rounds come out: ended, or raised in the middle.
abbrev ComesOut : Result String (Unit {0}) × Turning → Type 0
ComesOut (ok u, t) = IsEnded t.events
ComesOut (err message, t) = AreOpen t.events

record Ends (m : Turn (Unit {0})) : Type 0 where
  at : (t : Turning) → IsOpen t → ComesOut (m t)

Ends-bind :
    {A : Type 0} {m : Turn A} {f : A → Turn (Unit {0})}
    → Preserves IsOpen m
    → ((a : A) → Ends (f a))
    → Ends (m >>= f)
Ends-bind {A} {m} {f} hm hf = record { at = λ t h. cases (m t) (hm.at t h) }
  where
    cases :
        (out : Result String A × Turning)
        → IsOpen out.1
        → ComesOut (((λ (t : Turning). out) >>= f) out.1)
    cases (ok a, t') h = (hf a).at t' h
    cases (err x, t') h = h

Ends-then : {m k : Turn (Unit {0})} → Preserves IsOpen m → Ends k → Ends (m >> k)
Ends-then hm hk = Ends-bind hm (λ u. hk)

ended :
    (events : List Event) (e : Event)
    → AreOpen events
    → is_last e ≡ true
    → IsEnded (events ++ e ∷ [])
ended events e h l = record { before = events; last = e; split = refl; open_before = h; ends = l }

emit-Ends : (e : Event) → is_last e ≡ true → Ends (emit e)
emit-Ends e l = record { at = λ t h. ended t.events e h l }

say_message-IsOpen : (m : Message) → Preserves IsOpen (say_message m)
say_message-IsOpen m = record { at = λ t h. h }

emit_block-IsOpen : (b : Block) → Preserves IsOpen (emit_block b)
emit_block-IsOpen b = record { at = λ t h. All-snoc (λ e. is_last e ≡ false) t.events h refl }

answer_text-IsOpen : (raw : String) → Preserves IsOpen (answer_text raw)
answer_text-IsOpen raw = elim (Bool-cases (raw == "")) [
  | inl e ↦ rw e (Preserves-pure tt)
  | inr e ↦ rw e (emit_block-IsOpen _)
]

module _ (env : Env) (model : Model) where
  read_rows-IsOpen : (sql : String) → Preserves IsOpen (read_rows env model sql)
  read_rows-IsOpen sql = record { at = λ t h. h }

  propose-IsOpen :
      (conversation_id entity operation : String) (fields : Record) (target_pk : Option Scalar)
      → Preserves IsOpen
          (on_state (validate_and_stage env conversation_id entity operation fields target_pk))
  propose-IsOpen c e o fields pk = record { at = λ t h. h }

  handle_tool-IsOpen :
      (conversation_id : String) (call : ToolCall)
      → Preserves IsOpen (handle_tool env model conversation_id call)
  unfolding handle_tool
  handle_tool-IsOpen c (lookup_rows sql) =
      Preserves-bind (read_rows-IsOpen sql) (λ json. Preserves-pure (rows json, none))
  handle_tool-IsOpen c (present_form e o pk prefill) = record { at = λ t h. h }
  handle_tool-IsOpen c (propose_change e o fields pk) =
      Preserves-bind (propose-IsOpen c e o fields pk)
        (λ answer. Preserves-pure (staged_payload answer))
  handle_tool-IsOpen c (other_tool name) = Preserves-pure _

  keep_turn-IsOpen :
      (conversation_id session_id user_message : String)
      → Preserves IsOpen (keep_turn env model conversation_id session_id user_message)
  keep_turn-IsOpen c sid u = record { at = λ t h. h }

  finish_turn-Ends :
      (conversation_id session_id user_message : String) (content : List ReplyBlock)
      → Ends (finish_turn env model conversation_id session_id user_message content)
  unfolding finish_turn
  finish_turn-Ends c s u content =
      Ends-then (answer_text-IsOpen (model.strip_join (texts_of content))) (
        Ends-then (say_message-IsOpen _)
          (Ends-then (keep_turn-IsOpen c s u) (emit-Ends finished refl)))

  by_tools-Ends :
      (us : List ToolUse) {finish continue : Turn (Unit {0})}
      → Ends finish
      → Ends continue
      → Ends (by_tools us finish continue)
  by_tools-Ends [] hf hc = hf
  by_tools-Ends (u ∷ us) hf hc = hc

  rounds-Ends :
      (n : ℕ) (conversation_id session_id user_message : String)
      → Ends (rounds env model n conversation_id session_id user_message)
  unfolding rounds
  rounds-Ends zero c s u = emit-Ends (error internal "too many tool rounds; stopping") refl
  rounds-Ends (suc n) c s u =
      Ends-bind {m = call_model env model} (record { at = λ t h. h })
        (λ content. by_tools-Ends (tools_of content) (finish_turn-Ends c s u content) (
          Ends-then
            (tool_round-Preserves env model IsOpen say_message-IsOpen emit_block-IsOpen
              handle_tool-IsOpen c content)
            (rounds-Ends n c s u)))

  caught-IsEnded :
      (out : Result String (Unit {0}) × Turning) → ComesOut out → IsEnded (caught out).1
  caught-IsEnded (ok u, t) h = h
  caught-IsEnded (err message, t) h = ended t.events (error internal message) h refl

-- A turn yields its last event whatever the model replies, whatever tools it uses and for however long it
-- goes on: exactly one event of the stream is DONE or ERROR, and it is the last.
pub stream_turn-IsEnded :
    (env : Env) (model : Model) (conversation_id session_id user_message : String) (s : State)
    → IsEnded (stream_turn env model conversation_id session_id user_message s).1
unfolding stream_turn
stream_turn-IsEnded env model c sid u s = elim (Option-cases (get_conversation c sid s.history)) [
  | inl n ↦ rw n (ended [] (error unauthorized "conversation not found") tt refl)
  | inr (d, e) ↦ rw e (
      caught-IsEnded env model (rounds env model (suc max_tool_rounds) c sid u (started c sid u s))
        ((rounds-Ends env model (suc max_tool_rounds) c sid u).at (started c sid u s) (refl, tt)))
]
