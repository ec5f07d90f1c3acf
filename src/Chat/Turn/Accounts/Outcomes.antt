-- ===== src/Chat/Turn/Accounts/Outcomes.antt =====
-- logic/chat/service.py: how the loop of a turn comes out.
use erp_agent.Prelude.{
  ℕ, zero, suc, String, Bool, true, false, not, List, [], ◌∷◌, ◌++◌, Result, ok, err, ◌≡◌, refl,
  arith,
}
use erp_agent.Prelude.Exec.{pure, ◌>>=◌, ◌>>◌, Preserves}
use erp_agent.Chat.Transcript.{Message}
use erp_agent.Chat.Turn.{
  Turn, tools_of, texts_of, truncation_message, Progress, over, out_of_calls, by_tools, by_limit,
  emit_parsed, emit_envelope, truncated_turn, close_turn, finish_turn, call_claude, rounds,
}
use erp_agent.Chat.Turn.State.{
  ToolUse, ReplyBlock, answer_truncated, envelope_parse, Event, error, done, LogLine,
  ClaudeEnvelope, Env, Turning,
}
use erp_agent.Chat.Turn.Accounts.Logged.{
  is_last, has_error, is_in_error, has_error-append, in_error-parsed, IsLogged, same-IsLogged, Inv,
  say_message-Inv, add_usage-Inv, tool_round-Inv, add_citations-Inv, add_blocks-Inv,
}

module _ (log : List LogLine) where
  -- From a turn with no error, a step either raises in such a turn or establishes `Q`.
  abbrev pub Post : {A : Type 0} → (A → Turning → Type 0) → Result String A × Turning → Type 0
  Post Q (ok a, t) = Q a t
  Post Q (err message, t) = Inv log t

  pub record Comes {A : Type 0} (Q : A → Turning → Type 0) (m : Turn A) : Type 0 where
    pub at : (t : Turning) → Inv log t → Post Q (m t)

  Comes-bind :
      {A B : Type 0} {Q : B → Turning → Type 0} {m : Turn A} {f : A → Turn B}
      → Preserves (Inv log) m
      → ((a : A) → Comes Q (f a))
      → Comes Q (m >>= f)
  Comes-bind {A} {B} {Q} {m} {f} hm hf = record { at = λ t h. cases (m t) (hm.at t h) }
    where
      cases :
          (out : Result String A × Turning)
          → Inv log out.1
          → Post Q (((λ (t : Turning). out) >>= f) out.1)
      cases (ok a, t) h = (hf a).at t h
      cases (err e, t) h = h

  Comes-then :
      {A : Type 0} {Q : A → Turning → Type 0} {m : Turn (Unit {0})} {k : Turn A}
      → Preserves (Inv log) m
      → Comes Q k
      → Comes Q (m >> k)
  Comes-then hm hk = Comes-bind hm (λ u. hk)

  Comes-seq :
      {A B : Type 0} {Q : A → Turning → Type 0} {R : B → Turning → Type 0} {m : Turn A}
      (f : A → Turn B)
      → Comes Q m
      → ((a : A) (t : Turning) → Q a t → Post R (f a t))
      → Comes R (m >>= f)
  Comes-seq {A} {B} {Q} {R} {m} f hm hf = record { at = λ t h. cases (m t) (hm.at t h) }
    where
      cases :
          (out : Result String A × Turning)
          → Post Q out
          → Post R (((λ (t : Turning). out) >>= f) out.1)
      cases (ok a, t) h = hf a t h
      cases (err e, t) h = h

  abbrev Parsed : Bool → Turning → Type 0
  Parsed b t = IsLogged log t × (has_error t.events ≡ not b)

  pure-Parsed : Comes Parsed (pure true)
  pure-Parsed = record { at = λ t k. (k.0, ground (arith, k.1)) }

  -- A parse failure is an error event, and nothing else is.
  emit_parsed-Parsed :
      (env : Env) (r : Result String ClaudeEnvelope) → Comes Parsed (emit_parsed env r)
  emit_parsed-Parsed env (err message) = record {
    at = λ t k. (
      same-IsLogged k.0 refl refl,
      ground (arith, has_error-append t.events (error envelope_parse message ∷ [])),
    );
  }
  emit_parsed-Parsed env (ok envelope) =
      Comes-then (add_blocks-Inv log env envelope.blocks)
        (Comes-then (add_citations-Inv log envelope.citations) pure-Parsed)

  -- How a turn is over: one line for each query, an error event exactly where the status says so, and an
  -- event that ends the turn.
  pub record IsOver (t : Turning) : Type 0 where
    pub account : IsLogged log t
    pub agrees : has_error t.events ≡ is_in_error t.status
    pub before : List Event
    pub last : Event
    pub split : t.events ≡ before ++ last ∷ []
    pub ends : is_last last ≡ true

  abbrev pub Out : Progress → Turning → Type 0
  Out over t = IsOver t
  Out out_of_calls t = Unit

  close_turn-Out :
      (env : Env) (conversation_id session_id user_message : String) (b : Bool) (t : Turning)
      → Parsed b t
      → Post Out (close_turn env conversation_id session_id user_message b t)
  close_turn-Out env c s u b t k = record {
    account = same-IsLogged k.0 refl refl;
    agrees = ground (arith, has_error-append t.events (done ∷ []), k.1, in_error-parsed b);
    before = t.events;
    last = done;
    split = refl;
    ends = refl;
  }

  finish_turn-Out :
      (env : Env) (conversation_id session_id user_message : String) (content : List ReplyBlock)
      → Comes Out (finish_turn env conversation_id session_id user_message content)
  unfolding finish_turn emit_envelope
  finish_turn-Out env c s u content = Comes-then (say_message-Inv log _) (
      Comes-seq (close_turn env c s u)
        (emit_parsed-Parsed env (env.parse_envelope (env.strip_join (texts_of content))))
        (close_turn-Out env c s u))

  truncated_turn-Out :
      (env : Env) (conversation_id session_id user_message : String) (question : List Message)
      (tools : List ToolUse)
      → Comes Out (truncated_turn env conversation_id session_id user_message question tools)
  unfolding truncated_turn
  truncated_turn-Out env c s u question tools = record {
    at = λ t k. record {
      account = same-IsLogged k.0 refl refl;
      agrees = ground (
        arith,
        has_error-append (t.events ++ error answer_truncated (truncation_message tools) ∷ [])
            (done ∷ []),
        has_error-append t.events (error answer_truncated (truncation_message tools) ∷ []),
      );
      before = t.events ++ error answer_truncated (truncation_message tools) ∷ [];
      last = done;
      split = refl;
      ends = refl;
    };
  }

  by_limit-Out :
      (b : Bool) {m k : Turn Progress} → Comes Out m → Comes Out k → Comes Out (by_limit b m k)
  by_limit-Out true hm hk = hm
  by_limit-Out false hm hk = hk

  by_tools-Out :
      (us : List ToolUse) {m k : Turn Progress}
      → Comes Out m
      → Comes Out k
      → Comes Out (by_tools us m k)
  by_tools-Out [] hm hk = hm
  by_tools-Out (u ∷ us) hm hk = hk

  call_claude-Inv : (env : Env) → Preserves (Inv log) (call_claude env)
  unfolding call_claude
  call_claude-Inv env = record { at = λ t k. k }

  pub rounds-Out :
      (env : Env) (n : ℕ) (conversation_id session_id user_message : String)
      (question : List Message)
      → Comes Out (rounds env n conversation_id session_id user_message question)
  unfolding rounds
  rounds-Out env zero c s u question = record { at = λ t k. tt }
  rounds-Out env (suc n) c s u question = Comes-bind (call_claude-Inv env) (λ reply.
      Comes-then (add_usage-Inv log reply.usage) (
        by_limit-Out reply.at_max_tokens
          (truncated_turn-Out env c s u question (tools_of reply.content))
          (by_tools-Out (tools_of reply.content) (finish_turn-Out env c s u reply.content)
            (Comes-then (tool_round-Inv log env reply.content) (rounds-Out env n c s u question)))))
