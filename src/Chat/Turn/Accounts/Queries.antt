-- ===== src/Chat/Turn/Accounts/Queries.antt =====
-- logic/chat/service.py: the queries that the model asks for in a turn, and the lines of the log.
use erp_agent.Prelude.{
  ℕ, zero, suc, String, Bool, true, false, Option, none, some, List, [], ◌∷◌, ◌++◌, ◌==◌, map,
  Result, ok, err, ◌≡◌, refl, sym, ap, ◌∙◌, append_assoc, append-nil, Bool-cases, inl, inr,
}
use erp_agent.Prelude.Exec.{
  pure, ◌>>=◌, ◌>>◌, Preserves, Preserves-bind, Preserves-pure, Preserves-then,
}
use erp_agent.Chat.Transcript.{Message, blocks, plain}
use erp_agent.Chat.Compress.{compress_past_turns}
use erp_agent.Chat.Sql.{QueryOutcome, answered, rejected, failed, timeout, db_error}
use erp_agent.Chat.Turn.{
  Turn, tools_of, texts_of, emit, say_message, Progress, by_tools, by_limit, announce,
  add_reasoning, add_usage, add_block, add_blocks, add_citation, add_citations, line_of, payload_of,
  emit_parsed, emit_envelope, close_turn, finish_turn, truncated_turn, record_result,
  record_results, tool_round, call_claude, rounds,
}
use erp_agent.Chat.Turn.State.{
  ToolUse, querying, ReplyBlock, Reply, Usage, raw_report, payload_block, EnvelopeBlock,
  ClaudeEnvelope, LogLine, query_line, Env, Turning,
}

-- The line of a query: its text, and the size and the duration of an answer or the code of a failure.
abbrev pub line_as : String → QueryOutcome → LogLine
line_as sql (answered r) = query_line sql (some r.row_count) (some r.duration_ms) none
line_as sql (rejected r) = query_line sql none none (some "rejected")
line_as sql (failed timeout) = query_line sql none none (some "timeout")
line_as sql (failed (db_error message)) = query_line sql none none (some "db_error")

abbrev pub line_for : Env → ToolUse → LogLine
line_for env u = line_as u.sql (env.run_query u.sql)

abbrev results_of : Env → List ToolUse → List String
results_of env us = map (λ u. env.print_outcome u.id (env.run_query u.sql)) us

-- What is said in a round: the model's reply and the results of its queries.
abbrev said : Env → Reply → List Message
said env r =
    record { role = "assistant"; content = blocks (map env.print_reply r.content) }
    ∷ record { role = "user"; content = blocks (results_of env (tools_of r.content)) }
    ∷ []

-- The queries of a reply and of those after it; one that was cut off or asks for no query is the last.
abbrev queries_from : (cut_off : Bool) → List ToolUse → List ToolUse → List ToolUse
queries_from true us later = []
queries_from false [] later = []
queries_from false (u ∷ us) later = (u ∷ us) ++ later

-- The queries of the replies that the model gives to a transcript, in at most so many calls, each reply with
-- the results of the queries before it; a reply that fails is the last.
pub asked : Env → ℕ → List Message → List ToolUse
asked env zero ms = []
asked env (suc n) ms = elim (env.reply (compress_past_turns env.json ms)) [
  | err message ↦ []
  | ok r ↦ queries_from r.at_max_tokens (tools_of r.content) (asked env n (ms ++ said env r))
]

abbrev HasLog : List LogLine → Turning → Type 0
HasLog log t = t.state.log ≡ log

module _ (log : List LogLine) where
  emit-HasLog : (e : _) → Preserves (HasLog log) (emit e)
  emit-HasLog e = record { at = λ t h. h }

  add_citations-HasLog : (cs : List String) → Preserves (HasLog log) (add_citations cs)
  add_citations-HasLog [] = Preserves-pure tt
  add_citations-HasLog (c ∷ cs) =
      Preserves-then {m = add_citation c} (record { at = λ t h. h }) (add_citations-HasLog cs)

  payload_of-HasLog : (env : Env) (b : EnvelopeBlock) → Preserves (HasLog log) (payload_of env b)
  unfolding payload_of
  payload_of-HasLog env (payload_block p) = record { at = λ t h. h }
  payload_of-HasLog env (raw_report r) = record { at = λ t h. h }

  add_blocks-HasLog :
      (env : Env) (bs : List EnvelopeBlock) → Preserves (HasLog log) (add_blocks env bs)
  unfolding add_blocks
  add_blocks-HasLog env [] = Preserves-pure tt
  add_blocks-HasLog env (b ∷ bs) = Preserves-bind (payload_of-HasLog env b) (λ p.
      Preserves-then {m = add_block env p} (record { at = λ t h. h }) (add_blocks-HasLog env bs))

  emit_parsed-HasLog :
      (env : Env) (r : Result String ClaudeEnvelope) → Preserves (HasLog log) (emit_parsed env r)
  emit_parsed-HasLog env (err message) = record { at = λ t h. h }
  emit_parsed-HasLog env (ok envelope) =
      Preserves-then (add_blocks-HasLog env envelope.blocks)
        (Preserves-then (add_citations-HasLog envelope.citations) (Preserves-pure true))

  finish_turn-HasLog :
      (env : Env) (c s u : String) (content : List ReplyBlock)
      → Preserves (HasLog log) (finish_turn env c s u content)
  unfolding finish_turn emit_envelope
  finish_turn-HasLog env c s u content =
      Preserves-then
        {m = say_message
          (record { role = "assistant"; content = plain (env.strip_join (texts_of content)) })}
        (record { at = λ t h. h })
        (Preserves-bind {f = close_turn env c s u}
          (emit_parsed-HasLog env (env.parse_envelope (env.strip_join (texts_of content))))
          (λ b. record { at = λ t h. h }))

  truncated_turn-HasLog :
      (env : Env) (c s u : String) (question : List Message) (tools : List ToolUse)
      → Preserves (HasLog log) (truncated_turn env c s u question tools)
  unfolding truncated_turn
  truncated_turn-HasLog env c s u question tools = record { at = λ t h. h }

-- A method that returns, and what it adds to the log and to the transcript.
record Adds {A : Type 0} (m : Turn A) (t : Turning) (a : A) (lines : List LogLine)
    (messages : List Message) : Type 0 where
  after : Turning
  runs : m t ≡ (ok a, after)
  logged : after.state.log ≡ t.state.log ++ lines
  said_then : after.transcript ≡ t.transcript ++ messages

Adds-bind :
    {A B : Type 0} {t : Turning} {a : A} {b : B} {l l' : List LogLine} {ms ms' : List Message}
    (m : Turn A) (f : A → Turn B)
    → Adds m t a l ms
    → ((t' : Turning) → Adds (f a) t' b l' ms')
    → Adds (m >>= f) t b (l ++ l') (ms ++ ms')
Adds-bind {A} {B} {t} {a} {b} {l} {l'} {ms} {ms'} m f h k =
    let g = k h.after in
    record {
      after = g.after;
      runs =
          ap (λ (out : Result String A × Turning). ((λ (s : Turning). out) >>= f) t) h.runs
          ∙ g.runs;
      logged = g.logged ∙ ap (λ x. x ++ l') h.logged ∙ append_assoc t.state.log l l';
      said_then = g.said_then ∙ ap (λ x. x ++ ms') h.said_then ∙ append_assoc t.transcript ms ms';
    }

Adds-return :
    {A B : Type 0} {t : Turning} {a : A} {l : List LogLine} {ms : List Message} (m : Turn A)
    (g : A → B)
    → Adds m t a l ms
    → Adds (m >>= λ x. pure (g x)) t (g a) l ms
Adds-return {A} {B} {t} m g h = record {
  after = h.after;
  runs =
      ap (λ (out : Result String A × Turning). ((λ (s : Turning). out) >>= λ x. pure (g x)) t)
        h.runs;
  logged = h.logged;
  said_then = h.said_then;
}

announce-Adds : (us : List ToolUse) (t : Turning) → Adds (announce us) t tt [] []
announce-Adds [] t = record {
  after = t;
  runs = refl;
  logged = sym (append-nil _);
  said_then = sym (append-nil _);
}
announce-Adds (u ∷ us) t =
    Adds-bind {l = []} {l' = []} {ms = []} {ms' = []} (emit (querying u.sql)) (λ x. announce us)
      (record {
        after = _;
        runs = refl;
        logged = sym (append-nil _);
        said_then = sym (append-nil _);
      })
      (λ t'. announce-Adds us t')

add_reasoning-Adds : (text : String) (t : Turning) → Adds (add_reasoning text) t tt [] []
add_reasoning-Adds text t = elim (Bool-cases (text == "")) [
  | inl e ↦ rw e (record {
    after = t;
    runs = refl;
    logged = sym (append-nil _);
    said_then = sym (append-nil _);
  })
  | inr e ↦ rw e (record {
    after = _;
    runs = refl;
    logged = sym (append-nil _);
    said_then = sym (append-nil _);
  })
]

module _ (env : Env) where
  same_line : (sql : String) (o : QueryOutcome) → line_of sql o ≡ line_as sql o
  same_line sql (answered r) = refl
  same_line sql (rejected r) = refl
  same_line sql (failed timeout) = refl
  same_line sql (failed (db_error message)) = refl

  record_results-Adds :
      (us : List ToolUse) (t : Turning)
      → Adds (record_results env us) t (results_of env us) (map (line_for env) us) []
  unfolding record_results
  record_results-Adds [] t = record {
    after = t;
    runs = refl;
    logged = sym (append-nil _);
    said_then = sym (append-nil _);
  }
  record_results-Adds (u ∷ us) t =
      Adds-bind {l = line_for env u ∷ []} {ms = []} {ms' = []}
        (record_result env u (env.run_query u.sql))
        (λ here. record_results env us >>= λ later. pure (here ∷ later))
        (record {
          after = _;
          runs = refl;
          logged = ap (λ l. t.state.log ++ l ∷ []) (same_line u.sql (env.run_query u.sql));
          said_then = sym (append-nil _);
        })
        (λ t'.
          Adds-return (record_results env us)
            (λ later. env.print_outcome u.id (env.run_query u.sql) ∷ later)
            (record_results-Adds us t'))

  say_message-Adds : (m : Message) (t : Turning) → Adds (say_message m) t tt [] (m ∷ [])
  say_message-Adds m t = record {
    after = _;
    runs = refl;
    logged = sym (append-nil _);
    said_then = refl;
  }

  tool_round-Adds :
      (r : Reply) (t : Turning)
      → Adds
          (tool_round env r.content)
          t
          tt
          (map (line_for env) (tools_of r.content) ++ [])
          (said env r)
  unfolding tool_round
  tool_round-Adds r t =
      let reply : Message = record {
        role = "assistant";
        content = blocks (map env.print_reply r.content);
      } in
      let answer : List String → Turn (Unit {0}) =
        λ results. say_message (record { role = "user"; content = blocks results }) in
      let query : Turn (Unit {0}) = record_results env (tools_of r.content) >>= answer in
      Adds-bind {l = []} {ms = []} (add_reasoning (env.strip_join (texts_of r.content)))
        (λ x. say_message reply >> (announce (tools_of r.content) >> query))
        (add_reasoning-Adds (env.strip_join (texts_of r.content)) t)
        (λ t1.
          Adds-bind {l = []} {ms = reply ∷ []} (say_message reply)
            (λ x. announce (tools_of r.content) >> query) (say_message-Adds reply t1)
            (λ t2.
              Adds-bind {l = []} {ms = []} (announce (tools_of r.content)) (λ x. query)
                (announce-Adds (tools_of r.content) t2)
                (λ t3.
                  Adds-bind {l' = []} {ms = []} (record_results env (tools_of r.content)) answer
                    (record_results-Adds (tools_of r.content) t3) (λ t4. say_message-Adds _ t4))))

  -- The lines that a turn adds to the log.
  abbrev pub lines_asked : ℕ → List Message → List LogLine
  lines_asked n ms = map (line_for env) (asked env n ms)

  map-append :
      (f : ToolUse → LogLine) (xs ys : List ToolUse) → map f (xs ++ ys) ≡ map f xs ++ map f ys
  map-append f [] ys = refl
  map-append f (x ∷ xs) ys = ap (λ l. f x ∷ l) (map-append f xs ys)

  module _ (c s u : String) (question : List Message) where
    abbrev Logs : ℕ → Turning → Type 0
    Logs n t =
        (rounds env n c s u question t).1.state.log ≡ t.state.log ++ lines_asked n t.transcript

    -- The loop after a reply.
    abbrev continued : ℕ → Reply → Turn Progress
    continued n r =
        by_limit r.at_max_tokens (truncated_turn env c s u question (tools_of r.content)) (
          by_tools (tools_of r.content) (finish_turn env c s u r.content)
            (tool_round env r.content >> rounds env n c s u question))

    abbrev asked_after : ℕ → Reply → List Message → List ToolUse
    asked_after n r ms =
        queries_from r.at_max_tokens (tools_of r.content) (asked env n (ms ++ said env r))

    ended :
        {A : Type 0} (m : Turn A) (t : Turning)
        → ((log : List LogLine) → Preserves (HasLog log) m)
        → (m t).1.state.log ≡ t.state.log ++ []
    ended m t h = (h t.state.log).at t refl ∙ sym (append-nil _)

    round_logged :
        (n : ℕ) (r : Reply) (t : Turning)
        → ((t' : Turning) → Logs n t')
        → ((tool_round env r.content >> rounds env n c s u question) t).1.state.log
          ≡ t.state.log
            ++ map (line_for env) (tools_of r.content ++ asked env n (t.transcript ++ said env r))
    round_logged n r t ih =
        let h = tool_round-Adds r t in
        let us = tools_of r.content in
        ap
          (λ (out : Result String (Unit {0}) × Turning).
            (((λ (x : Turning). out) >> rounds env n c s u question) t).1.state.log)
          h.runs
        ∙ ih h.after
        ∙ ap (λ ms. h.after.state.log ++ lines_asked n ms) h.said_then
        ∙ ap (λ l. l ++ lines_asked n (t.transcript ++ said env r))
            (h.logged ∙ ap (λ l. t.state.log ++ l) (append-nil (map (line_for env) us)))
        ∙ append_assoc t.state.log (map (line_for env) us)
            (lines_asked n (t.transcript ++ said env r))
        ∙ ap (λ l. t.state.log ++ l)
            (sym (map-append (line_for env) us (asked env n (t.transcript ++ said env r))))

    continued-Logs :
        (n : ℕ) (r : Reply) (t : Turning)
        → ((t' : Turning) → Logs n t')
        → (continued n r t).1.state.log
          ≡ t.state.log ++ map (line_for env) (asked_after n r t.transcript)
    continued-Logs n r t ih = by_reply r.at_max_tokens (tools_of r.content) refl
      where
        by_reply :
            (b : Bool) (us : List ToolUse)
            → tools_of r.content ≡ us
            → (by_limit b
                (truncated_turn env c s u question (tools_of r.content))
                (by_tools us
                  (finish_turn env c s u r.content)
                  (tool_round env r.content >> rounds env n c s u question))
                t).1.state.log
              ≡ t.state.log
                ++ map (line_for env) (queries_from b us (asked env n (t.transcript ++ said env r)))
        by_reply true us e =
            ended (truncated_turn env c s u question (tools_of r.content)) t
              (λ log. truncated_turn-HasLog log env c s u question (tools_of r.content))
        by_reply false [] e =
            ended (finish_turn env c s u r.content) t
              (λ log. finish_turn-HasLog log env c s u r.content)
        by_reply false (x ∷ us) e =
            round_logged n r t ih
            ∙ ap
                (λ (qs : List ToolUse).
                  t.state.log
                  ++ map (line_for env) (qs ++ asked env n (t.transcript ++ said env r)))
                e

    after_usage :
        (n : ℕ) (r : Reply) (o : Option Usage) (t : Turning)
        → ((t' : Turning) → Logs n t')
        → ((add_usage o >> continued n r) t).1.state.log
          ≡ t.state.log ++ map (line_for env) (asked_after n r t.transcript)
    after_usage n r none t ih = continued-Logs n r t ih
    after_usage n r (some x) t ih = continued-Logs n r _ ih

    after_reply :
        (n : ℕ) (r : Result String Reply) (t : Turning)
        → ((t' : Turning) → Logs n t')
        → (((λ (x : Turning). (r, t)) >>= λ reply. add_usage reply.usage >> continued n reply)
            t).1.state.log
          ≡ t.state.log
            ++ map
                (line_for env)
                (elim r [ err message ↦ [] | ok reply ↦ asked_after n reply t.transcript ])
    after_reply n (err message) t ih = sym (append-nil _)
    after_reply n (ok r) t ih = after_usage n r r.usage t ih

    -- The loop adds one line for each query that the model asks for.
    pub rounds-Logs : (n : ℕ) (t : Turning) → Logs n t
    unfolding rounds asked call_claude
    rounds-Logs zero t = sym (append-nil _)
    rounds-Logs (suc n) t =
        after_reply n (env.reply (compress_past_turns env.json t.transcript)) t (rounds-Logs n)
