-- ===== src/Chat/Turn/Accounts/Logged.antt =====
-- logic/chat/service.py: the log and the steps of a turn so far.
use erp_agent.Prelude.{
  ℕ, ◌+◌, String, Bool, true, false, not, ◌||◌, Option, none, some, List, [], ◌∷◌, ◌++◌, ◌==◌, ◌≡◌,
  refl, ap, ◌∙◌, append_assoc, arith, length, length-append, All, All-snoc, Bool-cases, inl, inr,
}
use erp_agent.Prelude.Exec.{Preserves, Preserves-bind, Preserves-pure, Preserves-then}
use erp_agent.Chat.Transcript.{Message}
use erp_agent.Chat.Sql.{QueryOutcome, answered, rejected, failed}
use erp_agent.Chat.Turn.{
  tools_of, texts_of, emit, add_step, add_usage, say_message, is_query, total, line_of, preview_of,
  parsed_status, add_citation, add_citations, announce, add_reasoning, payload_of, add_block,
  add_blocks, record_result, record_results, tool_round,
}
use erp_agent.Chat.Turn.State.{
  Usage, ToolUse, ReplyBlock, raw_report, payload_block, Step, usage_step, reasoning, query, Event,
  thinking, querying, step, block, citation, error, done, TurnStatus, aborted, succeeded, in_error,
  LogLine, query_line, turn_summary, EnvelopeBlock, Env, Turning,
}

abbrev pub is_error : Event → Bool
is_error (error code message) = true
is_error thinking = false
is_error (querying sql) = false
is_error (step s) = false
is_error (block p) = false
is_error (citation p) = false
is_error done = false

abbrev pub is_last : Event → Bool
is_last (error code message) = true
is_last done = true
is_last thinking = false
is_last (querying sql) = false
is_last (step s) = false
is_last (block p) = false
is_last (citation p) = false

abbrev pub has_error : List Event → Bool
has_error [] = false
has_error (e ∷ es) = is_error e || has_error es

abbrev pub IsQueryLine : LogLine → Type 0
IsQueryLine (query_line sql rows duration code) = Unit
IsQueryLine (turn_summary c s u summary) = ⊥

abbrev pub is_in_error : TurnStatus → Bool
is_in_error in_error = true
is_in_error aborted = false
is_in_error succeeded = false

pub has_error-append : (xs ys : List Event) → has_error (xs ++ ys) ≡ has_error xs || has_error ys
has_error-append [] ys = refl
has_error-append (x ∷ xs) ys = ground (arith, has_error-append xs ys)

total-append : (f : Step → ℕ) (xs ys : List Step) → total f (xs ++ ys) ≡ total f xs + total f ys
total-append f [] ys = omega arith
total-append f (x ∷ xs) ys = omega (arith, total-append f xs ys)

pub in_error-parsed : (b : Bool) → is_in_error (parsed_status b) ≡ not b
in_error-parsed true = refl
in_error-parsed false = refl

-- What has been logged since `log`: one line for each query among the steps.
pub record IsLogged (log : List LogLine) (t : Turning) : Type 0 where
  pub lines : List LogLine
  pub logged : t.state.log ≡ log ++ lines
  pub queries : All IsQueryLine lines
  pub counted : total is_query t.steps ≡ length lines

-- The same steps and the same log.
pub same-IsLogged :
    {log : List LogLine} {t t' : Turning}
    → IsLogged log t
    → t'.state.log ≡ t.state.log
    → t'.steps ≡ t.steps
    → IsLogged log t'
same-IsLogged k same_log same_steps = record {
  lines = k.lines;
  logged = same_log ∙ k.logged;
  queries = k.queries;
  counted = ap (total is_query) same_steps ∙ k.counted;
}

abbrev IsClean : Turning → Type 0
IsClean t = has_error t.events ≡ false

module _ (log : List LogLine) where
  -- No error so far.
  abbrev pub Inv : Turning → Type 0
  Inv t = IsLogged log t × IsClean t

  emit-Inv : (e : Event) → is_error e ≡ false → Preserves Inv (emit e)
  emit-Inv e h = record {
    at = λ t k.
        (same-IsLogged k.0 refl refl, ground (arith, has_error-append t.events (e ∷ []), h, k.1));
  }

  pub say_message-Inv : (m : Message) → Preserves Inv (say_message m)
  say_message-Inv m = record { at = λ t k. (same-IsLogged k.0 refl refl, k.1) }

  add_step-Inv : (s : Step) → is_query s ≡ 0 → Preserves Inv (add_step s)
  add_step-Inv s h = record {
    at = λ t k. (
      record {
        lines = k.0.lines;
        logged = k.0.logged;
        queries = k.0.queries;
        counted = omega (arith, total-append is_query t.steps (s ∷ []), h, k.0.counted);
      },
      ground (arith, has_error-append t.events (step s ∷ []), k.1),
    );
  }

  IsQueryLine-line_of : (sql : String) (outcome : QueryOutcome) → IsQueryLine (line_of sql outcome)
  IsQueryLine-line_of sql (answered r) = tt
  IsQueryLine-line_of sql (failed e) = tt
  IsQueryLine-line_of sql (rejected r) = tt

  -- A line and a step for each query.
  record_result-Inv :
      (env : Env) (u : ToolUse) (outcome : QueryOutcome)
      → Preserves Inv (record_result env u outcome)
  record_result-Inv env u outcome = record {
    at = λ t k. (
      record {
        lines = k.0.lines ++ line_of u.sql outcome ∷ [];
        logged =
            ap (λ (ls : List LogLine). ls ++ line_of u.sql outcome ∷ []) k.0.logged
            ∙ append_assoc log k.0.lines (line_of u.sql outcome ∷ []);
        queries = All-snoc IsQueryLine k.0.lines k.0.queries (IsQueryLine-line_of u.sql outcome);
        counted = omega (
          arith,
          total-append is_query t.steps (query u.sql outcome (preview_of outcome) ∷ []),
          length-append k.0.lines (line_of u.sql outcome ∷ []),
          k.0.counted,
        );
      },
      ground (
        arith,
        has_error-append t.events (step (query u.sql outcome (preview_of outcome)) ∷ []),
        k.1,
      ),
    );
  }

  record_results-Inv : (env : Env) (us : List ToolUse) → Preserves Inv (record_results env us)
  unfolding record_results
  record_results-Inv env [] = Preserves-pure []
  record_results-Inv env (u ∷ us) =
      Preserves-bind (record_result-Inv env u (env.run_query u.sql)) (λ here.
        Preserves-bind (record_results-Inv env us) (λ later. Preserves-pure (here ∷ later)))

  announce-Inv : (us : List ToolUse) → Preserves Inv (announce us)
  announce-Inv [] = Preserves-pure tt
  announce-Inv (u ∷ us) = Preserves-then (emit-Inv (querying u.sql) refl) (announce-Inv us)

  add_reasoning-Inv : (text : String) → Preserves Inv (add_reasoning text)
  add_reasoning-Inv text = elim (Bool-cases (text == "")) [
    | inl e ↦ rw e (Preserves-pure tt)
    | inr e ↦ rw e (add_step-Inv (reasoning text) refl)
  ]

  pub add_usage-Inv : (u : Option Usage) → Preserves Inv (add_usage u)
  add_usage-Inv none = Preserves-pure tt
  add_usage-Inv (some u) = add_step-Inv (usage_step u) refl

  pub tool_round-Inv :
      (env : Env) (content : List ReplyBlock) → Preserves Inv (tool_round env content)
  unfolding tool_round
  tool_round-Inv env content =
      Preserves-then (add_reasoning-Inv (env.strip_join (texts_of content))) (
        Preserves-then (say_message-Inv _) (
          Preserves-then (announce-Inv (tools_of content)) (
            Preserves-bind (record_results-Inv env (tools_of content))
              (λ results. say_message-Inv _))))

  add_citation-Inv : (c : String) → Preserves Inv (add_citation c)
  add_citation-Inv c = record {
    at = λ t k. (
      same-IsLogged k.0 refl refl,
      ground (arith, has_error-append t.events (citation c ∷ []), k.1),
    );
  }

  pub add_citations-Inv : (cs : List String) → Preserves Inv (add_citations cs)
  add_citations-Inv [] = Preserves-pure tt
  add_citations-Inv (c ∷ cs) = Preserves-then (add_citation-Inv c) (add_citations-Inv cs)

  add_block-Inv : (env : Env) (p : String) → Preserves Inv (add_block env p)
  add_block-Inv env p = record {
    at = λ t k. (
      same-IsLogged k.0 refl refl,
      ground (arith, has_error-append t.events (block p ∷ []), k.1),
    );
  }

  payload_of-Inv : (env : Env) (b : EnvelopeBlock) → Preserves Inv (payload_of env b)
  unfolding payload_of
  payload_of-Inv env (payload_block p) = record { at = λ t k. k }
  payload_of-Inv env (raw_report r) = record { at = λ t k. (same-IsLogged k.0 refl refl, k.1) }

  pub add_blocks-Inv : (env : Env) (bs : List EnvelopeBlock) → Preserves Inv (add_blocks env bs)
  unfolding add_blocks
  add_blocks-Inv env [] = Preserves-pure tt
  add_blocks-Inv env (b ∷ bs) =
      Preserves-bind (payload_of-Inv env b)
        (λ p. Preserves-then (add_block-Inv env p) (add_blocks-Inv env bs))
