-- ===== src/Chat/Turn/Accounts.antt =====
-- The summary of a turn, and what the turn did.
pub mod Logged
pub mod Outcomes
pub mod Queries
use mathlib.Core.Path.{subst}
use erp_agent.Prelude.{
  ℕ, suc, String, true, not, Option, none, some, List, [], ◌∷◌, ◌++◌, Result, ok, err, ◌≡◌, refl,
  sym, ap, append-nil, arith, length, length-append, map, ◌∙◌,
}
use erp_agent.Chat.History.{ConversationDetail}
use erp_agent.Chat.Turn.{
  summary_of, Progress, over, out_of_calls, rounds, closed, ending, question_of, started, begin,
}
use erp_agent.Chat.Turn.State.{
  unauthorized, internal, Event, error, in_error, TurnSummary, LogLine, turn_summary, ToolUse,
  ChatState, Env, Turning,
}
use erp_agent.Chat.Turn.Accounts.Logged.{
  is_last, has_error, is_in_error, has_error-append, same-IsLogged, Inv,
}
use erp_agent.Chat.Turn.Accounts.Queries.{line_for, asked, rounds-Logs}
use erp_agent.Chat.Turn.Accounts.Outcomes.{Post, IsOver, Out, rounds-Out}

-- A turn in the books: one line for each query that the model asked for, in order, with the outcome of the
-- query, and then the summary, which counts those queries, and whose status is an error exactly where an
-- error event was yielded; or a turn that was refused at once.
pub data IsAccounted (env : Env) (calls : ℕ) (conversation_id session_id user_message : String)
    (s after : ChatState) (events : List Event) : Type 0 where
  refused_at_once :
      after ≡ s
      → events ≡ error unauthorized "conversation not found" ∷ []
      → IsAccounted env calls conversation_id session_id user_message s after events
  accounted :
      (queries : List ToolUse) (summary : TurnSummary) (before : List Event) (last : Event)
      → queries ≡ asked env calls (question_of env conversation_id session_id user_message s)
      → after.log
        ≡ (s.log ++ map (line_for env) queries)
          ++ turn_summary conversation_id session_id user_message summary ∷ []
      → summary.sql_queries ≡ length queries
      → is_in_error summary.status ≡ has_error events
      → events ≡ before ++ last ∷ []
      → is_last last ≡ true
      → IsAccounted env calls conversation_id session_id user_message s after events

length-map : (f : ToolUse → LogLine) (us : List ToolUse) → length (map f us) ≡ length us
length-map f [] = refl
length-map f (u ∷ us) = ap suc (length-map f us)

-- Two lists behind the same log are equally long.
same_length :
    (log a b whole : List LogLine) → whole ≡ log ++ a → whole ≡ log ++ b → length a ≡ length b
same_length log a b whole h k =
    omega (arith, length-append log a, length-append log b, ap length (sym h ∙ k))

module _ (env : Env) (calls : ℕ) (conversation_id session_id user_message : String)
    (s : ChatState) where
  abbrev Accounted : ChatState × List Event → Type 0
  Accounted r = IsAccounted env calls conversation_id session_id user_message s r.0 r.1

  abbrev queries : List ToolUse
  queries = asked env calls (question_of env conversation_id session_id user_message s)

  -- The log has the lines of the queries.
  abbrev IsLines : Turning → Type 0
  IsLines t = t.state.log ≡ s.log ++ map (line_for env) queries

  closed-IsAccounted :
      (t : Turning)
      → IsOver s.log t
      → IsLines t
      → Accounted (closed env conversation_id session_id user_message t)
  unfolding summary_of
  closed-IsAccounted t o k =
      accounted queries (summary_of t.status t.steps) o.before o.last refl
        (ap
          (λ (ls : List LogLine).
            ls
            ++ turn_summary conversation_id session_id user_message (summary_of t.status t.steps)
              ∷ [])
          k)
        (o.account.counted
          ∙ same_length s.log o.account.lines (map (line_for env) queries) t.state.log
              o.account.logged k
          ∙ length-map (line_for env) queries)
        (sym o.agrees) o.split o.ends

  failed-IsOver :
      (t : Turning) (message : String)
      → Inv s.log t
      → IsOver s.log
          (record t { status = in_error; events = t.events ++ error internal message ∷ [] })
  failed-IsOver t message k = record {
    account = same-IsLogged k.0 refl refl;
    agrees = ground (arith, has_error-append t.events (error internal message ∷ []));
    before = t.events;
    last = error internal message;
    split = refl;
    ends = refl;
  }

  some-injective : {A : Type 0} {a b : A} → some a ≡ some b → a ≡ b
  some-injective h = cc

  ending-IsAccounted :
      (out : Result String Progress × Turning) (r : ChatState × List Event)
      → Post s.log (Out s.log) out
      → IsLines out.1
      → ending env conversation_id session_id user_message out ≡ some r
      → Accounted r
  ending-IsAccounted (ok over, t) r h k e =
      subst Accounted (some-injective e) (closed-IsAccounted t h k)
  ending-IsAccounted (ok out_of_calls, t) r h k e = cc
  ending-IsAccounted (err message, t) r h k e =
      subst Accounted (some-injective e) (closed-IsAccounted _ (failed-IsOver t message h) k)

  started-Inv : Inv s.log (started env conversation_id session_id user_message s)
  started-Inv =
      (record { lines = []; logged = sym (append-nil s.log); queries = tt; counted = refl }, refl)

  pub begin-IsAccounted :
      (o : Option ConversationDetail) (r : ChatState × List Event)
      → begin env calls conversation_id session_id user_message o s ≡ some r
      → Accounted r
  begin-IsAccounted none r e = subst Accounted (some-injective e) (refused_at_once refl refl)
  begin-IsAccounted (some c) r e =
      let question = question_of env conversation_id session_id user_message s in
      let start = started env conversation_id session_id user_message s in
      ending-IsAccounted (rounds env calls conversation_id session_id user_message question start) r
        ((rounds-Out s.log env calls conversation_id session_id user_message question).at start
          started-Inv)
        (rounds-Logs env conversation_id session_id user_message question calls start) e
