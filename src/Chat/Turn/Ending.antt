-- ===== src/Chat/Turn/Ending.antt =====
-- A turn is over once the model stops asking for queries.
use erp_agent.Prelude.{ℕ, suc, ◌≤◌, String, Bool, true, List, [], Result, ok, err, ◌≡◌, ◌⊎◌, length}
use erp_agent.Chat.Transcript.{Message}
use erp_agent.Chat.Compress.{compress_past_turns}
use erp_agent.Chat.Turn.{Turn, tools_of, Progress, over, out_of_calls, close_turn}
use erp_agent.Chat.Turn.State.{Reply, Env, Turning}

-- Once a transcript has so many messages, the model asks for no more queries.
abbrev pub IsPatient : ℕ → Env → Type 0
IsPatient k env =
    (ms : List Message) (r : Reply)
    → k ≤ length ms
    → env.reply (compress_past_turns env.json ms) ≡ ok r
    → (r.at_max_tokens ≡ true) ⊎ (tools_of r.content ≡ [])

-- At least so many messages.
abbrev HasLength : ℕ → Turning → Type 0
HasLength n t = n ≤ length t.transcript

-- The turn is not stopped for want of calls.
abbrev IsDecided : Result String Progress → Type 0
IsDecided (ok over) = Unit
IsDecided (ok out_of_calls) = ⊥
IsDecided (err message) = Unit

record Decides (P : Turning → Type 0) (m : Turn Progress) : Type 0 where
  at : (t : Turning) → P t → IsDecided (m t).0

-- A step that makes the transcript longer, unless it raises.
abbrev Longer : {A : Type 0} → ℕ → Result String A × Turning → Type 0
Longer n (ok a, t) = HasLength (suc n) t
Longer n (err e, t) = Unit

record Extends {A : Type 0} (n : ℕ) (m : Turn A) : Type 0 where
  at : (t : Turning) → HasLength n t → Longer n (m t)

close_turn-Decides :
    (env : Env) (c s u : String) (b : Bool) (t : Turning) → IsDecided (close_turn env c s u b t).0
close_turn-Decides env c s u b t = tt
