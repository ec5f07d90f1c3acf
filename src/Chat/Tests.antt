-- ===== src/Chat/Tests.antt =====
-- A short conversation and a report.
use erp_agent.Prelude.{
  refl, some, none, ◌++◌, if◌then◌else◌, ◌≡◌, ◌≤◌, ◌<◌, ◌⊎◌, String, List, [], ◌∷◌, ◌==◌, length,
}
use erp_agent.Chat.Transcript.{Message, plain, blocks, cap_to_turn_boundary, last_turn}
use erp_agent.Chat.Compress.{
  Json, table, chart, report, text_block, other, before_last_turn, compress_past_turns,
}
use erp_agent.Chat.Compress.Turns.{split_turns, shortened, compress_past_turns-shortened}
use erp_agent.Chat.Transcript.Capped.{IsCapped, cap_to_turn_boundary-IsCapped}
use erp_agent.Chat.History.{Store, Turn}

-- JSON that reads one envelope only.
abbrev table_text : String
table_text = "{table}"

abbrev plain_json : Json
plain_json = record {
  read = λ s.
      if s == table_text
      then some (record { blocks = table ("day" ∷ []) 2 none ∷ []; rest = "" })
      else none;
  print = λ e. elim e.blocks [
    | [] ↦ "{}"
    | b ∷ bs ↦ elim b [
      | table columns rows caption ↦ "table"
      | chart title ↦ "chart"
      | report title ↦ "report"
      | text_block markdown ↦ markdown
      | other j ↦ j
    ]
  ];
  show = λ n. "n";
  repr = λ s. s;
}

abbrev asked : List Message
asked =
    record { role = "user"; content = plain "Sales by day?" }
    ∷ record { role = "assistant"; content = blocks ("tool" ∷ []) }
    ∷ record { role = "user"; content = blocks ("rows" ∷ []) }
    ∷ record { role = "assistant"; content = plain table_text }
    ∷ []

abbrev asked_again : List Message
asked_again = record { role = "user"; content = plain "And today?" } ∷ []

compress_test :
    compress_past_turns plain_json (asked ++ asked_again)
    ≡ record { role = "user"; content = plain "Sales by day?" }
      ∷ record {
        role = "assistant";
        content = plain "[earlier table omitted: n rows × n cols. Columns: day]";
      }
      ∷ asked_again
unfolding compress_past_turns
compress_test = refl

last_turn_test : last_turn (asked ++ asked_again) ≡ some asked_again
unfolding last_turn
last_turn_test = refl

compress_past_turns-shortened_example :
    (compress_past_turns plain_json (asked ++ asked_again)
      ≡ ((split_turns (before_last_turn (asked ++ asked_again))).0
          ++ shortened plain_json (split_turns (before_last_turn (asked ++ asked_again))).1)
        ++ asked_again)
    × (before_last_turn (asked ++ asked_again) ++ asked_again ≡ asked ++ asked_again)
    × (last_turn (compress_past_turns plain_json (asked ++ asked_again)) ≡ some asked_again)
compress_past_turns-shortened_example =
    compress_past_turns-shortened plain_json (asked ++ asked_again) asked_again last_turn_test

abbrev messages : List Message
messages =
    record { role = "user"; content = plain "How many bills?" }
    ∷ record { role = "assistant"; content = plain "Three." }
    ∷ record { role = "user"; content = plain "And today?" }
    ∷ record { role = "user"; content = blocks ("{}" ∷ []) }
    ∷ []

cap_to_turn_boundary-IsCapped_example :
    ((length messages ≤ 3) × (cap_to_turn_boundary messages 3 ≡ messages))
    ⊎ ((3 < length messages) × IsCapped 3 messages (cap_to_turn_boundary messages 3))
cap_to_turn_boundary-IsCapped_example = cap_to_turn_boundary-IsCapped 3 messages

abbrev store : Store
store = record {
  conversations =
      record { id = "c1"; session_id = "s1"; title = ""; created_at = 1; updated_at = 1 } ∷ [];
  turns = [];
}

abbrev turn : Turn
turn = record { user_message = "And today?"; blocks = []; citations = []; steps = []; ts = 2 }
