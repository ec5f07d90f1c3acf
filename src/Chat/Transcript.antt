-- ===== src/Chat/Transcript.antt =====
-- logic/chat/history.py: which part of a conversation's transcript is kept. A message's content is a text,
-- or blocks, each of them the text of its JSON.
pub mod Capped
use erp_agent.Prelude.{
  ℕ, zero, suc, ◌-◌, String, Bool, true, false, ◌&&◌, Option, none, some, List, [], ◌∷◌, ◌==◌, leb,
  eqb, if◌then◌else◌, length,
}

pub data Content : Type 0 where
  plain : String → Content
  blocks : List String → Content

pub record Message : Type 0 where
  pub role : String
  pub content : Content

abbrev pub is_plain : Content → Bool
is_plain (plain s) = true
is_plain (blocks bs) = false

-- A user's own message, which starts a turn.
abbrev pub is_boundary : Message → Bool
is_boundary m = m.role == "user" && is_plain m.content

-- The longest suffix that starts at a boundary and fits.
unfoldable pub first_fit : ℕ → List Message → Option (List Message)
first_fit max_messages [] = none
first_fit max_messages (m ∷ ms) =
    let rest = first_fit max_messages ms in
    if is_boundary m && leb (length (m ∷ ms)) max_messages then some (m ∷ ms) else rest

-- `transcript[boundaries[-1]:]`, where there is a boundary
unfoldable pub last_turn : List Message → Option (List Message)
last_turn [] = none
last_turn (m ∷ ms) = elim (last_turn ms) [
  | some turn ↦ some turn
  | none ↦ if is_boundary m then some (m ∷ ms) else none
]

unfoldable pub drop : ℕ → List Message → List Message
drop zero ms = ms
drop (suc n) [] = []
drop (suc n) (m ∷ ms) = drop n ms

-- `transcript[-n:]`, which is all of it for 0
unfoldable pub take_last : ℕ → List Message → List Message
unfolding drop
take_last n ms = if eqb n 0 then ms else drop (length ms - n) ms

-- `_cap_to_turn_boundary` of a transcript that is too long, by its last turn and the suffix that fits.
unfoldable pub cap_long :
    ℕ → List Message → Option (List Message) → Option (List Message) → List Message
unfolding take_last
cap_long max_messages ms none fit = take_last max_messages ms
cap_long max_messages ms (some turn) (some fit) = fit
cap_long max_messages ms (some turn) none = turn

unfoldable pub cap_to_turn_boundary : List Message → ℕ → List Message
unfolding cap_long first_fit last_turn
cap_to_turn_boundary ms max_messages =
    if leb (length ms) max_messages
    then ms
    else cap_long max_messages ms (last_turn ms) (first_fit max_messages ms)

unfoldable pub sanitize_transcript : List Message → List Message
sanitize_transcript [] = []
sanitize_transcript (m ∷ ms) =
    let rest = sanitize_transcript ms in if is_boundary m then m ∷ ms else rest
