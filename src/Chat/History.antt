-- ===== src/Chat/History.antt =====
-- logic/chat/history.py: `HistoryStore`, as its two tables in insertion order. A timestamp is a number, and a
-- column of JSON holds the value; a statement that fails changes nothing.
pub mod Access
use Prim.Native.String.{String, [] as no_text, ◌∷◌ as ◌∷ₜ◌}
use erp_agent.Prelude.{
  ℕ, zero, suc, Bool, true, false, not, ◌&&◌, ◌||◌, Option, none, some, List, [], ◌∷◌, ◌++◌, ◌==◌,
  if◌then◌else◌, keep, map,
}
use erp_agent.Chat.Transcript.{Message, cap_to_turn_boundary, sanitize_transcript}

pub record Conversation : Type 0 where
  pub id : String
  pub session_id : String
  pub title : String
  pub created_at : ℕ
  pub updated_at : ℕ

pub record Turn : Type 0 where
  pub user_message : String
  pub blocks : List String
  pub citations : List String
  pub steps : List String
  pub ts : ℕ

-- A row of the table `turn`; rows stand in the order of their ids.
pub record TurnRow : Type 0 where
  pub conversation_id : String
  pub turn : Turn
  pub raw_transcript : List Message

pub record ConversationDetail : Type 0 where
  pub conversation : Conversation
  pub turns : List Turn

pub record Store : Type 0 where
  pub conversations : List Conversation
  pub turns : List TurnRow

-- `TRANSCRIPT_CAP`
abbrev pub transcript_cap : ℕ
transcript_cap = 40

-- WHERE id = ? AND session_id = ?
abbrev pub is_owned : String → String → Conversation → Bool
is_owned id session c = c.id == id && c.session_id == session

abbrev pub find_conversation : (Conversation → Bool) → List Conversation → Option Conversation
find_conversation p [] = none
find_conversation p (c ∷ cs) = let rest = find_conversation p cs in if p c then some c else rest

abbrev pub exists : (Conversation → Bool) → List Conversation → Bool
exists p [] = false
exists p (c ∷ cs) = p c || exists p cs

-- The new id is drawn at random; a primary key that is there refuses the row.
unfoldable pub create_conversation : String → String → ℕ → Store → Option String × Store
create_conversation cid session now s =
    if exists (λ c. c.id == cid) s.conversations then (none, s) else (
      some cid,
      record s {
        conversations =
            s.conversations
            ++ record {
              id = cid;
              session_id = session;
              title = "";
              created_at = now;
              updated_at = now;
            }
              ∷ [];
      },
    )

abbrev pub turns_of : String → List TurnRow → List TurnRow
turns_of id = keep (λ t. t.conversation_id == id)

abbrev pub turn_of : TurnRow → Turn
turn_of t = t.turn

unfoldable pub get_conversation : String → String → Store → Option ConversationDetail
get_conversation id session s = elim (find_conversation (is_owned id session) s.conversations) [
  | none ↦ none
  | some c ↦ some (record { conversation = c; turns = map turn_of (turns_of id s.turns) })
]

-- The turns of a deleted conversation go with it.
unfoldable pub delete_conversation : String → String → Store → Bool × Store
delete_conversation id session s =
    if exists (is_owned id session) s.conversations
    then (
      true,
      record {
        conversations = keep (λ c. not (is_owned id session c)) s.conversations;
        turns = keep (λ t. not (t.conversation_id == id)) s.turns;
      },
    )
    else (false, s)

-- `title[:n]`
abbrev pub take_text : ℕ → String → String
take_text zero s = no_text
take_text (suc n) no_text = no_text
take_text (suc n) (c ∷ₜ s) = c ∷ₜ take_text n s

abbrev pub set_title : String → String → String → Conversation → Conversation
set_title id session title c =
    if is_owned id session c then record c { title = take_text 200 title } else c

unfoldable pub update_title : String → String → String → Store → Bool × Store
update_title id session title s = (
  exists (is_owned id session) s.conversations,
  record s { conversations = map (set_title id session title) s.conversations },
)

abbrev pub touch : String → ℕ → Conversation → Conversation
touch id now c = if c.id == id then record c { updated_at = now } else c

unfoldable pub append_turn : String → String → Turn → List Message → Store → Bool × Store
append_turn id session turn raw_transcript s =
    if exists (is_owned id session) s.conversations
    then (
      true,
      record {
        conversations = map (touch id turn.ts) s.conversations;
        turns =
            s.turns
            ++ record {
              conversation_id = id;
              turn = turn;
              raw_transcript = cap_to_turn_boundary raw_transcript transcript_cap;
            }
              ∷ [];
      },
    )
    else (false, s)

-- The transcript of the conversation's last turn.
unfoldable pub last_transcript : String → List TurnRow → Option (List Message)
last_transcript id [] = none
last_transcript id (t ∷ ts) = elim (last_transcript id ts) [
  | some ms ↦ some ms
  | none ↦ if t.conversation_id == id then some t.raw_transcript else none
]

abbrev pub sanitized : Option (List Message) → List Message
sanitized none = []
sanitized (some ms) = sanitize_transcript ms

unfoldable pub get_transcript : String → String → Store → List Message
unfolding last_transcript
get_transcript id session s =
    if exists (is_owned id session) s.conversations
    then sanitized (last_transcript id s.turns)
    else []
