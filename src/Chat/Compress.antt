-- ===== src/Chat/Compress.antt =====
-- logic/chat/service.py: the transcript that is sent to the language model, with past turns shortened. JSON and
-- the printing of a number or of a quoted text are parameters; of a heavy block what its summary shows is kept.
pub mod Turns
use Prim.Native.String.{◌++◌ as text_append}
use erp_agent.Prelude.{
  ℕ, String, Bool, true, false, ◌&&◌, Option, none, some, List, [], ◌∷◌, ◌++◌, ◌==◌, if◌then◌else◌,
  length, map,
}
use erp_agent.Chat.Transcript.{Content, plain, blocks, Message, is_plain, is_boundary, last_turn}

pub data EnvelopeBlock : Type 0 where
  table : (columns : List String) (rows : ℕ) (caption : Option String) → EnvelopeBlock
  chart : (title : Option String) → EnvelopeBlock
  report : (title : Option String) → EnvelopeBlock
  text_block : (markdown : String) → EnvelopeBlock
  other : (json : String) → EnvelopeBlock

-- A JSON object with a list of blocks, and its other entries.
pub record Envelope : Type 0 where
  pub blocks : List EnvelopeBlock
  pub rest : String

pub record Json : Type 0 where
  pub read : String → Option Envelope
  pub print : Envelope → String
  pub show : ℕ → String
  pub repr : String → String

abbrev pub concat : List String → String
concat [] = ""
concat (s ∷ ss) = text_append s (concat ss)

abbrev pub join : List String → String
join [] = ""
join (s ∷ []) = s
join (s ∷ ss) = text_append s (text_append ", " (join ss))

-- `block.get("title") or "untitled"`
abbrev pub or_untitled : Option String → String
or_untitled none = "untitled"
or_untitled (some t) = if t == "" then "untitled" else t

abbrev pub column_list : List String → String
column_list [] = "(no columns)"
column_list (c ∷ cs) = join (c ∷ cs)

-- An answer: the assistant's own text.
abbrev pub is_answer : Message → Bool
is_answer m = m.role == "assistant" && is_plain m.content

-- What stands before the last turn.
unfoldable pub before_last_turn : List Message → List Message
unfolding last_turn
before_last_turn [] = []
before_last_turn (m ∷ ms) = elim (last_turn ms) [ some turn ↦ m ∷ before_last_turn ms | none ↦ [] ]

module _ (json : Json) where
  abbrev pub caption_suffix : Option String → String
  caption_suffix none = ""
  caption_suffix (some c) = if c == "" then "" else text_append " — caption: " (json.repr c)

  unfoldable pub summarise_heavy_block : EnvelopeBlock → EnvelopeBlock
  summarise_heavy_block (table columns rows caption) = text_block (
      concat (
        "[earlier table omitted: "
        ∷ json.show rows
        ∷ " rows × "
        ∷ json.show (length columns)
        ∷ " cols. Columns: "
        ∷ column_list columns
        ∷ caption_suffix caption
        ∷ "]"
        ∷ []))
  summarise_heavy_block (chart title) =
      text_block (concat ("[earlier chart omitted: " ∷ json.repr (or_untitled title) ∷ "]" ∷ []))
  summarise_heavy_block (report title) =
      text_block (concat ("[earlier report omitted: " ∷ json.repr (or_untitled title) ∷ "]" ∷ []))
  summarise_heavy_block (text_block markdown) = text_block markdown
  summarise_heavy_block (other j) = other j

  abbrev pub stripped : Envelope → Envelope
  stripped env = record env { blocks = map summarise_heavy_block env.blocks }

  -- A text that is no envelope stays as it is.
  unfoldable pub strip_heavy_blocks : String → String
  unfolding summarise_heavy_block
  strip_heavy_blocks content = elim (json.read content) [
    | none ↦ content
    | some env ↦ json.print (stripped env)
  ]

  abbrev pub strip_content : Content → Content
  strip_content (plain s) = plain (strip_heavy_blocks s)
  strip_content (blocks bs) = blocks bs

  abbrev pub strip_message : Message → Message
  strip_message m = record m { content = strip_content m.content }

  abbrev pub kept_answer : Option Message → List Message
  kept_answer none = []
  kept_answer (some m) = strip_message m ∷ []

  -- The inner loop: the rest of a turn, with its last answer so far.
  unfoldable pub compress_turn : Option Message → List Message → List Message
  unfolding strip_heavy_blocks
  compress_turn final [] = kept_answer final
  compress_turn final (m ∷ ms) = elim (is_boundary m) [
    | true ↦ kept_answer final ++ m ∷ compress_turn none ms
    | false ↦ compress_turn (if is_answer m then some m else final) ms
  ]

  -- Messages before the first question stay.
  unfoldable pub compress_past : List Message → List Message
  unfolding compress_turn
  compress_past [] = []
  compress_past (m ∷ ms) = elim (is_boundary m) [
    | true ↦ m ∷ compress_turn none ms
    | false ↦ m ∷ compress_past ms
  ]

  abbrev pub sent : Option (List Message) → List Message → List Message
  sent none transcript = transcript
  sent (some turn) transcript = compress_past (before_last_turn transcript) ++ turn

  unfoldable pub compress_past_turns : List Message → List Message
  unfolding compress_past before_last_turn last_turn
  compress_past_turns transcript = sent (last_turn transcript) transcript
