-- ===== src/Llm.antt =====
-- internal/shared/llm/types.go: chat requests, messages and responses as the pipeline sees them,
-- and the texts that guards evaluate. The JSON forms are in the child Codec.
pub mod Codec
pub mod Response
pub mod Client
mod Tests
use sheeld.Prelude.{
  ℕ, Bool, true, false, ◌==◌, bytes_eq, if◌then◌else◌, String, Str, str, List, [], ◌∷◌, ◌++◌,
  Option, none, some,
}
use sheeld.Prelude.Int.{ℤ}
use sheeld.Json.{Json}

-- `map[string]json.RawMessage`
abbrev pub Extra : Type 0
Extra = List (String × Json)

pub record Message : Type 0 where
  pub role : Str
  pub content : Str
  pub content_raw : Option Json
  pub content_text : Str
  pub extra : Extra

pub record ChatRequest : Type 0 where
  pub model : Str
  pub messages : List Message
  pub stream : Bool
  pub extra : Extra

pub record Usage : Type 0 where
  pub prompt_tokens : ℤ
  pub completion_tokens : ℤ
  pub total_tokens : ℤ

pub record Choice : Type 0 where
  pub index : ℤ
  pub message : Message
  pub finish_reason : Str
  pub extra : Extra

pub record ChatResponse : Type 0 where
  pub id : Str
  pub object : Str
  pub created : ℤ
  pub model : Str
  pub choices : List Choice
  pub usage : Usage
  pub extra : Extra

abbrev pub user : Str
user = str "user"

-- The loop of `ExtractInputText` runs from the last message to the first.
last_user : List Message → Option Str
last_user [] = none
last_user (m ∷ ms) = elim (last_user ms) [
  | some t ↦ some t
  | none ↦ if m.role == user then some m.content else none
]

unfoldable pub extract_input_text : ChatRequest → Str
unfolding last_user
extract_input_text req = elim (last_user req.messages) [ some t ↦ t | none ↦ [] ]

-- One line of `SerializeMessages`, and the loop after the first message.
abbrev pub line : Message → Str
line m = m.role ++ str ": " ++ m.content

serialize_rest : List Message → Str
serialize_rest [] = []
serialize_rest (m ∷ ms) = str "\n" ++ (line m ++ serialize_rest ms)

unfoldable pub serialize_messages : List Message → Str
unfolding serialize_rest
serialize_messages [] = []
serialize_messages (m ∷ ms) = line m ++ serialize_rest ms

unfoldable pub extract_output_text : ChatResponse → Str
extract_output_text resp = elim resp.choices [ [] ↦ [] | c ∷ cs ↦ c.message.content ]
