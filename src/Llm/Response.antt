-- ===== src/Llm/Response.antt =====
-- internal/shared/llm/types.go: decoding of responses and choices. `unmarshalField` ignores a field
-- that does not decode, so these functions are total; only a response that is no object is an error.
use sheeld.Prelude.{
  suc, ◌==◌, bytes_eq, string_eq, if◌then◌else◌, Str, str, List, [], ◌∷◌, Option, none, some,
  lookup, remove, insert, map,
}
use sheeld.Prelude.Int.{ℤ, pos, negsuc}
use sheeld.Prelude.Decimal.{parse_int, decimal}
use sheeld.Json.{
  Json, null, bool, num, text, arr, obj, Items, Fields, nil, cons, end, field, of_items, of_fields,
}
use sheeld.Llm.{Extra, Message, ChatResponse, Choice, Usage}
use sheeld.Llm.Codec.{
  ◌>>=◌, decode_map, decode_string, unmarshal_message, marshal_message, record_key, add_members,
}

abbrev zero_message : Message
zero_message = record { role = []; content = []; content_raw = none; content_text = []; extra = [] }

abbrev zero_choice : Choice
zero_choice = record { index = pos 0; message = zero_message; finish_reason = []; extra = [] }

abbrev pub zero_usage : Usage
zero_usage = record { prompt_tokens = pos 0; completion_tokens = pos 0; total_tokens = pos 0 }

-- `unmarshalField` into a string, an integer, a message.
abbrev string_field : Option Json → Str
string_field none = []
string_field (some v) = elim (decode_string [] v) [ none ↦ [] | some s ↦ s ]

abbrev int_or : ℤ → Json → ℤ
int_or old (num lit) = elim (parse_int lit) [ none ↦ old | some n ↦ n ]
int_or old null = old
int_or old (bool b) = old
int_or old (text s) = old
int_or old (arr vs) = old
int_or old (obj fs) = old

abbrev int_field : Option Json → ℤ
int_field none = pos 0
int_field (some v) = int_or (pos 0) v

abbrev message_field : Option Json → Message
message_field none = zero_message
message_field (some v) = elim (unmarshal_message v) [ none ↦ zero_message | some m ↦ m ]

abbrev of_choice_map : Extra → Choice
of_choice_map raw = record {
  index = int_field (lookup "index" raw);
  message = message_field (lookup "message" raw);
  finish_reason = string_field (lookup "finish_reason" raw);
  extra = remove "finish_reason" (remove "message" (remove "index" raw));
}

unmarshal_choice : Json → Option Choice
unfolding unmarshal_message add_members parse_int
unmarshal_choice v = elim (decode_map v) [ none ↦ none | some raw ↦ some (of_choice_map raw) ]

-- The decoding of an array stops at the first element whose `UnmarshalJSON` fails; the slice has grown
-- by that element, which is left zero.
unmarshal_choices : Items → List Choice
unfolding unmarshal_choice
unmarshal_choices nil = []
unmarshal_choices (cons v vs) =
    let rest = unmarshal_choices vs in
    elim (unmarshal_choice v) [ none ↦ zero_choice ∷ [] | some c ↦ c ∷ rest ]

abbrev choices_field : Option Json → List Choice
choices_field (some (arr vs)) = unmarshal_choices vs
choices_field _ = []

-- The members of a usage object, in order, into the struct.
usage_members : Usage → Fields → Usage
unfolding parse_int
usage_members u end = u
usage_members u (field k v fs) =
    usage_members
      (if record_key k == str "prompt_tokens"
        then record u { prompt_tokens = int_or u.prompt_tokens v }
        else if record_key k == str "completion_tokens"
        then record u { completion_tokens = int_or u.completion_tokens v }
        else if record_key k == str "total_tokens"
        then record u { total_tokens = int_or u.total_tokens v }
        else u)
      fs

abbrev usage_field : Option Json → Usage
usage_field (some (obj fs)) = usage_members zero_usage fs
usage_field _ = zero_usage

unfoldable pub unmarshal_response : Json → Option ChatResponse
unfolding unmarshal_choices usage_members
unmarshal_response v = do
  raw ← decode_map v
  some (record {
    id = string_field (lookup "id" raw);
    object = string_field (lookup "object" raw);
    created = int_field (lookup "created" raw);
    model = string_field (lookup "model" raw);
    choices = choices_field (lookup "choices" raw);
    usage = usage_field (lookup "usage" raw);
    extra =
        remove "usage" (
          remove "choices" (remove "model" (remove "created" (remove "object" (remove "id" raw)))));
  })

-- `json.Marshal` of an integer.
abbrev int_json : ℤ → Json
int_json (pos n) = num (decimal n)
int_json (negsuc n) = num (45 ∷ decimal (suc n))

abbrev choice_json : Choice → Json
choice_json c = obj (
    of_fields (
      insert "finish_reason" (text c.finish_reason)
        (insert "message" (marshal_message c.message) (insert "index" (int_json c.index) c.extra))))

abbrev usage_json : Usage → Json
usage_json u = obj (
    field "prompt_tokens" (int_json u.prompt_tokens) (
      field "completion_tokens" (int_json u.completion_tokens)
        (field "total_tokens" (int_json u.total_tokens) end)))

abbrev pub response_members : ChatResponse → Extra
response_members r = insert "usage" (usage_json r.usage) (
    insert "choices" (arr (of_items (map choice_json r.choices))) (
      insert "model" (text r.model) (
        insert "created" (int_json r.created)
          (insert "object" (text r.object) (insert "id" (text r.id) r.extra)))))

unfoldable pub marshal_response : ChatResponse → Json
marshal_response r = obj (of_fields (response_members r))
