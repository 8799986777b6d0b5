-- ===== src/Llm/Codec.antt =====
-- internal/shared/llm/types.go: the UnmarshalJSON and MarshalJSON methods. A decoded value is a
-- `Json`; what encoding/json does with a null, a wrong type or a repeated member is written out.
-- An absent array and an empty one are one value here.
pub mod Passthrough
use sheeld.Prelude.{
  ℕ, Bool, false, ◌==◌, bytes_eq, string_eq, not, ◌&&◌, leb, ◌+◌, if◌then◌else◌, String, Str, str,
  List, [], ◌∷◌, ◌++◌, Option, none, some, lookup, insert, remove, map,
}
use sheeld.Json.{
  Json, null, bool, num, text, arr, obj, Items, Fields, nil, cons, end, field, of_items, of_fields,
}
use sheeld.Llm.{Extra, Message, ChatRequest}

infixl 5 ◌>>=◌
abbrev pub ◌>>=◌ {ℓ κ} : {A : Type ℓ} {B : Type κ} → Option A → (A → Option B) → Option B
none >>= k = none
some a >>= k = k a

-- Decoding into a Go map: a repeated member overwrites the one before it.
unfoldable pub add_members : Extra → Fields → Extra
add_members m end = m
add_members m (field k v fs) = add_members (insert k v m) fs

abbrev pub decode_map : Json → Option Extra
decode_map (obj fs) = some (add_members [] fs)
decode_map null = some []
decode_map (bool b) = none
decode_map (num n) = none
decode_map (text s) = none
decode_map (arr vs) = none

-- Decoding into a variable that holds `old`: a null leaves it.
abbrev pub decode_string : Str → Json → Option Str
decode_string old (text s) = some s
decode_string old null = some old
decode_string old (bool b) = none
decode_string old (num n) = none
decode_string old (arr vs) = none
decode_string old (obj fs) = none

abbrev pub decode_bool : Bool → Json → Option Bool
decode_bool old (bool b) = some b
decode_bool old null = some old
decode_bool old (text s) = none
decode_bool old (num n) = none
decode_bool old (arr vs) = none
decode_bool old (obj fs) = none

-- A field that may be absent keeps its zero value.
abbrev pub decode_field {ℓ} : {A : Type ℓ} → A → (A → Json → Option A) → Option Json → Option A
decode_field zero_value decode none = some zero_value
decode_field zero_value decode (some v) = decode zero_value v

-- strings.EqualFold of a member's name with "type" or "text", as struct decoding compares names.
abbrev lower : ℕ → ℕ
lower c = if leb 65 c && leb c 90 then c + 32 else c

abbrev pub record_key : String → Str
record_key k = map lower (str k)

-- One part of a multimodal array: its type and its text. `none` is a decoding error.
decode_part_members : Str × Str → Fields → Option (Str × Str)
decode_part_members p end = some p
decode_part_members (kind, body) (field k v fs) =
    let typed = decode_string kind v in
    let texted = decode_string body v in
    if record_key k == str "type"
    then (typed >>= λ t. decode_part_members (t, body) fs)
    else if record_key k == str "text"
    then (texted >>= λ t. decode_part_members (kind, t) fs)
    else decode_part_members (kind, body) fs

decode_part : Json → Option (Str × Str)
decode_part (obj fs) = decode_part_members ([], []) fs
decode_part null = some ([], [])
decode_part (bool b) = none
decode_part (num n) = none
decode_part (text s) = none
decode_part (arr vs) = none

decode_parts : Items → Option (List (Str × Str))
decode_parts nil = some []
decode_parts (cons v vs) = do p ← decode_part v; ps ← decode_parts vs; some (p ∷ ps)

-- The loop over the parts, with the builder's text so far.
join_parts : Str → List (Str × Str) → Str
join_parts b [] = b
join_parts b ((kind, body) ∷ ps) =
    join_parts
      (if (kind == str "text") && not (body == [])
        then (if b == [] then body else b ++ (str "\n" ++ body))
        else b)
      ps

abbrev text_of_parts : Option (List (Str × Str)) → Str
text_of_parts none = []
text_of_parts (some ps) = join_parts [] ps

unfoldable pub extract_content_text : Json → Str
unfolding decode_part_members decode_part decode_parts join_parts
extract_content_text (arr vs) = text_of_parts (decode_parts vs)
extract_content_text null = []
extract_content_text (bool b) = []
extract_content_text (num n) = []
extract_content_text (text s) = []
extract_content_text (obj fs) = []

-- The three forms of a message's content.
pub with_content : Str → Extra → Json → Message
with_content role rest (text s) = record {
  role = role;
  content = s;
  content_raw = none;
  content_text = [];
  extra = rest;
}
with_content role rest null = record {
  role = role;
  content = [];
  content_raw = some null;
  content_text = [];
  extra = rest;
}
with_content role rest v =
    let t = extract_content_text v in
    record { role = role; content = t; content_raw = some v; content_text = t; extra = rest }

abbrev with_content? : Str → Extra → Option Json → Message
with_content? role rest none = record {
  role = role;
  content = [];
  content_raw = none;
  content_text = [];
  extra = rest;
}
with_content? role rest (some v) = with_content role rest v

unfoldable pub unmarshal_message : Json → Option Message
unfolding add_members with_content extract_content_text
unmarshal_message v = do
  raw ← decode_map v
  role ← decode_field [] decode_string (lookup "role" raw)
  some (with_content? role (remove "content" (remove "role" raw)) (lookup "content" raw))

-- The untouched raw content, or the text.
unfoldable pub content_json : Message → Json
content_json m = elim m.content_raw [
  | none ↦ text m.content
  | some v ↦ if m.content == m.content_text then v else text m.content
]

-- The members that MarshalJSON emits.
abbrev pub message_members : Message → Extra
message_members m = insert "content" (content_json m) (insert "role" (text m.role) m.extra)

unfoldable pub marshal_message : Message → Json
unfolding content_json
marshal_message m = obj (of_fields (message_members m))

unmarshal_messages : Items → Option (List Message)
unmarshal_messages nil = some []
unmarshal_messages (cons v vs) = do
  m ← unmarshal_message v
  ms ← unmarshal_messages vs
  some (m ∷ ms)

abbrev decode_messages : List Message → Json → Option (List Message)
decode_messages old (arr vs) = unmarshal_messages vs
decode_messages old null = some []
decode_messages old (bool b) = none
decode_messages old (num n) = none
decode_messages old (text s) = none
decode_messages old (obj fs) = none

unfoldable pub unmarshal_request : Json → Option ChatRequest
unfolding add_members unmarshal_messages unmarshal_message
unmarshal_request v = do
  raw ← decode_map v
  model ← decode_field [] decode_string (lookup "model" raw)
  messages ← decode_field [] decode_messages (lookup "messages" raw)
  stream ← decode_field false decode_bool (lookup "stream" raw)
  some (record {
    model = model;
    messages = messages;
    stream = stream;
    extra = remove "stream" (remove "messages" (remove "model" raw));
  })

abbrev pub request_members : ChatRequest → Extra
request_members r = insert "stream" (bool r.stream) (
    insert "messages" (arr (of_items (map marshal_message r.messages)))
      (insert "model" (text r.model) r.extra))

unfoldable pub marshal_request : ChatRequest → Json
marshal_request r = obj (of_fields (request_members r))
