-- ===== src/ControlPlane/Redaction.antt =====
-- internal/controlplane/service/sanitize.go: what a response shows of a configuration, and what an
-- update makes of a shown one. A `map[string]interface{}` is a list of members, none for nil;
-- `strings.ToLower` is the parameter `to_lower`.
pub mod RoundTrip
use sheeld.Prelude.{
  ℕ, Bool, true, false, ◌==◌, nat_eq, string_eq, bytes_eq, ◌||◌, if◌then◌else◌, String, Str, str,
  List, [], ◌∷◌, ◌++◌, Option, none, some, lookup, drop, length, ◌-◌, leb, ◌&&◌,
}
use sheeld.Json.{Json, null, bool, num, text, arr, obj, Fields, fields, of_fields}

abbrev pub Config : Type 0
Config = Option (List (String × Json))

abbrev pub redacted_value : Json
redacted_value = text (str "***")

-- `v == redactedValue` for an `interface{}`.
abbrev pub is_redacted : Json → Bool
is_redacted null = false
is_redacted (bool b) = false
is_redacted (num s) = false
is_redacted (text s) = s == str "***"
is_redacted (arr v) = false
is_redacted (obj f) = false

abbrev pub has_suffix : Str → Str → Bool
has_suffix s suffix =
    leb (length suffix) (length s) && (drop (length s - length suffix) s == suffix)

module _ (to_lower : Str → Str) where
  unfoldable pub is_secret_key : String → Bool
  is_secret_key key =
      let k = to_lower (str key) in
      (k == str "api_key") || ((k == str "headers") || has_suffix k (str "_key"))

  unfoldable pub sanitize_members : List (String × Json) → List (String × Json)
  unfolding is_secret_key
  sanitize_members [] = []
  sanitize_members ((k, v) ∷ m) =
      (k, if is_secret_key k then redacted_value else v) ∷ sanitize_members m

  unfoldable pub sanitize_config : Config → Config
  unfolding sanitize_members
  sanitize_config none = none
  sanitize_config (some m) = some (sanitize_members m)

-- What the loop of `PreserveRedactedSecrets` keeps of one member.
unfoldable pub preserved : Config → String → Json → Json
preserved none k v = v
preserved (some stored) k v =
    if is_redacted v then elim (lookup k stored) [ none ↦ v | some prev ↦ prev ] else v

unfoldable pub preserve_members : List (String × Json) → Config → List (String × Json)
unfolding preserved
preserve_members [] stored = []
preserve_members ((k, v) ∷ m) stored = (k, preserved stored k v) ∷ preserve_members m stored

unfoldable pub preserve_redacted_secrets : Config → Config → Config
unfolding preserve_members
preserve_redacted_secrets none stored = none
preserve_redacted_secrets (some m) stored = some (preserve_members m stored)

-- `json.Marshal` of a configuration (the order of the members aside), and `json.Unmarshal` of a stored
-- one, whose error is ignored.
unfoldable pub marshal_config : Config → Json
marshal_config none = null
marshal_config (some m) = obj (of_fields m)

unfoldable pub unmarshal_config : Json → Config
unmarshal_config (obj f) = some (fields f)
unmarshal_config null = none
unmarshal_config (bool b) = none
unmarshal_config (num s) = none
unmarshal_config (text s) = none
unmarshal_config (arr v) = none
