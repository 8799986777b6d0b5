-- ===== src/Json.antt =====
-- JSON values as encoding/json reads them: the values of `json.RawMessage` and `interface{}`.
-- A number keeps its literal; an object keeps its members in order.
use sheeld.Prelude.{◌≡◌, refl, ap, List, [], ◌∷◌, Bool, String, Str}

mutual
  pub data Json : Type 0 where
    null : Json
    bool : Bool → Json
    num : Str → Json
    text : Str → Json
    arr : Items → Json
    obj : Fields → Json

  pub data Items : Type 0 where
    nil : Items
    cons : Json → Items → Items

  pub data Fields : Type 0 where
    end : Fields
    field : String → Json → Fields → Fields

abbrev pub items : Items → List Json
items nil = []
items (cons v vs) = v ∷ items vs

abbrev pub of_items : List Json → Items
of_items [] = nil
of_items (v ∷ vs) = cons v (of_items vs)

abbrev pub fields : Fields → List (String × Json)
fields end = []
fields (field k v fs) = (k, v) ∷ fields fs

abbrev pub of_fields : List (String × Json) → Fields
of_fields [] = end
of_fields ((k, v) ∷ m) = field k v (of_fields m)

pub items-of_items : (vs : List Json) → items (of_items vs) ≡ vs
items-of_items [] = refl
items-of_items (v ∷ vs) = ap (λ l. v ∷ l) (items-of_items vs)

pub fields-of_fields : (m : List (String × Json)) → fields (of_fields m) ≡ m
fields-of_fields [] = refl
fields-of_fields ((k, v) ∷ m) = ap (λ l. (k, v) ∷ l) (fields-of_fields m)
