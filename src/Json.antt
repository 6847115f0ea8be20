-- ===== src/Json.antt =====
-- JSON as `encoding/json` decodes it. A `json.RawMessage` that was cut out of a valid document is
-- the value it spells; a number is kept as its literal, as RawMessage keeps it.
use mt_mcp_proxy.Base.{String, Bool, List, [], ◌∷◌, if◌then◌else◌}
use mt_mcp_proxy.Base.Dict.{Dict, has}

mutual
  pub data Json : Type 0 where
    null : Json
    bool : Bool → Json
    num : String → Json
    str : String → Json
    arr : Items → Json
    obj : Fields → Json

  pub data Items : Type 0 where
    nil : Items
    cons : Json → Items → Items

  pub data Fields : Type 0 where
    end : Fields
    field : String → Json → Fields → Fields

abbrev pub items : Items → List Json
items nil = []
items (cons v vs) = v ∷ items vs

abbrev pub of_items : List Json → Items
of_items [] = nil
of_items (v ∷ vs) = cons v (of_items vs)

-- The members of an object, in the order of the text; of a repeated key the last one counts.
abbrev pub members : Fields → Dict Json
members end = []
members (field k v fs) = let rest = members fs in if has k rest then rest else (k, v) ∷ rest

abbrev pub of_members : Dict Json → Fields
of_members [] = end
of_members ((k, v) ∷ m) = field k v (of_members m)

-- `compactJSON(m)` for a map of raw values.
abbrev pub object : Dict Json → Json
object m = obj (of_members m)

abbrev pub array : List Json → Json
array vs = arr (of_items vs)

-- `json.Unmarshal(raw, &m)` for a map `m` that is nil before: `null` leaves it nil, and what is no
-- object is an error, which leaves it nil too.
pub data MapResult : Type 0 where
  failed nil_map : MapResult
  a_map : Dict Json → MapResult

abbrev pub unmarshal_map : Json → MapResult
unmarshal_map (obj fs) = a_map (members fs)
unmarshal_map null = nil_map
unmarshal_map _ = failed

-- `var s string; _ = json.Unmarshal(raw, &s)`
abbrev pub unmarshal_string : Json → String
unmarshal_string (str s) = s
unmarshal_string _ = ""

-- `var ss []string; _ = json.Unmarshal(raw, &ss)`: an element that is no string is left "".
abbrev pub strings_of : Items → List String
strings_of nil = []
strings_of (cons v vs) = unmarshal_string v ∷ strings_of vs

abbrev pub unmarshal_strings : Json → List String
unmarshal_strings (arr vs) = strings_of vs
unmarshal_strings _ = []
