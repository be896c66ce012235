-- ===== src/Canonical/Render.antt =====
-- `canonicalizeValue`: the canonical text of plain data. The source sorts the entries of an object by
-- key and then renders them; here they are rendered and then sorted by key, which is the same, since
-- the order looks at keys alone.
use Prim.Native.String.{◌++◌}
use swisstokint_open_risk_in.Prelude.{
  String, Bool, true, false, List, [], ◌∷◌, text_lt, if◌then◌else◌,
}
use swisstokint_open_risk_in.Data.{
  Data, Items, Fields, null, boolean, number, text, array, object, opaque, nil, cons, end, field,
}
use swisstokint_open_risk_in.Platform.{Platform}
use swisstokint_open_risk_in.Canonical.Number.{show_number, json_string}

abbrev Entry : Type 0
Entry = String × String

-- A stable insertion: an entry goes behind those whose key is not greater.
insert_entry : Entry → List Entry → List Entry
insert_entry e [] = e ∷ []
insert_entry e (x ∷ xs) =
    let behind = x ∷ insert_entry e xs in if text_lt x.0 e.0 then behind else e ∷ x ∷ xs

unfoldable pub sort_entries : List Entry → List Entry
unfolding insert_entry
sort_entries [] = []
sort_entries (e ∷ es) = insert_entry e (sort_entries es)

-- `entries.map(([key, value]) => …).join(',')`
unfoldable pub join_entries : List Entry → String
join_entries [] = ""
join_entries ((k, v) ∷ []) = json_string k ++ (":" ++ v)
join_entries ((k, v) ∷ e ∷ es) = json_string k ++ (":" ++ (v ++ ("," ++ join_entries (e ∷ es))))

unfoldable pub join_items : List String → String
join_items [] = ""
join_items (t ∷ []) = t
join_items (t ∷ u ∷ us) = t ++ ("," ++ join_items (u ∷ us))

abbrev boolean_text : Bool → String
boolean_text true = "true"
boolean_text false = "false"

module _ (p : Platform) where
  unfoldable mutual
    pub canonicalize_value : Data → String
    canonicalize_value null = "null"
    canonicalize_value (boolean b) = boolean_text b
    canonicalize_value (number n) = show_number n
    canonicalize_value (text s) = json_string (p.normalize_nfc s)
    canonicalize_value (array xs) = "[" ++ (join_items (canonical_items xs) ++ "]")
    canonicalize_value (object fs) =
        "{" ++ (join_entries (sort_entries (canonical_entries fs)) ++ "}")
    canonicalize_value opaque = "undefined"

    pub canonical_items : Items → List String
    canonical_items nil = []
    canonical_items (cons x xs) = canonicalize_value x ∷ canonical_items xs

    pub canonical_entries : Fields → List Entry
    canonical_entries end = []
    canonical_entries (field k v fs) = (k, canonicalize_value v) ∷ canonical_entries fs
