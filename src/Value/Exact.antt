-- ===== src/Value/Exact.antt =====
-- The exact-shape checks of the core: `exactOwnData` (core/gate/reference-durable-claim-store.mjs),
-- `snapshotExactReferences` (core/gate/reference-single-use-gate.mjs and
-- core/witness/reference-trust-lifecycle.mjs) and `snapshotExactDataObject`
-- (core/authorization/reference-exact-authorization.mjs). Each throws one error on every failure, so a
-- failure is `none`.
use swisstokint_open_risk_in.Prelude.{
  Option-cases, inl, inr, eq_iff, String, ◌≡◌, Bool, true, false, ◌&&◌, not, Option, none, some,
  List, [], ◌∷◌, arith, str_eq, text_lt, if◌then◌else◌, ◌==◌, length, mem_text, all_of,
}
use swisstokint_open_risk_in.Value.{
  Value, Properties, Prototype, Shape, object_prototype, null_prototype, undefined, object,
  property_names, descriptor_of, enumerable_value,
}

-- The frozen snapshot: the expected keys with their values.
abbrev pub Snapshot : Type 0
Snapshot = List (String × Value)

-- `snapshot[key]`
unfoldable pub value_at : String → Snapshot → Value
value_at k [] = undefined
value_at k ((j, v) ∷ s) = if str_eq k j then v else value_at k s

insert_text : String → List String → List String
insert_text k [] = k ∷ []
insert_text k (x ∷ xs) =
    let behind = x ∷ insert_text k xs in if text_lt x k then behind else k ∷ x ∷ xs

-- `keys.sort()`
unfoldable pub sort_texts : List String → List String
unfolding insert_text
sort_texts [] = []
sort_texts (k ∷ ks) = insert_text k (sort_texts ks)

-- Of equal length and equal at each index.
unfoldable pub same_texts : List String → List String → Bool
same_texts [] [] = true
same_texts [] (y ∷ ys) = false
same_texts (x ∷ xs) [] = false
same_texts (x ∷ xs) (y ∷ ys) = str_eq x y && same_texts xs ys

unfoldable pub add_entry : String → Option Value → Option Snapshot → Option Snapshot
add_entry k (some v) (some s) = some ((k, v) ∷ s)
add_entry k (some v) none = none
add_entry k none rest = none

-- `for (const key of expectedKeys) { … snapshot[key] = descriptor.value; }`
unfoldable pub take_fields : List String → Properties → Option Snapshot
unfolding add_entry
take_fields [] ps = some []
take_fields (k ∷ ks) ps = add_entry k (enumerable_value (descriptor_of k ps)) (take_fields ks ps)

abbrev pub is_object_prototype : Prototype → Bool
is_object_prototype object_prototype = true
is_object_prototype _ = false

abbrev pub is_plain_prototype : Prototype → Bool
is_plain_prototype object_prototype = true
is_plain_prototype null_prototype = true
is_plain_prototype _ = false

-- Not a proxy, an accepted prototype, no symbol keys.
abbrev pub boundary : (Prototype → Bool) → Shape → Bool
boundary accepted sh = not sh.is_proxy && (accepted sh.prototype && sh.symbols == 0)

-- `actual.length !== wanted.length || actual.some((key, index) => key !== wanted[index])`
unfoldable pub exact_sorted_keys : List String → Properties → Bool
unfolding sort_texts same_texts
exact_sorted_keys expected ps = same_texts (sort_texts (property_names ps)) (sort_texts expected)

-- The gate's form of that test: as many keys, and every expected key among them.
unfoldable pub exact_owned_keys : List String → Properties → Bool
exact_owned_keys expected ps =
    length (property_names ps) == length expected
    && all_of (λ k. mem_text k (property_names ps)) expected

unfoldable pub snapshot_object :
    (Prototype → Bool) → (List String → Properties → Bool) → List String → Value → Option Snapshot
unfolding take_fields
snapshot_object accepted keys expected (object sh ps) =
    if boundary accepted sh && keys expected ps then take_fields expected ps else none
snapshot_object accepted keys expected v = none

-- `exactOwnData`: `Object.prototype` alone
unfoldable pub exact_own_data : List String → Value → Option Snapshot
unfolding snapshot_object exact_sorted_keys
exact_own_data = snapshot_object is_object_prototype exact_sorted_keys

-- `snapshotExactReferences` of the trust lifecycle, and `snapshotExactDataObject`
unfoldable pub snapshot_exact_data_object : List String → Value → Option Snapshot
unfolding snapshot_object exact_sorted_keys
snapshot_exact_data_object = snapshot_object is_plain_prototype exact_sorted_keys

-- `snapshotExactReferences` and `snapshotObservedRecord` of the gate
unfoldable pub snapshot_exact_references : List String → Value → Option Snapshot
unfolding snapshot_object exact_owned_keys
snapshot_exact_references = snapshot_object is_plain_prototype exact_owned_keys

-- What a snapshot holds under an expected key is the value of the object's own enumerable data
-- property of that name.
pub take_fields_sound :
    (ks : List String) (ps : Properties) (s : Snapshot) (k : String)
    → take_fields ks ps ≡ some s
    → mem_text k ks ≡ true
    → enumerable_value (descriptor_of k ps) ≡ some (value_at k s)
unfolding take_fields value_at
take_fields_sound [] ps s k h m = cc
take_fields_sound (j ∷ ks) ps s k h m =
    elim (Option-cases (enumerable_value (descriptor_of j ps))) [
      | inl e ↦ ground arith
      | inr (v, e) ↦ elim (Option-cases (take_fields ks ps)) [
        | inl e' ↦ ground arith
        | inr (r, e') ↦ ground (arith, eq_iff k j, take_fields_sound ks ps r k)
      ]
    ]
