-- ===== src/Json/Bounds.antt =====
-- What the ingress returns, and its bounds.
use swisstokint_open_risk_in.Prelude.{
  ℕ, ◌+◌, ◌-◌, ◌≤◌, ◌≡◌, refl, sym, subst, ap, ◌∙◌, Bool, true, false, not, Option, none, some, ok,
  guard, ltb, leb, leb→le, in_range, arith, length, Ensures, Ensures-bind, Ensures-ok, guard-true,
  &&_parts, ok-inj, >>=-eq-ok,
}
use swisstokint_open_risk_in.Data.{Number, is_safe_integer}
use swisstokint_open_risk_in.Json.Lex.{
  Units, json_bounds, json_unicode, json_number, is_scalar_text,
}
use swisstokint_open_risk_in.Json.Scan.{
  max_depth, max_nodes, max_string_length, max_key_length, is_forbidden, scan_text,
}
use swisstokint_open_risk_in.Json.Grammar.{IsStrict}
use swisstokint_open_risk_in.Json.Sound.{scan_text-IsStrict}
use swisstokint_open_risk_in.Json.Ingress.{
  Json, JsonItems, JsonEntries, null, boolean, number, text, array, object, nil, cons, end, entry,
  JsonHost, enter, check_cloned_key, clone_parsed, clone_items, clone_entries, utf8_bytes,
  max_raw_bytes, parsed, raw_text, parse_bounded,
}

-- How many values a value has in it.
unfoldable mutual
  pub nodes : Json → ℕ
  nodes (array xs) = 1 + item_nodes xs
  nodes (object es) = 1 + entry_nodes es
  nodes _ = 1

  pub item_nodes : JsonItems → ℕ
  item_nodes nil = 0
  item_nodes (cons x xs) = nodes x + item_nodes xs

  pub entry_nodes : JsonEntries → ℕ
  entry_nodes end = 0
  entry_nodes (entry k x es) = nodes x + entry_nodes es

-- A value that may stand at a depth: eight levels at most, safe integers, bounded texts of Unicode scalars,
-- and keys that are allowed.
mutual
  pub data Bounded : ℕ → Json → Type 0 where
    null_bounded : (d : ℕ) → d ≤ max_depth → Bounded d null
    boolean_bounded : (d : ℕ) (b : Bool) → d ≤ max_depth → Bounded d (boolean b)
    number_bounded :
        (d : ℕ) (n : Number) → d ≤ max_depth → is_safe_integer n ≡ true → Bounded d (number n)
    text_bounded :
        (d : ℕ) (s : Units)
        → d ≤ max_depth
        → length s ≤ max_string_length
        → is_scalar_text s ≡ true
        → Bounded d (text s)
    array_bounded :
        (d : ℕ) (xs : JsonItems) → d ≤ max_depth → BoundedItems (d + 1) xs → Bounded d (array xs)
    object_bounded :
        (d : ℕ) (es : JsonEntries)
        → d ≤ max_depth
        → BoundedEntries (d + 1) es
        → Bounded d (object es)

  pub data BoundedItems : ℕ → JsonItems → Type 0 where
    no_items : (d : ℕ) → BoundedItems d nil
    more_items :
        (d : ℕ) (x : Json) (xs : JsonItems)
        → Bounded d x
        → BoundedItems d xs
        → BoundedItems d (cons x xs)

  pub data BoundedEntries : ℕ → JsonEntries → Type 0 where
    no_entries : (d : ℕ) → BoundedEntries d end
    more_entries :
        (d : ℕ) (k : Units) (x : Json) (es : JsonEntries)
        → is_scalar_text k ≡ true
        → is_forbidden k ≡ false
        → length k ≤ max_key_length
        → Bounded d x
        → BoundedEntries d es
        → BoundedEntries d (entry k x es)

-- A clone of what is within the bounds: the value itself, with its nodes taken from the budget.
pub record Copied (d budget : ℕ) (v : Json) (out : Json × ℕ) : Type 0 where
  pub same : out.0 ≡ v
  pub bounded : Bounded d v
  pub spent : budget ≡ out.1 + nodes v

pub record CopiedItems (d budget : ℕ) (v : JsonItems) (out : JsonItems × ℕ) : Type 0 where
  pub same : out.0 ≡ v
  pub bounded : BoundedItems d v
  pub spent : budget ≡ out.1 + item_nodes v

pub record CopiedEntries (d budget : ℕ) (v : JsonEntries) (out : JsonEntries × ℕ) : Type 0 where
  pub same : out.0 ≡ v
  pub bounded : BoundedEntries d v
  pub spent : budget ≡ out.1 + entry_nodes v

entered : (d b : ℕ) (u : Unit) → enter d b ≡ ok u → (d ≤ max_depth) × (1 ≤ b)
entered d b u h =
    let parts = &&_parts (leb d max_depth) (ltb 0 b) (guard-true _ _ h) in
    (leb→le _ _ parts.0, ground (arith, parts.1))

not-true : (b : Bool) → not b ≡ true → b ≡ false
not-true b h = ground arith

in_range-upper : (lo hi n : ℕ) → in_range lo hi n ≡ true → n ≤ hi
in_range-upper lo hi n h = ground arith

key_checked :
    (k : Units) (u : Unit)
    → check_cloned_key k ≡ ok u
    → (is_scalar_text k ≡ true) × (is_forbidden k ≡ false) × (length k ≤ max_key_length)
unfolding check_cloned_key
key_checked k u h =
    let (_, e, h') = >>=-eq-ok (guard (is_scalar_text k) json_unicode) _ h in
    let parts = &&_parts (in_range 1 max_key_length (length k)) _ (guard-true _ _ h') in
    (guard-true _ _ e, not-true _ parts.1, in_range-upper 1 max_key_length (length k) parts.0)

mutual
  unfolding clone_parsed nodes

  clone_parsed-Copied : (v : Json) (d b : ℕ) → Ensures (Copied d b v) (clone_parsed v d b)
  clone_parsed-Copied null d b = Ensures-bind (enter d b) _ λ u e.
      let (deep, some_left) = entered d b u e in
      Ensures-ok _ (record { same = refl; bounded = null_bounded d deep; spent = omega arith })
  clone_parsed-Copied (boolean x) d b = Ensures-bind (enter d b) _ λ u e.
      let (deep, some_left) = entered d b u e in
      Ensures-ok _ (record { same = refl; bounded = boolean_bounded d x deep; spent = omega arith })
  clone_parsed-Copied (number n) d b = Ensures-bind (enter d b) _ λ u e.
      Ensures-bind (guard (is_safe_integer n) json_number) _ λ v q.
        let (deep, some_left) = entered d b u e in
        Ensures-ok _ (record {
          same = refl;
          bounded = number_bounded d n deep (guard-true _ _ q);
          spent = omega arith;
        })
  clone_parsed-Copied (text s) d b = Ensures-bind (enter d b) _ λ u e.
      Ensures-bind (guard (leb (length s) max_string_length) json_bounds) _ λ v short.
        Ensures-bind (guard (is_scalar_text s) json_unicode) _ λ w scalar.
          let (deep, some_left) = entered d b u e in
          Ensures-ok _ (record {
            same = refl;
            bounded =
                text_bounded d s deep (leb→le _ _ (guard-true _ _ short)) (guard-true _ _ scalar);
            spent = omega arith;
          })
  clone_parsed-Copied (array xs) d b = Ensures-bind (enter d b) _ λ u e.
      Ensures-bind (clone_items xs (d + 1) (b - 1)) _ λ out q.
        let (deep, some_left) = entered d b u e in
        let inner = (clone_items-CopiedItems xs (d + 1) (b - 1)).at out q in
        Ensures-ok _ (record {
          same = ap array inner.same;
          bounded = array_bounded d xs deep inner.bounded;
          spent = omega (arith, inner.spent);
        })
  clone_parsed-Copied (object es) d b = Ensures-bind (enter d b) _ λ u e.
      Ensures-bind (clone_entries es (d + 1) (b - 1)) _ λ out q.
        let (deep, some_left) = entered d b u e in
        let inner = (clone_entries-CopiedEntries es (d + 1) (b - 1)).at out q in
        Ensures-ok _ (record {
          same = ap object inner.same;
          bounded = object_bounded d es deep inner.bounded;
          spent = omega (arith, inner.spent);
        })

  clone_items-CopiedItems :
      (xs : JsonItems) (d b : ℕ) → Ensures (CopiedItems d b xs) (clone_items xs d b)
  clone_items-CopiedItems nil d b =
      Ensures-ok _ (record { same = refl; bounded = no_items d; spent = omega arith })
  clone_items-CopiedItems (cons x xs) d b = Ensures-bind (clone_parsed x d b) _ λ out q.
      Ensures-bind (clone_items xs d out.1) _ λ rest r.
        let head = (clone_parsed-Copied x d b).at out q in
        let tail = (clone_items-CopiedItems xs d out.1).at rest r in
        Ensures-ok _ (record {
          same = rw (head.same, tail.same) refl;
          bounded = more_items d x xs head.bounded tail.bounded;
          spent = omega (arith, head.spent, tail.spent);
        })

  clone_entries-CopiedEntries :
      (es : JsonEntries) (d b : ℕ) → Ensures (CopiedEntries d b es) (clone_entries es d b)
  clone_entries-CopiedEntries end d b =
      Ensures-ok _ (record { same = refl; bounded = no_entries d; spent = omega arith })
  clone_entries-CopiedEntries (entry k x es) d b = Ensures-bind (check_cloned_key k) _ λ u key.
      Ensures-bind (clone_parsed x d b) _ λ out q.
        Ensures-bind (clone_entries es d out.1) _ λ rest r.
          let (scalar, allowed, short) = key_checked k u key in
          let head = (clone_parsed-Copied x d b).at out q in
          let tail = (clone_entries-CopiedEntries es d out.1).at rest r in
          Ensures-ok _ (record {
            same = rw (head.same, tail.same) refl;
            bounded = more_entries d k x es scalar allowed short head.bounded tail.bounded;
            spent = omega (arith, head.spent, tail.spent);
          })

-- What was accepted: a strict text within its bounds, and what `JSON.parse` made of it.
pub record IsIngress (h : JsonHost) (input : Option Units) (v : Json) : Type 0 where
  pub raw : Units
  pub is_text : input ≡ some raw
  pub bytes : (2 ≤ utf8_bytes raw) × (utf8_bytes raw ≤ max_raw_bytes)
  pub scanned : ℕ
  pub strict : IsStrict raw scanned
  pub is_parsed : h.json_parse raw ≡ some v
  pub bounded : Bounded 0 v
  pub few_nodes : nodes v ≤ max_nodes

parsed-eq : (o : Option Json) (v : Json) → parsed o ≡ ok v → o ≡ some v
unfolding parsed
parsed-eq none v h = absurd (cc)
parsed-eq (some w) v h = ap some (ok-inj h)

raw_text-eq : (o : Option Units) (s : Units) → raw_text o ≡ ok s → o ≡ some s
unfolding raw_text
raw_text-eq none s h = absurd (cc)
raw_text-eq (some t) s h = ap some (ok-inj h)

in_range-both : (lo hi n : ℕ) → in_range lo hi n ≡ true → (lo ≤ n) × (n ≤ hi)
in_range-both lo hi n h = ground arith

module _ (h : JsonHost) where
  -- A value that the bounded ingress returns is the one that `JSON.parse` gave for the input, which is a
  -- string of 2 to 65536 bytes and strict JSON; it has at most a thousand nodes, at depths 0 to 8, and
  -- within them only safe integers, bounded texts of Unicode scalars, and allowed keys.
  pub parse_bounded-IsIngress :
      (input : Option Units) → Ensures (IsIngress h input) (parse_bounded h input)
  unfolding parse_bounded
  parse_bounded-IsIngress input = Ensures-bind (raw_text input) _ λ raw e0. Ensures-bind _ _ λ u e1.
      Ensures-bind _ _ λ v e2. Ensures-bind (scan_text raw) _ λ n e3.
        Ensures-bind (parsed (h.json_parse raw)) _ λ value e4.
          Ensures-bind (clone_parsed value 0 max_nodes) _ λ out e5.
            let clone = (clone_parsed-Copied value 0 max_nodes).at out e5 in
            Ensures-ok _ (record {
              raw = raw;
              is_text = raw_text-eq input raw e0;
              bytes = in_range-both 2 max_raw_bytes (utf8_bytes raw) (guard-true _ _ e1);
              scanned = n;
              strict = (scan_text-IsStrict raw).at n e3;
              is_parsed = parsed-eq _ value e4 ∙ ap some (sym clone.same);
              bounded = subst (Bounded 0) (sym clone.same) clone.bounded;
              few_nodes = rw clone.same (omega (arith, clone.spent));
            })
