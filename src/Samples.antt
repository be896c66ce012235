-- ===== src/Samples.antt =====
-- Concrete platforms, values and texts that the tests of the components share.
use swisstokint_open_risk_in.Prelude.{
  ℕ, String, true, Option, none, some, List, [], ◌∷◌, if◌then◌else◌, str_eq, ◌==◌,
}
use Prim.Native.String.{compare}
use swisstokint_open_risk_in.Platform.{Platform}
use swisstokint_open_risk_in.Value.{Value, Properties, plain, object_prototype}

-- Some instants and their texts.
abbrev pub t0 : String
t0 = "2026-01-01T00:00:00.000Z"

abbrev pub t1 : String
t1 = "2026-01-01T00:00:10.000Z"

abbrev pub t2 : String
t2 = "2026-01-01T00:01:00.000Z"

abbrev pub t3 : String
t3 = "2026-01-01T00:02:00.000Z"

unfoldable pub sample_parse : String → Option ℕ
sample_parse s =
    if str_eq s t0
    then some 0
    else if str_eq s t1
    then some 10000
    else if str_eq s t2
    then some 60000
    else if str_eq s t3
    then some 120000
    else none

unfoldable pub sample_iso : ℕ → String
sample_iso n =
    if n == 0
    then t0
    else if n == 10000
    then t1
    else if n == 60000
    then t2
    else if n == 120000
    then t3
    else ""

abbrev pub hash_a : String
hash_a = "aaaaaaaaaaaaaaaaaaaaaaaaaaaaaaaaaaaaaaaaaaaaaaaaaaaaaaaaaaaaaaaa"

abbrev pub hash_b : String
hash_b = "bbbbbbbbbbbbbbbbbbbbbbbbbbbbbbbbbbbbbbbbbbbbbbbbbbbbbbbbbbbbbbbb"

unfoldable pub sample_platform : Platform
unfolding sample_parse sample_iso
sample_platform = record {
  sha256_hex = λ s. hash_a;
  date_parse = sample_parse;
  to_iso_string = sample_iso;
  normalize_nfc = λ s. s;
  locale_compare = compare;
}

abbrev pub properties_of : List (String × Value) → Properties
properties_of [] = Properties.no_more
properties_of ((k, v) ∷ l) = Properties.data_property k true v (properties_of l)

abbrev pub object_of : List (String × Value) → Value
object_of l = Value.object (plain object_prototype) (properties_of l)
