-- ===== src/Json/Tests.antt =====
-- Texts that are scanned, and the theorems at one of them.
use swisstokint_open_risk_in.Prelude.{◌≡◌, ◌≢◌, ◌↔◌, refl, some, ok, err, codes, Ensures}
use swisstokint_open_risk_in.Json.Lex.{
  Units, json_fuel, json_duplicate_key, json_number, json_bounds, json_syntax,
}
use swisstokint_open_risk_in.Json.Scan.{scan_text}
use swisstokint_open_risk_in.Json.Fuel.{scan_terminates}
use swisstokint_open_risk_in.Json.Grammar.{IsStrict}
use swisstokint_open_risk_in.Json.Token.{Blanks}
use swisstokint_open_risk_in.Json.Equivalence.{scan_text_iff}
use swisstokint_open_risk_in.Json.Ingress.{Json, JsonHost, parse_bounded}
use swisstokint_open_risk_in.Json.Bounds.{IsIngress, parse_bounded-IsIngress}
use swisstokint_open_risk_in.Prelude.{◌>>=◌}
use swisstokint_open_risk_in.Json.Lex.{skip_whitespace}
use swisstokint_open_risk_in.Json.Lex.{starts}
use swisstokint_open_risk_in.Json.Lex.{expected}
use swisstokint_open_risk_in.Json.Lex.{scan_string}
use swisstokint_open_risk_in.Json.Lex.{same_units}
use swisstokint_open_risk_in.Prelude.{is_digit}
use swisstokint_open_risk_in.Json.Lex.{scan_number}
use swisstokint_open_risk_in.Json.Lex.{scan_literal}

abbrev request : Units
request = codes "{ \"method\": \"eth_call\", \"params\": [1, \"a\\u0041\", null] }"

-- Six nodes: the object, the text of the method, the array and its three elements.
request_scanned : scan_text request ≡ ok 6
unfolding scan_text ◌>>=◌ skip_whitespace starts expected scan_string same_units is_digit
    scan_number scan_literal
request_scanned = refl

duplicate_refused : scan_text (codes "{\"a\":1,\"a\":2}") ≡ err json_duplicate_key
unfolding scan_text ◌>>=◌ skip_whitespace starts expected scan_string same_units is_digit
    scan_number
duplicate_refused = refl

fraction_refused : scan_text (codes "[1.5]") ≡ err json_number
unfolding scan_text ◌>>=◌ skip_whitespace starts is_digit scan_number
fraction_refused = refl

nesting_refused : scan_text (codes "[[[[[[[[[[]]]]]]]]]]") ≡ err json_bounds
unfolding scan_text ◌>>=◌ skip_whitespace starts
nesting_refused = refl

trailing_refused : scan_text (codes "[1,]") ≡ err json_syntax
unfolding scan_text ◌>>=◌ skip_whitespace starts is_digit scan_number expected
trailing_refused = refl

-- The value of every text here
abbrev sample_host : JsonHost
sample_host = record { json_parse = λ s. some Json.null; text_of = λ s. "" }

scan_terminates_example : scan_text request ≢ err json_fuel
scan_terminates_example = scan_terminates request

scan_text_iff_example :
    ((s : Units) → Blanks s (skip_whitespace s)) × ((scan_text request ≡ ok 6) ↔ IsStrict request 6)
scan_text_iff_example = scan_text_iff request 6

parse_bounded-IsIngress_example :
    Ensures (IsIngress sample_host (some request)) (parse_bounded sample_host (some request))
parse_bounded-IsIngress_example = parse_bounded-IsIngress sample_host (some request)

null_parsed : parse_bounded sample_host (some (codes "null")) ≡ ok Json.null
unfolding parse_bounded ◌>>=◌ skip_whitespace scan_literal
null_parsed = refl
