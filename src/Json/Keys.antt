-- ===== src/Json/Keys.antt =====
-- Keys and literals: `check_key`, `scan_literal` and the rules of Json/Token.
use swisstokint_open_risk_in.Prelude.{
  ◌≡◌, ◌≢◌, refl, sym, inl, inr, true, false, List, [], ◌∷◌, ◌++◌, ok, ◌>>=◌, arith, Bool-cases,
  length, codes, ◌==◌, ==_iff, leb, in_range,
}
use swisstokint_open_risk_in.Json.Lex.{Units, same_units, scan_literal}
use swisstokint_open_risk_in.Json.Scan.{check_key, is_forbidden, mem_units}
use swisstokint_open_risk_in.Json.Token.{IsAmong, IsKey}

same_units-eq : (s t : Units) → same_units s t ≡ true → s ≡ t
unfolding same_units
same_units-eq [] [] h = refl
same_units-eq [] (d ∷ t) h = absurd (cc)
same_units-eq (c ∷ s) [] h = absurd (cc)
same_units-eq (c ∷ s) (d ∷ t) h =
    let x : c ≡ d = ground arith in let y = same_units-eq s t (ground arith) in rw (x, y) refl

same_units_self : (s : Units) → same_units s s ≡ true
unfolding same_units
same_units_self [] = refl
same_units_self (c ∷ s) = ground (arith, same_units_self s)

mem_to : (k : Units) (keys : List Units) → mem_units k keys ≡ true → IsAmong k keys
mem_to k [] h = absurd (cc)
mem_to k (l ∷ keys) h = elim (Bool-cases (same_units k l)) [
  | inl e ↦ inl (same_units-eq k l e)
  | inr e ↦ inr (mem_to k keys (ground arith))
]

mem_of : (k : Units) (keys : List Units) → IsAmong k keys → mem_units k keys ≡ true
mem_of k [] h = elim h [ ]
mem_of k (l ∷ keys) (inl e) = rw (sym e, same_units_self k) refl
mem_of k (l ∷ keys) (inr h) = ground (arith, mem_of k keys h)

mem_absent : (k : Units) (keys : List Units) → mem_units k keys ≡ false → ¬ IsAmong k keys
mem_absent k keys h n = let z = mem_of k keys n in absurd (cc)

absent_mem : (k : Units) (keys : List Units) → ¬ IsAmong k keys → mem_units k keys ≡ false
absent_mem k keys n = elim (Bool-cases (mem_units k keys)) [
  | inl e ↦ absurd (n (mem_to k keys e))
  | inr e ↦ e
]

abbrev forbidden : List Units
forbidden = codes "__proto__" ∷ codes "constructor" ∷ codes "prototype" ∷ []

no_forbidden :
    (k : Units)
    → (k ≢ codes "__proto__") × ((k ≢ codes "constructor") × (k ≢ codes "prototype"))
    → ¬ IsAmong k forbidden
no_forbidden k (a, (b, c)) (inl e) = a e
no_forbidden k (a, (b, c)) (inr (inl e)) = b e
no_forbidden k (a, (b, c)) (inr (inr (inl e))) = c e
no_forbidden k (a, (b, c)) (inr (inr (inr e))) = elim e [ ]

pub check_key-IsKey : (keys : List Units) (k : Units) → check_key keys k ≡ ok tt → IsKey keys k
unfolding check_key is_forbidden ◌>>=◌
check_key-IsKey keys k h =
    let size : in_range 1 64 (length k) ≡ true = ground arith in
    let allowed : mem_units k forbidden ≡ false = ground arith in
    let fresh : mem_units k keys ≡ false = ground arith in
    let other = mem_absent k forbidden allowed in
    record {
      nonempty = ground arith;
      short = ground arith;
      no_prototype =
          (λ e. other (inl e), (λ e. other (inr (inl e)), λ e. other (inr (inr (inl e)))));
      unused = mem_absent k keys fresh;
    }

pub IsKey-check_key : (keys : List Units) (k : Units) → IsKey keys k → check_key keys k ≡ ok tt
unfolding check_key is_forbidden ◌>>=◌
IsKey-check_key keys k i =
    let allowed : mem_units k forbidden ≡ false =
      absent_mem k forbidden (no_forbidden k i.no_prototype) in
    let fresh : mem_units k keys ≡ false = absent_mem k keys i.unused in
    let low : leb 1 (length k) ≡ true = ground (arith, i.nonempty) in
    let high : leb (length k) 64 ≡ true = ground (arith, i.short) in
    rw (low, high, allowed, fresh) refl

pub scan_literal-eq : (word s r : Units) → scan_literal word s ≡ ok r → s ≡ word ++ r
unfolding scan_literal
scan_literal-eq [] s r h = ground arith
scan_literal-eq (c ∷ word) [] r h = absurd (cc)
scan_literal-eq (c ∷ word) (d ∷ s) r h = elim (Bool-cases (d == c)) [
  | inl e ↦
      let x : d ≡ c = (==_iff d c).0 e in
      let y = scan_literal-eq word s r (ground arith) in rw (x, y) refl
  | inr e ↦ absurd (ground arith)
]

pub scan_literal_self : (word r : Units) → scan_literal word (word ++ r) ≡ ok r
unfolding scan_literal
scan_literal_self [] r = refl
scan_literal_self (c ∷ word) r = ground (arith, scan_literal_self word r)
