-- ===== src/Authorization/Validity.antt =====
-- What a validated binding and a prepared record guarantee.
use swisstokint_open_risk_in.Prelude.{
  ℕ, ◌+◌, ◌≤◌, String, ◌≡◌, subst, some, ok, >>=-eq-ok, Ensures, Ensures-bind, Ensures-ok, arith,
}
use swisstokint_open_risk_in.Platform.{Platform}
use swisstokint_open_risk_in.Value.{Value}
use swisstokint_open_risk_in.Value.Exact.{Snapshot}
use swisstokint_open_risk_in.Authorization.Checks.{
  Binding, Window, canonical_utc_instant, validate_window, validate_binding_snapshot,
  validate_terms,
}
use swisstokint_open_risk_in.Authorization.Record.{prepare_record}

module _ (p : Platform) where
  -- The window's texts are canonical instants, and its length is between one second and five minutes.
  pub record IsValidWindow (w : Window) : Type 0 where
    pub issued_parses : p.date_parse w.issued_at ≡ some w.issued_ms
    pub expires_parses : p.date_parse w.expires_at ≡ some w.expires_ms
    pub at_least_a_second : w.issued_ms + 1000 ≤ w.expires_ms
    pub at_most_five_minutes : w.expires_ms ≤ w.issued_ms + 300000

  canonical_parses :
      (v : Value) (s : String) (ms : ℕ)
      → canonical_utc_instant p v ≡ ok (s, ms)
      → p.date_parse s ≡ some ms
  unfolding canonical_utc_instant
  canonical_parses (Value.text s) t ms h = ground arith
  canonical_parses v t ms h = cc

  pub validate_window-IsValidWindow :
      (i e : Value) (w : Window) → validate_window p i e ≡ ok w → IsValidWindow w
  unfolding validate_window
  validate_window-IsValidWindow i e w h =
      let ((s, m), hs, h') = >>=-eq-ok (canonical_utc_instant p i) _ h in
      let ((t, n), ht, h'') = >>=-eq-ok (canonical_utc_instant p e) _ h' in
      ground (arith, canonical_parses i s m hs, canonical_parses e t n ht)

  pub validate_binding-IsValidWindow :
      (s : Snapshot) (b : Binding) → validate_binding_snapshot p s ≡ ok b → IsValidWindow b.window
  unfolding validate_binding_snapshot
  validate_binding-IsValidWindow s b h =
      let (terms, _, h') = >>=-eq-ok (validate_terms s) _ h in
      let (w, hw, h'') = >>=-eq-ok (validate_window p _ _) _ h' in
      let same : w ≡ b.window = ground arith in
      subst IsValidWindow same (validate_window-IsValidWindow _ _ w hw)

  pub prepare_record-Ensures :
      (input options : Value)
      → Ensures (λ r. IsValidWindow r.binding.window) (prepare_record p input options)
  unfolding prepare_record
  prepare_record-Ensures input options = Ensures-bind _ _ λ s _. Ensures-bind _ _ λ o _.
      Ensures-bind _ _ λ c _. Ensures-bind _ _ λ t _. Ensures-bind _ _ λ b hb.
        Ensures-bind _ _
          λ u _. Ensures-bind _ _ λ k _. Ensures-ok _ (validate_binding-IsValidWindow _ b hb)
