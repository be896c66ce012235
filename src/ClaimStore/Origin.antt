-- ===== src/ClaimStore/Origin.antt =====
-- Where the names of the inodes come from.
use swisstokint_open_risk_in.Prelude.{
  ℕ, ◌<◌, ◌≡◌, refl, sym, ap, subst, ◌∙◌, inl, inr, Bool, true, false, Option, none, some, List, [],
  ◌∷◌, arith, Bool-cases, length, length-append,
}
use swisstokint_open_risk_in.ClaimStore.Io.{
  Place, Op, lstat, mkdir, open_new, sync_file, close_file, unlink, sync_directory, read_file,
  write_file, link, await_root,
}
use swisstokint_open_risk_in.ClaimStore.Files.{
  Files, Entry, directory, file, other, same_place, find, lookup, remove, create, create_file,
  unlink_file, link_file, perform, attempted, Luck, works, fails_before, fails_after,
}
use swisstokint_open_risk_in.ClaimStore.Kept.{
  is_temp, IsTempOf, IsTameOp, same_place-eq, remove-keeps, write_over-names,
}
use swisstokint_open_risk_in.ClaimStore.Tame.{after}

-- An inode that a temporary name with the number `n` stands for has no other kind of name.
pub record Private (n : ℕ) (fs : Files) : Type 0 where
  pub only :
      (t a : Place) (k : ℕ)
      → IsTempOf n t
      → lookup t fs ≡ some (file k)
      → lookup a fs ≡ some (file k)
      → IsTempOf n a

-- Names stand for inodes that exist.
pub record Numbered (fs : Files) : Type 0 where
  pub exists : (a : Place) (k : ℕ) → lookup a fs ≡ some (file k) → k < length fs.contents

-- Why a name stands for an inode after an operation of a call that drew `n`.
pub data Origin (n : ℕ) (d : Bool) (o : Op) (fs fs' : Files) (a : Place) (k : ℕ) : Type 0 where
  old : lookup a fs ≡ some (file k) → Origin n d o fs fs' a k
  new :
      d ≡ false
      → IsTempOf n a
      → k ≡ length fs.contents
      → k < length fs'.contents
      → Origin n d o fs fs' a k
  linked :
      (t : Place)
      → d ≡ false
      → after d o ≡ true
      → is_temp a ≡ false
      → IsTempOf n t
      → lookup t fs ≡ some (file k)
      → Origin n d o fs fs' a k

find-removed : (a : Place) (fs : List (Place × Entry)) → find a (remove a fs) ≡ none
unfolding find remove
find-removed a [] = refl
find-removed a ((b, e) ∷ fs) = elim (Bool-cases (same_place a b)) [
  | inl m ↦ rw m (find-removed a fs)
  | inr m ↦ rw (m, m) (find-removed a fs)
]

remove-old :
    (a b : Place) (e : Entry) (fs : List (Place × Entry))
    → find a (remove b fs) ≡ some e
    → find a fs ≡ some e
remove-old a b e fs h = elim (Bool-cases (same_place a b)) [
  | inr n ↦ sym (remove-keeps b a fs n) ∙ h
  | inl n ↦
      let q = same_place-eq a b n in
      let z : find a (remove b fs) ≡ none =
        subst (λ x. find a (remove x fs) ≡ none) q (find-removed a fs) in
      absurd (cc)
]

module _ (n : ℕ) (d : Bool) (fs : Files) (a : Place) (k : ℕ) where
  create-Origin :
      (o : Op) (c : Place) (e : Entry) (q : Option Entry)
      → (e ≡ file k → Origin n d o fs (create c e fs q).files c k)
      → lookup a (create c e fs q).files ≡ some (file k)
      → Origin n d o fs (create c e fs q).files a k
  unfolding create find
  create-Origin o c e (some x) f h = old h
  create-Origin o c e none f h = elim (Bool-cases (same_place a c)) [
    | inl m ↦
        let x : e ≡ file k = ground arith in
        subst (λ z. Origin n d o fs (create c e fs none).files z k) (sym (same_place-eq a c m))
          (f x)
    | inr m ↦ old (ground arith)
  ]

  create_file-Origin :
      (o : Op) (c : Place) (q : Option Entry)
      → IsTempOf n c
      → d ≡ false
      → lookup a (create_file c fs q).files ≡ some (file k)
      → Origin n d o fs (create_file c fs q).files a k
  unfolding create_file find
  create_file-Origin o c (some x) t f h = old h
  create_file-Origin o c none t f h = elim (Bool-cases (same_place a c)) [
    | inl m ↦
        let x : k ≡ length fs.contents = ground arith in
        let y = same_place-eq a c m in
        new f (subst (IsTempOf n) (sym y) t) x (omega (arith, length-append fs.contents ("" ∷ [])))
    | inr m ↦ old (ground arith)
  ]

  unlink_file-Origin :
      (o : Op) (c : Place) (q : Option Entry)
      → lookup a (unlink_file c fs q).files ≡ some (file k)
      → Origin n d o fs (unlink_file c fs q).files a k
  unfolding unlink_file
  unlink_file-Origin o c (some (file j)) h = old (remove-old a c _ fs.names h)
  unlink_file-Origin o c (some (directory j)) h = old h
  unlink_file-Origin o c (some other) h = old h
  unlink_file-Origin o c none h = old h

  link_file-Origin :
      (t c : Place) (q : Option Entry)
      → lookup t fs ≡ q
      → IsTameOp n d (link t c)
      → lookup a (link_file c fs q).files ≡ some (file k)
      → Origin n d (link t c) fs (link_file c fs q).files a k
  unfolding link_file
  link_file-Origin t c (some (file j)) e (own, (final, f)) h =
      create-Origin (link t c) c (file j) (lookup c fs)
        (λ x. linked t f refl final own (e ∙ ap some x)) h
  link_file-Origin t c (some (directory j)) e x h = old h
  link_file-Origin t c (some other) e x h = old h
  link_file-Origin t c none e x h = old h

  perform-Origin :
      (i : ℕ) (o : Op)
      → IsTameOp n d o
      → lookup a (perform i o fs).files ≡ some (file k)
      → Origin n d o fs (perform i o fs).files a k
  unfolding perform
  perform-Origin i (lstat c) t h = old h
  perform-Origin i (mkdir c) t h =
      create-Origin (mkdir c) c (directory i) (lookup c fs) (λ x. absurd (cc)) h
  perform-Origin i (open_new c) (t, f) h = create_file-Origin (open_new c) c (lookup c fs) t f h
  perform-Origin i (write_file c s) t h =
      old (ap (find a) (sym (write_over-names s fs (lookup c fs))) ∙ h)
  perform-Origin i (sync_file c) t h = old h
  perform-Origin i (close_file c) t h = old h
  perform-Origin i (link c b) t h = link_file-Origin c b (lookup c fs) refl t h
  perform-Origin i (unlink c) t h = unlink_file-Origin (unlink c) c (lookup c fs) h
  perform-Origin i (sync_directory c) t h = old h
  perform-Origin i (read_file c) t h = old h
  perform-Origin i await_root t h = old h

  pub attempted-Origin :
      (l : Luck) (i : ℕ) (o : Op)
      → IsTameOp n d o
      → lookup a (attempted l i o fs).files ≡ some (file k)
      → Origin n d o fs (attempted l i o fs).files a k
  unfolding attempted
  attempted-Origin works i o t h = perform-Origin i o t h
  attempted-Origin fails_before i o t h = old h
  attempted-Origin fails_after i o t h = perform-Origin i o t h
