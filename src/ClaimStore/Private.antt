-- ===== src/ClaimStore/Private.antt =====
-- Inodes that only a call's own temporary names stand for, and the contents of all others.
use swisstokint_open_risk_in.Prelude.{
  ℕ, ◌≤◌, ◌≡◌, ◌≢◌, refl, sym, ap, ◌∙◌, String, Bool, false, Option, none, some, [], ◌∷◌, arith,
  length, length-append, length-set, get_elem?-append_last, get_elem?, get_elem?-set_ne,
}
use swisstokint_open_risk_in.ClaimStore.Io.{
  Place, root_directory, capability_directory, record_file, temp_file, Op, lstat, mkdir, open_new,
  sync_file, close_file, unlink, sync_directory, read_file, write_file, link, await_root,
}
use swisstokint_open_risk_in.ClaimStore.Files.{
  Files, Entry, directory, file, other, lookup, create, create_file, write_over, unlink_file,
  link_file, perform, attempted, Luck, works, fails_before, fails_after,
}
use swisstokint_open_risk_in.ClaimStore.Kept.{is_temp, IsTempOf, IsTempOf-is_temp, IsTameOp}
use swisstokint_open_risk_in.ClaimStore.Tame.{after}
use swisstokint_open_risk_in.ClaimStore.Origin.{Private, Numbered, Origin, old, new, linked}

create-contents :
    (c : Place) (e : Entry) (fs : Files) (q : Option Entry)
    → (create c e fs q).files.contents ≡ fs.contents
unfolding create
create-contents c e fs none = refl
create-contents c e fs (some x) = refl

unlink_file-contents :
    (c : Place) (fs : Files) (q : Option Entry) → (unlink_file c fs q).files.contents ≡ fs.contents
unfolding unlink_file
unlink_file-contents c fs (some (file j)) = refl
unlink_file-contents c fs (some (directory j)) = refl
unlink_file-contents c fs (some other) = refl
unlink_file-contents c fs none = refl

link_file-contents :
    (c : Place) (fs : Files) (q : Option Entry) → (link_file c fs q).files.contents ≡ fs.contents
unfolding link_file
link_file-contents c fs (some (file j)) = create-contents c (file j) fs (lookup c fs)
link_file-contents c fs (some (directory j)) = refl
link_file-contents c fs (some other) = refl
link_file-contents c fs none = refl

-- What an operation leaves of the contents: no inode goes, and what a name that is not temporary stands
-- for keeps its content.
pub record Stable (fs fs' : Files) : Type 0 where
  pub longer : length fs.contents ≤ length fs'.contents
  pub same :
      (b : Place) (k : ℕ)
      → is_temp b ≡ false
      → lookup b fs ≡ some (file k)
      → get_elem? fs'.contents k ≡ get_elem? fs.contents k

pub unchanged : (fs fs' : Files) → fs'.contents ≡ fs.contents → Stable fs fs'
unchanged fs fs' e = record {
  longer = omega (arith, ap length e);
  same = λ b k n h. ap (λ x. get_elem? x k) e;
}

create_file-Stable :
    (c : Place) (fs : Files) (q : Option Entry) → Numbered fs → Stable fs (create_file c fs q).files
unfolding create_file
create_file-Stable c fs (some x) v = unchanged fs fs refl
create_file-Stable c fs none v = record {
  longer = omega (arith, length-append fs.contents ("" ∷ []));
  same = λ b k n h.
      let few = v.exists b k h in ground (arith, few, get_elem?-append_last fs.contents "" k);
}

write_over-Stable :
    (n : ℕ) (t : Place) (s : String) (fs : Files) (q : Option Entry)
    → IsTempOf n t
    → Private n fs
    → lookup t fs ≡ q
    → Stable fs (write_over s fs q).files
unfolding write_over
write_over-Stable n t s fs (some (file j)) own v e = record {
  longer = omega (arith, length-set fs.contents j s);
  same = λ b k f h. get_elem?-set_ne fs.contents j k s (λ q.
      let z = IsTempOf-is_temp n b (v.only t b j own e (h ∙ ap (λ x. some (file x)) (sym q))) in
      cc);
}
write_over-Stable n t s fs (some (directory j)) own v e = unchanged fs fs refl
write_over-Stable n t s fs (some other) own v e = unchanged fs fs refl
write_over-Stable n t s fs none own v e = unchanged fs fs refl

module _ (n : ℕ) (d : Bool) (fs : Files) (v : Numbered fs) (own : d ≡ false → Private n fs) where
  perform-Stable : (i : ℕ) (o : Op) → IsTameOp n d o → Stable fs (perform i o fs).files
  unfolding perform
  perform-Stable i (lstat c) t = unchanged fs fs refl
  perform-Stable i (mkdir c) t = unchanged fs _ (create-contents c (directory i) fs (lookup c fs))
  perform-Stable i (open_new c) t = create_file-Stable c fs (lookup c fs) v
  perform-Stable i (write_file c s) (t, f) = write_over-Stable n c s fs (lookup c fs) t (own f) refl
  perform-Stable i (sync_file c) t = unchanged fs fs refl
  perform-Stable i (close_file c) t = unchanged fs fs refl
  perform-Stable i (link c b) t = unchanged fs _ (link_file-contents b fs (lookup c fs))
  perform-Stable i (unlink c) t = unchanged fs _ (unlink_file-contents c fs (lookup c fs))
  perform-Stable i (sync_directory c) t = unchanged fs fs refl
  perform-Stable i (read_file c) t = unchanged fs fs refl
  perform-Stable i await_root t = unchanged fs fs refl

  pub attempted-Stable :
      (l : Luck) (i : ℕ) (o : Op) → IsTameOp n d o → Stable fs (attempted l i o fs).files
  unfolding attempted
  attempted-Stable works i o t = perform-Stable i o t
  attempted-Stable fails_before i o t = unchanged fs fs refl
  attempted-Stable fails_after i o t = perform-Stable i o t

IsTempOf-eq : (n m : ℕ) (a : Place) → IsTempOf n a → IsTempOf m a → n ≡ m
IsTempOf-eq n m (temp_file c b j) h k = sym h ∙ k
IsTempOf-eq n m root_directory h k = elim h [ ]
IsTempOf-eq n m (capability_directory c) h k = elim h [ ]
IsTempOf-eq n m (record_file c b) h k = elim h [ ]

-- Whatever a call that drew `n` does to the files.
module _ (n : ℕ) (d : Bool) (o : Op) (fs fs' : Files)
    (origin : (a : Place) (k : ℕ) → lookup a fs' ≡ some (file k) → Origin n d o fs fs' a k)
    (v : Numbered fs) where
  pub later-Numbered : Stable fs fs' → Numbered fs'
  later-Numbered s = record {
    exists = λ a k h. elim (origin a k h) [
      | old e ↦ omega (arith, v.exists a k e, s.longer)
      | new f t q l ↦ l
      | linked t f g p own e ↦ omega (arith, v.exists t k e, s.longer)
    ];
  }

  other_start :
      (m : ℕ) (t a : Place) (k : ℕ)
      → (d ≡ false → m ≢ n)
      → Private m fs
      → IsTempOf m t
      → lookup t fs ≡ some (file k)
      → Origin n d o fs fs' a k
      → IsTempOf m a
  other_start m t a k ne u own e (old h) = u.only t a k own e h
  other_start m t a k ne u own e (new f x q l) = absurd (omega (arith, v.exists t k e))
  other_start m t a k ne u own e (linked t' f g p own' e') =
      absurd (ne f (IsTempOf-eq m n t' (u.only t t' k own e e') own'))

  other_only :
      (m : ℕ) (t a : Place) (k : ℕ)
      → (d ≡ false → m ≢ n)
      → Private m fs
      → IsTempOf m t
      → Origin n d o fs fs' t k
      → Origin n d o fs fs' a k
      → IsTempOf m a
  other_only m t a k ne u own (old e) x = other_start m t a k ne u own e x
  other_only m t a k ne u own (new f y q l) x = absurd (ne f (IsTempOf-eq m n t own y))
  other_only m t a k ne u own (linked t' f g p own' e') x =
      let z = IsTempOf-is_temp m t own in absurd (cc)

  -- The inodes of another call stay private to it.
  pub other-Private : (m : ℕ) → (d ≡ false → m ≢ n) → Private m fs → Private m fs'
  other-Private m ne u = record {
    only = λ t a k own h k'. other_only m t a k ne u own (origin t k h) (origin a k k');
  }

  own_only :
      (t a : Place) (k : ℕ)
      → after d o ≡ false
      → Private n fs
      → IsTempOf n t
      → Origin n d o fs fs' t k
      → Origin n d o fs fs' a k
      → IsTempOf n a
  own_only t a k g u own (old e) (old h) = u.only t a k own e h
  own_only t a k g u own x (new f y q l) = y
  own_only t a k g u own (new f y q l) (old h) = absurd (omega (arith, v.exists a k h))
  own_only t a k g u own x (linked t' f g' p own' e') = absurd (cc)
  own_only t a k g u own (linked t' f g' p own' e') (old h) = absurd (cc)

  -- Those of the call itself do, unless it links.
  pub own-Private : after d o ≡ false → Private n fs → Private n fs'
  own-Private g u = record {
    only = λ t a k own h k'. own_only t a k g u own (origin t k h) (origin a k k');
  }
