-- ===== src/ClaimStore/Kept.antt =====
-- What an operation leaves of the names, and the operations that the calls of a store may make.
use swisstokint_open_risk_in.Prelude.{
  ℕ, String, ◌≡◌, refl, sym, ap, ◌∙◌, Bool, true, false, Option, none, some, List, [], ◌∷◌, arith,
  inl, inr, Bool-cases, Option-cases, eq_iff, eq_refl, ==_iff, if◌then◌else◌,
}
use swisstokint_open_risk_in.ClaimStore.Io.{
  Base, claim_json, terminal_json, Place, root_directory, capability_directory, record_file,
  temp_file, Op, lstat, mkdir, open_new, sync_file, close_file, unlink, sync_directory, read_file,
  write_file, link, await_root, done,
}
use swisstokint_open_risk_in.ClaimStore.Files.{
  Files, Entry, directory, file, other, same_place, same_base, find, lookup, remove, create,
  create_file, write_over, unlink_file, link_file, perform, attempted, Luck, works, fails_before,
  fails_after,
}

same_base-eq : (a b : Base) → same_base a b ≡ true → a ≡ b
same_base-eq claim_json claim_json h = refl
same_base-eq claim_json terminal_json h = absurd (cc)
same_base-eq terminal_json claim_json h = absurd (cc)
same_base-eq terminal_json terminal_json h = refl

pub same_place-eq : (a b : Place) → same_place a b ≡ true → a ≡ b
unfolding same_place
same_place-eq root_directory root_directory h = refl
same_place-eq (capability_directory c) (capability_directory d) h =
    ap capability_directory ((eq_iff c d).0 h)
same_place-eq (record_file c b) (record_file d e) h =
    let x = (eq_iff c d).0 (ground arith) in
    let y = same_base-eq b e (ground arith) in rw (x, y) refl
same_place-eq (temp_file c b n) (temp_file d e m) h =
    let x = (eq_iff c d).0 (ground arith) in
    let y = same_base-eq b e (ground arith) in
    let z = (==_iff n m).0 (ground arith) in rw (x, y, z) refl
same_place-eq _ _ h = absurd (cc)

create-keeps :
    (a b : Place) (e x : Entry) (fs : Files)
    → lookup b fs ≡ some x
    → lookup b (create a e fs (lookup a fs)).files ≡ some x
unfolding create find
create-keeps a b e x fs h = elim (Option-cases (lookup a fs)) [
  | inr (y, q) ↦ rw q h
  | inl q ↦ elim (Bool-cases (same_place b a)) [
    | inr n ↦ rw (q, n) h
    | inl n ↦
        let z : lookup b fs ≡ none = ap (λ c. lookup c fs) (same_place-eq b a n) ∙ q in absurd (cc)
  ]
]

create_file-keeps :
    (a b : Place) (x : Entry) (fs : Files)
    → lookup b fs ≡ some x
    → lookup b (create_file a fs (lookup a fs)).files ≡ some x
unfolding create_file find
create_file-keeps a b x fs h = elim (Option-cases (lookup a fs)) [
  | inr (y, q) ↦ rw q h
  | inl q ↦ elim (Bool-cases (same_place b a)) [
    | inr n ↦ rw (q, n) h
    | inl n ↦
        let z : lookup b fs ≡ none = ap (λ c. lookup c fs) (same_place-eq b a n) ∙ q in absurd (cc)
  ]
]

pub remove-keeps :
    (a b : Place) (fs : List (Place × Entry))
    → same_place b a ≡ false
    → find b (remove a fs) ≡ find b fs
unfolding remove find
remove-keeps a b [] n = refl
remove-keeps a b ((c, e) ∷ fs) n = elim (Bool-cases (same_place a c)) [
  | inl m ↦
      let z : same_place b c ≡ false = ap (same_place b) (sym (same_place-eq a c m)) ∙ n in
      rw (m, z) (remove-keeps a b fs n)
  | inr m ↦ rw m (ap (λ y. if same_place b c then some e else y) (remove-keeps a b fs n))
]

pub write_over-names :
    (s : String) (fs : Files) (o : Option Entry) → (write_over s fs o).files.names ≡ fs.names
unfolding write_over
write_over-names s fs (some (file k)) = refl
write_over-names s fs (some (directory k)) = refl
write_over-names s fs (some other) = refl
write_over-names s fs none = refl

unlink_file-keeps :
    (a b : Place) (x : Entry) (fs : Files) (o : Option Entry)
    → same_place b a ≡ false
    → lookup b fs ≡ some x
    → lookup b (unlink_file a fs o).files ≡ some x
unfolding unlink_file
unlink_file-keeps a b x fs (some (file t)) n h = remove-keeps a b fs.names n ∙ h
unlink_file-keeps a b x fs (some (directory k)) n h = h
unlink_file-keeps a b x fs (some other) n h = h
unlink_file-keeps a b x fs none n h = h

link_file-keeps :
    (a b : Place) (x : Entry) (fs : Files) (o : Option Entry)
    → lookup b fs ≡ some x
    → lookup b (link_file a fs o).files ≡ some x
unfolding link_file
link_file-keeps a b x fs (some (file s)) h = create-keeps a b (file s) x fs h
link_file-keeps a b x fs (some (directory k)) h = h
link_file-keeps a b x fs (some other) h = h
link_file-keeps a b x fs none h = h

-- A temporary name, which no claim directory and no record has.
abbrev pub is_temp : Place → Bool
is_temp (temp_file c b n) = true
is_temp _ = false

pub not_temp : (a b : Place) → is_temp a ≡ true → is_temp b ≡ false → same_place b a ≡ false
not_temp a b h k = elim (Bool-cases (same_place b a)) [
  | inr n ↦ n
  | inl n ↦ let z = ap is_temp (same_place-eq b a n) in absurd (cc)
]

-- The temporary names of a call that drew the number `n`
abbrev pub IsTempOf : ℕ → Place → Type 0
IsTempOf n (temp_file c b m) = m ≡ n
IsTempOf n _ = ⊥

pub IsTempOf-is_temp : (n : ℕ) (a : Place) → IsTempOf n a → is_temp a ≡ true
IsTempOf-is_temp n (temp_file c b m) h = refl
IsTempOf-is_temp n root_directory h = elim h [ ]
IsTempOf-is_temp n (capability_directory c) h = elim h [ ]
IsTempOf-is_temp n (record_file c b) h = elim h [ ]

-- A call that drew the number `n` creates, writes to, links and unlinks its own temporary names only,
-- and once it has linked (`b`), it neither creates, writes nor links.
abbrev pub IsTameOp : ℕ → Bool → Op → Type 0
IsTameOp n b (write_file a s) = IsTempOf n a × (b ≡ false)
IsTameOp n b (open_new a) = IsTempOf n a × (b ≡ false)
IsTameOp n b (link a c) = IsTempOf n a × ((is_temp c ≡ false) × (b ≡ false))
IsTameOp n b (unlink a) = IsTempOf n a
IsTameOp n b (mkdir a) = is_temp a ≡ false
IsTameOp n b _ = Unit

pub perform-keeps :
    (n : ℕ) (d : Bool) (k : ℕ) (o : Op) (fs : Files) (b : Place) (x : Entry)
    → IsTameOp n d o
    → is_temp b ≡ false
    → lookup b fs ≡ some x
    → lookup b (perform k o fs).files ≡ some x
unfolding perform
perform-keeps n d k (lstat a) fs b x t f h = h
perform-keeps n d k (mkdir a) fs b x t f h = create-keeps a b (directory k) x fs h
perform-keeps n d k (open_new a) fs b x t f h = create_file-keeps a b x fs h
perform-keeps n d k (write_file a s) fs b x t f h =
    ap (find b) (write_over-names s fs (lookup a fs)) ∙ h
perform-keeps n d k (sync_file a) fs b x t f h = h
perform-keeps n d k (close_file a) fs b x t f h = h
perform-keeps n d k (link a c) fs b x t f h = link_file-keeps c b x fs (lookup a fs) h
perform-keeps n d k (unlink a) fs b x t f h =
    unlink_file-keeps a b x fs (lookup a fs) (not_temp a b (IsTempOf-is_temp n a t) f) h
perform-keeps n d k (sync_directory a) fs b x t f h = h
perform-keeps n d k (read_file a) fs b x t f h = h
perform-keeps n d k await_root fs b x t f h = h

pub attempted-keeps :
    (n : ℕ) (d : Bool) (l : Luck) (k : ℕ) (o : Op) (fs : Files) (b : Place) (x : Entry)
    → IsTameOp n d o
    → is_temp b ≡ false
    → lookup b fs ≡ some x
    → lookup b (attempted l k o fs).files ≡ some x
unfolding attempted
attempted-keeps n d works k o fs b x t f h = perform-keeps n d k o fs b x t f h
attempted-keeps n d fails_before k o fs b x t f h = h
attempted-keeps n d fails_after k o fs b x t f h = perform-keeps n d k o fs b x t f h

same_base_self : (a : Base) → same_base a a ≡ true
same_base_self claim_json = refl
same_base_self terminal_json = refl

pub same_place_self : (a : Place) → same_place a a ≡ true
unfolding same_place
same_place_self root_directory = refl
same_place_self (capability_directory c) = eq_refl c
same_place_self (record_file c b) = rw (eq_refl c) (same_base_self b)
same_place_self (temp_file c b n) = rw (eq_refl c, same_base_self b) ((==_iff n n).1 refl)

-- A `mkdir` that succeeds made the directory.
made_directory :
    (i : ℕ) (a : Place) (fs : Files) (o : Option Entry)
    → (create a (directory i) fs o).reply ≡ done
    → lookup a (create a (directory i) fs o).files ≡ some (directory i)
unfolding create find
made_directory i a fs none h = rw (same_place_self a) refl
made_directory i a fs (some e) h = absurd (cc)

pub attempted-mkdir :
    (l : Luck) (i : ℕ) (a : Place) (fs : Files)
    → (attempted l i (mkdir a) fs).reply ≡ done
    → lookup a (attempted l i (mkdir a) fs).files ≡ some (directory i)
unfolding attempted perform
attempted-mkdir works i a fs h = made_directory i a fs (lookup a fs) h
attempted-mkdir fails_before i a fs h = absurd (cc)
attempted-mkdir fails_after i a fs h = absurd (cc)
