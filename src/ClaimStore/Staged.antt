-- ===== src/ClaimStore/Staged.antt =====
-- The invariant of a world whose calls drew distinct numbers: what a call that has not linked yet may
-- still write to is private to it.
use swisstokint_open_risk_in.Prelude.{
  ℕ, ◌<◌, ◌≡◌, ◌≢◌, refl, sym, ap, ◌∙◌, String, Bool, true, false, Option, none, some, Result,
  length, get_elem?,
}
use swisstokint_open_risk_in.ClaimStore.Records.{ClaimError}
use swisstokint_open_risk_in.ClaimStore.Io.{
  Base, Place, temp_file, Op, lstat, mkdir, open_new, sync_file, close_file, unlink, sync_directory,
  read_file, write_file, link, await_root, Reply, Io, call,
}
use swisstokint_open_risk_in.ClaimStore.Durable.{RootFacts}
use swisstokint_open_risk_in.ClaimStore.Files.{Files, file, find, lookup, Luck, attempted}
use swisstokint_open_risk_in.ClaimStore.Kept.{IsTameOp}
use swisstokint_open_risk_in.ClaimStore.Tame.{IsTame, IsTame-next, after}
use swisstokint_open_risk_in.ClaimStore.Private.{
  Stable, attempted-Stable, unchanged, other-Private, own-Private,
}
use swisstokint_open_risk_in.ClaimStore.Origin.{Private, Numbered, Origin, old, attempted-Origin}
use swisstokint_open_risk_in.ClaimStore.World.{
  World, Call, Progress, claiming, claimed, completing, inspecting, answered, failed, answer,
  root_reply, settled, empty_world,
}

-- A number of a temporary name tells which call drew it.
abbrev pub Owner : Type 0
Owner = ℕ → ℕ

-- A program of call `i`: while it has not linked, it drew its number, and its inodes are private.
abbrev pub Staged : Owner → ℕ → Files → {A : Type 0} → Io A → Type 0
Staged own i fs m =
    (n : ℕ) × ((d : Bool) × (IsTame n d m × (d ≡ false → (own n ≡ i) × Private n fs)))

abbrev pub StagedCall : Owner → ℕ → Files → Progress → Type 0
StagedCall own i fs (claiming m) = Staged own i fs m
StagedCall own i fs (inspecting m) = Staged own i fs m
StagedCall own i fs (completing h t m) = Staged own i fs m
StagedCall own i fs _ = Unit

pub record IsStaged (own : Owner) (w : World) : Type 0 where
  pub numbered : Numbered w.files
  pub known :
      (c : String) (b : Base) (n k : ℕ)
      → lookup (temp_file c b n) w.files ≡ some (file k)
      → own n < length w.calls
  pub staged :
      (i : ℕ) (c : Call) → get_elem? w.calls i ≡ some c → StagedCall own i w.files c.progress

pub empty_world-IsStaged : (own : Owner) → IsStaged own empty_world
unfolding find
empty_world-IsStaged own = record {
  numbered = record { exists = λ a k h. absurd (cc) };
  known = λ c b n k h. absurd (cc);
  staged = λ i c h. absurd (cc);
}

-- What an awaited operation of a call that drew `n` leaves.
pub record Moved (n : ℕ) (d : Bool) (o : Op) (w w' : World) : Type 0 where
  pub same_calls : w'.calls ≡ w.calls
  pub origin :
      (a : Place) (k : ℕ) → lookup a w'.files ≡ some (file k) → Origin n d o w.files w'.files a k
  pub stable : Stable w.files w'.files

module _ (n : ℕ) (d : Bool) (w : World) (v : Numbered w.files)
    (own : d ≡ false → Private n w.files) where
  attempted-Moved :
      (i : ℕ) (l : Luck) (o : Op)
      → IsTameOp n d o
      → Moved n d o w (record w { files = (attempted l i o w.files).files })
  attempted-Moved i l o t = record {
    same_calls = refl;
    origin = λ a k h. attempted-Origin n d w.files a k l i o t h;
    stable = attempted-Stable n d w.files v own l i o t;
  }

  root_reply-Moved :
      (s : ℕ) (facts : RootFacts) (q : Option (Result ClaimError Unit))
      → Moved n d await_root w (root_reply w s facts q).0
  unfolding root_reply
  root_reply-Moved s facts (some r) = record {
    same_calls = refl;
    origin = λ a k h. old h;
    stable = unchanged w.files w.files refl;
  }
  root_reply-Moved s facts none = record {
    same_calls = refl;
    origin = λ a k h. old h;
    stable = unchanged w.files w.files refl;
  }

  pub answer-Moved :
      (s i : ℕ) (l : Luck) (facts : RootFacts) (o : Op)
      → IsTameOp n d o
      → Moved n d o w (answer w s i l facts o).0
  unfolding answer
  answer-Moved s i l facts await_root t = root_reply-Moved s facts (settled s w.roots)
  answer-Moved s i l facts (lstat a) t = attempted-Moved i l (lstat a) t
  answer-Moved s i l facts (mkdir a) t = attempted-Moved i l (mkdir a) t
  answer-Moved s i l facts (open_new a) t = attempted-Moved i l (open_new a) t
  answer-Moved s i l facts (write_file a b) t = attempted-Moved i l (write_file a b) t
  answer-Moved s i l facts (sync_file a) t = attempted-Moved i l (sync_file a) t
  answer-Moved s i l facts (close_file a) t = attempted-Moved i l (close_file a) t
  answer-Moved s i l facts (link a b) t = attempted-Moved i l (link a b) t
  answer-Moved s i l facts (unlink a) t = attempted-Moved i l (unlink a) t
  answer-Moved s i l facts (sync_directory a) t = attempted-Moved i l (sync_directory a) t
  answer-Moved s i l facts (read_file a) t = attempted-Moved i l (read_file a) t

phase_back : (d : Bool) (o : Op) → after d o ≡ false → d ≡ false
phase_back false o h = refl
phase_back true (link a b) h = absurd (cc)
phase_back true (lstat a) h = h
phase_back true (mkdir a) h = h
phase_back true (open_new a) h = h
phase_back true (sync_file a) h = h
phase_back true (close_file a) h = h
phase_back true (unlink a) h = h
phase_back true (sync_directory a) h = h
phase_back true (read_file a) h = h
phase_back true (write_file a s) h = h
phase_back true await_root h = h

-- The call that moved goes on.
pub next-Staged :
    {A : Type 0} (own : Owner) (i n : ℕ) (d : Bool) (o : Op) (k : Reply → Io A) (r : Reply)
    (w w' : World)
    → Numbered w.files
    → IsTame n d (call o k)
    → (d ≡ false → (own n ≡ i) × Private n w.files)
    → Moved n d o w w'
    → Staged own i w'.files (k r)
next-Staged own i n d o k r w w' v t e m = (
  n,
  (
    after d o,
    (
      IsTame-next n d o k t r,
      λ f.
          let (mine, u) = e (phase_back d o f) in
          (mine, own-Private n d o w.files w'.files m.origin v f u),
    ),
  ),
)

-- Any other call stays as it was.
other-Staged :
    {A : Type 0} (own : Owner) (i j n : ℕ) (d : Bool) (o : Op) (x : Io A) (w w' : World)
    → i ≢ j
    → Numbered w.files
    → (d ≡ false → own n ≡ i)
    → Moved n d o w w'
    → Staged own j w.files x
    → Staged own j w'.files x
other-Staged own i j n d o x w w' ne v mine m (n', (d', (t, e))) = (
  n',
  (
    d',
    (
      t,
      λ f.
          let (his, u) = e f in
          (
            his,
            other-Private n d o w.files w'.files m.origin v n'
                (λ g q. ne (sym (mine g) ∙ ap own (sym q) ∙ his)) u,
          ),
    ),
  ),
)

pub other-StagedCall :
    (own : Owner) (i j n : ℕ) (d : Bool) (o : Op) (q : Progress) (w w' : World)
    → i ≢ j
    → Numbered w.files
    → (d ≡ false → own n ≡ i)
    → Moved n d o w w'
    → StagedCall own j w.files q
    → StagedCall own j w'.files q
other-StagedCall own i j n d o (claiming x) w w' ne v mine m h =
    other-Staged own i j n d o x w w' ne v mine m h
other-StagedCall own i j n d o (inspecting x) w w' ne v mine m h =
    other-Staged own i j n d o x w w' ne v mine m h
other-StagedCall own i j n d o (completing g t x) w w' ne v mine m h =
    other-Staged own i j n d o x w w' ne v mine m h
other-StagedCall own i j n d o (claimed r s) w w' ne v mine m h = tt
other-StagedCall own i j n d o (answered r) w w' ne v mine m h = tt
other-StagedCall own i j n d o (failed r) w w' ne v mine m h = tt
