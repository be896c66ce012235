-- ===== src/ClaimStore/Files.antt =====
-- The file system: what each operation does to it and answers.
use Prim.Native.String.{len}
use swisstokint_open_risk_in.Prelude.{
  ℕ, String, Bool, true, false, ◌&&◌, Option, none, some, List, [], ◌∷◌, ◌==◌, str_eq,
  if◌then◌else◌, length, ◌++◌, get_elem?, set,
}
use swisstokint_open_risk_in.ClaimStore.Io.{
  Base, claim_json, terminal_json, Place, root_directory, capability_directory, record_file,
  temp_file, Op, lstat, mkdir, open_new, sync_file, close_file, unlink, sync_directory, read_file,
  write_file, link, await_root, is_directory, is_regular, is_other, Reply, done, eexist, enoent,
  fault, stat, content,
}

-- What a name stands for. A directory remembers which call made it; a file is the number of its inode,
-- which names that are linked share.
pub data Entry : Type 0 where
  directory : ℕ → Entry
  file : ℕ → Entry
  other : Entry

-- The names, and the contents of the inodes by their numbers.
pub record Files : Type 0 where
  pub names : List (Place × Entry)
  pub contents : List String

abbrev pub no_files : Files
no_files = record { names = []; contents = [] }

abbrev pub same_base : Base → Base → Bool
same_base claim_json claim_json = true
same_base terminal_json terminal_json = true
same_base _ _ = false

unfoldable pub same_place : Place → Place → Bool
same_place root_directory root_directory = true
same_place (capability_directory c) (capability_directory d) = str_eq c d
same_place (record_file c b) (record_file d e) = str_eq c d && same_base b e
same_place (temp_file c b n) (temp_file d e m) = str_eq c d && same_base b e && n == m
same_place _ _ = false

unfoldable pub find : Place → List (Place × Entry) → Option Entry
find a [] = none
find a ((b, e) ∷ fs) = if same_place a b then some e else find a fs

abbrev pub lookup : Place → Files → Option Entry
lookup a fs = find a fs.names

unfoldable pub remove : Place → List (Place × Entry) → List (Place × Entry)
remove a [] = []
remove a ((b, e) ∷ fs) = let rest = remove a fs in if same_place a b then rest else (b, e) ∷ rest

pub record Effect : Type 0 where
  pub files : Files
  pub reply : Reply

abbrev pub effect : Files → Reply → Effect
effect fs r = record { files = fs; reply = r }

-- Names in the root and in a capability's directory are created exclusively.
unfoldable pub create : Place → Entry → Files → Option Entry → Effect
create a new fs none = effect (record fs { names = (a, new) ∷ fs.names }) done
create a new fs (some e) = effect fs eexist

-- A new inode without contents
unfoldable pub create_file : Place → Files → Option Entry → Effect
create_file a fs none =
    effect
      (record {
        names = (a, file (length fs.contents)) ∷ fs.names;
        contents = fs.contents ++ "" ∷ [];
      })
      done
create_file a fs (some e) = effect fs eexist

unfoldable pub write_over : String → Files → Option Entry → Effect
write_over s fs (some (file k)) = effect (record fs { contents = set fs.contents k s }) done
write_over s fs _ = effect fs fault

unfoldable pub unlink_file : Place → Files → Option Entry → Effect
unfolding remove
unlink_file a fs (some (file k)) = effect (record fs { names = remove a fs.names }) done
unlink_file a fs none = effect fs enoent
unlink_file a fs _ = effect fs fault

-- The second name shares the inode of the first.
unfoldable pub link_file : Place → Files → Option Entry → Effect
unfolding create find
link_file b fs (some (file k)) = create b (file k) fs (lookup b fs)
link_file b fs _ = effect fs fault

abbrev pub size_of : Option String → ℕ
size_of none = 0
size_of (some s) = len s

unfoldable pub stat_of : Files → Option Entry → Reply
stat_of fs none = enoent
stat_of fs (some (directory k)) = stat is_directory 0
stat_of fs (some (file k)) = stat is_regular (size_of (get_elem? fs.contents k))
stat_of fs (some other) = stat is_other 0

abbrev pub read_content : Option String → Reply
read_content none = fault
read_content (some s) = content s

unfoldable pub read_of : Files → Option Entry → Reply
read_of fs (some (file k)) = read_content (get_elem? fs.contents k)
read_of fs _ = fault

-- What an operation of call `k` does if nothing fails.
unfoldable pub perform : ℕ → Op → Files → Effect
unfolding find create create_file write_over unlink_file link_file stat_of read_of
perform k (lstat a) fs = effect fs (stat_of fs (lookup a fs))
perform k (mkdir a) fs = create a (directory k) fs (lookup a fs)
perform k (open_new a) fs = create_file a fs (lookup a fs)
perform k (write_file a s) fs = write_over s fs (lookup a fs)
perform k (sync_file a) fs = effect fs done
perform k (close_file a) fs = effect fs done
perform k (link a b) fs = link_file b fs (lookup a fs)
perform k (unlink a) fs = unlink_file a fs (lookup a fs)
perform k (sync_directory a) fs = effect fs done
perform k (read_file a) fs = effect fs (read_of fs (lookup a fs))
perform k await_root fs = effect fs fault

-- An operation may fail without an effect, and it may report a failure after it took effect.
pub data Luck : Type 0 where
  works fails_before fails_after : Luck

unfoldable pub attempted : Luck → ℕ → Op → Files → Effect
unfolding perform
attempted works k o fs = perform k o fs
attempted fails_before k o fs = effect fs fault
attempted fails_after k o fs = effect (perform k o fs).files fault
