-- ===== src/Fs/Disk.antt =====
-- The disk under fs_ops.rs, and `write_via_unique_tmp`.
--
-- A disk holds files and symbolic links under the texts of their paths; directories are not part of
-- it. `Faults` says what the operating system answers: an operation with a text there fails with it.
-- A write that fails has stored some first part of its bytes, so a failed write is also what a crash
-- in the middle of it leaves. `tmp` is the fresh name beside the target.
use Prim.Native.String.{◌++◌ as ◌+++◌}
use synth_hires_bridge.Prelude.{
  ℕ, zero, suc, String, Bool, true, false, Option, none, some, List, take, if◌then◌else◌,
}
use synth_hires_bridge.Prelude.Map.{Map, lookup, insert, without}
use synth_hires_bridge.Errors.{io, path_denied, Done, ok, err}

pub data Entry : Type 0 where
  regular : List ℕ → Entry
  symlink : String → Entry

abbrev pub Disk : Type 0
Disk = Map Entry

pub record Faults : Type 0 where
  pub create_dir_all : Option String
  pub opened : Option String
  pub write_all : Option String
  pub stored : ℕ
  pub sync_all : Option String
  pub planted : Option String
  pub symlink_metadata : Option String
  pub removed : Bool
  pub rename : Option String
  pub read_back : Option String

-- How many links the operating system follows.
abbrev pub max_links : ℕ
max_links = 40

unfoldable pub followed : Option Entry → (String → Option (List ℕ)) → Option (List ℕ)
followed none next = none
followed (some (regular bytes)) next = some bytes
followed (some (symlink target)) next = next target

-- The file that a path leads to.
unfoldable pub contents : ℕ → Disk → String → Option (List ℕ)
unfolding followed
contents zero d path = none
contents (suc links) d path = followed (lookup path d) (λ target. contents links d target)

-- `fs::read`
unfoldable pub read_file : Disk → String → Option (List ℕ)
unfolding contents
read_file d path = contents max_links d path

-- `?` behind an operation that may fail.
abbrev pub attempt : Option String → Disk → Done × Disk → Done × Disk
attempt none d next = next
attempt (some e) d next = (err (io e), d)

unfoldable pub is_symlink : Option Entry → Bool
is_symlink none = false
is_symlink (some (regular bytes)) = false
is_symlink (some (symlink target)) = true

-- `create_new` refuses a name that is taken.
unfoldable pub open_fault : Faults → Option Entry → Option String
open_fault f none = f.opened
open_fault f (some e) = some "File exists (os error 17)"

unfoldable pub stored_part : Faults → List ℕ → Option String → List ℕ
stored_part f bytes none = bytes
stored_part f bytes (some e) = take f.stored bytes

-- What another process put in the place of the tmp file.
unfoldable pub replace_tmp : Option String → String → Disk → Disk
replace_tmp none tmp d = d
replace_tmp (some target) tmp d = insert tmp (symlink target) d

-- `fs::rename`, of an entry that is there
unfoldable pub move : Option Entry → String → String → Disk → Disk
move none tmp path d = d
move (some e) tmp path d = insert path e (without tmp d)

-- From `symlink_metadata` on.
unfoldable pub commit : Faults → Disk → String → String → Done × Disk
unfolding is_symlink move
commit f d path tmp = attempt f.symlink_metadata d (
    if is_symlink (lookup tmp d)
    then (
      err (path_denied (path +++ ": tmp path is a symlink — refusing atomic write")),
      if f.removed then without tmp d else d,
    )
    else attempt f.rename d (ok tt, move (lookup tmp d) tmp path d))

unfoldable pub write_via_unique_tmp : Faults → Disk → String → String → List ℕ → Done × Disk
unfolding open_fault stored_part replace_tmp commit
write_via_unique_tmp f d path tmp bytes =
    let created = insert tmp (regular (stored_part f bytes f.write_all)) d in
    attempt (open_fault f (lookup tmp d)) d (
      attempt f.write_all created
        (attempt f.sync_all created (commit f (replace_tmp f.planted tmp created) path tmp)))

-- Nothing fails and nobody interferes.
abbrev pub no_faults : Faults
no_faults = record {
  create_dir_all = none;
  opened = none;
  write_all = none;
  stored = 0;
  sync_all = none;
  planted = none;
  symlink_metadata = none;
  removed = true;
  rename = none;
  read_back = none;
}
