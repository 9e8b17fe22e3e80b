-- ===== src/Storage.antt =====
-- src/internal/repository/storage/flow.go over one nas_ip directory: its entries, and the directory
-- `tmp` in it. Every call of package os may fail with an error of the argument `Faults`.
pub mod Scan
pub mod Lookup
pub mod Stream
pub mod Skip
pub mod Complete
pub mod Ready
pub mod Lines
pub mod Whole
pub mod Bag
pub mod Sorted
use aggregator_demo.Base.{
  ℕ, suc, ◌+◌, Bool, true, false, ◌&&◌, ◌||◌, Option, none, some, List, [], ◌∷◌, ◌++◌, ltb, ◌==◌,
  nat_eq, text_eq, if◌then◌else◌, length, take,
}
use aggregator_demo.Base.Text.{Text, has_infix}
use aggregator_demo.Base.Map.{Map, lookup, erase, get_or}
use aggregator_demo.Entity.{
  Error, no_data, other, flow_name_sub_str, git_keep_name, Result, ok, err,
}
use Scan.{scan, Scanned, ends, line}

-- A file with its bytes, or a directory that the code only steps over.
pub data Node : Type 0 where
  file : Text → Node
  directory : Node

-- A directory lists its entries in the order of their names, as `os.ReadDir` does.
abbrev pub Dir : Type 0
Dir = Map Text Node

-- Go's `<` on strings.
abbrev pub text_ltb : Text → Text → Bool
text_ltb [] [] = false
text_ltb [] (b ∷ bs) = true
text_ltb (a ∷ as') [] = false
text_ltb (a ∷ as') (b ∷ bs) = ltb a b || (a == b && text_ltb as' bs)

-- Puts an entry in its place, over one of the same name.
unfoldable pub place : Text → Node → Dir → Dir
place k v [] = (k, v) ∷ []
place k v ((j, w) ∷ d) =
    if k == j
    then (k, v) ∷ d
    else if text_ltb k j
    then (k, v) ∷ (j, w) ∷ d
    else (j, w) ∷ place k v d

-- `nas_ip/`, without its directory `tmp`, which is `none` while it does not exist.
pub record NasDir : Type 0 where
  pub entries : Dir
  pub tmp : Option Dir

-- The `io/fs` errors that the model names.
abbrev pub not_exist : Error
not_exist = other 2

abbrev pub is_directory : Error
is_directory = other 21

-- `RemoveAll` that fails has removed some entries: `kept` says which are left.
pub record Faults : Type 0 where
  pub read_dir : Option Error
  pub mkdir : Option Error
  pub rename : Text → Option Error
  pub read_tmp : Option Error
  pub open_file : Text → Option Error
  -- the bytes that are read before a read fails, and its error
  pub read_file : Text → Option (ℕ × Error)
  pub remove_all : Option Error
  pub kept : Text → Bool
  pub mkdir_tmp : Option Error
  pub write_keep : Option Error

-- No call fails.
abbrev pub no_faults : Faults
no_faults = record {
  read_dir = none;
  mkdir = none;
  rename = λ _. none;
  read_tmp = none;
  open_file = λ _. none;
  read_file = λ _. none;
  remove_all = none;
  kept = λ _. true;
  mkdir_tmp = none;
  write_keep = none;
}

-- The names of the entries that are no directories.
unfoldable pub file_names : Dir → List Text
file_names [] = []
file_names ((name, file bytes) ∷ d) = name ∷ file_names d
file_names ((name, directory) ∷ d) = file_names d

non_empty : List Text → Result (List Text)
non_empty [] = err no_data
non_empty (x ∷ xs) = ok (x ∷ xs)

-- `ReadFileNamesInFlowDir`; `tmp` is a directory, and is passed over as the others are.
unfoldable pub read_file_names_in_flow_dir : Faults → NasDir → Result (List Text)
unfolding non_empty file_names
read_file_names_in_flow_dir f d = elim f.read_dir [
  | some e ↦ err e
  | none ↦ non_empty (file_names d.entries)
]

-- `os.Mkdir` of `tmp`, where "already exists" is no error.
unfoldable pub make_tmp : Option Error → Dir → Option Dir → NasDir × Option Error
make_tmp fault entries (some t) = (record { entries = entries; tmp = some t }, none)
make_tmp none entries none = (record { entries = entries; tmp = some [] }, none)
make_tmp (some e) entries none = (record { entries = entries; tmp = none }, some e)

-- `os.Rename` from the directory into `tmp`: over a file of that name, but not over a directory.
unfoldable pub rename_node : NasDir → Text → Dir → Option Node → Option Node → NasDir × Option Error
rename_node d name t none there = (d, some not_exist)
rename_node d name t (some node) (some directory) = (d, some is_directory)
rename_node d name t (some node) there =
    (record { entries = erase name d.entries; tmp = some (place name node t) }, none)

unfoldable pub rename_into : Option Error → NasDir → Text → Option Dir → NasDir × Option Error
unfolding rename_node
rename_into (some e) d name t = (d, some e)
rename_into none d name none = (d, some not_exist)
rename_into none d name (some t) = rename_node d name t (lookup name d.entries) (lookup name t)

unfoldable pub after_mkdir : Faults → Text → NasDir × Option Error → NasDir × Option Error
unfolding rename_into
after_mkdir f name (d, some e) = (d, some e)
after_mkdir f name (d, none) = rename_into (f.rename name) d name d.tmp

-- `MoveFlowToTempDir`
unfoldable pub move_flow_to_temp_dir : Faults → Text → NasDir → NasDir × Option Error
unfolding make_tmp after_mkdir place
move_flow_to_temp_dir f name d = after_mkdir f name (make_tmp f.mkdir d.entries d.tmp)

-- What a failed `os.RemoveAll` leaves.
unfoldable pub remaining : (Text → Bool) → Dir → Dir
remaining kept [] = []
remaining kept ((name, node) ∷ d) =
    if kept name then (name, node) ∷ remaining kept d else remaining kept d

unfoldable pub remaining_tmp : (Text → Bool) → Option Dir → Option Dir
unfolding remaining
remaining_tmp kept none = none
remaining_tmp kept (some t) = some (remaining kept t)

-- `tmp` is made anew, with one file `.gitkeep`.
unfoldable pub renewed : Option Error → Option Error → Dir → NasDir × Option Error
renewed (some e) write entries = (record { entries = entries; tmp = none }, some e)
renewed none (some e) entries = (record { entries = entries; tmp = some [] }, some e)
renewed none none entries =
    (record { entries = entries; tmp = some ((git_keep_name, file []) ∷ []) }, none)

unfoldable pub after_remove_all : Faults → Option Error → NasDir → NasDir × Option Error
unfolding renewed remaining_tmp
after_remove_all f (some e) d =
    (record { entries = d.entries; tmp = remaining_tmp f.kept d.tmp }, some e)
after_remove_all f none d = renewed f.mkdir_tmp f.write_keep d.entries

-- `RemoveOld`
unfoldable pub remove_old : Faults → NasDir → NasDir × Option Error
unfolding after_remove_all
remove_old f d = after_remove_all f f.remove_all d

-- What the loop of `StreamFlow` does with an entry: a directory and a service file are passed over,
-- of a file named in `skipFileNames` only the name is kept, and any other file is read.
pub data Entry : Type 0 where
  ignored : Entry
  skipped : Entry
  fresh : Text → Entry

unfoldable pub entry_of : Map Text Bool → Text → Node → Entry
entry_of skip name directory = ignored
entry_of skip name (file bytes) =
    if has_infix name flow_name_sub_str
    then if get_or name skip false then skipped else fresh bytes
    else ignored

-- Reading a file: all its bytes, or those before a read fails.
unfoldable pub contents : Faults → Text → Text → Scanned
unfolding scan
contents f name bytes = elim (f.read_file name) [
  | none ↦ scan bytes none
  | some (n, e) ↦ scan (take n bytes) (some e)
]

-- What a callback that changes the state `S` of its closure leaves behind.
pub record Streamed {ℓ} (S : Type ℓ) : Type ℓ where
  pub state : S
  pub names : List Text
  pub size : ℕ
  pub error : Option Error

module _ {ℓ} {S : Type ℓ} (f : Faults) (on_line : S → Text → S × Option Error) where
  -- The loop of `streamFile`; the one more byte is the line feed.
  unfoldable pub stream_lines : List Text → S → ℕ → Scanned → Streamed S
  stream_lines names s size (ends e) = record { state = s; names = names; size = size; error = e }
  stream_lines names s size (line text rest) =
      let next = on_line s text in
      let again = stream_lines names next.0 (size + length text + 1) rest in
      elim next.1 [
        | some e ↦ record {
          state = next.0;
          names = names;
          size = size + length text + 1;
          error = some e;
        }
        | none ↦ again
      ]

  -- `streamFile`, with the names and the size of the files before it.
  unfoldable pub stream_file : List Text → S → ℕ → Text → Text → Streamed S
  unfolding stream_lines contents
  stream_file names s size name bytes = elim (f.open_file name) [
    | some e ↦ record { state = s; names = names; size = size; error = some e }
    | none ↦ stream_lines names s size (contents f name bytes)
  ]

  -- After a file that could not be read the loop ends.
  unfoldable pub go_on : (S → ℕ → Streamed S) → Streamed S → Option Error → Streamed S
  go_on more r (some e) = r
  go_on more r none = more r.state r.size

  -- One round of the loop, by what the entry is.
  unfoldable pub stream_entry :
      (List Text → S → ℕ → Streamed S) → List Text → S → ℕ → Text → Entry → Streamed S
  unfolding stream_file go_on
  stream_entry more names s size name ignored = more names s size
  stream_entry more names s size name skipped = more (names ++ name ∷ []) s size
  stream_entry more names s size name (fresh bytes) =
      let r = stream_file (names ++ name ∷ []) s size name bytes in
      go_on (more (names ++ name ∷ [])) r r.error

  unfoldable pub stream_entries : Map Text Bool → Dir → List Text → S → ℕ → Streamed S
  unfolding stream_entry entry_of
  stream_entries skip [] names s size = record {
    state = s;
    names = names;
    size = size;
    error = none;
  }
  stream_entries skip ((name, node) ∷ d) names s size =
      stream_entry (stream_entries skip d) names s size name (entry_of skip name node)

  unfoldable pub stream_tmp : Option Error → Map Text Bool → S → Option Dir → Streamed S
  unfolding stream_entries
  stream_tmp (some e) skip s t = record { state = s; names = []; size = 0; error = some e }
  stream_tmp none skip s none = record { state = s; names = []; size = 0; error = some not_exist }
  stream_tmp none skip s (some t) = stream_entries skip t [] s 0

  -- `StreamFlow`
  unfoldable pub stream_flow : Map Text Bool → S → NasDir → Streamed S
  unfolding stream_tmp
  stream_flow skip s d = stream_tmp f.read_tmp skip s d.tmp
