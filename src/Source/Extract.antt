-- ===== src/Source/Extract.antt =====
-- internal/source/extract.go. A path is its names: the entries' names are cleaned, and the places in the
-- destination are lists of names, which have no slash. The destination is not the root.
pub mod Names
pub mod Inside
pub mod Guards
pub mod Accepted
use Prim.Native.Char.{Char, code}
use poc_controller.Prelude.{
  ℕ, ◌+◌, ◌%◌, String, Bool, true, false, not, ◌&&◌, ◌||◌, Option, none, some, List, [], ◌∷◌, ◌==◌,
  ◌^^◌, decimal, eqb, ltb, is_empty, length, Error, Result, ok, err, wrap, if◌then◌else◌,
}
use poc_controller.Prelude.Paths.{
  slash, split_slash, pop, clean_stack, clean_components, reverse_onto, join_slash,
}
use poc_controller.Source.Disk.{
  Place, Body, FileSystem, Disk, DiskCall, mkdir_all, create, copy, symlink, ask, and_then_do,
}

abbrev pub max_zip_files : ℕ
max_zip_files = 10000

abbrev pub max_tar_files : ℕ
max_tar_files = 10000

-- filepath.IsAbs
unfoldable pub is_abs : String → Bool
is_abs String.[] = false
is_abs (String.◌∷◌ c s) = eqb (code c) slash

-- What one component of a relative path does to those before it, the last one first: ".." climbs where
-- there is nothing to drop.
unfoldable climb : List String → List String
climb [] = ".." ∷ []
climb (c ∷ stack) = if c == ".." then ".." ∷ c ∷ stack else stack

unfoldable clean_relative : List String → List String → List String
unfolding climb
clean_relative stack [] = stack
clean_relative stack (c ∷ cs) =
    clean_relative
      (if is_empty c || c == "." then stack else if c == ".." then climb stack else c ∷ stack) cs

-- The names of filepath.Clean.
unfoldable pub clean_names : String → List String
unfolding clean_relative reverse_onto
clean_names path =
    if is_abs path
    then clean_components path
    else reverse_onto [] (clean_relative [] (split_slash path))

-- strings.HasPrefix(name, "..") of a cleaned path
unfoldable pub starts_with_dots : String → Bool
starts_with_dots (String.◌∷◌ c (String.◌∷◌ d s)) = eqb (code c) b'.' && eqb (code d) b'.'
starts_with_dots _ = false

-- The guard of both loops on an entry's name.
unfoldable pub contains_traversal : String → Bool
unfolding clean_names
contains_traversal path = is_abs path || starts_with_dots (join_slash (clean_names path))

-- filepath.Join of a place and a path
unfoldable pub join : Place → String → Place
join base path = clean_stack base (split_slash path)

-- `target`
unfoldable pub target_place : Place → String → Place
target_place dest path = clean_stack dest (clean_names path)

abbrev failure : String → Error
failure msg = record { msg = msg; status = none; sentinel = none }

-- The text of a place.
unfoldable pub print_place : Place → String
print_place p = "/" ^^ join_slash (reverse_onto [] p)

-- zip.File
pub record ZipFile : Type 0 where
  pub name : String
  pub is_dir : Bool
  -- Open
  pub opened : Result Body

-- The type flag of a tar entry.
pub data TarType : Type 0 where
  type_dir type_reg type_symlink type_other : TarType

-- tar.Header, with the entry's content
pub record TarEntry : Type 0 where
  pub name : String
  pub type_flag : TarType
  pub linkname : String
  pub mode : ℕ
  pub body : Body

-- What tar.Reader.Next gives, again and again: io.EOF, an error, or an entry.
pub data TarStream : Type 0 where
  eof : TarStream
  broken : Error → TarStream
  next : TarEntry → TarStream → TarStream

-- Whether two places are the same, and whether one lies at or below the other: the test by HasPrefix
-- with a separator.
unfoldable pub same_place : Place → Place → Bool
same_place [] [] = true
same_place (a ∷ p) (b ∷ q) = a == b && same_place p q
same_place _ _ = false

unfoldable pub is_within : Place → Place → Bool
unfolding same_place
is_within dest [] = same_place [] dest
is_within dest (c ∷ p) = let rest = is_within dest p in same_place (c ∷ p) dest || rest

-- the place that a symbolic link leads to, as it is checked
unfoldable pub link_place : Place → String → Place
unfolding join
link_place target linkname = join (pop target) linkname

module _ {F : Type 0} (fs : FileSystem F) (quote : String → String) where
  -- extractZipFile; os.Create opens with the mode 0o666
  unfoldable pub extract_zip_file : ZipFile → Place → Disk F → Option Error × Disk F
  unfolding ask and_then_do
  extract_zip_file f target d = elim f.opened [
    | err e ↦ (some (wrap ("opening zip entry " ^^ f.name ^^ ": ") e), d)
    | ok body ↦
        and_then_do (ask fs ("creating file " ^^ print_place target ^^ ": ") (create target 438) d)
          (λ d. ask fs ("extracting " ^^ f.name ^^ ": ") (copy target body) d)
  ]

  -- the loop's body in extractZip
  unfoldable pub extract_zip_entry : Place → ZipFile → Disk F → Option Error × Disk F
  unfolding extract_zip_file
  extract_zip_entry dest f d =
      if contains_traversal f.name
      then (some (failure ("zip entry " ^^ quote f.name ^^ " contains path traversal")), d)
      else (let target = target_place dest f.name in
          if f.is_dir
          then ask fs ("creating directory " ^^ print_place target ^^ ": ") (mkdir_all target) d
          else and_then_do
              (ask fs ("creating parent directory for " ^^ print_place target ^^ ": ")
                (mkdir_all (pop target)) d)
              (λ d. extract_zip_file f target d))

  unfoldable pub extract_zip_entries : Place → List ZipFile → Disk F → Option Error × Disk F
  unfolding extract_zip_entry
  extract_zip_entries dest [] d = (none, d)
  extract_zip_entries dest (f ∷ files) d =
      and_then_do (extract_zip_entry dest f d) (λ d. extract_zip_entries dest files d)

  -- extractZip; `opened` is the answer of zip.OpenReader
  unfoldable pub extract_zip : Result (List ZipFile) → Place → Disk F → Option Error × Disk F
  unfolding extract_zip_entries
  extract_zip (err e) dest d = (some (wrap "opening zip archive: " e), d)
  extract_zip (ok files) dest d =
      if ltb max_zip_files (length files)
      then (
        some (
            failure (
              "zip archive contains "
              ^^ decimal (length files)
              ^^ " files, exceeds limit of "
              ^^ decimal max_zip_files)),
        d,
      )
      else extract_zip_entries dest files d

  -- extractTarFile
  unfoldable pub extract_tar_file : Body → Place → ℕ → Disk F → Option Error × Disk F
  unfolding ask and_then_do
  extract_tar_file body target mode d =
      and_then_do
        (ask fs ("creating file " ^^ print_place target ^^ ": ") (create target (mode % 512)) d)
        (λ d. ask fs ("extracting " ^^ print_place target ^^ ": ") (copy target body) d)

  -- the branch on a symbolic link, after its parent is made
  unfoldable pub extract_symlink : Place → TarEntry → Place → Disk F → Option Error × Disk F
  unfolding ask link_place is_within
  extract_symlink dest e target d =
      if not (is_within dest (link_place target e.linkname))
      then (some (failure ("tar symlink " ^^ quote e.name ^^ " escapes destination")), d)
      else ask fs ("creating symlink " ^^ print_place target ^^ ": ") (symlink e.linkname target) d

  -- the switch on the type flag
  unfoldable pub extract_tar_type :
      Place → TarEntry → Place → TarType → Disk F → Option Error × Disk F
  unfolding ask and_then_do extract_tar_file extract_symlink
  extract_tar_type dest e target type_dir d =
      ask fs ("creating directory " ^^ print_place target ^^ ": ") (mkdir_all target) d
  extract_tar_type dest e target type_reg d =
      and_then_do
        (ask fs ("creating parent directory for " ^^ print_place target ^^ ": ")
          (mkdir_all (pop target)) d)
        (λ d. extract_tar_file e.body target e.mode d)
  extract_tar_type dest e target type_symlink d =
      and_then_do
        (ask fs ("creating parent directory for " ^^ print_place target ^^ ": ")
          (mkdir_all (pop target)) d)
        (λ d. extract_symlink dest e target d)
  extract_tar_type dest e target type_other d = (none, d)

  -- the loop's body in extractTarGz, after the count
  unfoldable pub extract_tar_entry : Place → TarEntry → Disk F → Option Error × Disk F
  unfolding extract_tar_type
  extract_tar_entry dest e d =
      if contains_traversal e.name
      then (some (failure ("tar entry " ^^ quote e.name ^^ " contains path traversal")), d)
      else extract_tar_type dest e (target_place dest e.name) e.type_flag d

  -- the loop of extractTarGz; `count` is that of the entries before
  unfoldable pub extract_tar_stream : Place → ℕ → TarStream → Disk F → Option Error × Disk F
  unfolding extract_tar_entry
  extract_tar_stream dest count eof d = (none, d)
  extract_tar_stream dest count (broken e) d = (some (wrap "reading tar entry: " e), d)
  extract_tar_stream dest count (next e stream) d =
      if ltb max_tar_files (count + 1)
      then (
        some (failure ("tar archive contains more than " ^^ decimal max_tar_files ^^ " files")),
        d,
      )
      else and_then_do (extract_tar_entry dest e d)
          (λ d. extract_tar_stream dest (count + 1) stream d)

  -- extractTarGz; `opened` is the answer of os.Open, and `stream` that of gzip.NewReader
  unfoldable pub extract_tar_gz :
      Option Error → Result TarStream → Place → Disk F → Option Error × Disk F
  unfolding extract_tar_stream
  extract_tar_gz (some e) stream dest d = (some (wrap "opening tar.gz archive: " e), d)
  extract_tar_gz none (err e) dest d = (some (wrap "opening gzip stream: " e), d)
  extract_tar_gz none (ok stream) dest d = extract_tar_stream dest 0 stream d
