-- ===== src/Source/Fetch.antt =====
-- internal/source/fetch.go and validate.go.
pub mod Laws
use poc_controller.Prelude.{
  ℕ, ◌+◌, ◌-◌, ◌*◌, ◌^◌, String, Bool, true, false, not, Option, none, some, List, [], ◌∷◌, ◌==◌,
  ◌^^◌, decimal, eqb, ltb, lt64, length, take, Error, Result, ok, err, wrap, missing_cue_module,
  if◌then◌else◌,
}
use poc_controller.Source.{ArchiveFormat, zip, tar_gz, other_format, FetchOptions}
use poc_controller.Source.Disk.{
  Place, Body, Stat, absent, stat_failed, present, FileSystem, Disk, and_then_do,
}
use poc_controller.Source.Extract.{ZipFile, TarStream, extract_zip, extract_tar_gz}

-- http.Response
pub record Response : Type 0 where
  pub status_code : ℕ
  pub body : Body

-- The calls of net/http, of os on the temporary file, and of the packages that hash and open archives.
pub record Network : Type 0 where
  pub new_request : String → Option Error
  pub send : String → Result Response
  pub create_temp : Option Error
  pub store : List ℕ → Option Error
  pub open_temp : Option Error
  pub sha256_hex : List ℕ → String
  pub open_zip : List ℕ → Result (List ZipFile)
  pub gunzip : List ℕ → Result TarStream

abbrev pub max_artifact_size : ℕ
max_artifact_size = 64 * 1048576

-- `maxSize`
abbrev pub effective_max_size : ℕ → ℕ
effective_max_size n = if eqb n 0 then max_artifact_size else n

-- `maxSize+1` as an int64: past its largest number the reader reads nothing
abbrev pub read_limit : ℕ → ℕ
read_limit n = if ltb n (2 ^ 63 - 1) then n + 1 else 0

-- %d of an int64
abbrev decimal64 : ℕ → String
decimal64 n = if ltb n (2 ^ 63) then decimal n else "-" ^^ decimal (2 ^ 64 - n)

-- io.LimitReader: the limit hides an error behind it
unfoldable pub limit_reader : ℕ → Body → Body
limit_reader n b =
    if ltb (length b.bytes) n then b else record { bytes = take n b.bytes; fails = none }

-- the first error of two
abbrev first_error : Option Error → Option Error → Option Error
first_error (some e) f = some e
first_error none f = f

abbrev failure : String → Error
failure msg = record { msg = msg; status = none; sentinel = none }

-- fmt.Errorf(..., ErrMissingCUEModule)
abbrev missing_module : String → Error
missing_module msg = record {
  msg = msg ^^ ": artifact does not contain a cue module";
  status = none;
  sentinel = some missing_cue_module;
}

module _ {F : Type 0} (fs : FileSystem F) where
  unfoldable pub check_module_file : Stat → Option Error
  check_module_file absent = some (missing_module "cue.mod/module.cue missing")
  check_module_file (stat_failed e) = some (wrap "checking cue.mod/module.cue: " e)
  check_module_file (present is_dir size) =
      if eqb size 0 then some (missing_module "cue.mod/module.cue is empty") else none

  unfoldable pub check_module_dir : Place → F → Stat → Option Error
  unfolding check_module_file
  check_module_dir dir files absent = some (missing_module "cue.mod directory missing")
  check_module_dir dir files (stat_failed e) = some (wrap "checking cue.mod: " e)
  check_module_dir dir files (present is_dir size) =
      if not is_dir
      then some (missing_module "cue.mod is not a directory")
      else check_module_file (fs.stat ("module.cue" ∷ "cue.mod" ∷ dir) files)

  -- ValidateCUEModule
  unfoldable pub validate_cue_module : Place → F → Option Error
  unfolding check_module_dir
  validate_cue_module dir files = check_module_dir dir files (fs.stat ("cue.mod" ∷ dir) files)

  module _ (quote : String → String) (net : Network) where
    -- an error of the extraction
    abbrev pub extracting : Option Error × Disk F → Option Error × Disk F
    extracting (some e, d) = (some (wrap "extracting artifact: " e), d)
    extracting (none, d) = (none, d)

    -- the switch on the format
    unfoldable pub extract : ArchiveFormat → List ℕ → Place → Disk F → Option Error × Disk F
    extract zip bytes dir d = extracting (extract_zip fs quote (net.open_zip bytes) dir d)
    extract tar_gz bytes dir d =
        extracting (extract_tar_gz fs quote net.open_temp (net.gunzip bytes) dir d)
    extract (other_format n) bytes dir d =
        (some (failure ("unknown archive format: " ^^ decimal n)), d)

    -- from the switch on
    unfoldable pub unpack : List ℕ → Place → FetchOptions → Disk F → Option Error × Disk F
    unfolding extract and_then_do
    unpack bytes dir opts d = and_then_do (extract opts.format bytes dir d) (λ d.
        if opts.skip_root_cue_module_validation
        then (none, d)
        else (validate_cue_module dir d.files, d))

    -- from the download's end on: its error, its size and its digest
    unfoldable pub verify :
        ℕ → Body → String → Place → FetchOptions → Disk F → Option Error × Disk F
    unfolding unpack
    verify max got digest dir opts d = elim (first_error got.fails (net.store got.bytes)) [
      | some e ↦ (some (wrap "downloading artifact: " e), d)
      | none ↦
          if lt64 max (length got.bytes)
          then (some (failure ("artifact size exceeds limit of " ^^ decimal64 max ^^ " bytes")), d)
          else if not ("sha256:" ^^ net.sha256_hex got.bytes == digest)
          then (
            some (
                failure (
                  "artifact digest mismatch: got sha256:"
                  ^^ net.sha256_hex got.bytes
                  ^^ ", want "
                  ^^ digest)),
            d,
          )
          else unpack got.bytes dir opts d
    ]

    -- from the response on
    unfoldable pub receive :
        ℕ → Response → String → Place → FetchOptions → Disk F → Option Error × Disk F
    unfolding verify limit_reader
    receive max resp digest dir opts d =
        if not (eqb resp.status_code 200)
        then (some (failure ("downloading artifact: status " ^^ decimal resp.status_code)), d)
        else elim net.create_temp [
          | some e ↦ (some (wrap "creating temp file: " e), d)
          | none ↦ verify max (limit_reader (read_limit max) resp.body) digest dir opts d
        ]

    -- ArtifactFetcher.Fetch; the temporary file is not part of the state
    unfoldable pub fetch :
        ℕ → String → String → Place → FetchOptions → Disk F → Option Error × Disk F
    unfolding receive
    fetch max_size url digest dir opts d = elim (net.new_request url) [
      | some e ↦ (some (wrap "creating request: " e), d)
      | none ↦ elim (net.send url) [
        | err e ↦ (some (wrap "downloading artifact: " e), d)
        | ok resp ↦ receive (effective_max_size max_size) resp digest dir opts d
      ]
    ]
