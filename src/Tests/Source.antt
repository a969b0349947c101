-- ===== src/Tests/Source.antt =====
-- The fetch of an artifact and its extraction at concrete inputs.
use poc_controller.Prelude.{
  ℕ, ◌+◌, ◌^^◌, String, true, false, ◌≡◌, ◌≢◌, ◌↔◌, ◌⊎◌, refl, Option, none, some, List, [], ◌∷◌,
  ◌++◌, All, ok, Result, arith, Bool,
}
use poc_controller.Prelude.Paths.{slash}
use poc_controller.Source.{tar_gz, FetchOptions}
use poc_controller.Source.Disk.{Place, present, FileSystem, Disk, symlink}
use poc_controller.Source.Extract.{
  ZipFile, TarEntry, type_reg, type_symlink, TarStream, eof, next, is_abs, is_within, link_place,
  extract_zip, extract_symlink, extract_tar_gz,
}
use poc_controller.Source.Extract.Inside.{
  IsInside, IsUnlinked, extract_zip-Unlinked, extract_tar_gz-Inside, extract_symlink_absolute,
}
use poc_controller.Source.Fetch.{Network, validate_cue_module, fetch, unpack}
use poc_controller.Source.Fetch.Laws.{
  IsVerified, IsRefused, fetch_verifies, validate_cue_module_iff,
}

-- A file system that only counts its calls, and where everything is a directory of size 1.
abbrev counting : FileSystem ℕ
counting = record {
  mkdir_all = λ p n. (none, n + 1);
  create = λ p mode n. (none, n + 1);
  copy = λ p body n. (body.fails, n + 1);
  symlink = λ to p n. (none, n + 1);
  stat = λ p n. present true 1;
}

abbrev quote : String → String
quote s = s

abbrev destination : Place
destination = "artifact" ∷ "tmp" ∷ []

abbrev file_entry : TarEntry
file_entry = record {
  name = "app/./release.cue";
  type_flag = type_reg;
  linkname = "";
  mode = 420;
  body = record { bytes = 1 ∷ []; fails = none };
}

abbrev link_entry : TarEntry
link_entry = record file_entry {
  name = "app/passwd";
  type_flag = type_symlink;
  linkname = "/etc/passwd";
}

abbrev archive : TarStream
archive = next file_entry eof

abbrev empty_disk : Disk ℕ
empty_disk = record { files = 0; log = [] }

abbrev zip_files : List ZipFile
zip_files =
    record { name = "app/x"; is_dir = false; opened = ok (record { bytes = []; fails = none }) }
    ∷ []

untar_example :
    All
      (IsInside destination)
      (extract_tar_gz counting quote none (ok archive) destination empty_disk).1.log
untar_example = extract_tar_gz-Inside counting quote destination none (ok archive) empty_disk tt

unzip_example :
    All
      (IsUnlinked destination)
      (extract_zip counting quote (ok zip_files) destination empty_disk).1.log
unzip_example = extract_zip-Unlinked counting quote destination (ok zip_files) empty_disk tt

absolute_link_example :
    (is_abs "/etc/passwd" ≡ true)
    × ((extract_symlink counting quote destination link_entry
          ("passwd" ∷ "app" ∷ destination)
          empty_disk).1.log
        ≡ symlink "/etc/passwd" ("passwd" ∷ "app" ∷ destination) ∷ [])
unfolding link_place is_within poc_controller.Prelude.Paths.clean_stack
    poc_controller.Prelude.Paths.split_slash
absolute_link_example =
    extract_symlink_absolute counting quote destination link_entry ("passwd" ∷ "app" ∷ destination)
      empty_disk _ "etc/passwd" refl refl refl

abbrev network : Network
network = record {
  new_request = λ url. none;
  send =
      λ url. ok (record { status_code = 200; body = record { bytes = 1 ∷ 2 ∷ []; fails = none } });
  create_temp = none;
  store = λ bytes. none;
  open_temp = none;
  sha256_hex = λ bytes. "ab";
  open_zip = λ bytes. ok [];
  gunzip = λ bytes. ok archive;
}

abbrev options : FetchOptions
options = record { format = tar_gz; skip_root_cue_module_validation = true }

fetch_verifies_example :
    IsRefused counting quote network 0 "http://source" "sha256:ab" destination options empty_disk
      (fetch counting quote network 0 "http://source" "sha256:ab" destination options empty_disk)
    ⊎ ((bytes : List ℕ) × IsVerified counting quote network 0 "http://source" "sha256:ab"
          destination options bytes
        × (fetch counting quote network 0 "http://source" "sha256:ab" destination options empty_disk
            ≡ unpack counting quote network bytes destination options empty_disk))
fetch_verifies_example =
    fetch_verifies counting quote network 0 "http://source" "sha256:ab" destination options
      empty_disk (omega arith)

module_file_example : (validate_cue_module counting destination 0 ≡ none) ↔ (
    (size : ℕ) × (counting.stat ("cue.mod" ∷ destination) 0 ≡ present true size)
    × ((is_dir : Bool) × (n : ℕ) × (counting.stat ("module.cue" ∷ "cue.mod" ∷ destination) 0
          ≡ present is_dir n)
        × (n ≢ 0)))
module_file_example = validate_cue_module_iff counting destination 0
