-- ===== src/Reconcile/Release/Path.antt =====
-- resolvePackagePath of internal/reconcile/release.go.
pub mod Laws
use poc_controller.Prelude.{
  ℕ, String, Bool, true, false, ◌||◌, Option, none, some, List, [], ◌∷◌, ◌==◌, ◌^^◌, eqb, is_empty,
  contains_text, Error, Result, ok, err, wrap, release_file_missing, ◌≡◌, refl, if◌then◌else◌,
}
use poc_controller.Prelude.Paths.{clean_components, join_slash}
use poc_controller.Reconcile.World.{FileInfo, directory, regular_file, missing, stat_error}

abbrev pub plain_error : String → Error
plain_error msg = record { msg = msg; status = none; sentinel = none }

abbrev pub err_release_file_missing : Error
err_release_file_missing = record {
  msg = "release.cue not found";
  status = none;
  sentinel = some release_file_missing;
}

-- the check of release.cue
check_release_file : (String → String) → String → String → FileInfo → Result String
check_release_file quote rel_path target missing =
    err (record err_release_file_missing { msg = "release.cue not found at " ^^ quote rel_path })
check_release_file quote rel_path target (stat_error m) =
    err (plain_error ("stat release.cue: " ^^ m))
check_release_file quote rel_path target _ = ok target

-- the checks of the directory
check_directory :
    (String → String) → (String → FileInfo) → String → String → FileInfo → Result String
unfolding check_release_file
check_directory quote stat rel_path target missing =
    err (plain_error ("path " ^^ quote rel_path ^^ " does not exist in artifact"))
check_directory quote stat rel_path target (stat_error m) =
    err (plain_error ("stat " ^^ quote rel_path ^^ ": " ^^ m))
check_directory quote stat rel_path target regular_file =
    err (plain_error ("path " ^^ quote rel_path ^^ " is not a directory"))
check_directory quote stat rel_path target directory =
    check_release_file quote rel_path target (stat (target ^^ "/release.cue"))

-- filepath.Join of a clean root and a clean relative path.
abbrev pub join_path : String → String → String
join_path root rel = if is_empty rel then root else root ^^ "/" ^^ rel

-- resolvePackagePath; `root` is the clean, absolute path of the extraction directory
unfoldable pub resolve_package_path :
    (String → String) → (String → FileInfo) → String → String → Result String
unfolding check_directory
resolve_package_path quote stat root rel_path =
    let rel = join_slash (clean_components rel_path) in
    if contains_text ("/" ^^ rel) ".."
    then err (plain_error ("path " ^^ quote rel_path ^^ " contains traversal"))
    else let target = join_path root rel in check_directory quote stat rel_path target (stat target)
