-- ===== src/Reconcile/Release/Path/Laws.antt =====
-- The package directory of internal/reconcile/release.go stays inside the extracted artifact.
use poc_controller.Prelude.{String, false, ◌≡◌, ◌⊎◌, List, ◌^^◌, arith, contains_text, All, ok}
use poc_controller.Prelude.Paths.{clean_components, join_slash}
use poc_controller.Prelude.Paths.Laws.{IsPlain, clean_components-IsPlain}
use poc_controller.Reconcile.World.{FileInfo, directory, regular_file}
use poc_controller.Reconcile.Release.Path.{join_path, resolve_package_path}

module _ (quote : String → String) (stat : String → FileInfo) (root path : String) where
  target_of :
      (target : String)
      → resolve_package_path quote stat root path ≡ ok target
      → (target ≡ join_path root (join_slash (clean_components path)))
        × (contains_text ("/" ^^ join_slash (clean_components path)) ".." ≡ false)
        × (stat target ≡ directory)
        × ((stat (target ^^ "/release.cue") ≡ directory)
            ⊎ (stat (target ^^ "/release.cue") ≡ regular_file))
  unfolding resolve_package_path
  target_of target h = ground arith

  -- A package directory that resolvePackagePath returns is the extraction directory itself or lies
  -- below it, along names none of which is empty, "." or ".." or holds a slash; it is a directory; and
  -- os.Stat finds an entry release.cue in it without an error.
  pub resolve_package_path_lem :
      (target : String)
      → resolve_package_path quote stat root path ≡ ok target
      → (names : List String) × All IsPlain names
        × (target ≡ join_path root (join_slash names))
        × (stat target ≡ directory)
        × ((stat (target ^^ "/release.cue") ≡ directory)
            ⊎ (stat (target ^^ "/release.cue") ≡ regular_file))
  resolve_package_path_lem target h =
      let (eq, _, dir, file) = target_of target h in
      (clean_components path, clean_components-IsPlain path, eq, dir, file)
