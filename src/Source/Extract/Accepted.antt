-- ===== src/Source/Extract/Accepted.antt =====
-- Which archives extractTarGz of internal/source/extract.go accepts.
use poc_controller.Prelude.{
  ◌≢◌, ◌++◌, String, Bool, true, false, ◌≡◌, ◌↔◌, List, [], ◌∷◌, Option, none, some, Error,
}
use poc_controller.Prelude.Paths.{reverse_onto}
use poc_controller.Source.Extract.Guards.{IsSafeName}
use poc_controller.Source.Extract.Inside.{read_from}
use poc_controller.Source.Disk.{Body, Place, FileSystem, Disk, DiskCall, copy, run}
use poc_controller.Source.Extract.{
  TarType, type_dir, type_reg, type_symlink, type_other, TarEntry, TarStream, eof, broken, next,
  clean_names,
}

-- The entries of an archive, and whether it ends without an error.
abbrev pub entries_of : TarStream → List TarEntry
entries_of eof = []
entries_of (broken e) = []
entries_of (next e stream) = e ∷ entries_of stream

abbrev pub ends : TarStream → Bool
ends eof = true
ends (broken e) = false
ends (next e stream) = ends stream

-- The content of a file is whole, and the text of a link, read from the directory of the link, names a place
-- at or below the destination; nothing is asked of other entries.
abbrev pub IsSafeContent : Place → TarEntry → Place → TarType → Type 0
IsSafeContent dest e place type_dir = Unit
IsSafeContent dest e place type_reg = e.body.fails ≡ none
IsSafeContent dest e place type_symlink =
    (names : List String) × (read_from place e.linkname ≡ names ++ dest)
IsSafeContent dest e place type_other = Unit

-- An entry of a safe name, whose place in the destination is that name cleaned, and of safe content.
abbrev pub IsAcceptable : Place → TarEntry → Type 0
IsAcceptable dest e =
    IsSafeName e.name × IsSafeContent dest e (reverse_onto dest (clean_names e.name)) e.type_flag

-- A copy of a body that comes to its end, and any other call.
abbrev pub IsWhole : DiskCall → Type 0
IsWhole (copy p body) = body.fails ≡ none
IsWhole _ = Unit

-- A file system whose calls do not fail, but that io.Copy returns the error of what it reads.
pub record IsReliable {F : Type 0} (fs : FileSystem F) : Type 0 where
  pub answers : (c : DiskCall) (f : F) → IsWhole c → (run fs c f).0 ≡ none
  pub copies :
      (p : Place) (body : Body) (f : F) (x : Error)
      → body.fails ≡ some x
      → (fs.copy p body f).0 ≢ none

module _ {F : Type 0} (fs : FileSystem F) (reliable : IsReliable fs) (quote : String → String)
    (dest : Place) where
  -- An answer without an error, exactly if `Q`.
  record IsAccepted (Q : Type 0) (r : Option Error × Disk F) : Type 0 where
    iff : (r.0 ≡ none) ↔ Q
