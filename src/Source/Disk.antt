-- ===== src/Source/Disk.antt =====
-- What internal/source asks of the file system (package os), and the log of what it asked.
use poc_controller.Prelude.{ℕ, String, Bool, Option, none, some, List, [], ◌∷◌, ◌++◌, Error, wrap}

-- A clean absolute path, as its names, the last one first.
abbrev pub Place : Type 0
Place = List String

-- A stream: its bytes, and the error after them where it does not end.
pub record Body : Type 0 where
  pub bytes : List ℕ
  pub fails : Option Error

-- What os.Stat says: nothing there, an error, or whether it is a directory and its size.
pub data Stat : Type 0 where
  absent : Stat
  stat_failed : Error → Stat
  present : Bool → ℕ → Stat

-- The file system, over its state `F`; os.Create and os.OpenFile are told apart by their modes.
pub record FileSystem (F : Type 0) : Type 0 where
  pub mkdir_all : Place → F → Option Error × F
  pub create : Place → ℕ → F → Option Error × F
  pub copy : Place → Body → F → Option Error × F
  pub symlink : String → Place → F → Option Error × F
  pub stat : Place → F → Stat

-- One call that may change something, with the place that it names.
pub data DiskCall : Type 0 where
  mkdir_all : Place → DiskCall
  create : Place → ℕ → DiskCall
  copy : Place → Body → DiskCall
  symlink : String → Place → DiskCall

pub record Disk (F : Type 0) : Type 0 where
  pub files : F
  pub log : List DiskCall

module _ {F : Type 0} (fs : FileSystem F) where
  unfoldable pub run : DiskCall → F → Option Error × F
  run (mkdir_all p) f = fs.mkdir_all p f
  run (create p mode) f = fs.create p mode f
  run (copy p body) f = fs.copy p body f
  run (symlink to p) f = fs.symlink to p f

  -- One call, whose error is wrapped.
  unfoldable pub ask : String → DiskCall → Disk F → Option Error × Disk F
  unfolding run
  ask context c d =
      let (answer, f) = run c d.files in
      let d' = record d { files = f; log = d.log ++ c ∷ [] } in
      elim answer [ none ↦ (none, d') | some e ↦ (some (wrap context e), d') ]

-- The next step, unless there is an error.
unfoldable pub and_then_do :
    {F : Type 0} → Option Error × Disk F → (Disk F → Option Error × Disk F) → Option Error × Disk F
and_then_do (some e, d) k = (some e, d)
and_then_do (none, d) k = k d
