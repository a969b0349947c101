-- ===== src/Source/Extract/Inside.antt =====
-- The paths that extractZip and extractTarGz of internal/source/extract.go name lie in the destination.
use Prim.Native.Char.{Char, code}
use poc_controller.Prelude.{
  ℕ, ◌+◌, ◌%◌, length, if_both, String, true, ◌≡◌, ◌⊎◌, inl, inr, refl, sym, ap, subst, ◌∙◌, List,
  [], ◌∷◌, ◌++◌, All, Bool-cases, arith, eqb, ltb, Option, none, some, Option-cases, Result,
  Result-cases, ok, err, Error,
}
use poc_controller.Prelude.Paths.{slash, split_slash, pop, clean_step, clean_stack}
use poc_controller.Source.Disk.{
  Place, FileSystem, Disk, DiskCall, mkdir_all, create, copy, symlink, run, ask, and_then_do,
}
use poc_controller.Source.Extract.{
  ZipFile, TarType, type_dir, type_reg, type_symlink, type_other, TarEntry, TarStream, eof, broken,
  next, max_tar_files, max_zip_files, is_abs, contains_traversal, target_place, is_within,
  link_place, join, extract_zip_file, extract_zip_entry, extract_zip_entries, extract_zip,
  extract_tar_file, extract_symlink, extract_tar_type, extract_tar_entry, extract_tar_stream,
  extract_tar_gz,
}
use poc_controller.Source.Extract.Names.{IsAtOrBelow, target_place-below, is_within-below}

-- The place that the text of a link names from the directory that holds the link.
abbrev pub read_from : Place → String → Place
read_from [] to = clean_stack [] (split_slash to)
read_from (name ∷ dir) to = clean_stack dir (split_slash to)

pub link_place-read_from : (p : Place) (to : String) → link_place p to ≡ read_from p to
unfolding link_place join pop
link_place-read_from [] to = refl
link_place-read_from (name ∷ dir) to = refl

-- A call whose names stay in the destination: the path that it names lies at or below it, or is the
-- directory that holds it, and the text of a link, read from the link's directory, names a place at or
-- below it.
abbrev pub IsInside : Place → DiskCall → Type 0
IsInside dest (mkdir_all p) = IsAtOrBelow dest p ⊎ (p ≡ pop dest)
IsInside dest (create p mode) = IsAtOrBelow dest p
IsInside dest (copy p body) = IsAtOrBelow dest p
IsInside dest (symlink to p) =
    IsAtOrBelow dest p × ((names : List String) × (read_from p to ≡ names ++ dest))

-- The same for a call that makes no link.
abbrev pub IsUnlinked : Place → DiskCall → Type 0
IsUnlinked dest (mkdir_all p) = IsAtOrBelow dest p ⊎ (p ≡ pop dest)
IsUnlinked dest (create p mode) = IsAtOrBelow dest p
IsUnlinked dest (copy p body) = IsAtOrBelow dest p
IsUnlinked dest (symlink to p) = ⊥

parent_stays : (dest p : Place) → IsAtOrBelow dest p → IsAtOrBelow dest (pop p) ⊎ (pop p ≡ pop dest)
unfolding pop
parent_stays dest p ([], h, e) = inr (ap pop e)
parent_stays dest p (c ∷ names, (_, h), e) = inl (names, h, ap pop e)

All-snoc :
    {A : Type 0} (P : A → Type 0) (xs : List A) (x : A) → All P xs → P x → All P (xs ++ x ∷ [])
All-snoc P [] x h p = (p, tt)
All-snoc P (y ∷ xs) x (q, h) p = (q, All-snoc P xs x h p)

-- The slash in front of a link's target does not count.
link_place_absolute :
    (target : Place) (c : Char) (path : String)
    → code c ≡ slash
    → link_place target (String.◌∷◌ c path) ≡ link_place target path
unfolding link_place join split_slash clean_stack clean_step
link_place_absolute target c path k = elim (Bool-cases (eqb (code c) slash)) [
  | inl t ↦ rw (t, split_slash) refl
  | inr f ↦ absurd (ground (arith, f, k))
]

module _ {F : Type 0} (fs : FileSystem F) (quote : String → String) (dest : Place) where
  -- An answer whose log has only calls of a kind.
  record IsTidy (P : DiskCall → Type 0) (r : Option Error × Disk F) : Type 0 where
    log : All P r.1.log

  ask-log :
      (context : String) (c : DiskCall) (d : Disk F) → (ask fs context c d).1.log ≡ d.log ++ c ∷ []
  unfolding ask
  ask-log context c d = elim (Option-cases (run fs c d.files).0) [
    | inl e ↦ rw (e, ask) refl
    | inr (x, e) ↦ rw (e, ask) refl
  ]

  ask-Tidy :
      (P : DiskCall → Type 0) (context : String) (c : DiskCall) (d : Disk F)
      → P c
      → All P d.log
      → IsTidy P (ask fs context c d)
  ask-Tidy P context c d h k = record {
    log = subst (All P) (sym (ask-log context c d)) (All-snoc P d.log c k h);
  }

  and_then_do-Tidy :
      (P : DiskCall → Type 0) (r : Option Error × Disk F) (k : Disk F → Option Error × Disk F)
      → IsTidy P r
      → ((d : Disk F) → All P d.log → IsTidy P (k d))
      → IsTidy P (and_then_do r k)
  unfolding and_then_do
  and_then_do-Tidy P (some e, d) k h f = h
  and_then_do-Tidy P (none, d) k h f = f d h.log

  extract_zip_file-Unlinked :
      (f : ZipFile) (target : Place) (d : Disk F)
      → IsAtOrBelow dest target
      → All (IsUnlinked dest) d.log
      → IsTidy (IsUnlinked dest) (extract_zip_file fs quote f target d)
  unfolding extract_zip_file
  extract_zip_file-Unlinked f target d at h = elim (Result-cases f.opened) [
    | inr (e, x) ↦ rw (x, extract_zip_file) (record { log = h })
    | inl (body, x) ↦
        rw (x, extract_zip_file)
          (and_then_do-Tidy (IsUnlinked dest) _ _
            (ask-Tidy (IsUnlinked dest) _ (create target 438) d at h)
            (λ d' h'. ask-Tidy (IsUnlinked dest) _ (copy target body) d' at h'))
  ]

  extract_zip_entry-Unlinked :
      (f : ZipFile) (d : Disk F)
      → All (IsUnlinked dest) d.log
      → IsTidy (IsUnlinked dest) (extract_zip_entry fs quote dest f d)
  unfolding extract_zip_entry
  extract_zip_entry-Unlinked f d h = elim (Bool-cases (contains_traversal f.name)) [
    | inl bad ↦ rw (bad, extract_zip_entry) (record { log = h })
    | inr good ↦
        let at = target_place-below dest f.name good in
        let target = target_place dest f.name in
        rw (good, extract_zip_entry)
          (if_both (IsTidy (IsUnlinked dest)) f.is_dir
            (ask-Tidy (IsUnlinked dest) _ (mkdir_all target) d (inl at) h)
            (and_then_do-Tidy (IsUnlinked dest) _ _
              (ask-Tidy (IsUnlinked dest) _ (mkdir_all (pop target)) d (parent_stays dest target at)
                h)
              (λ d' h'. extract_zip_file-Unlinked f target d' at h')))
  ]

  extract_zip_entries-Unlinked :
      (files : List ZipFile) (d : Disk F)
      → All (IsUnlinked dest) d.log
      → IsTidy (IsUnlinked dest) (extract_zip_entries fs quote dest files d)
  unfolding extract_zip_entries
  extract_zip_entries-Unlinked [] d h = record { log = h }
  extract_zip_entries-Unlinked (f ∷ files) d h =
      and_then_do-Tidy (IsUnlinked dest) _ _ (extract_zip_entry-Unlinked f d h)
        (λ d' h'. extract_zip_entries-Unlinked files d' h')

  -- Whatever a zip archive holds, extractZip makes no link, and each directory that it makes and each file
  -- that it creates or writes has a path at or below the destination, along names none of which is
  -- empty, "." or ".." or holds a slash, or is the directory that holds the destination.
  pub extract_zip-Unlinked :
      (opened : Result (List ZipFile)) (d : Disk F)
      → All (IsUnlinked dest) d.log
      → All (IsUnlinked dest) (extract_zip fs quote opened dest d).1.log
  unfolding extract_zip
  extract_zip-Unlinked (err e) d h = h
  extract_zip-Unlinked (ok files) d h = elim (Bool-cases (ltb max_zip_files (length files))) [
    | inl many ↦ rw (many, extract_zip) h
    | inr few ↦ rw (few, extract_zip) (extract_zip_entries-Unlinked files d h).log
  ]

  extract_symlink-Inside :
      (e : TarEntry) (target : Place) (d : Disk F)
      → IsAtOrBelow dest target
      → All (IsInside dest) d.log
      → IsTidy (IsInside dest) (extract_symlink fs quote dest e target d)
  unfolding extract_symlink
  extract_symlink-Inside e target d at h =
      elim (Bool-cases (is_within dest (link_place target e.linkname))) [
        | inl good ↦
            rw (good, extract_symlink)
              (ask-Tidy (IsInside dest) _ (symlink e.linkname target) d
                (at, linked (is_within-below dest _ good)) h)
        | inr bad ↦ rw (bad, extract_symlink) (record { log = h })
      ]
    where
      linked :
          (names : List String) × (link_place target e.linkname ≡ names ++ dest)
          → (names : List String) × (read_from target e.linkname ≡ names ++ dest)
      linked (names, same) = (names, sym (link_place-read_from target e.linkname) ∙ same)

  extract_tar_type-Inside :
      (e : TarEntry) (target : Place) (type_flag : TarType) (d : Disk F)
      → IsAtOrBelow dest target
      → All (IsInside dest) d.log
      → IsTidy (IsInside dest) (extract_tar_type fs quote dest e target type_flag d)
  unfolding extract_tar_type extract_tar_file
  extract_tar_type-Inside e target type_dir d at h =
      ask-Tidy (IsInside dest) _ (mkdir_all target) d (inl at) h
  extract_tar_type-Inside e target type_reg d at h =
      and_then_do-Tidy (IsInside dest) _ _
        (ask-Tidy (IsInside dest) _ (mkdir_all (pop target)) d (parent_stays dest target at) h)
        (λ d' h'.
          and_then_do-Tidy (IsInside dest) _ _
            (ask-Tidy (IsInside dest) _ (create target (e.mode % 512)) d' at h')
            (λ d'' h''. ask-Tidy (IsInside dest) _ (copy target e.body) d'' at h''))
  extract_tar_type-Inside e target type_symlink d at h =
      and_then_do-Tidy (IsInside dest) _ _
        (ask-Tidy (IsInside dest) _ (mkdir_all (pop target)) d (parent_stays dest target at) h)
        (λ d' h'. extract_symlink-Inside e target d' at h')
  extract_tar_type-Inside e target type_other d at h = record { log = h }

  extract_tar_entry-Inside :
      (e : TarEntry) (d : Disk F)
      → All (IsInside dest) d.log
      → IsTidy (IsInside dest) (extract_tar_entry fs quote dest e d)
  unfolding extract_tar_entry
  extract_tar_entry-Inside e d h = elim (Bool-cases (contains_traversal e.name)) [
    | inl bad ↦ rw (bad, extract_tar_entry) (record { log = h })
    | inr good ↦
        rw (good, extract_tar_entry)
          (extract_tar_type-Inside e _ e.type_flag d (target_place-below dest e.name good) h)
  ]

  extract_tar_stream-Inside :
      (stream : TarStream) (count : ℕ) (d : Disk F)
      → All (IsInside dest) d.log
      → IsTidy (IsInside dest) (extract_tar_stream fs quote dest count stream d)
  unfolding extract_tar_stream
  extract_tar_stream-Inside eof count d h = record { log = h }
  extract_tar_stream-Inside (broken e) count d h = record { log = h }
  extract_tar_stream-Inside (next e stream) count d h =
      elim (Bool-cases (ltb max_tar_files (count + 1))) [
        | inl many ↦ rw (many, extract_tar_stream) (record { log = h })
        | inr few ↦
            rw (few, extract_tar_stream)
              (and_then_do-Tidy (IsInside dest) _ _ (extract_tar_entry-Inside e d h)
                (λ d' h'. extract_tar_stream-Inside stream (count + 1) d' h'))
      ]

  -- Whatever a tar.gz archive holds, each call of extractTarGz that makes a directory, creates or writes a
  -- file or makes a link names a path at or below the destination, along names none of which is empty, "."
  -- or ".." or holds a slash, or makes the directory that holds the destination; and the text of each
  -- link that it makes, read as relative to the directory of the link, names a place at or below the
  -- destination. This is about paths as names: it does not say where a path leads that goes through a
  -- link, and an absolute text is read without its leading slash.
  pub extract_tar_gz-Inside :
      (opened : Option Error) (stream : Result TarStream) (d : Disk F)
      → All (IsInside dest) d.log
      → All (IsInside dest) (extract_tar_gz fs quote opened stream dest d).1.log
  unfolding extract_tar_gz
  extract_tar_gz-Inside (some e) stream d h = h
  extract_tar_gz-Inside none (err e) d h = h
  extract_tar_gz-Inside none (ok stream) d h = (extract_tar_stream-Inside stream 0 d h).log

  -- An absolute link target is judged without its leading slash, and then made as it is.
  pub extract_symlink_absolute :
      (e : TarEntry) (target : Place) (d : Disk F) (c : Char) (path : String)
      → e.linkname ≡ String.◌∷◌ c path
      → code c ≡ slash
      → is_within dest (link_place target path) ≡ true
      → (is_abs e.linkname ≡ true)
        × ((extract_symlink fs quote dest e target d).1.log
            ≡ d.log ++ symlink e.linkname target ∷ [])
  unfolding extract_symlink is_abs
  extract_symlink_absolute e target d c path h k good =
      let inside : is_within dest (link_place target e.linkname) ≡ true =
        ap (λ l. is_within dest (link_place target l)) h
        ∙ ap (is_within dest) (link_place_absolute target c path k)
        ∙ good in
      (ground (arith, h, k), rw (inside, extract_symlink) (ask-log _ (symlink e.linkname target) d))
