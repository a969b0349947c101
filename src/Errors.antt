-- ===== src/Errors.antt =====
-- pkg/errors/config_error.go: the errors of CUE, grouped by message and path. What the CUE library tells of
-- an error is given: its path, the text of its message and its positions.
pub mod Laws
use Prim.Native.Char.{code}
use poc_controller.Prelude.{
  ℕ, String, Bool, true, not, ◌&&◌, ◌||◌, Option, none, some, List, [], ◌∷◌, ◌++◌, ◌==◌, ◌^^◌, eqb,
  any_of, map, contains_text, decimal, if◌then◌else◌,
}

-- A token.Pos: IsValid, Filename, Line and Column.
pub record Position : Type 0 where
  pub is_valid : Bool
  pub filename : String
  pub line : ℕ
  pub column : ℕ

-- A CUE error: Path, Msg with its arguments filled in, and cueerrors.Positions.
pub record CueError : Type 0 where
  pub path : List String
  pub message : String
  pub positions : List Position

pub record ErrorLocation : Type 0 where
  pub file : String
  pub line : ℕ
  pub column : ℕ
  pub path : String

pub record GroupedError : Type 0 where
  pub message : String
  pub locations : List ErrorLocation

-- groupKey
pub record GroupKey : Type 0 where
  pub msg : String
  pub path : String

-- strings.Join with "."
unfoldable pub join_dots : List String → String
join_dots [] = ""
join_dots (p ∷ []) = p
join_dots (p ∷ q ∷ parts) = p ^^ "." ^^ join_dots (q ∷ parts)

-- What is left of a text after a prefix, if it has that prefix.
unfoldable pub cut_prefix : String → String → Option String
cut_prefix String.[] s = some s
cut_prefix (String.◌∷◌ c p) String.[] = none
cut_prefix (String.◌∷◌ c p) (String.◌∷◌ d s) =
    let rest = cut_prefix p s in if eqb (code c) (code d) then rest else none

-- strings.TrimPrefix
abbrev pub trim_prefix : String → String → String
trim_prefix p s = elim (cut_prefix p s) [ some rest ↦ rest | none ↦ s ]

-- strings.HasPrefix
abbrev pub has_prefix : String → String → Bool
has_prefix p s = elim (cut_prefix p s) [ some rest ↦ true | none ↦ not true ]

-- the prefixes that normalizeCUEPath takes away
unfoldable pub trim_config : String → String
trim_config path = trim_prefix "." (
    trim_prefix "#config" (
      trim_prefix "#config." (trim_prefix "#module.#config" (trim_prefix "#module.#config." path))))

-- normalizeCUEPath
unfoldable pub normalize_cue_path : List String → String
unfolding trim_config
normalize_cue_path [] = ""
normalize_cue_path (part ∷ parts) =
    let path = trim_config (join_dots (part ∷ parts)) in
    if path == ""
    then "values"
    else if has_prefix "values." path || path == "values"
    then path
    else "values." ^^ path

-- the key of `seen`
unfoldable pub location_key : String → ℕ → ℕ → String
location_key file line column = file ^^ ":" ^^ decimal line ^^ ":" ^^ decimal column

abbrev pub same_key : GroupKey → GroupKey → Bool
same_key a b = a.msg == b.msg && a.path == b.path

-- a location without a position, where there is none
abbrev or_path : String → List ErrorLocation → List ErrorLocation
or_path path [] = record { file = ""; line = 0; column = 0; path = path } ∷ []
or_path path (l ∷ ls) = l ∷ ls

-- disjunction summaries are skipped
abbrev pub is_summary : CueError → Bool
is_summary ce = contains_text ce.message "errors in empty disjunction"

-- `base` is filepath.Base
module _ (base : String → String) where
  -- the loop over the positions of one error; `seen` holds the keys of the locations
  unfoldable pub add_positions : String → List Position → List ErrorLocation → List ErrorLocation
  unfolding location_key
  add_positions path [] locations = locations
  add_positions path (pos ∷ positions) locations =
      let file = base pos.filename in
      let key = location_key file pos.line pos.column in
      let skipped =
        not pos.is_valid
        || any_of (λ (l : ErrorLocation). location_key l.file l.line l.column == key) locations in
      add_positions path positions (
        if skipped
        then locations
        else locations
          ++ record { file = file; line = pos.line; column = pos.column; path = path } ∷ [])

  -- what an error makes of the locations of its group
  unfoldable pub add_locations : String → List Position → List ErrorLocation → List ErrorLocation
  unfolding add_positions
  add_locations path positions locations = or_path path (add_positions path positions locations)

  -- the map from keys to groups, in the order of `groupOrder`
  unfoldable pub add_to_group :
      GroupKey → List Position → List (GroupKey × GroupedError) → List (GroupKey × GroupedError)
  unfolding add_locations
  add_to_group key positions [] =
      (key, record { message = key.msg; locations = add_locations key.path positions [] }) ∷ []
  add_to_group key positions ((k, g) ∷ groups) =
      let rest = add_to_group key positions groups in
      if same_key k key
      then (k, record g { locations = add_locations key.path positions g.locations }) ∷ groups
      else (k, g) ∷ rest

  -- the loop over the errors
  unfoldable pub group_loop :
      List CueError → List (GroupKey × GroupedError) → List (GroupKey × GroupedError)
  unfolding add_to_group normalize_cue_path
  group_loop [] groups = groups
  group_loop (ce ∷ errs) groups = group_loop errs (
      if is_summary ce
      then groups
      else add_to_group (record { msg = ce.message; path = normalize_cue_path ce.path })
          ce.positions groups)

  -- groupCUEErrors; `errs` is what cueerrors.Errors gives
  unfoldable pub group_cue_errors : List CueError → List GroupedError
  unfolding group_loop
  group_cue_errors errs = map (λ (p : GroupKey × GroupedError). p.1) (group_loop errs [])
