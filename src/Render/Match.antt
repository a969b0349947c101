-- ===== src/Render/Match.antt =====
-- pkg/render/match.go. A CUE value is given by what its iterators and look-ups answer. The names of a
-- struct's fields are distinct, so each key of the plan's maps is set once.
pub mod Laws
pub mod Order
use poc_controller.Prelude.{
  ℕ, String, Bool, not, ◌&&◌, Option, none, some, List, [], ◌∷◌, ◌++◌, ◌==◌, ◌^^◌, any_of, eqb,
  length, Error, Result, ok, err, wrap, if◌then◌else◌,
}
use poc_controller.Prelude.Sort.{text_lt, sort_stable}

-- What Fields gives of a struct: none for an error, or the names with what String gives of each value.
abbrev pub Fields : Type 0
Fields = Option (List (String × Option String))

-- The names of the fields alone.
abbrev pub Keys : Type 0
Keys = Option (List String)

-- A component: metadata.labels with optional fields, and the keys of #resources and #traits.
pub record Component : Type 0 where
  pub name : String
  pub labels : Fields
  pub resources : Keys
  pub traits : Keys

-- A transformer: what it requires with optional fields, and the keys of requiredTraits and
-- optionalTraits without them.
pub record Transformer : Type 0 where
  pub fqn : String
  pub required_labels : Fields
  pub required_resources : Keys
  pub required_traits : Keys
  pub required_trait_keys : Keys
  pub optional_trait_keys : Keys

pub record MatchResult : Type 0 where
  pub matched : Bool
  pub missing_labels : List String
  pub missing_resources : List String
  pub missing_traits : List String

pub record MatchPlan : Type 0 where
  pub matches : List (String × List (String × MatchResult))
  pub unmatched : List String
  pub unhandled_traits : List (String × List String)

pub record MatchedPair : Type 0 where
  pub component_name : String
  pub transformer_fqn : String

pub record NonMatchedPair : Type 0 where
  pub component_name : String
  pub transformer_fqn : String
  pub missing_labels : List String
  pub missing_resources : List String
  pub missing_traits : List String

-- sort.Strings
abbrev pub sort_strings : List String → List String
sort_strings = sort_stable text_lt

-- `_, ok := have[k]`
abbrev pub has : List String → String → Bool
has have k = any_of (λ h. h == k) have

-- The "key=value" texts of fields; a value that is no string is skipped.
unfoldable pub pairs_of : List (String × Option String) → List String
pairs_of [] = []
pairs_of ((k, none) ∷ fields) = pairs_of fields
pairs_of ((k, some v) ∷ fields) = (k ^^ "=" ^^ v) ∷ pairs_of fields

-- labelPairs
unfoldable pub label_pairs : Fields → List String
label_pairs none = []
label_pairs (some fields) = pairs_of fields

-- The keys of a struct, none where Fields fails.
abbrev pub keys_of : Keys → List String
keys_of none = []
keys_of (some keys) = keys

-- fieldKeys
unfoldable pub field_keys : Keys → List String
field_keys keys = sort_strings (keys_of keys)

-- Those of the required texts that are not there, in order.
unfoldable pub missing : List String → List String → List String
missing [] have = []
missing (k ∷ required) have =
    let rest = missing required have in if not (has have k) then k ∷ rest else rest

-- missingMapLabels
unfoldable pub missing_map_labels : Fields → List String → List String
missing_map_labels required have = sort_strings (missing (label_pairs required) have)

-- missingKeys
unfoldable pub missing_keys : Keys → List String → List String
missing_keys required have = sort_strings (missing (keys_of required) have)

-- the comparison of one component with one transformer
unfoldable pub match_result : Component → Transformer → MatchResult
match_result c t =
    let labels = missing_map_labels t.required_labels (label_pairs c.labels) in
    let resources = missing_keys t.required_resources (field_keys c.resources) in
    let traits = missing_keys t.required_traits (field_keys c.traits) in
    record {
      matched = eqb (length labels) 0 && eqb (length resources) 0 && eqb (length traits) 0;
      missing_labels = labels;
      missing_resources = resources;
      missing_traits = traits;
    }

-- `plan.Matches[compName]`
unfoldable pub match_results : Component → List Transformer → List (String × MatchResult)
match_results c [] = []
match_results c (t ∷ ts) = (t.fqn, match_result c t) ∷ match_results c ts

-- `matchedTFs`
unfoldable pub matched_transformers : Component → List Transformer → List Transformer
matched_transformers c [] = []
matched_transformers c (t ∷ ts) =
    let rest = matched_transformers c ts in if (match_result c t).matched then t ∷ rest else rest

-- `handled`
unfoldable pub handled_traits : List Transformer → List String
handled_traits [] = []
handled_traits (t ∷ ts) =
    field_keys t.required_trait_keys ++ field_keys t.optional_trait_keys ++ handled_traits ts

-- `plan.UnhandledTraits[compName]`, absent where nothing is appended
unfoldable pub add_unhandled :
    String → List String → List (String × List String) → List (String × List String)
add_unhandled name [] unhandled = unhandled
add_unhandled name (t ∷ traits) unhandled = (name, sort_strings (t ∷ traits)) ∷ unhandled

-- the body of the loop over the components, put in front of what the rest gives
unfoldable pub add_component : List Transformer → Component → MatchPlan → MatchPlan
add_component ts c plan =
    let matched = matched_transformers c ts in
    record {
      matches = (c.name, match_results c ts) ∷ plan.matches;
      unmatched = if eqb (length matched) 0 then c.name ∷ plan.unmatched else plan.unmatched;
      unhandled_traits =
          add_unhandled c.name (missing (field_keys c.traits) (handled_traits matched))
            plan.unhandled_traits;
    }

abbrev pub empty_plan : MatchPlan
empty_plan = record { matches = []; unmatched = []; unhandled_traits = [] }

unfoldable pub match_loop : List Transformer → List Component → MatchPlan
match_loop ts [] = empty_plan
match_loop ts (c ∷ cs) = add_component ts c (match_loop ts cs)

-- the loop's end; the iterator over the transformers is made for each component
unfoldable pub match_with : List Component → Result (List Transformer) → Result MatchPlan
match_with [] transformers = ok empty_plan
match_with (c ∷ cs) (err e) = err (wrap "iterating transformers: " e)
match_with (c ∷ cs) (ok ts) =
    let plan = match_loop ts (c ∷ cs) in
    ok (record plan { unmatched = sort_strings plan.unmatched })

-- Match: the answer of components.Fields, and of the provider's #transformers, if it is there
unfoldable pub match_components :
    Result (List Component) → Option (Option (Result (List Transformer))) → Result MatchPlan
match_components components none =
    err (record { msg = "provider is required"; status = none; sentinel = none })
match_components (err e) (some transformers) = err (wrap "iterating components: " e)
match_components (ok cs) (some none) = ok empty_plan
match_components (ok cs) (some (some transformers)) = match_with cs transformers

abbrev pub matched_less : MatchedPair → MatchedPair → Bool
matched_less p q =
    if not (p.component_name == q.component_name)
    then text_lt p.component_name q.component_name
    else text_lt p.transformer_fqn q.transformer_fqn

unfoldable pub matched_in : String → List (String × MatchResult) → List MatchedPair
matched_in c [] = []
matched_in c ((t, r) ∷ results) =
    let rest = matched_in c results in
    if r.matched then record { component_name = c; transformer_fqn = t } ∷ rest else rest

unfoldable pub all_matched : List (String × List (String × MatchResult)) → List MatchedPair
all_matched [] = []
all_matched ((c, results) ∷ matches) = matched_in c results ++ all_matched matches

-- MatchedPairs; a map is iterated in the order of its list here
unfoldable pub matched_pairs : MatchPlan → List MatchedPair
matched_pairs plan = sort_stable matched_less (all_matched plan.matches)

unfoldable pub non_matched_in : String → List (String × MatchResult) → List NonMatchedPair
non_matched_in c [] = []
non_matched_in c ((t, r) ∷ results) =
    let rest = non_matched_in c results in
    if not r.matched
    then record {
      component_name = c;
      transformer_fqn = t;
      missing_labels = r.missing_labels;
      missing_resources = r.missing_resources;
      missing_traits = r.missing_traits;
    }
      ∷ rest
    else rest

unfoldable pub all_non_matched : List (String × List (String × MatchResult)) → List NonMatchedPair
all_non_matched [] = []
all_non_matched ((c, results) ∷ matches) = non_matched_in c results ++ all_non_matched matches

abbrev pub non_matched_less : NonMatchedPair → NonMatchedPair → Bool
non_matched_less p q =
    if not (p.component_name == q.component_name)
    then text_lt p.component_name q.component_name
    else text_lt p.transformer_fqn q.transformer_fqn

-- NonMatchedPairs
unfoldable pub non_matched_pairs : MatchPlan → List NonMatchedPair
non_matched_pairs plan = sort_stable non_matched_less (all_non_matched plan.matches)

-- The warnings of one component.
unfoldable pub warn : (String → String) → String → List String → List String
warn quote name [] = []
warn quote name (t ∷ traits) =
    ("component "
      ^^ quote name
      ^^ ": trait "
      ^^ quote t
      ^^ " is not handled by any matched transformer (values will be ignored)")
    ∷ warn quote name traits

unfoldable pub warn_all : (String → String) → List (String × List String) → List String
warn_all quote [] = []
warn_all quote ((name, traits) ∷ unhandled) =
    warn quote name (sort_strings traits) ++ warn_all quote unhandled

-- Warnings; the entries of the map in the order of their keys
unfoldable pub warnings : (String → String) → MatchPlan → List String
warnings quote plan = warn_all quote (
    sort_stable (λ (a : String × List String) (b : String × List String). text_lt a.0 b.0)
      plan.unhandled_traits)
