-- ===== src/Tests/Render.antt =====
-- Matching and executing transformers, and the digest of an inventory, at concrete inputs.
use mathlib.Core.List.{Memᴰ, Permᴰ}
use mathlib.Core.List.Permᴰ
use poc_controller.Prelude.{
  map, inr, eqb, length, String, true, ◌≡◌, ◌↔◌, refl, none, some, List, [], ◌∷◌, ok,
}
use poc_controller.Inventory.{compute_digest}
use poc_controller.Inventory.Order.{compute_digest-perm}
use poc_controller.Render.Match.{
  Component, Transformer, MatchPlan, MatchResult, MatchedPair, match_components, match_loop,
  all_matched, matched_pairs,
}
use poc_controller.Render.Match.Order.{none_left, next, matched_pairs-perm}
use poc_controller.Render.Match.Laws.{IsSatisfied, pair, mem-matched_pairs}
use poc_controller.Render.Execute.{
  Cue, ModuleReleaseContextData, RenderedResource, list_kind, execute_transforms,
}
use poc_controller.Render.Execute.Laws.{
  IsFrom, IsGiven, mem-execute_transforms, execute_transforms-From,
}
use poc_controller.Render.Module.{ModuleResult, component_of, transformer_of}
use poc_controller.Render.Module.Laws.{
  run_plan, AllSucceed, IsRendered, rendered, execute_iff, match_and_execute-Complete,
}
use poc_controller.Tests.Sample.{entry, old_entry, encoding}

digest_order_example :
    compute_digest encoding (entry ∷ old_entry ∷ [])
    ≡ compute_digest encoding (old_entry ∷ entry ∷ [])
digest_order_example = compute_digest-perm encoding (Permᴰ.swap refl refl)

abbrev web : Component
web = record {
  name = "web";
  labels = some [];
  resources = some ("container" ∷ []);
  traits = some [];
}

abbrev deploy : Transformer
deploy = record {
  fqn = "deploy";
  required_labels = none;
  required_resources = some ("container" ∷ []);
  required_traits = none;
  required_trait_keys = none;
  optional_trait_keys = none;
}

abbrev web_pair : MatchedPair
web_pair = record { component_name = "web"; transformer_fqn = "deploy" }

abbrev plan : MatchPlan
plan = record {
  matches =
      (
        "web",
        (
          "deploy",
          record {
            matched = true;
            missing_labels = [];
            missing_resources = [];
            missing_traits = [];
          },
        )
            ∷ [],
      )
      ∷ [];
  unmatched = [];
  unhandled_traits = [];
}

match_example : Memᴰ web_pair (matched_pairs plan) ↔ (
    (c : Component) × Memᴰ c (web ∷ [])
    × ((t : Transformer) × Memᴰ t (deploy ∷ []) × IsSatisfied c t × (web_pair ≡ pair c t)))
unfolding match_components poc_controller.Render.Match.match_with match_loop
    poc_controller.Prelude.Sort.sort_stable poc_controller.Render.Match.add_component
    poc_controller.Render.Match.match_results poc_controller.Render.Match.matched_transformers
    poc_controller.Render.Match.add_unhandled poc_controller.Render.Match.match_result
    poc_controller.Render.Match.missing poc_controller.Render.Match.missing_map_labels
    poc_controller.Render.Match.missing_keys poc_controller.Render.Match.field_keys
    poc_controller.Render.Match.label_pairs poc_controller.Render.Match.pairs_of
    poc_controller.Render.Match.handled_traits
match_example = mem-matched_pairs (web ∷ []) (deploy ∷ []) plan web_pair refl

-- A plan of two components, in both orders.
abbrev satisfied : MatchResult
satisfied = record {
  matched = true;
  missing_labels = [];
  missing_resources = [];
  missing_traits = [];
}

abbrev two_components : MatchPlan
two_components = record plan {
  matches = ("web", ("deploy", satisfied) ∷ []) ∷ ("api", ("deploy", satisfied) ∷ []) ∷ [];
}

abbrev turned : MatchPlan
turned = record plan {
  matches = ("api", ("deploy", satisfied) ∷ []) ∷ ("web", ("deploy", satisfied) ∷ []) ∷ [];
}

order_example : matched_pairs two_components ≡ matched_pairs turned
order_example =
    matched_pairs-perm two_components turned turned.matches (Permᴰ.swap refl refl)
      (next (Permᴰ.refl _) (next (Permᴰ.refl _) none_left))

abbrev texts : Cue String
texts = record {
  look_up = λ p v. v;
  exists = λ v. true;
  error = λ v. none;
  fill = λ p v x. v;
  encode_release = λ d. d.name;
  encode_component = λ d. d.name;
  encode_text = λ t. t;
  decode = λ v. ok [];
  kind = λ v. list_kind;
  list = λ v. ok (v ∷ []);
  fields = λ v. ok [];
  optional_fields = λ v. some [];
}

abbrev release_data : ModuleReleaseContextData
release_data = record {
  name = "app";
  namespace = "team";
  fqn = "example.com/app";
  version = "v1.2.0";
  uuid = "u";
  labels = [];
  annotations = [];
}

abbrev provider_resource : RenderedResource String
provider_resource = record {
  value = "provider";
  release = "app";
  component = "web";
  transformer = "deploy";
}

abbrev quote : String → String
quote s = s

execute_example :
    Memᴰ provider_resource
      (execute_transforms texts quote
        (λ p. none)
        plan
        "provider"
        "schema"
        "data"
        release_data
        "controller").resources
    ↔ IsGiven texts quote "provider" "schema" "data" release_data "controller"
        (matched_pairs plan)
        provider_resource
execute_example =
    mem-execute_transforms texts quote "provider" "schema" "data" release_data "controller" plan
      provider_resource

provenance_example :
    (p : MatchedPair) × Memᴰ p (matched_pairs plan)
    × IsFrom texts quote "app" p.component_name p.transformer_fqn provider_resource
unfolding execute_transforms matched_pairs poc_controller.Prelude.Sort.sort_stable all_matched
    poc_controller.Render.Match.matched_in
provenance_example =
    execute_transforms-From texts quote "provider" "schema" "data" release_data "controller" plan
      provider_resource (Memᴰ.head refl)

execute_iff_example :
    ((out : ModuleResult String) × (run_plan texts quote "provider" "schema" "data" release_data
          "controller" plan
        ≡ inr out))
    ↔ ((eqb (length plan.unmatched) 0 ≡ true)
        × AllSucceed texts quote "provider" "schema" "data" release_data "controller" plan)
execute_iff_example =
    execute_iff texts quote "provider" "schema" "data" release_data "controller" plan

-- Values all of whose look-ups answer themselves, with one field.
abbrev one_field : Cue String
one_field = record texts { fields = λ v. ok (("web", v) ∷ []) }

abbrev web_result : ModuleResult String
web_result = record {
  resources =
      record { value = "provider"; release = "app"; component = "web"; transformer = "web" } ∷ [];
  match_plan = record {
    matches = ("web", ("web", satisfied) ∷ []) ∷ [];
    unmatched = [];
    unhandled_traits = [];
  };
  components =
      record { name = "web"; labels = []; resource_fqns = "web" ∷ []; trait_fqns = "web" ∷ [] }
      ∷ [];
  warnings = [];
}

web_rendered :
    rendered one_field quote "provider" "schema" "data" release_data "controller" ≡ inr web_result
unfolding poc_controller.Render.Module.match_and_execute poc_controller.Render.Match.match_with
    poc_controller.Render.Match.add_component poc_controller.Render.Match.matched_transformers
    poc_controller.Render.Match.match_result poc_controller.Render.Match.missing_map_labels
    poc_controller.Render.Match.missing poc_controller.Render.Match.label_pairs
    poc_controller.Render.Match.pairs_of poc_controller.Render.Match.missing_keys
    poc_controller.Render.Match.matched_in poc_controller.Render.Match.match_results
    poc_controller.Render.Match.add_unhandled poc_controller.Render.Match.warn_all
    poc_controller.Render.Match.field_keys poc_controller.Render.Match.handled_traits
    poc_controller.Render.Match.warn poc_controller.Render.Match.warnings
    poc_controller.Prelude.Sort.sort_stable poc_controller.Prelude.Sort.insert_stable match_loop
    matched_pairs all_matched match_components component_of transformer_of execute_transforms
    poc_controller.Render.Execute.add_executed poc_controller.Render.Execute.collect
    poc_controller.Render.Execute.collect_output poc_controller.Render.Execute.collect_resource_list
    poc_controller.Render.Execute.collect_resource_map poc_controller.Render.Execute.decode_metadata
    poc_controller.Render.Execute.execute_loop poc_controller.Render.Execute.execute_pair
    poc_controller.Render.Execute.inject_context poc_controller.Render.Execute.is_single_resource
    poc_controller.Render.Execute.read_output poc_controller.Render.Module.conclude_execute
    poc_controller.Render.Module.execute poc_controller.Render.Module.extract_component_summaries
    poc_controller.Render.Module.match_values poc_controller.Render.Module.summarize
    poc_controller.Render.Module.summary_keys poc_controller.Render.Module.summary_labels
web_rendered = refl

complete_example :
    (t : Transformer) × Memᴰ t (map (transformer_of one_field quote) (("web", "provider") ∷ []))
    × IsSatisfied (component_of one_field quote ("web", "schema")) t
    × IsRendered one_field quote "provider" "schema" "data" release_data "controller"
        (pair (component_of one_field quote ("web", "schema")) t)
        web_result
complete_example =
    match_and_execute-Complete one_field quote "provider" "schema" "data" release_data "controller"
      (("web", "schema") ∷ []) (("web", "provider") ∷ []) refl refl refl web_result web_rendered
      ("web", "schema") (Memᴰ.head refl)
