-- ===== src/Render/Module.antt =====
-- pkg/render/module_renderer.go, process_modulerelease.go and finalize.go: from a release's components to its
-- resources, over the CUE library's operations.
pub mod Laws
use poc_controller.Prelude.{
  String, not, ◌⊎◌, inl, inr, Option, none, some, List, [], ◌∷◌, ◌++◌, ◌^^◌, eqb, length, map,
  Error, Result, ok, err, wrap, if◌then◌else◌,
}
use poc_controller.Prelude.Sort.{text_lt, sort_stable}
use poc_controller.Render.Match.{
  Fields, Keys, Component, Transformer, MatchResult, MatchPlan, MatchedPair, sort_strings,
  match_components, warnings,
}
use poc_controller.Render.Execute.{
  CuePath, parsed, definition, Cue, ModuleReleaseContextData, RenderedResource, Executed,
  execute_transforms,
}

pub record ComponentSummary : Type 0 where
  pub name : String
  pub labels : List (String × String)
  pub resource_fqns : List String
  pub trait_fqns : List String

pub record ModuleResult (V : Type 0) : Type 0 where
  pub resources : List (RenderedResource V)
  pub match_plan : MatchPlan
  pub components : List ComponentSummary
  pub warnings : List String

-- The errors: a plain one, UnmatchedComponentsError, and the joined errors of the transforms.
pub data RenderError : Type 0 where
  plain : Error → RenderError
  unmatched_components : List String → List (String × List (String × MatchResult)) → RenderError
  executing_transforms : List Error → RenderError

-- v.Syntax(cue.Final()) as an expression, or the name of its type if it is none; and BuildExpr.
pub record Syntax (V : Type 0) (E : Type 0) : Type 0 where
  pub final_syntax : V → String ⊎ E
  pub build_expr : E → V

module _ {V : Type 0} (cue : Cue V) (quote : String → String) where
  -- FinalizeValue
  unfoldable pub finalize_value : {E : Type 0} → Syntax V E → V → Result V
  finalize_value syntax v = elim (syntax.final_syntax v) [
    | inl type_name ↦ err (record {
      msg =
          "finalization produced " ^^ type_name
          ^^ " instead of ast.Expr; value likely contains unresolved imports or definition fields";
      status = none;
      sentinel = none;
    })
    | inr expr ↦
        let data_val = syntax.build_expr expr in
        elim (cue.error data_val) [
          | some e ↦ err (wrap "building finalized value: " e)
          | none ↦ ok data_val
        ]
  ]

  -- The names of the fields, none where Fields fails.
  abbrev names : Result (List (String × V)) → Keys
  names (err e) = none
  names (ok fields) = some (map (λ f. f.0) fields)

  abbrev optional_names : Fields → Keys
  optional_names none = none
  optional_names (some fields) = some (map (λ f. f.0) fields)

  -- What Match reads of a component.
  unfoldable pub component_of : String × V → Component
  component_of (name, v) = record {
    name = name;
    labels = cue.optional_fields (cue.look_up (parsed "metadata.labels") v);
    resources = names (cue.fields (cue.look_up (definition "resources") v));
    traits = names (cue.fields (cue.look_up (definition "traits") v));
  }

  -- What Match reads of a transformer.
  unfoldable pub transformer_of : String × V → Transformer
  transformer_of (fqn, v) = record {
    fqn = fqn;
    required_labels = cue.optional_fields (cue.look_up (parsed "requiredLabels") v);
    required_resources =
        optional_names (cue.optional_fields (cue.look_up (parsed "requiredResources") v));
    required_traits =
        optional_names (cue.optional_fields (cue.look_up (parsed "requiredTraits") v));
    required_trait_keys = names (cue.fields (cue.look_up (parsed "requiredTraits") v));
    optional_trait_keys = names (cue.fields (cue.look_up (parsed "optionalTraits") v));
  }

  abbrev views : {A : Type 0} → (String × V → A) → Result (List (String × V)) → Result (List A)
  views view (err e) = err e
  views view (ok fields) = ok (map view fields)

  -- Match on CUE values; `provider` is its data
  unfoldable pub match_values : V → V → Result MatchPlan
  unfolding match_components component_of transformer_of
  match_values components provider =
      let transformers = cue.look_up (parsed "#transformers") provider in
      match_components (views component_of (cue.fields components)) (
        some (
          if cue.exists transformers
          then some (views transformer_of (cue.fields transformers))
          else none))

  -- the keys of a field of a component, if it is there
  unfoldable pub summary_keys : CuePath → V → List String
  summary_keys path v =
      let fields = cue.look_up path v in
      if not (cue.exists fields)
      then []
      else elim (cue.fields fields) [ err e ↦ [] | ok fs ↦ sort_strings (map (λ f. f.0) fs) ]

  -- the labels of a component, if they are there and can be decoded
  unfoldable pub summary_labels : V → List (String × String)
  summary_labels v =
      let labels = cue.look_up (parsed "metadata.labels") v in
      if not (cue.exists labels) then [] else elim (cue.decode labels) [ err e ↦ [] | ok m ↦ m ]

  unfoldable pub summarize : String × V → ComponentSummary
  unfolding summary_keys summary_labels
  summarize (name, v) = record {
    name = name;
    labels = summary_labels v;
    resource_fqns = summary_keys (definition "resources") v;
    trait_fqns = summary_keys (definition "traits") v;
  }

  -- extractComponentSummaries
  unfoldable pub extract_component_summaries : V → List ComponentSummary
  unfolding summarize
  extract_component_summaries schema_components = elim (cue.fields schema_components) [
    | err e ↦ []
    | ok fields ↦
        sort_stable (λ (a : ComponentSummary) (b : ComponentSummary). text_lt a.name b.name)
          (map summarize fields)
  ]

  -- the end of Execute
  unfoldable pub conclude_execute : V → MatchPlan → Executed V → RenderError ⊎ ModuleResult V
  unfolding extract_component_summaries warnings
  conclude_execute schema_components plan run =
      if not (eqb (length run.errors) 0)
      then inl (executing_transforms run.errors)
      else inr (record {
        resources = run.resources;
        match_plan = plan;
        components = extract_component_summaries schema_components;
        warnings = warnings quote plan ++ run.warnings;
      })

  -- Execute
  unfoldable pub execute :
      (MatchedPair → Option Error)
      → V
      → V
      → V
      → ModuleReleaseContextData
      → String
      → Option MatchPlan
      → RenderError ⊎ ModuleResult V
  unfolding conclude_execute execute_transforms
  execute done provider schema_components data_components rel runtime none =
      inl (plain (record { msg = "match plan is required"; status = none; sentinel = none }))
  execute done provider schema_components data_components rel runtime (some plan) =
      if not (eqb (length plan.unmatched) 0)
      then inl (unmatched_components plan.unmatched plan.matches)
      else conclude_execute schema_components plan (
          execute_transforms cue quote done plan provider schema_components data_components rel
            runtime)

  -- what follows FinalizeValue in ProcessModuleRelease
  unfoldable pub match_and_execute :
      (MatchedPair → Option Error)
      → V
      → V
      → V
      → ModuleReleaseContextData
      → String
      → RenderError ⊎ ModuleResult V
  unfolding match_values execute
  match_and_execute done provider schema_components data_components rel runtime =
      elim (match_values schema_components provider) [
        | err e ↦ inl (plain e)
        | ok plan ↦ execute done provider schema_components data_components rel runtime (some plan)
      ]

  -- ProcessModuleRelease; `schema_components` is what MatchComponents gives
  unfoldable pub process_module_release :
      {E : Type 0}
      → Syntax V E
      → (MatchedPair → Option Error)
      → V
      → V
      → ModuleReleaseContextData
      → String
      → RenderError ⊎ ModuleResult V
  unfolding finalize_value match_and_execute
  process_module_release syntax done provider schema_components rel runtime =
      if not (cue.exists schema_components)
      then inl (
          plain (record {
            msg = "release " ^^ quote rel.name ^^ ": no components field in release spec";
            status = none;
            sentinel = none;
          }))
      else elim (finalize_value syntax schema_components) [
        | err e ↦ inl (plain (wrap "finalizing components: " e))
        | ok data_components ↦
            match_and_execute done provider schema_components data_components rel runtime
      ]
