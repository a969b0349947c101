-- ===== src/Render/Execute.antt =====
-- pkg/render/execute.go, over CUE values of a type `V` that only the operations of the CUE library look at.
pub mod Laws
use poc_controller.Prelude.{
  map, String, Bool, true, false, not, ◌&&◌, Option, none, some, List, [], ◌∷◌, ◌++◌, ◌^^◌,
  is_empty, Error, Result, ok, err, wrap, if◌then◌else◌,
}
use poc_controller.Core.{label_managed_by_value}
use poc_controller.Render.Match.{MatchPlan, MatchedPair, matched_pairs}

-- cue.ParsePath, cue.MakePath of a string and of a definition, and cue.MakePath of #context and a definition
pub data CuePath : Type 0 where
  parsed field definition context : String → CuePath

pub data CueKind : Type 0 where
  list_kind struct_kind : CueKind
  other_kind : String → CueKind

-- moduleReleaseContextData
pub record ModuleReleaseContextData : Type 0 where
  pub name : String
  pub namespace : String
  pub fqn : String
  pub version : String
  pub uuid : String
  pub labels : List (String × String)
  pub annotations : List (String × String)

-- componentContextData
pub record ComponentContextData : Type 0 where
  pub name : String
  pub labels : List (String × String)
  pub annotations : List (String × String)

-- The operations of cuelang.org/go/cue that are used; an error's text stands for %v. Fields are given with
-- their names, and the optional ones too by `optional_fields`, with what String gives of each value.
pub record Cue (V : Type 0) : Type 0 where
  pub look_up : CuePath → V → V
  pub exists : V → Bool
  pub error : V → Option Error
  pub fill : CuePath → V → V → V
  pub encode_release : ModuleReleaseContextData → V
  pub encode_component : ComponentContextData → V
  pub encode_text : String → V
  pub decode : V → Result (List (String × String))
  pub kind : V → CueKind
  pub list : V → Result (List V)
  pub fields : V → Result (List (String × V))
  pub optional_fields : V → Option (List (String × Option String))

-- core.Resource with its CUE value
pub record RenderedResource (V : Type 0) : Type 0 where
  pub value : V
  pub release : String
  pub component : String
  pub transformer : String

-- What executeTransforms returns.
pub record Executed (V : Type 0) : Type 0 where
  pub resources : List (RenderedResource V)
  pub warnings : List String
  pub errors : List Error

module _ {V : Type 0} (cue : Cue V) (quote : String → String) where
  abbrev failure : String → Error
  failure msg = record { msg = msg; status = none; sentinel = none }

  -- the texts in front of the errors of a pair
  abbrev of_pair : String → String → String → String
  of_pair c t rest = "component " ^^ quote c ^^ " / transformer " ^^ quote t ^^ ": " ^^ rest

  -- isSingleResource
  unfoldable pub is_single_resource : V → Bool
  is_single_resource v =
      cue.exists (cue.look_up (parsed "apiVersion") v) && cue.exists (cue.look_up (parsed "kind") v)

  -- the loop of collectResourceList and collectResourceMap
  unfoldable pub collect : String → String → String → List V → List (RenderedResource V)
  collect release c t [] = []
  collect release c t (v ∷ vs) =
      record { value = v; release = release; component = c; transformer = t }
      ∷ collect release c t vs

  -- collectResourceList
  unfoldable pub collect_resource_list :
      V → String → String → String → Result (List (RenderedResource V))
  unfolding collect
  collect_resource_list v release c t = elim (cue.list v) [
    | err e ↦ err (wrap (of_pair c t "iterating output list: ") e)
    | ok vs ↦ ok (collect release c t vs)
  ]

  -- collectResourceMap
  unfoldable pub collect_resource_map :
      V → String → String → String → Result (List (RenderedResource V))
  unfolding collect
  collect_resource_map v release c t = elim (cue.fields v) [
    | err e ↦ err (wrap (of_pair c t "iterating output map: ") e)
    | ok fields ↦ ok (collect release c t (map (λ f. f.1) fields))
  ]

  -- a map of the component's metadata, and the warning where it cannot be decoded
  unfoldable pub decode_metadata : String → String → V → List (String × String) × List String
  decode_metadata c what v = if not (cue.exists v) then ([], []) else elim (cue.decode v) [
    | ok m ↦ (m, [])
    | err e ↦ (
      [],
      ("component "
            ^^ quote c
            ^^ ": metadata."
            ^^ what
            ^^ " could not be decoded; "
            ^^ what
            ^^ " will be empty in transformer context: "
            ^^ e.msg)
          ∷ [],
    )
  ]

  -- injectContext; `override` is the runtime's name
  unfoldable pub inject_context :
      V → ModuleReleaseContextData → String → V → String → Result (V × List String)
  unfolding decode_metadata
  inject_context unified rel c schema override =
      let v1 = cue.fill (context "moduleReleaseMetadata") unified (cue.encode_release rel) in
      let (labels, w1) =
        decode_metadata c "labels" (cue.look_up (parsed "metadata.labels") schema) in
      let (annotations, w2) =
        decode_metadata c "annotations" (cue.look_up (parsed "metadata.annotations") schema) in
      let meta : ComponentContextData = record {
        name = c;
        labels = labels;
        annotations = annotations;
      } in
      let v2 = cue.fill (context "componentMetadata") v1 (cue.encode_component meta) in
      let runtime = if is_empty override then label_managed_by_value else override in
      let v3 = cue.fill (context "runtimeName") v2 (cue.encode_text runtime) in
      elim (cue.error v3) [ some e ↦ err e | none ↦ ok (v3, w1 ++ w2) ]

  -- the switch on the output's kind
  unfoldable pub collect_output :
      V
      → String
      → String
      → String
      → List String
      → CueKind
      → Result (List (RenderedResource V) × List String)
  unfolding collect_resource_list collect_resource_map is_single_resource
  collect_output v release c t warnings list_kind = elim (collect_resource_list v release c t) [
    | err e ↦ err e
    | ok rs ↦ ok (rs, warnings)
  ]
  collect_output v release c t warnings struct_kind =
      if is_single_resource v
      then ok
          (record { value = v; release = release; component = c; transformer = t } ∷ [], warnings)
      else elim (collect_resource_map v release c t) [ err e ↦ err e | ok rs ↦ ok (rs, warnings) ]
  collect_output v release c t warnings (other_kind k) =
      err (failure (of_pair c t ("unexpected output kind " ^^ k)))

  -- what follows injectContext
  unfoldable pub read_output :
      String
      → String
      → String
      → Result (V × List String)
      → Result (List (RenderedResource V) × List String)
  unfolding collect_output
  read_output release c t (err e) = err (wrap (of_pair c t "injecting #context: ") e)
  read_output release c t (ok (unified, warnings)) =
      let output = cue.look_up (parsed "output") unified in
      if not (cue.exists output) then ok ([], warnings) else elim (cue.error output) [
        | some e ↦ err (wrap (of_pair c t "evaluating output: ") e)
        | none ↦ collect_output output release c t warnings (cue.kind output)
      ]

  -- executePair
  unfoldable pub execute_pair :
      V
      → V
      → V
      → ModuleReleaseContextData
      → MatchedPair
      → String
      → Result (List (RenderedResource V) × List String)
  unfolding inject_context read_output
  execute_pair provider schema_components data_components rel pair runtime =
      let c = pair.component_name in
      let t = pair.transformer_fqn in
      let transform =
        cue.look_up (parsed "#transform")
          (cue.look_up (field t) (cue.look_up (parsed "#transformers") provider)) in
      if not (cue.exists transform)
      then err (failure (of_pair c t "#transform not found in provider"))
      else elim (cue.error transform) [
        | some e ↦ err (wrap (of_pair c t "#transform error: ") e)
        | none ↦
            let component = cue.look_up (field c) data_components in
            if not (cue.exists component)
            then err (failure ("component " ^^ quote c ^^ " not found in data components value"))
            else (let unified = cue.fill (parsed "#component") transform component in
                elim (cue.error unified) [
                  | some e ↦ err (wrap (of_pair c t "filling #component: ") e)
                  | none ↦ read_output rel.name c t (
                      inject_context unified rel c (cue.look_up (field c) schema_components)
                        runtime)
                ])
      ]

  -- one pair's answer in front of those of the pairs after it
  unfoldable pub add_executed :
      Result (List (RenderedResource V) × List String) → Executed V → Executed V
  add_executed (err e) rest = record rest { errors = e ∷ rest.errors }
  add_executed (ok (rs, ws)) rest = record {
    resources = rs ++ rest.resources;
    warnings = ws ++ rest.warnings;
    errors = rest.errors;
  }

  -- the loop of executeTransforms; `done` says of each pair whether the context is done before it
  unfoldable pub execute_loop :
      (MatchedPair → Option Error)
      → (MatchedPair → Result (List (RenderedResource V) × List String))
      → List MatchedPair
      → Executed V
  unfolding add_executed
  execute_loop done run [] = record { resources = []; warnings = []; errors = [] }
  execute_loop done run (p ∷ pairs) =
      let rest = execute_loop done run pairs in
      elim (done p) [
        | some e ↦ record { resources = []; warnings = []; errors = e ∷ [] }
        | none ↦ add_executed (run p) rest
      ]

  -- executeTransforms
  unfoldable pub execute_transforms :
      (MatchedPair → Option Error)
      → MatchPlan
      → V
      → V
      → V
      → ModuleReleaseContextData
      → String
      → Executed V
  unfolding execute_loop execute_pair
  execute_transforms done plan provider schema_components data_components rel runtime =
      execute_loop done
        (λ pair. execute_pair provider schema_components data_components rel pair runtime)
        (matched_pairs plan)
