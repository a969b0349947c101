-- ===== src/Render/Module/Laws.antt =====
-- pkg/render: when a release renders.
use mathlib.Core.List.{Memᴰ}
use poc_controller.Prelude.{
  ◌≡◌, ◌↔◌, ◌⊎◌, inl, inr, refl, sym, ap, subst, ◌∙◌, String, true, some, none, List, [], ◌∷◌, ok,
  eqb, length, arith, Bool-cases, map, Result-cases,
}
use poc_controller.Prelude.Sort.Members.{mem_uncons}
use poc_controller.Render.Match.{
  Transformer, MatchPlan, MatchedPair, matched_pairs, match_components,
}
use poc_controller.Render.Match.Laws.{IsSatisfied, pair, match_components-Covered}
use poc_controller.Render.Execute.{
  parsed, Cue, ModuleReleaseContextData, RenderedResource, Executed, execute_transforms,
}
use poc_controller.Render.Execute.Laws.{
  IsGiven, Succeeds, run_pair, execute_transforms_ok_iff, mem-execute_transforms,
}
use poc_controller.Render.Module.{
  RenderError, ModuleResult, component_of, transformer_of, match_values, conclude_execute, execute,
  match_and_execute,
}

mem_map : {A B : Type 0} (g : A → B) {a : A} {xs : List A} → Memᴰ a xs → Memᴰ (g a) (map g xs)
mem_map g {xs = []} m = elim m [ ]
mem_map g {xs = x ∷ xs} m = elim (mem_uncons m) [
  | inl e ↦ Memᴰ.head (ap g e)
  | inr k ↦ Memᴰ.tail (mem_map g k)
]

module _ {V : Type 0} (cue : Cue V) (quote : String → String)
    (provider schema_components data_components : V) (rel : ModuleReleaseContextData)
    (runtime : String) where
  -- Execute where the context is never done.
  abbrev pub run_plan : MatchPlan → RenderError ⊎ ModuleResult V
  run_plan plan =
      execute cue quote (λ p. none) provider schema_components data_components rel runtime
        (some plan)

  -- Every matched pair's run gives an answer.
  abbrev pub AllSucceed : MatchPlan → Type 0
  AllSucceed plan =
      (p : MatchedPair)
      → Memᴰ p (matched_pairs plan)
      → Succeeds cue quote provider schema_components data_components rel runtime p

  abbrev pub IsGood : MatchPlan → ModuleResult V → Type 0
  IsGood plan out =
      (eqb (length plan.unmatched) 0 ≡ true)
      × AllSucceed plan
      × ((r : RenderedResource V)
          → Memᴰ r out.resources
            ↔ IsGiven cue quote provider schema_components data_components rel runtime
                (matched_pairs plan) r)

  abbrev run_of : MatchPlan → Executed V
  run_of plan =
      execute_transforms cue quote (λ p. none) plan provider schema_components data_components rel
        runtime

  resources_of : RenderError ⊎ ModuleResult V → List (RenderedResource V)
  resources_of (inl e) = []
  resources_of (inr out) = out.resources

  resources_lem :
      (plan : MatchPlan)
      → eqb (length plan.unmatched) 0 ≡ true
      → eqb (length (run_of plan).errors) 0 ≡ true
      → resources_of (run_plan plan) ≡ (run_of plan).resources
  unfolding execute conclude_execute resources_of
  resources_lem plan none_left fine =
      rw (none_left, fine, execute, conclude_execute, resources_of) refl

  execute-IsGood :
      (plan : MatchPlan) (out : ModuleResult V) → run_plan plan ≡ inr out → IsGood plan out
  unfolding execute conclude_execute resources_of
  execute-IsGood plan out h = elim (Bool-cases (eqb (length plan.unmatched) 0)) [
    | inr left ↦ absurd (ground (arith, h, left))
    | inl none_left ↦ elim (Bool-cases (eqb (length (run_of plan).errors) 0)) [
      | inr failed ↦ absurd (ground (arith, h, none_left, failed))
      | inl fine ↦
          let same = sym (resources_lem plan none_left fine) ∙ ap resources_of h in
          (
            none_left,
            (execute_transforms_ok_iff cue quote provider schema_components data_components rel
                  runtime plan).0
                fine,
            λ r.
                subst
                  (λ rs.
                    Memᴰ r rs
                    ↔ IsGiven cue quote provider schema_components data_components rel runtime
                        (matched_pairs plan) r)
                  same
                  (mem-execute_transforms cue quote provider schema_components data_components rel
                    runtime plan r),
          )
    ]
  ]

  execute_total :
      (plan : MatchPlan)
      → eqb (length plan.unmatched) 0 ≡ true
      → AllSucceed plan
      → (out : ModuleResult V) × (run_plan plan ≡ inr out)
  unfolding execute conclude_execute
  execute_total plan none_left all =
      rw
        (
          none_left,
          (execute_transforms_ok_iff cue quote provider schema_components data_components rel
                runtime plan).1
              all,
          execute,
          conclude_execute,
        )
        (_, refl)

  -- Execute gives a result exactly if no component of the plan is unmatched and the run of every matched
  -- pair succeeds, where the context is never done.
  pub execute_iff :
      (plan : MatchPlan)
      → ((out : ModuleResult V) × (run_plan plan ≡ inr out))
        ↔ ((eqb (length plan.unmatched) 0 ≡ true) × AllSucceed plan)
  execute_iff plan = (
    λ (out, h). let (none_left, all, given) = execute-IsGood plan out h in (none_left, all),
    λ (none_left, all). execute_total plan none_left all,
  )

  -- Match and Execute on the components, where the context is never done.
  abbrev pub rendered : RenderError ⊎ ModuleResult V
  rendered =
      match_and_execute cue quote (λ p. none) provider schema_components data_components rel runtime

  -- What the run of a pair gave is in the result.
  abbrev pub IsRendered : MatchedPair → ModuleResult V → Type 0
  IsRendered p out =
      (rs : List (RenderedResource V)) × (ws : List String) × (run_pair cue quote provider
          schema_components data_components rel runtime p
        ≡ ok (rs, ws))
      × ((r : RenderedResource V) → Memᴰ r rs → Memᴰ r out.resources)

  rendered_lem :
      (plan : MatchPlan)
      → match_values cue quote schema_components provider ≡ ok plan
      → rendered ≡ run_plan plan
  unfolding match_and_execute
  rendered_lem plan good = rw (good, match_and_execute) refl

  match_values_lem :
      (cs ts : List (String × V))
      → cue.fields schema_components ≡ ok cs
      → cue.exists (cue.look_up (parsed "#transformers") provider) ≡ true
      → cue.fields (cue.look_up (parsed "#transformers") provider) ≡ ok ts
      → match_values cue quote schema_components provider
        ≡ match_components
            (ok (map (component_of cue quote) cs))
            (some (some (ok (map (transformer_of cue quote) ts))))
  unfolding match_values
  match_values_lem cs ts h e f = rw (h, e, f, match_values) refl

  covered :
      (cs ts : List (String × V))
      → (plan : MatchPlan)
      → match_components
          (ok (map (component_of cue quote) cs))
          (some (some (ok (map (transformer_of cue quote) ts))))
        ≡ ok plan
      → (out : ModuleResult V) → run_plan plan ≡ inr out
      → (f : String × V) → Memᴰ f cs
      → (t : Transformer) × Memᴰ t (map (transformer_of cue quote) ts)
        × IsSatisfied (component_of cue quote f) t
        × IsRendered (pair (component_of cue quote f) t) out
  covered cs ts plan m out h f n =
      let (none_left, all, given) = execute-IsGood plan out h in
      let (t, k, s, p) =
        match_components-Covered (map (component_of cue quote) cs)
          (map (transformer_of cue quote) ts) plan m none_left (component_of cue quote f)
          (mem_map (component_of cue quote) n) in
      let (rs, ws, e) = all (pair (component_of cue quote f) t) p in
      (
        t,
        k,
        s,
        (rs, ws, e, λ r i. (given r).1 (pair (component_of cue quote f) t, p, rs, ws, e, i)),
      )

  -- Where Match and Execute give a result for a provider with transformers, and the context is never done,
  -- every component satisfies all that some transformer requires, and every resource that the run of the
  -- two gave is in the result.
  pub match_and_execute-Complete :
      (cs ts : List (String × V))
      → cue.fields schema_components ≡ ok cs
      → cue.exists (cue.look_up (parsed "#transformers") provider) ≡ true
      → cue.fields (cue.look_up (parsed "#transformers") provider) ≡ ok ts
      → (out : ModuleResult V) → rendered ≡ inr out
      → (f : String × V) → Memᴰ f cs
      → (t : Transformer) × Memᴰ t (map (transformer_of cue quote) ts)
        × IsSatisfied (component_of cue quote f) t
        × IsRendered (pair (component_of cue quote f) t) out
  unfolding match_and_execute
  match_and_execute-Complete cs ts h e f out r =
      let found = match_values_lem cs ts h e f in
      elim (Result-cases (match_values cue quote schema_components provider)) [
        | inr (x, bad) ↦ absurd (ground (arith, r, bad))
        | inl (plan, good) ↦
            covered cs ts plan (sym found ∙ good) out (sym (rendered_lem plan good) ∙ r)
      ]
