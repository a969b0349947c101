-- ===== src/Render/Execute/Laws.antt =====
-- executeTransforms of pkg/render/execute.go: where its resources come from.
use mathlib.Core.List.{Memᴰ}
use poc_controller.Prelude.{
  ap, ◌∙◌, true, eqb, length, arith, map, String, ◌≡◌, ◌≢◌, ◌↔◌, inl, inr, refl, sym, subst, none,
  Option-cases, Bool-cases, List, [], ◌∷◌, All, Error, Result, Result-cases, ok, err,
}
use poc_controller.Prelude.Sort.Members.{mem_uncons}
use poc_controller.Render.Match.{MatchPlan, MatchedPair, matched_pairs}
use poc_controller.Render.Match.Laws.{mem_append}
use poc_controller.Render.Execute.{
  Cue, CueKind, parsed, field, is_single_resource, list_kind, struct_kind, other_kind,
  ModuleReleaseContextData, RenderedResource, collect, collect_resource_list, collect_resource_map,
  collect_output, read_output, execute_pair, add_executed, execute_loop, execute_transforms,
}

module _ {V : Type 0} (cue : Cue V) (quote : String → String) where
  -- A resource of a release's component and transformer.
  pub record IsFrom (release c t : String) (r : RenderedResource V) : Type 0 where
    pub release_same : r.release ≡ release
    pub component_same : r.component ≡ c
    pub transformer_same : r.transformer ≡ t

  -- An answer whose resources are all from one pair.
  abbrev AllFrom :
      String → String → String → Result (List (RenderedResource V) × List String) → Type 0
  AllFrom release c t (err e) = Unit
  AllFrom release c t (ok (rs, ws)) = All (IsFrom release c t) rs

  collect-From :
      (release c t : String) (vs : List V)
      → All (IsFrom release c t) (collect cue quote release c t vs)
  unfolding collect
  collect-From release c t [] = tt
  collect-From release c t (v ∷ vs) = (
    record { release_same = refl; component_same = refl; transformer_same = refl },
    collect-From release c t vs,
  )

  collect_output-From :
      (v : V) (release c t : String) (ws : List String) (kind : CueKind)
      → AllFrom release c t (collect_output cue quote v release c t ws kind)
  unfolding collect_output collect_resource_list collect_resource_map
  collect_output-From v release c t ws list_kind = elim (Result-cases (cue.list v)) [
    | inl (vs, e) ↦ rw (e, collect_output, collect_resource_list) (collect-From release c t vs)
    | inr (x, e) ↦ rw (e, collect_output, collect_resource_list) tt
  ]
  collect_output-From v release c t ws struct_kind =
      elim (Bool-cases (is_single_resource cue quote v)) [
        | inl single ↦
            rw (single, collect_output)
              (record { release_same = refl; component_same = refl; transformer_same = refl }, tt)
        | inr many ↦ elim (Result-cases (cue.fields v)) [
          | inl (vs, e) ↦
              rw (many, e, collect_output, collect_resource_map)
                (collect-From release c t (map (λ f. f.1) vs))
          | inr (x, e) ↦ rw (many, e, collect_output, collect_resource_map) tt
        ]
      ]
  collect_output-From v release c t ws (other_kind k) = tt

  read_output-From :
      (release c t : String) (r : Result (V × List String))
      → AllFrom release c t (read_output cue quote release c t r)
  unfolding read_output
  read_output-From release c t (err e) = tt
  read_output-From release c t (ok (unified, ws)) =
      let output = cue.look_up (parsed "output") unified in
      elim (Bool-cases (cue.exists output)) [
        | inr absent ↦ rw (absent, read_output) tt
        | inl there ↦ elim (Option-cases (cue.error output)) [
          | inl e ↦
              rw (there, e, read_output)
                (collect_output-From output release c t ws (cue.kind output))
          | inr (x, e) ↦ rw (there, e, read_output) tt
        ]
      ]

  module _ (provider schema_components data_components : V) (rel : ModuleReleaseContextData)
      (runtime : String) where
    -- The answer for a pair.
    abbrev pub run_pair : MatchedPair → Result (List (RenderedResource V) × List String)
    run_pair pair =
        execute_pair cue quote provider schema_components data_components rel pair runtime

    execute_pair-From :
        (p : MatchedPair) → AllFrom rel.name p.component_name p.transformer_fqn (run_pair p)
    unfolding execute_pair
    execute_pair-From p =
        let c = p.component_name in
        let transform =
          cue.look_up (parsed "#transform") (
            cue.look_up (field p.transformer_fqn)
              (cue.look_up (parsed "#transformers") provider)) in
        let component = cue.look_up (field c) data_components in
        let unified = cue.fill (parsed "#component") transform component in
        elim (Bool-cases (cue.exists transform)) [
          | inr absent ↦ rw (absent, execute_pair) tt
          | inl there ↦ elim (Option-cases (cue.error transform)) [
            | inr (x, e) ↦ rw (there, e, execute_pair) tt
            | inl e ↦ elim (Bool-cases (cue.exists component)) [
              | inr none_there ↦ rw (there, e, none_there, execute_pair) tt
              | inl found ↦ elim (Option-cases (cue.error unified)) [
                | inr (x, f) ↦ rw (there, e, found, f, execute_pair) tt
                | inl f ↦
                    rw (there, e, found, f, execute_pair)
                      (read_output-From rel.name c p.transformer_fqn _)
              ]
            ]
          ]
        ]

    -- A resource that the run of some of these pairs gave.
    abbrev pub IsGiven : List MatchedPair → RenderedResource V → Type 0
    IsGiven pairs r =
        (p : MatchedPair) × Memᴰ p pairs
        × (rs : List (RenderedResource V)) × (ws : List String) × (run_pair p ≡ ok (rs, ws))
        × Memᴰ r rs

    -- The run of a pair gives an answer.
    abbrev pub Succeeds : MatchedPair → Type 0
    Succeeds p = (rs : List (RenderedResource V)) × (ws : List String) × (run_pair p ≡ ok (rs, ws))

    no_errors_iff :
        (pairs : List MatchedPair)
        → (eqb (length (execute_loop cue quote (λ p. none) run_pair pairs).errors) 0 ≡ true)
          ↔ ((p : MatchedPair) → Memᴰ p pairs → Succeeds p)
    unfolding execute_loop add_executed
    no_errors_iff [] = (λ h p m. elim m [ ], λ h. refl)
    no_errors_iff (q ∷ pairs) =
        let (to, from) = no_errors_iff pairs in
        elim (Result-cases (run_pair q)) [
          | inr (x, e) ↦
              rw (e, execute_loop, add_executed)
                (
                  λ h. absurd (ground (arith, h)),
                  λ h. let (rs, ws, same) = h q (Memᴰ.head refl) in absurd (not_both e same),
                )
          | inl ((rs, ws), e) ↦
              rw (e, execute_loop, add_executed)
                (
                  λ h p m. elim (mem_uncons m) [
                    | inl here ↦ (rs, ws, ap run_pair here ∙ e)
                    | inr k ↦ to h p k
                  ],
                  λ h. from (λ p m. h p (Memᴰ.tail m)),
                )
        ]
      where
        not_both :
            {x : Error} {rs : List (RenderedResource V)} {ws : List String}
            → run_pair q ≡ err x
            → run_pair q ≢ ok (rs, ws)
        not_both e same = cc

    -- Where the context is never done, executeTransforms reports no error exactly if the run of every
    -- matched pair succeeds.
    pub execute_transforms_ok_iff :
        (plan : MatchPlan)
        → (eqb
              (length
                (execute_transforms cue quote
                  (λ p. none)
                  plan
                  provider
                  schema_components
                  data_components
                  rel
                  runtime).errors)
              0
            ≡ true)
          ↔ ((p : MatchedPair) → Memᴰ p (matched_pairs plan) → Succeeds p)
    unfolding execute_transforms
    execute_transforms_ok_iff plan = no_errors_iff (matched_pairs plan)

    mem-execute_loop :
        (pairs : List MatchedPair) (r : RenderedResource V)
        → Memᴰ r (execute_loop cue quote (λ p. none) run_pair pairs).resources ↔ IsGiven pairs r
    unfolding execute_loop add_executed
    mem-execute_loop [] r = (λ m. elim m [ ], λ (p, m, _, _, _, _). elim m [ ])
    mem-execute_loop (p ∷ pairs) r =
        let (to, from) = mem-execute_loop pairs r in
        elim (Result-cases (run_pair p)) [
          | inr (x, e) ↦
              rw (e, execute_loop, add_executed)
                (
                  λ m. let (q, n, g, h, i, j) = to m in (q, Memᴰ.tail n, g, h, i, j),
                  λ (q, n, rs, ws, same, m). elim (mem_uncons n) [
                    | inl here ↦ absurd (failed here e same)
                    | inr k ↦ from (q, k, rs, ws, same, m)
                  ],
                )
          | inl ((rs, ws), e) ↦
              let (split, join) =
                mem_append r rs (execute_loop cue quote (λ p. none) run_pair pairs).resources in
              rw (e, execute_loop, add_executed)
                (
                  λ m. elim (split m) [
                    | inl k ↦ (p, Memᴰ.head refl, rs, ws, e, k)
                    | inr k ↦ let (q, n, g, h, i, j) = to k in (q, Memᴰ.tail n, g, h, i, j)
                  ],
                  λ (q, n, rs', ws', same, m). elim (mem_uncons n) [
                    | inl here ↦ join (inl (subst (λ l. Memᴰ r l) (given here same e) m))
                    | inr k ↦ join (inr (from (q, k, rs', ws', same, m)))
                  ],
                )
        ]
      where
        failed :
            {q : MatchedPair} {x : Error} {rs : List (RenderedResource V)} {ws : List String}
            → q ≡ p
            → run_pair p ≡ err x
            → run_pair q ≢ ok (rs, ws)
        failed here e same = cc

        given :
            {q : MatchedPair} {rs rs' : List (RenderedResource V)} {ws ws' : List String}
            → q ≡ p
            → run_pair q ≡ ok (rs', ws')
            → run_pair p ≡ ok (rs, ws)
            → rs' ≡ rs
        given here same e = cc

    -- Where the context is never done, a resource is among those of executeTransforms exactly if the run
    -- of some matched pair succeeded and gave it: a pair that fails keeps no other from giving its own.
    pub mem-execute_transforms :
        (plan : MatchPlan) (r : RenderedResource V)
        → Memᴰ r
            (execute_transforms cue quote
              (λ p. none)
              plan
              provider
              schema_components
              data_components
              rel
              runtime).resources
          ↔ IsGiven (matched_pairs plan) r
    unfolding execute_transforms
    mem-execute_transforms plan r = mem-execute_loop (matched_pairs plan) r

    From-mem :
        (release c t : String) (rs : List (RenderedResource V)) (r : RenderedResource V)
        → All (IsFrom release c t) rs
        → Memᴰ r rs
        → IsFrom release c t r
    From-mem release c t [] r h m = elim m [ ]
    From-mem release c t (x ∷ rs) r h m = elim (mem_uncons m) [
      | inl e ↦ subst (IsFrom release c t) (sym e) h.0
      | inr k ↦ From-mem release c t rs r h.1 k
    ]

    -- Where the context is never done, each resource that executeTransforms gives names the release and
    -- the component and the transformer of a matched pair.
    pub execute_transforms-From :
        (plan : MatchPlan) (r : RenderedResource V)
        → Memᴰ r
            (execute_transforms cue quote
              (λ p. none)
              plan
              provider
              schema_components
              data_components
              rel
              runtime).resources
        → (p : MatchedPair) × Memᴰ p (matched_pairs plan)
          × IsFrom rel.name p.component_name p.transformer_fqn r
    execute_transforms-From plan r m =
        let (p, n, rs, ws, e, k) = (mem-execute_transforms plan r).0 m in
        let all =
          subst (AllFrom rel.name p.component_name p.transformer_fqn) e (execute_pair-From p) in
        (p, n, From-mem rel.name p.component_name p.transformer_fqn rs r all k)
