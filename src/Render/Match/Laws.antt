-- ===== src/Render/Match/Laws.antt =====
-- pkg/render/match.go: which pairs of components and transformers are matched.
use mathlib.Core.List.{Memᴰ}
use poc_controller.Prelude.{
  String, true, false, ◌≡◌, ◌↔◌, ◌⊎◌, inl, inr, refl, sym, ap, subst, ◌∙◌, List, [], ◌∷◌, ◌++◌,
  ◌==◌, eq_iff, eq_refl, eqb, length, any_of-true, any_of-false, Bool-cases, arith, Result, ok, err,
  some,
}
use poc_controller.Prelude.Sort.{text_lt}
use poc_controller.Prelude.Sort.Members.{mem_uncons, mem-sort_stable, length-sort_stable}
use poc_controller.Render.Match.{
  Component, Transformer, MatchPlan, MatchedPair, Keys, sort_strings, has, label_pairs, keys_of,
  field_keys, missing, missing_map_labels, missing_keys, match_result, match_results,
  matched_transformers, add_component, match_loop, match_with, match_components, matched_less,
  matched_in, all_matched, matched_pairs,
}

-- The keys that are missing are none exactly if all are there.
missing_iff :
    (required have : List String)
    → (eqb (length (missing required have)) 0 ≡ true)
      ↔ ((k : String) → Memᴰ k required → Memᴰ k have)
unfolding missing
missing_iff [] have = (λ h k m. elim m [ ], λ h. refl)
missing_iff (x ∷ required) have =
    let (to, from) = missing_iff required have in
    elim (Bool-cases (has have x)) [
      | inr absent ↦
          rw (absent, missing)
            (
              λ h k m. absurd (ground (arith, h)),
              λ h. absurd (not_there absent (h x (Memᴰ.head refl))),
            )
      | inl there ↦
          rw (there, missing)
            (
              λ h k m. elim (mem_uncons m) [ inl e ↦ is_there k e there | inr n ↦ to h k n ],
              λ h. from (λ k m. h k (Memᴰ.tail m)),
            )
    ]
  where
    not_there : has have x ≡ false → ¬ Memᴰ x have
    not_there f m = ground (arith, any_of-false (λ h. h == x) have f x m, eq_refl x)

    is_there : (k : String) → k ≡ x → has have x ≡ true → Memᴰ k have
    is_there k e there =
        let (y, m, same) = any_of-true (λ h. h == x) have there in
        subst (λ z. Memᴰ z have) ((eq_iff y x).0 same ∙ sym e) m

-- What a transformer requires is there.
pub record IsSatisfied (c : Component) (t : Transformer) : Type 0 where
  pub labels : (l : String) → Memᴰ l (label_pairs t.required_labels) → Memᴰ l (label_pairs c.labels)
  pub resources :
      (k : String) → Memᴰ k (keys_of t.required_resources) → Memᴰ k (keys_of c.resources)
  pub traits : (k : String) → Memᴰ k (keys_of t.required_traits) → Memᴰ k (keys_of c.traits)

missing_map_labels_iff :
    (c : Component) (t : Transformer)
    → (eqb (length (missing_map_labels t.required_labels (label_pairs c.labels))) 0 ≡ true)
      ↔ ((l : String) → Memᴰ l (label_pairs t.required_labels) → Memᴰ l (label_pairs c.labels))
unfolding missing_map_labels
missing_map_labels_iff c t =
    rw (length-sort_stable text_lt (missing (label_pairs t.required_labels) (label_pairs c.labels)))
      (missing_iff (label_pairs t.required_labels) (label_pairs c.labels))

missing_keys_iff :
    (required have : Keys)
    → (eqb (length (missing_keys required (field_keys have))) 0 ≡ true)
      ↔ ((k : String) → Memᴰ k (keys_of required) → Memᴰ k (keys_of have))
unfolding missing_keys field_keys
missing_keys_iff required have =
    let (to, from) = missing_iff (keys_of required) (sort_strings (keys_of have)) in
    rw (length-sort_stable text_lt (missing (keys_of required) (sort_strings (keys_of have)))) (
      λ h k m. (mem-sort_stable text_lt k (keys_of have)).0 (to h k m),
      λ h. from (λ k m. (mem-sort_stable text_lt k (keys_of have)).1 (h k m)),
    )

match_result_iff :
    (c : Component) (t : Transformer) → ((match_result c t).matched ≡ true) ↔ IsSatisfied c t
unfolding match_result
match_result_iff c t =
    let (lt, lf) = missing_map_labels_iff c t in
    let (rt, rf) = missing_keys_iff t.required_resources c.resources in
    let (tt', tf) = missing_keys_iff t.required_traits c.traits in
    (
      λ h. record {
        labels = lt (ground (arith, h));
        resources = rt (ground (arith, h));
        traits = tt' (ground (arith, h));
      },
      λ h. ground (arith, lf h.labels, rf h.resources, tf h.traits),
    )

pub mem_append : {A : Type 0} (a : A) (xs ys : List A) → Memᴰ a (xs ++ ys) ↔ (Memᴰ a xs ⊎ Memᴰ a ys)
mem_append a [] ys = (λ m. inr m, λ h. elim h [ inl m ↦ elim m [ ] | inr m ↦ m ])
mem_append a (x ∷ xs) ys =
    let (to, from) = mem_append a xs ys in
    (
      λ m. elim (mem_uncons m) [
        | inl e ↦ inl (Memᴰ.head e)
        | inr k ↦ elim (to k) [ inl n ↦ inl (Memᴰ.tail n) | inr n ↦ inr n ]
      ],
      λ h. elim h [
        | inr n ↦ Memᴰ.tail (from (inr n))
        | inl n ↦ elim (mem_uncons n) [ inl e ↦ Memᴰ.head e | inr k ↦ Memᴰ.tail (from (inl k)) ]
      ],
    )

abbrev pub pair : Component → Transformer → MatchedPair
pair c t = record { component_name = c.name; transformer_fqn = t.fqn }

-- A pair of a component with one of the transformers that it satisfies.
abbrev IsPairOf : Component → List Transformer → MatchedPair → Type 0
IsPairOf c ts p = (t : Transformer) × Memᴰ t ts × IsSatisfied c t × (p ≡ pair c t)

matched_in_iff :
    (c : Component) (ts : List Transformer) (p : MatchedPair)
    → Memᴰ p (matched_in c.name (match_results c ts)) ↔ IsPairOf c ts p
unfolding matched_in match_results
matched_in_iff c [] p = (λ m. elim m [ ], λ (t, m, _, _). elim m [ ])
matched_in_iff c (t ∷ ts) p =
    let (to, from) = matched_in_iff c ts p in
    let (sat, tas) = match_result_iff c t in
    elim (Bool-cases (match_result c t).matched) [
      | inl good ↦
          rw (good, matched_in)
            (
              λ m. elim (mem_uncons m) [
                | inl e ↦ (t, Memᴰ.head refl, sat good, e)
                | inr k ↦ let (u, n, s, e) = to k in (u, Memᴰ.tail n, s, e)
              ],
              λ (u, m, s, e). elim (mem_uncons m) [
                | inl same ↦ Memᴰ.head (e ∙ ap (pair c) same)
                | inr k ↦ Memᴰ.tail (from (u, k, s, e))
              ],
            )
      | inr bad ↦
          rw (bad, matched_in)
            (
              λ m. let (u, n, s, e) = to m in (u, Memᴰ.tail n, s, e),
              λ (u, m, s, e). elim (mem_uncons m) [
                | inl same ↦ absurd (ground (arith, bad, tas (subst (IsSatisfied c) same s)))
                | inr k ↦ from (u, k, s, e)
              ],
            )
    ]

all_matched_iff :
    (ts : List Transformer) (cs : List Component) (p : MatchedPair)
    → Memᴰ p (all_matched (match_loop ts cs).matches)
      ↔ ((c : Component) × Memᴰ c cs × IsPairOf c ts p)
unfolding all_matched match_loop add_component
all_matched_iff ts [] p = (λ m. elim m [ ], λ (c, m, _). elim m [ ])
all_matched_iff ts (c ∷ cs) p =
    let (to, from) = all_matched_iff ts cs p in
    let (to_c, from_c) = matched_in_iff c ts p in
    let (split, join) =
      mem_append p (matched_in c.name (match_results c ts))
        (all_matched (match_loop ts cs).matches) in
    (
      λ m. elim (split m) [
        | inl k ↦ (c, Memᴰ.head refl, to_c k)
        | inr k ↦ let (d, n, h) = to k in (d, Memᴰ.tail n, h)
      ],
      λ (d, m, h). elim (mem_uncons m) [
        | inl same ↦ join (inl (from_c (subst (λ x. IsPairOf x ts p) same h)))
        | inr k ↦ join (inr (from (d, k, h)))
      ],
    )

plan_matches :
    (cs : List Component) (ts : List Transformer) (plan : MatchPlan)
    → match_components (ok cs) (some (some (ok ts))) ≡ ok plan
    → (match_loop ts cs).matches ≡ plan.matches
unfolding match_components match_with match_loop
plan_matches [] ts plan h = ground (arith, h)
plan_matches (c ∷ cs) ts plan h = ground (arith, h)

-- Where Match gives a plan for components and transformers that could be read, its matched pairs are
-- exactly those of a component and a transformer whose required labels, resources and traits the
-- component all has.
pub mem-matched_pairs :
    (cs : List Component) (ts : List Transformer) (plan : MatchPlan) (p : MatchedPair)
    → match_components (ok cs) (some (some (ok ts))) ≡ ok plan
    → Memᴰ p (matched_pairs plan) ↔ (
        (c : Component) × Memᴰ c cs
        × ((t : Transformer) × Memᴰ t ts × IsSatisfied c t × (p ≡ pair c t)))
unfolding matched_pairs
mem-matched_pairs cs ts plan p h =
    let same = plan_matches cs ts plan h in
    let (to, from) = all_matched_iff ts cs p in
    let (out, back) = mem-sort_stable matched_less p (all_matched plan.matches) in
    (
      λ m. to (subst (λ ms. Memᴰ p (all_matched ms)) (sym same) (out m)),
      λ k. back (subst (λ ms. Memᴰ p (all_matched ms)) same (from k)),
    )

-- A transformer that the component satisfies, where some are matched.
matched_some :
    (c : Component) (ts : List Transformer)
    → eqb (length (matched_transformers c ts)) 0 ≡ false
    → (t : Transformer) × Memᴰ t ts × IsSatisfied c t
unfolding matched_transformers
matched_some c [] h = absurd (ground (arith, h))
matched_some c (t ∷ ts) h = elim (Bool-cases (match_result c t).matched) [
  | inl good ↦ (t, Memᴰ.head refl, (match_result_iff c t).0 good)
  | inr bad ↦ let (u, m, s) = matched_some c ts (skipped bad) in (u, Memᴰ.tail m, s)
]
  where
    skipped :
        (match_result c t).matched ≡ false → eqb (length (matched_transformers c ts)) 0 ≡ false
    skipped bad = ground (arith, h, bad)

-- Where no component of the loop is unmatched, each satisfies a transformer.
each_matched :
    (ts : List Transformer) (cs : List Component)
    → (match_loop ts cs).unmatched ≡ []
    → (c : Component) → Memᴰ c cs
    → (t : Transformer) × Memᴰ t ts × IsSatisfied c t
unfolding match_loop add_component
each_matched ts [] h c m = elim m [ ]
each_matched ts (d ∷ cs) h c m = elim (Bool-cases (eqb (length (matched_transformers d ts)) 0)) [
  | inl none_matched ↦ absurd (ground (arith, h, none_matched))
  | inr some_matched ↦ elim (mem_uncons m) [
    | inl e ↦
        let (t, n, s) = matched_some d ts some_matched in
        (t, n, subst (λ x. IsSatisfied x t) (sym e) s)
    | inr k ↦ each_matched ts cs (ground (arith, h, some_matched)) c k
  ]
]

no_unmatched :
    (cs : List Component) (ts : List Transformer) (plan : MatchPlan)
    → match_components (ok cs) (some (some (ok ts))) ≡ ok plan
    → eqb (length plan.unmatched) 0 ≡ true
    → (match_loop ts cs).unmatched ≡ []
unfolding match_components match_with match_loop
no_unmatched [] ts plan h e = refl
no_unmatched (c ∷ cs) ts plan h e =
    let unmatched = (match_loop ts (c ∷ cs)).unmatched in
    let sorted_none = subst (λ l. eqb (length l) 0 ≡ true) (sym (ap unmatched_of h)) e in
    empty unmatched (subst (λ n. eqb n 0 ≡ true) (length-sort_stable text_lt unmatched) sorted_none)
  where
    unmatched_of : Result MatchPlan → List String
    unmatched_of (ok p) = p.unmatched
    unmatched_of (err x) = []

    empty : (xs : List String) → eqb (length xs) 0 ≡ true → xs ≡ []
    empty [] h = refl
    empty (x ∷ xs) h = absurd (ground (arith, h))

-- Where Match succeeds and leaves no component unmatched, each component satisfies a transformer and the
-- pair of both is among MatchedPairs.
pub match_components-Covered :
    (cs : List Component) (ts : List Transformer) (plan : MatchPlan)
    → match_components (ok cs) (some (some (ok ts))) ≡ ok plan
    → eqb (length plan.unmatched) 0 ≡ true
    → (c : Component) → Memᴰ c cs
    → (t : Transformer) × Memᴰ t ts × IsSatisfied c t × Memᴰ (pair c t) (matched_pairs plan)
match_components-Covered cs ts plan h e c m =
    let (t, n, s) = each_matched ts cs (no_unmatched cs ts plan h e) c m in
    (t, n, s, (mem-matched_pairs cs ts plan (pair c t) h).1 (c, m, (t, n, s, refl)))
