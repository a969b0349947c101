-- ===== src/Errors/Laws.antt =====
-- pkg/errors/config_error.go: grouping loses no message and makes none up.
use mathlib.Core.List.{Memᴰ}
use poc_controller.Prelude.{
  String, true, false, ◌≡◌, ◌↔◌, ◌⊎◌, inl, inr, refl, sym, ap, ◌∙◌, List, [], ◌∷◌, eq_iff, map,
  Bool-cases, All, arith,
}
use poc_controller.Prelude.Sort.Members.{mem_uncons}
use poc_controller.Errors.{
  CueError, GroupKey, GroupedError, Position, same_key, normalize_cue_path, add_locations,
  add_to_group, is_summary, group_loop, group_cue_errors,
}

-- An error that is no summary has this message.
abbrev pub IsReported : String → List CueError → Type 0
IsReported m errs = (ce : CueError) × Memᴰ ce errs × (is_summary ce ≡ false) × (ce.message ≡ m)

module _ (base : String → String) where
  -- Each group has the message of its key.
  abbrev IsLabelled : List (GroupKey × GroupedError) → Type 0
  IsLabelled groups = All (λ (p : GroupKey × GroupedError). p.1.message ≡ p.0.msg) groups

  -- Some group has this message.
  abbrev HasMessage : String → List (GroupKey × GroupedError) → Type 0
  HasMessage m groups = (p : GroupKey × GroupedError) × Memᴰ p groups × (p.1.message ≡ m)

  -- One more group in front.
  has_uncons :
      (m : String) (p : GroupKey × GroupedError) (groups : List (GroupKey × GroupedError))
      → HasMessage m (p ∷ groups) ↔ ((p.1.message ≡ m) ⊎ HasMessage m groups)
  has_uncons m p groups = (
    λ (q, n, e). elim (mem_uncons n) [
      | inl same ↦ inl (ap (λ (x : GroupKey × GroupedError). x.1.message) (sym same) ∙ e)
      | inr k ↦ inr (q, k, e)
    ],
    λ h. elim h [
      | inl e ↦ (p, Memᴰ.head refl, e)
      | inr h' ↦ let (q, k, e) = h' in (q, Memᴰ.tail k, e)
    ],
  )

  add_to_group-IsLabelled :
      (key : GroupKey) (ps : List Position) (groups : List (GroupKey × GroupedError))
      → IsLabelled groups
      → IsLabelled (add_to_group base key ps groups)
  unfolding add_to_group
  add_to_group-IsLabelled key ps [] h = (refl, tt)
  add_to_group-IsLabelled key ps ((k, g) ∷ groups) h = elim (Bool-cases (same_key k key)) [
    | inl same ↦ rw (same, add_to_group) h
    | inr other ↦ rw (other, add_to_group) (h.0, add_to_group-IsLabelled key ps groups h.1)
  ]

  add_to_group_iff :
      (m : String) (key : GroupKey) (ps : List Position) (groups : List (GroupKey × GroupedError))
      → IsLabelled groups
      → HasMessage m (add_to_group base key ps groups) ↔ ((key.msg ≡ m) ⊎ HasMessage m groups)
  unfolding add_to_group
  add_to_group_iff m key ps [] h =
      has_uncons m
        (key, record { message = key.msg; locations = add_locations base key.path ps [] }) []
  add_to_group_iff m key ps ((k, g) ∷ groups) h = elim (Bool-cases (same_key k key)) [
    | inl same ↦
        let (to, from) = has_uncons m (k, g) groups in
        let (to', from') =
          has_uncons m (k, record g { locations = add_locations base key.path ps g.locations })
            groups in
        rw (same, add_to_group)
          (
            λ has. inr (from (to' has)),
            λ has. from' (elim has [ inl e ↦ inl (labelled same h.0 ∙ e) | inr old ↦ to old ]),
          )
    | inr other ↦
        let (to, from) = has_uncons m (k, g) groups in
        let (to', from') = has_uncons m (k, g) (add_to_group base key ps groups) in
        let (deep, up) = add_to_group_iff m key ps groups h.1 in
        rw (other, add_to_group)
          (
            λ has. elim (to' has) [
              | inl e ↦ inr (from (inl e))
              | inr new ↦ elim (deep new) [ inl e ↦ inl e | inr old ↦ inr (from (inr old)) ]
            ],
            λ has. from' (elim has [
              | inl e ↦ inr (up (inl e))
              | inr old ↦ elim (to old) [ inl e ↦ inl e | inr h' ↦ inr (up (inr h')) ]
            ]),
          )
  ]
    where
      labelled : same_key k key ≡ true → g.message ≡ k.msg → g.message ≡ key.msg
      labelled same e = e ∙ (eq_iff k.msg key.msg).0 (ground (arith, same))

  group_loop_iff :
      (m : String) (errs : List CueError) (groups : List (GroupKey × GroupedError))
      → IsLabelled groups
      → HasMessage m (group_loop base errs groups) ↔ (HasMessage m groups ⊎ IsReported m errs)
  unfolding group_loop
  group_loop_iff m [] groups h = (
    λ has. inl has,
    λ has. elim has [ inl old ↦ old | inr r ↦ let (ce, n, s, e) = r in elim n [ ] ],
  )
  group_loop_iff m (ce ∷ errs) groups h = elim (Bool-cases (is_summary ce)) [
    | inl summary ↦
        let (to, from) = group_loop_iff m errs groups h in
        rw (summary, group_loop)
          (
            λ has. elim (to has) [
              | inl old ↦ inl old
              | inr r ↦ let (x, n, s, e) = r in inr (x, Memᴰ.tail n, s, e)
            ],
            λ has. from (elim has [
              | inl old ↦ inl old
              | inr r ↦
                  let (x, n, s, e) = r in
                  elim (mem_uncons n) [
                    | inl same ↦ absurd (not_both summary same s)
                    | inr k ↦ inr (x, k, s, e)
                  ]
            ]),
          )
    | inr kept ↦
        let key : GroupKey = record { msg = ce.message; path = normalize_cue_path ce.path } in
        let (to, from) =
          group_loop_iff m errs (add_to_group base key ce.positions groups)
            (add_to_group-IsLabelled key ce.positions groups h) in
        let (deep, up) = add_to_group_iff m key ce.positions groups h in
        rw (kept, group_loop)
          (
            λ has. elim (to has) [
              | inl new ↦ elim (deep new) [
                | inl e ↦ inr (ce, Memᴰ.head refl, kept, e)
                | inr old ↦ inl old
              ]
              | inr r ↦ let (x, n, s, e) = r in inr (x, Memᴰ.tail n, s, e)
            ],
            λ has. from (elim has [
              | inl old ↦ inl (up (inr old))
              | inr r ↦
                  let (x, n, s, e) = r in
                  elim (mem_uncons n) [
                    | inl same ↦ inl (up (inl (ap (λ (c : CueError). c.message) (sym same) ∙ e)))
                    | inr k ↦ inr (x, k, s, e)
                  ]
            ]),
          )
  ]
    where
      not_both : {x : CueError} → is_summary ce ≡ true → x ≡ ce → ¬ (is_summary x ≡ false)
      not_both summary same s = cc

  mem_groups :
      (m : String) (groups : List (GroupKey × GroupedError))
      → ((g : GroupedError) × Memᴰ g (map (λ (p : GroupKey × GroupedError). p.1) groups)
          × (g.message ≡ m))
        ↔ HasMessage m groups
  mem_groups m [] = (λ (g, n, e). elim n [ ], λ (p, n, e). elim n [ ])
  mem_groups m (p ∷ groups) =
      let (to, from) = mem_groups m groups in
      (
        λ (g, n, e). elim (mem_uncons n) [
          | inl same ↦ (p, Memᴰ.head refl, ap (λ (x : GroupedError). x.message) (sym same) ∙ e)
          | inr k ↦ let (q, k', e') = to (g, k, e) in (q, Memᴰ.tail k', e')
        ],
        λ h. elim ((has_uncons m p groups).0 h) [
          | inl e ↦ (p.1, Memᴰ.head refl, e)
          | inr old ↦ let (g, k, e) = from old in (g, Memᴰ.tail k, e)
        ],
      )

  -- A text is the message of a group of groupCUEErrors exactly if an error that is no summary of a
  -- disjunction has it as its message.
  pub group_cue_errors_iff :
      (m : String) (errs : List CueError)
      → ((g : GroupedError) × Memᴰ g (group_cue_errors base errs) × (g.message ≡ m))
        ↔ IsReported m errs
  unfolding group_cue_errors
  group_cue_errors_iff m errs =
      let (to, from) = group_loop_iff m errs [] tt in
      let (in_groups, out_groups) = mem_groups m (group_loop base errs []) in
      (
        λ has. elim (to (in_groups has)) [
          | inl none_there ↦ let (p, n, e) = none_there in elim n [ ]
          | inr r ↦ r
        ],
        λ r. out_groups (from (inr r)),
      )
