-- ===== src/Render/Match/Order.antt =====
-- pkg/render/match.go: MatchedPairs in whatever order the maps of a plan are iterated.
use mathlib.Core.List.{Permᴰ, append_assoc}
use mathlib.Core.List.Permᴰ
use poc_controller.Prelude.{String, ◌≡◌, inl, inr, refl, ap, subst, List, [], ◌∷◌, ◌++◌, Bool-cases}
use poc_controller.Prelude.Sort.Order.{IsOrder}
use poc_controller.Prelude.Sort.Keys.{by_text, by_text_then, sort_stable-perm}
use poc_controller.Render.Match.{
  MatchResult, MatchPlan, MatchedPair, matched_less, matched_in, all_matched, matched_pairs,
}

matched_less-IsOrder :
    IsOrder {K = String × String} matched_less
      (λ (p : MatchedPair). (p.component_name, p.transformer_fqn))
matched_less-IsOrder =
    by_text_then (λ (p : MatchedPair). p.component_name) (by_text (λ p. p.transformer_fqn))

-- Two maps of results with the same components, each with the same results in some order.
pub data IsShuffled
    : List (String × List (String × MatchResult))
      → List (String × List (String × MatchResult))
      → Type 0 where
  none_left : IsShuffled [] []
  next :
      {c : String} {rs rs' : List (String × MatchResult)}
      {ms ms' : List (String × List (String × MatchResult))}
      → Permᴰ rs rs'
      → IsShuffled ms ms'
      → IsShuffled ((c, rs) ∷ ms) ((c, rs') ∷ ms')

-- One more result in front of two orders of the others.
matched_in-front :
    (c : String) {a b : String × MatchResult} (rs rs' : List (String × MatchResult))
    → a ≡ b
    → Permᴰ (matched_in c rs) (matched_in c rs')
    → Permᴰ (matched_in c (a ∷ rs)) (matched_in c (b ∷ rs'))
unfolding matched_in
matched_in-front c {a = (t, r)} rs rs' e p =
    subst (λ x. Permᴰ (matched_in c ((t, r) ∷ rs)) (matched_in c (x ∷ rs'))) e
      (elim (Bool-cases r.matched) [
        | inl good ↦ rw (good, matched_in) (Permᴰ.cons refl p)
        | inr bad ↦ rw (bad, matched_in) p
      ])

matched_in-swap :
    (c : String) (a b : String × MatchResult) (rs : List (String × MatchResult))
    → Permᴰ (matched_in c (a ∷ b ∷ rs)) (matched_in c (b ∷ a ∷ rs))
unfolding matched_in
matched_in-swap c (t, r) (u, q) rs = elim (Bool-cases r.matched) [
  | inl good ↦ elim (Bool-cases q.matched) [
    | inl too ↦ rw (good, too, matched_in) (Permᴰ.swap refl refl)
    | inr bad ↦ rw (good, bad, matched_in) (Permᴰ.refl _)
  ]
  | inr bad ↦ rw (bad, matched_in) (Permᴰ.refl _)
]

matched_in-perm :
    (c : String) {rs rs' : List (String × MatchResult)}
    → Permᴰ rs rs'
    → Permᴰ (matched_in c rs) (matched_in c rs')
matched_in-perm c Permᴰ.nil = Permᴰ.refl _
matched_in-perm c (Permᴰ.cons e p) = matched_in-front c _ _ e (matched_in-perm c p)
matched_in-perm c (Permᴰ.swap {a = a} {b = b} {b' = b'} {l = rs} e e') =
    subst (λ x. Permᴰ (matched_in c (a ∷ b ∷ rs)) (matched_in c (x ∷ b' ∷ rs))) e'
      (subst (λ x. Permᴰ (matched_in c (a ∷ b ∷ rs)) (matched_in c (b ∷ x ∷ rs))) e
        (matched_in-swap c a b rs))
matched_in-perm c (Permᴰ.trans p q) = Permᴰ.trans (matched_in-perm c p) (matched_in-perm c q)

all_matched-shuffled :
    {ms ms' : List (String × List (String × MatchResult))}
    → IsShuffled ms ms'
    → Permᴰ (all_matched ms) (all_matched ms')
unfolding all_matched
all_matched-shuffled none_left = Permᴰ.nil
all_matched-shuffled (next {c = c} {rs' = rs'} {ms = ms} p q) =
    Permᴰ.trans (Permᴰ.append_right (all_matched ms) (matched_in-perm c p))
      (Permᴰ.append_left (matched_in c rs') (all_matched-shuffled q))

all_matched-swap :
    (m n : String × List (String × MatchResult)) (ms : List (String × List (String × MatchResult)))
    → Permᴰ (all_matched (m ∷ n ∷ ms)) (all_matched (n ∷ m ∷ ms))
unfolding all_matched
all_matched-swap (c, rs) (d, qs) ms =
    let x = matched_in c rs in
    let y = matched_in d qs in
    let z = all_matched ms in
    subst (λ l. Permᴰ l (y ++ (x ++ z))) (append_assoc x y z)
      (subst (λ l. Permᴰ ((x ++ y) ++ z) l) (append_assoc y x z)
        (Permᴰ.append_right z (Permᴰ.append_comm x y)))

all_matched-perm :
    {ms ms' : List (String × List (String × MatchResult))}
    → Permᴰ ms ms'
    → Permᴰ (all_matched ms) (all_matched ms')
unfolding all_matched
all_matched-perm Permᴰ.nil = Permᴰ.nil
all_matched-perm (Permᴰ.cons {a = (c, rs)} {l₁ = ms} {l₂ = ms'} e p) =
    subst (λ x. Permᴰ (all_matched ((c, rs) ∷ ms)) (all_matched (x ∷ ms'))) e
      (Permᴰ.append_left (matched_in c rs) (all_matched-perm p))
all_matched-perm (Permᴰ.swap {a = a} {b = b} {b' = b'} {l = ms} e e') =
    subst (λ x. Permᴰ (all_matched (a ∷ b ∷ ms)) (all_matched (x ∷ b' ∷ ms))) e'
      (subst (λ x. Permᴰ (all_matched (a ∷ b ∷ ms)) (all_matched (b ∷ x ∷ ms))) e
        (all_matched-swap a b ms))
all_matched-perm (Permᴰ.trans p q) = Permᴰ.trans (all_matched-perm p) (all_matched-perm q)

-- MatchedPairs gives the same list for two plans whose maps have the same entries: the components in any
-- order, and the results of each component in any order.
pub matched_pairs-perm :
    (plan plan' : MatchPlan) (ms : List (String × List (String × MatchResult)))
    → Permᴰ plan.matches ms
    → IsShuffled ms plan'.matches
    → matched_pairs plan ≡ matched_pairs plan'
unfolding matched_pairs
matched_pairs-perm plan plan' ms p q =
    sort_stable-perm matched_less-IsOrder
      (λ a b e.
        ap (λ (k : String × String). record { component_name = k.0; transformer_fqn = k.1 }) e)
      (Permᴰ.trans (all_matched-perm p) (all_matched-shuffled q))
