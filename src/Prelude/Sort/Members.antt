-- ===== src/Prelude/Sort/Members.antt =====
-- A sort keeps the items and their number.
use mathlib.Core.List.{Memᴰ}
use poc_controller.Prelude.{
  suc, Bool, ◌≡◌, ◌↔◌, ◌⊎◌, inl, inr, refl, ap, ◌∙◌, List, [], ◌∷◌, length, Bool-cases,
}
use poc_controller.Prelude.Sort.{insert_stable, sort_stable}

pub mem_uncons : {A : Type 0} {a x : A} {l : List A} → Memᴰ a (x ∷ l) → (a ≡ x) ⊎ Memᴰ a l
mem_uncons (Memᴰ.head e) = inl e
mem_uncons (Memᴰ.tail m) = inr m

mem_recons : {A : Type 0} {a x : A} {l : List A} → (a ≡ x) ⊎ Memᴰ a l → Memᴰ a (x ∷ l)
mem_recons (inl e) = Memᴰ.head e
mem_recons (inr m) = Memᴰ.tail m

module _ {A : Type 0} (less : A → A → Bool) where
  mem_insert : (a x : A) (l : List A) → Memᴰ a (insert_stable less x l) → (a ≡ x) ⊎ Memᴰ a l
  unfolding insert_stable
  mem_insert a x [] = λ m. mem_uncons m
  mem_insert a x (y ∷ l) = elim (Bool-cases (less y x)) [
    | inl t ↦
        rw (t, insert_stable)
          (λ m. elim (mem_uncons m) [
            | inl e ↦ inr (Memᴰ.head e)
            | inr k ↦ elim (mem_insert a x l k) [ inl e ↦ inl e | inr n ↦ inr (Memᴰ.tail n) ]
          ])
    | inr f ↦ rw (f, insert_stable) (λ m. mem_uncons m)
  ]

  mem_inserted : (a x : A) (l : List A) → (a ≡ x) ⊎ Memᴰ a l → Memᴰ a (insert_stable less x l)
  unfolding insert_stable
  mem_inserted a x [] h = mem_recons h
  mem_inserted a x (y ∷ l) h = elim (Bool-cases (less y x)) [
    | inl t ↦
        rw (t, insert_stable)
          (elim h [
            | inl e ↦ Memᴰ.tail (mem_inserted a x l (inl e))
            | inr m ↦ elim (mem_uncons m) [
              | inl e ↦ Memᴰ.head e
              | inr k ↦ Memᴰ.tail (mem_inserted a x l (inr k))
            ]
          ])
    | inr f ↦ rw (f, insert_stable) (mem_recons h)
  ]

  pub mem-sort_stable : (a : A) (l : List A) → Memᴰ a (sort_stable less l) ↔ Memᴰ a l
  unfolding sort_stable
  mem-sort_stable a [] = (λ m. m, λ m. m)
  mem-sort_stable a (x ∷ l) =
      let (to, from) = mem-sort_stable a l in
      (
        λ m. elim (mem_insert a x (sort_stable less l) m) [
          | inl e ↦ Memᴰ.head e
          | inr k ↦ Memᴰ.tail (to k)
        ],
        λ m. elim (mem_uncons m) [
          | inl e ↦ mem_inserted a x (sort_stable less l) (inl e)
          | inr k ↦ mem_inserted a x (sort_stable less l) (inr (from k))
        ],
      )

  length-insert_stable : (x : A) (l : List A) → length (insert_stable less x l) ≡ suc (length l)
  unfolding insert_stable
  length-insert_stable x [] = refl
  length-insert_stable x (y ∷ l) = elim (Bool-cases (less y x)) [
    | inl t ↦ rw (t, insert_stable) (ap suc (length-insert_stable x l))
    | inr f ↦ rw (f, insert_stable) refl
  ]

  pub length-sort_stable : (l : List A) → length (sort_stable less l) ≡ length l
  unfolding sort_stable
  length-sort_stable [] = refl
  length-sort_stable (x ∷ l) =
      length-insert_stable x (sort_stable less l) ∙ ap suc (length-sort_stable l)
