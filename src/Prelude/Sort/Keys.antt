-- ===== src/Prelude/Sort/Keys.antt =====
-- Orders by several texts, and sorts that do not depend on the order of their input.
use mathlib.Core.List.{Permᴰ}
use poc_controller.Prelude.{
  String, Bool, true, not, ◌≡◌, inl, inr, refl, sym, ap, ◌∙◌, List, [], ◌∷◌, ◌==◌, eq_iff,
  Bool-cases, arith, if◌then◌else◌,
}
use poc_controller.Prelude.Sort.{text_lt, insert_stable, sort_stable}
use poc_controller.Prelude.Sort.Order.{IsOrder, text_lt-IsOrder}

module _ {A : Type 0} where
  -- The order by one text.
  pub by_text : (f : A → String) → IsOrder (λ a b. text_lt (f a) (f b)) f
  by_text f = record {
    asym = λ a b. text_lt-IsOrder.asym (f a) (f b);
    connected = λ a b. text_lt-IsOrder.connected (f a) (f b);
    shift = λ a b c. text_lt-IsOrder.shift (f a) (f b) (f c);
  }

  -- The order by a text, and by another order where the texts are the same.
  pub by_text_then :
      {K : Type 0} {less : A → A → Bool} {key : A → K} (f : A → String)
      → IsOrder less key
      → IsOrder {K = String × K}
          (λ a b. if not (f a == f b) then text_lt (f a) (f b) else less a b)
          (λ a. (f a, key a))
  by_text_then {key = key} f h = record {
    asym = λ a b e. ground (
      arith,
      e,
      eq_iff (f a) (f b),
      eq_iff (f b) (f a),
      text_lt-IsOrder.asym (f a) (f b),
      h.asym a b,
    );
    connected = λ a b e k. ground (
      arith,
      e,
      k,
      eq_iff (f a) (f b),
      eq_iff (f b) (f a),
      text_lt-IsOrder.connected (f a) (f b),
      h.connected a b,
    );
    shift = λ a b c e k. ground (
      arith,
      e,
      k,
      eq_iff (f a) (f b),
      eq_iff (f b) (f a),
      eq_iff (f c) (f a),
      eq_iff (f c) (f b),
      text_lt-IsOrder.shift (f a) (f b) (f c),
      text_lt-IsOrder.connected (f c) (f b),
      text_lt-IsOrder.asym (f c) (f b),
      text_lt-IsOrder.asym (f c) (f a),
      h.shift a b c,
    );
  }

  module _ {K : Type 0} {less : A → A → Bool} {key : A → K} (order : IsOrder less key)
      (injective : (a b : A) → key a ≡ key b → a ≡ b) where
    -- Two insertions may change places.
    insert_ordered :
        (x y : A) (l : List A)
        → less y x ≡ true
        → insert_stable less x (insert_stable less y l)
          ≡ insert_stable less y (insert_stable less x l)
    unfolding insert_stable
    insert_ordered x y [] h = rw (h, order.asym y x h, insert_stable) refl
    insert_ordered x y (z ∷ l) h = elim (Bool-cases (less z y)) [
      | inl e ↦
          let below : less z x ≡ true = ground (arith, order.shift y x z e, order.asym y x h) in
          rw (e, below, insert_stable) (rw e (ap (λ r. z ∷ r) (insert_ordered x y l h)))
      | inr e ↦ elim (Bool-cases (less z x)) [
        | inl b ↦ rw (e, b, insert_stable) (rw (h, e) refl)
        | inr b ↦ rw (e, b, insert_stable) (rw (h, order.asym y x h) refl)
      ]
    ]

    insert_comm :
        (x y : A) (l : List A)
        → insert_stable less x (insert_stable less y l)
          ≡ insert_stable less y (insert_stable less x l)
    insert_comm x y l = elim (Bool-cases (less y x)) [
      | inl h ↦ insert_ordered x y l h
      | inr h ↦ elim (Bool-cases (less x y)) [
        | inl k ↦ sym (insert_ordered y x l k)
        | inr k ↦ let same : x ≡ y = injective x y (order.connected x y k h) in rw same refl
      ]
    ]

    -- A sort of the same items in another order gives the same list.
    pub sort_stable-perm : {l l' : List A} → Permᴰ l l' → sort_stable less l ≡ sort_stable less l'
    unfolding sort_stable
    sort_stable-perm Permᴰ.nil = refl
    sort_stable-perm (Permᴰ.cons {a = a} {b = b} {l₁ = l} {l₂ = l'} e p) =
        ap (λ x. insert_stable less x (sort_stable less l)) e
        ∙ ap (insert_stable less b) (sort_stable-perm p)
    sort_stable-perm (Permᴰ.swap {a = a} {b = b} {a' = a'} {b' = b'} {l = l} e f) =
        insert_comm a b (sort_stable less l)
        ∙ ap (λ x. insert_stable less x (insert_stable less a (sort_stable less l))) f
        ∙ ap (λ x. insert_stable less a' (insert_stable less x (sort_stable less l))) e
    sort_stable-perm (Permᴰ.trans p q) = sort_stable-perm p ∙ sort_stable-perm q
