-- ===== src/Apply/Prune/Settled.antt =====
-- Prune of internal/apply/prune.go goes on after an error: every stale entry is settled or reported.
use mathlib.Core.List.Memᴰ
use mathlib.Core.List.{Memᴰ}
use poc_controller.Prelude.{
  String, true, false, ◌≡◌, ◌⊎◌, inl, inr, refl, sym, ap, subst, Option, none, some, List, [], ◌∷◌,
  ◌++◌, Bool-cases, Error, Result, ok, err,
}
use poc_controller.Api.{InventoryEntry}
use poc_controller.Core.{Unstructured}
use poc_controller.Apply.Impersonate.{is_not_found}
use poc_controller.Apply.Prune.{
  PruneState, Client, is_safe_to_delete, is_owned, described, after_delete, after_get, prune_entry,
  prune_loop, join, prune,
}
use poc_controller.Apply.Prune.Safety.{prune_entry-cluster, after_delete-cluster}

mem_last {ℓ} : {A : Type ℓ} (xs : List A) (x : A) → Memᴰ x (xs ++ x ∷ [])
mem_last [] x = Memᴰ.head refl
mem_last (y ∷ xs) x = Memᴰ.tail (mem_last xs x)

module _ {C : Type 0} (client : Client C) where
  -- The apiserver knows no object of the entry.
  abbrev pub Gone : InventoryEntry → C → Type 0
  Gone e c = (x : Error) × (client.get e c ≡ err x) × (is_not_found x ≡ true)

  -- A cluster in which a delete call takes effect at once (no finalizers on the deleted objects): an
  -- object is as it was or gone, and the one deleted is gone where the call succeeds or does not find
  -- it.
  pub record IsImmediate : Type 0 where
    pub others :
        (live : Unstructured) (c : C) (e : InventoryEntry)
        → (client.get e (client.delete live c).1 ≡ client.get e c) ⊎ Gone e (client.delete live c).1
    pub deleted :
        (live : Unstructured) (c : C) (e : InventoryEntry)
        → client.get e c ≡ ok live
        → (client.delete live c).0 ≡ none
        → Gone e (client.delete live c).1
    pub not_there :
        (live : Unstructured) (c : C) (e : InventoryEntry) (x : Error)
        → client.get e c ≡ ok live
        → (client.delete live c).0 ≡ some x
        → is_not_found x ≡ true
        → Gone e (client.delete live c).1

module _ {C : Type 0} (client : Client C) (owner_uuid : String) where
  -- Nothing is left to do for the entry: its kind is protected, no object is left, or the live object
  -- is not the owner's.
  abbrev pub IsSettled : InventoryEntry → C → Type 0
  IsSettled e c =
      (is_safe_to_delete e ≡ false)
      ⊎ (Gone client e c
          ⊎ ((live : Unstructured) × (client.get e c ≡ ok live)
              × (is_owned owner_uuid live ≡ false)))

  -- Some error says that the entry's Get or Delete failed.
  abbrev pub IsReported : InventoryEntry → List Error → Type 0
  IsReported e errors =
      (x : Error) × (Memᴰ (described client owner_uuid "get" e x) errors
        ⊎ Memᴰ (described client owner_uuid "delete" e x) errors)

  IsSettled-delete :
      IsImmediate client
      → (e : InventoryEntry) (live : Unstructured) (c : C) → IsSettled e c
      → IsSettled e (client.delete live c).1
  IsSettled-delete laws e live c (inl unsafe) = inl unsafe
  IsSettled-delete laws e live c (inr h) = elim (laws.others live c e) [
    | inl same ↦ inr (rw same h)
    | inr gone ↦ inr (inl gone)
  ]

  IsSettled-prune_entry :
      IsImmediate client
      → (e f : InventoryEntry) (s : PruneState C) → IsSettled e s.cluster
      → IsSettled e (prune_entry client owner_uuid f s).cluster
  IsSettled-prune_entry laws e f s h = elim (prune_entry-cluster client owner_uuid f s) [
    | inl same ↦ rw same h
    | inr (live, _, _, _, eq) ↦
        rw (eq, after_delete-cluster client owner_uuid f s (client.delete live s.cluster))
          (IsSettled-delete laws e live s.cluster h)
  ]

  mem-after_delete :
      (f : InventoryEntry) (s : PruneState C) (r : Option Error × C) (x : Error)
      → Memᴰ x s.errors
      → Memᴰ x (after_delete client owner_uuid f s r).errors
  unfolding after_delete
  mem-after_delete f s (none, c) x m = m
  mem-after_delete f s (some y, c) x m = elim (Bool-cases (is_not_found y)) [
    | inl gone ↦ rw gone m
    | inr failed ↦ rw failed (Memᴰ.append_left _ m)
  ]

  mem-after_get :
      (f : InventoryEntry) (s : PruneState C) (r : Result Unstructured) (x : Error)
      → Memᴰ x s.errors
      → Memᴰ x (after_get client owner_uuid f s r).errors
  unfolding after_get
  mem-after_get f s (err y) x m = elim (Bool-cases (is_not_found y)) [
    | inl gone ↦ rw gone m
    | inr failed ↦ rw failed (Memᴰ.append_left _ m)
  ]
  mem-after_get f s (ok live) x m = elim (Bool-cases (is_owned owner_uuid live)) [
    | inl own ↦ rw own (mem-after_delete f s (client.delete live s.cluster) x m)
    | inr other ↦ rw other m
  ]

  mem-prune_entry :
      (f : InventoryEntry) (s : PruneState C) (x : Error)
      → Memᴰ x s.errors
      → Memᴰ x (prune_entry client owner_uuid f s).errors
  unfolding prune_entry
  mem-prune_entry f s x m = elim (Bool-cases (is_safe_to_delete f)) [
    | inl safe ↦ rw safe (mem-after_get f s (client.get f s.cluster) x m)
    | inr unsafe ↦ rw unsafe m
  ]

  abbrev IsHandled : InventoryEntry → PruneState C → Type 0
  IsHandled e s = IsSettled e s.cluster ⊎ IsReported e s.errors

  after_delete_handles :
      IsImmediate client
      → (e : InventoryEntry) (s : PruneState C) (live : Unstructured)
      → client.get e s.cluster ≡ ok live
      → (r : Option Error × C) → client.delete live s.cluster ≡ r
      → IsHandled e (after_delete client owner_uuid e s r)
  unfolding after_delete
  after_delete_handles laws e s live found (none, c) eq = inl (
      inr (
        inl (
          subst (λ r. Gone client e r.1) eq
            (laws.deleted live s.cluster e found (ap (λ r. r.0) eq)))))
  after_delete_handles laws e s live found (some x, c) eq = elim (Bool-cases (is_not_found x)) [
    | inl gone ↦ rw gone (
        inl (
          inr (
            inl (
              subst (λ r. Gone client e r.1) eq
                (laws.not_there live s.cluster e x found (ap (λ r. r.0) eq) gone)))))
    | inr failed ↦
        rw failed (inr (x, inr (mem_last s.errors (described client owner_uuid "delete" e x))))
  ]

  after_get_handles :
      IsImmediate client
      → (e : InventoryEntry) (s : PruneState C) (r : Result Unstructured)
      → client.get e s.cluster ≡ r
      → IsHandled e (after_get client owner_uuid e s r)
  unfolding after_get
  after_get_handles laws e s (err x) eq = elim (Bool-cases (is_not_found x)) [
    | inl gone ↦ rw gone (inl (inr (inl (x, eq, gone))))
    | inr failed ↦
        rw failed (inr (x, inl (mem_last s.errors (described client owner_uuid "get" e x))))
  ]
  after_get_handles laws e s (ok live) eq = elim (Bool-cases (is_owned owner_uuid live)) [
    | inl own ↦ rw own (after_delete_handles laws e s live eq (client.delete live s.cluster) refl)
    | inr other ↦ rw other (inl (inr (inr (live, eq, other))))
  ]

  prune_entry-safe :
      (e : InventoryEntry) (s : PruneState C)
      → is_safe_to_delete e ≡ true
      → prune_entry client owner_uuid e s ≡ after_get client owner_uuid e s (client.get e s.cluster)
  unfolding prune_entry
  prune_entry-safe e s safe = rw safe

  prune_entry_handles :
      IsImmediate client
      → (e : InventoryEntry) (s : PruneState C) → IsHandled e (prune_entry client owner_uuid e s)
  unfolding prune_entry
  prune_entry_handles laws e s = elim (Bool-cases (is_safe_to_delete e)) [
    | inr unsafe ↦ inl (inl unsafe)
    | inl safe ↦
        subst (λ t. IsHandled e t) (sym (prune_entry-safe e s safe))
          (after_get_handles laws e s (client.get e s.cluster) refl)
  ]

  IsHandled-prune_loop :
      IsImmediate client
      → (todo : List InventoryEntry) (e : InventoryEntry) (s : PruneState C) → IsHandled e s
      → IsHandled e (prune_loop client owner_uuid todo s)
  unfolding prune_loop
  IsHandled-prune_loop laws [] e s h = h
  IsHandled-prune_loop laws (f ∷ todo) e s h =
      IsHandled-prune_loop laws todo e (prune_entry client owner_uuid f s) (keep h)
    where
      keep : IsHandled e s → IsHandled e (prune_entry client owner_uuid f s)
      keep (inl settled) = inl (IsSettled-prune_entry laws e f s settled)
      keep (inr (x, inl m)) = inr (x, inl (mem-prune_entry f s _ m))
      keep (inr (x, inr m)) = inr (x, inr (mem-prune_entry f s _ m))

  prune_loop_handles :
      IsImmediate client
      → (todo : List InventoryEntry) (s : PruneState C) (e : InventoryEntry) → Memᴰ e todo
      → IsHandled e (prune_loop client owner_uuid todo s)
  unfolding prune_loop
  prune_loop_handles laws [] s e m = elim m [ ]
  prune_loop_handles laws (f ∷ todo) s e (Memᴰ.head eq) =
      IsHandled-prune_loop laws todo e (prune_entry client owner_uuid f s)
        (rw eq (prune_entry_handles laws f s))
  prune_loop_handles laws (f ∷ todo) s e (Memᴰ.tail m) =
      prune_loop_handles laws todo (prune_entry client owner_uuid f s) e m

  join-none : (errors : List Error) → join errors ≡ none → errors ≡ []
  unfolding join
  join-none [] h = refl
  join-none (x ∷ errors) h = cc

  IsSettled-of_handled :
      (e : InventoryEntry) (s : PruneState C)
      → IsHandled e s
      → join s.errors ≡ none
      → IsSettled e s.cluster
  IsSettled-of_handled e s (inl settled) h = settled
  IsSettled-of_handled e s (inr (x, inl m)) h =
      absurd (Memᴰ.not-nil (rw (join-none s.errors h) at m))
  IsSettled-of_handled e s (inr (x, inr m)) h =
      absurd (Memᴰ.not-nil (rw (join-none s.errors h) at m))

  -- In a cluster whose deletions take effect at once: if Prune returns no error, then every entry of
  -- the stale set is settled: its kind is protected, or the apiserver knows no object of it any more,
  -- or the live object is not the owner's.
  pub prune_settles :
      IsImmediate client
      → (stale : List InventoryEntry) (c : C) → (prune client owner_uuid stale c).1 ≡ none
      → (e : InventoryEntry) → Memᴰ e stale
      → IsSettled e (prune client owner_uuid stale c).2
  unfolding prune
  prune_settles laws stale c h e m =
      let start : PruneState C = record { deleted = 0; skipped = 0; errors = []; cluster = c } in
      IsSettled-of_handled e (prune_loop client owner_uuid stale start)
        (prune_loop_handles laws stale start e m) h
