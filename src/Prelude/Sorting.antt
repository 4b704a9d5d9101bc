-- ===== src/Prelude/Sorting.antt =====
-- The stable sort: what it returns is in order, and holds what it was given.
use mathlib.Core.Path.{◌≡◌, refl, ap, ◌∙◌}
use mathlib.Core.Logic.{inl, inr}
use mathlib.Core.Bool.{Bool, true, false}
use mathlib.Core.List.{List, [], ◌∷◌, Perm}
use mathlib.Core.List.Perm
use trend_tree.Prelude.Tests.{Bool-cases}
use trend_tree.Prelude.Lists.{All, sort, insert_sorted, flatten, length}
use mathlib.Core.List.{append_assoc, perm_append_comm, Perm-prop, Permᴰ}
use mathlib.Core.Logic.{∥∥₁_elim}
use native.Mathlib.Nat.{ℕ_set}
use Prim.Native.Nat.{suc}

module _ {ℓ} {A : Type ℓ} where
  pub insert_sorted-perm :
      (after : A → A → Bool) (x : A) (xs : List A) → Perm (insert_sorted after x xs) (x ∷ xs)
  insert_sorted-perm after x [] = Perm.rfl
  insert_sorted-perm after x (y ∷ ys) = elim (Bool-cases (after x y)) [
    | inl e ↦ rw e (Perm.trans (Perm.cons y (insert_sorted-perm after x ys)) (Perm.swap x y ys))
    | inr e ↦ rw e Perm.rfl
  ]

  pub sort-perm : (after : A → A → Bool) (xs : List A) → Perm (sort after xs) xs
  sort-perm after [] = Perm.rfl
  sort-perm after (x ∷ xs) =
      Perm.trans (insert_sorted-perm after x (sort after xs)) (Perm.cons x (sort-perm after xs))

  -- No entry stands behind one that the comparator puts after it.
  abbrev pub IsSorted : (A → A → Bool) → List A → Type ℓ
  IsSorted after [] = Unit
  IsSorted after (x ∷ xs) = All (λ y. after x y ≡ false) xs × IsSorted after xs

module _ {ℓ κ} {A : Type ℓ} (P : A → Type κ) (after : A → A → Bool) where
  pub All-insert_sorted : (x : A) (xs : List A) → P x → All P xs → All P (insert_sorted after x xs)
  All-insert_sorted x [] h k = (h, tt)
  All-insert_sorted x (y ∷ ys) h k = elim (Bool-cases (after x y)) [
    | inl e ↦ rw e (k.0, All-insert_sorted x ys h k.1)
    | inr e ↦ rw e (h, k)
  ]

  pub All-sort : (xs : List A) → All P xs → All P (sort after xs)
  All-sort [] h = tt
  All-sort (x ∷ xs) h = All-insert_sorted x (sort after xs) h.0 (All-sort xs h.1)

-- `Good` is the part of the type on which the comparator is transitive.
module _ {ℓ κ} {A : Type ℓ} (Good : A → Type κ) (after : A → A → Bool)
    (asym : (x y : A) → after x y ≡ true → after y x ≡ false)
    (trans : (x y z : A) → Good y → after x y ≡ false → after y z ≡ false → after x z ≡ false) where
  not_after_trans :
      (x y : A) (zs : List A)
      → Good y
      → after x y ≡ false
      → All (λ z. after y z ≡ false) zs
      → All (λ z. after x z ≡ false) zs
  not_after_trans x y [] g h k = tt
  not_after_trans x y (z ∷ zs) g h k = (trans x y z g h k.0, not_after_trans x y zs g h k.1)

  insert_sorted-IsSorted :
      (x : A) (xs : List A)
      → All Good xs
      → IsSorted after xs
      → IsSorted after (insert_sorted after x xs)
  insert_sorted-IsSorted x [] g s = (tt, tt)
  insert_sorted-IsSorted x (y ∷ ys) g s = elim (Bool-cases (after x y)) [
    | inl e ↦ rw e (
      All-insert_sorted (λ z. after y z ≡ false) after x ys (asym x y e) s.0,
      insert_sorted-IsSorted x ys g.1 s.1,
    )
    | inr e ↦ rw e ((e, not_after_trans x y ys g.0 e s.0), s)
  ]

  pub sort-IsSorted : (xs : List A) → All Good xs → IsSorted after (sort after xs)
  sort-IsSorted [] g = tt
  sort-IsSorted (x ∷ xs) g =
      insert_sorted-IsSorted x (sort after xs) (All-sort Good after xs g.1) (sort-IsSorted xs g.1)

module _ {ℓ} {A : Type ℓ} where
  flatten-permᴰ : {xs ys : List (List A)} → Permᴰ xs ys → Perm (flatten xs) (flatten ys)
  flatten-permᴰ Permᴰ.nil = Perm.rfl
  flatten-permᴰ (Permᴰ.cons {a = a} e p) = rw (← e) (Perm.append_left a (flatten-permᴰ p))
  flatten-permᴰ (Permᴰ.swap {a = a} {b = b} {l = l} e f) =
      rw (← e, ← f, ← append_assoc a b (flatten l), ← append_assoc b a (flatten l))
        (Perm.append_right (flatten l) (perm_append_comm a b))
  flatten-permᴰ (Permᴰ.trans p q) = Perm.trans (flatten-permᴰ p) (flatten-permᴰ q)

  pub flatten-perm : {xs ys : List (List A)} → Perm xs ys → Perm (flatten xs) (flatten ys)
  flatten-perm p = ∥∥₁_elim p Perm-prop flatten-permᴰ

  length-permᴰ : {xs ys : List A} → Permᴰ xs ys → length xs ≡ length ys
  length-permᴰ Permᴰ.nil = refl
  length-permᴰ (Permᴰ.cons e q) = ap suc (length-permᴰ q)
  length-permᴰ (Permᴰ.swap {l = l} e f) = refl
  length-permᴰ (Permᴰ.trans q r) = length-permᴰ q ∙ length-permᴰ r

  pub length-perm : {xs ys : List A} → Perm xs ys → length xs ≡ length ys
  length-perm p = ∥∥₁_elim p (ℕ_set _ _) length-permᴰ

module _ {ℓ κ} {A : Type ℓ} (P : A → Type κ) (after : A → A → Bool) where
  All-of_insert_sorted : (x : A) (xs : List A) → All P (insert_sorted after x xs) → P x × All P xs
  All-of_insert_sorted x [] h = h
  All-of_insert_sorted x (y ∷ ys) h = elim (Bool-cases (after x y)) [
    | inl e ↦
        let h' : P y × All P (insert_sorted after x ys) = rw e at h in
        let rest = All-of_insert_sorted x ys h'.1 in (rest.0, (h'.0, rest.1))
    | inr e ↦ rw e at h
  ]

  pub All-of_sort : (xs : List A) → All P (sort after xs) → All P xs
  All-of_sort [] h = tt
  All-of_sort (x ∷ xs) h =
      let parts = All-of_insert_sorted x (sort after xs) h in (parts.0, All-of_sort xs parts.1)
