-- ===== src/Catalog/Plan/Keys.antt =====
-- Keys, and the map of the existing rows by key.
use trend_tree.Prelude.{
  ◌≡◌, refl, ap, sym, ◌∙◌, subst, inl, inr, List, [], ◌∷◌, ◌++◌, map, Bool, true, false, ◌||◌,
  text_eq, text_eq_iff, text_eq_refl, text_eq_comm, any, arith, Bool-cases,
}
use mathlib.Core.List.{append-nil, append_assoc, map-append}
use trend_tree.Catalog.Plan.{Key, key_eq, Existing, put_row, index_rows}

pub key_eq_refl : (k : Key) → key_eq k k ≡ true
unfolding key_eq
key_eq_refl k = rw (text_eq_refl k.tier, text_eq_refl k.id) refl

pub eq-key_eq : (a b : Key) → key_eq a b ≡ true → a ≡ b
unfolding key_eq
eq-key_eq a b h = elim (Bool-cases (text_eq a.tier b.tier)) [
  | inl e ↦
      let f : text_eq a.id b.id ≡ true = rw e at h in
      same a b ((text_eq_iff a.tier b.tier).0 e) ((text_eq_iff a.id b.id).0 f)
  | inr e ↦ let no : false ≡ true = rw e at h in cc
]
  where
    same : (a b : Key) → a.tier ≡ b.tier → a.id ≡ b.id → a ≡ b
    same a b e f = cc

pub key_eq_comm : (a b : Key) → key_eq a b ≡ key_eq b a
unfolding key_eq
key_eq_comm a b = cc (text_eq_comm a.tier b.tier, text_eq_comm a.id b.id)

-- Equal keys are told apart from a third in the same way.
pub key_eq_cong : (a b c : Key) → key_eq a b ≡ true → key_eq a c ≡ key_eq b c
key_eq_cong a b c h = ap (λ k. key_eq k c) (eq-key_eq a b h)

-- The key is among the keys.
abbrev pub has_key : Key → List Key → Bool
has_key k = any (λ j. key_eq j k)

abbrev pub IsDistinct : List Key → Type 0
IsDistinct [] = Unit
IsDistinct (k ∷ ks) = (has_key k ks ≡ false) × IsDistinct ks

abbrev pub keys_of : List Existing → List Key
keys_of = map (λ r. r.key)

pub has_key-append :
    (k : Key) (xs ys : List Key) → has_key k (xs ++ ys) ≡ (has_key k xs || has_key k ys)
has_key-append k [] ys = refl
has_key-append k (x ∷ xs) ys = ground (arith, has_key-append k xs ys)

-- Of two lists without a common key, neither with one twice, the whole has none twice; and back.
abbrev pub Disjoint : List Key → List Key → Type 0
Disjoint [] ys = Unit
Disjoint (x ∷ xs) ys = (has_key x ys ≡ false) × Disjoint xs ys

pub IsDistinct-append :
    (xs ys : List Key) → IsDistinct xs → IsDistinct ys → Disjoint xs ys → IsDistinct (xs ++ ys)
IsDistinct-append [] ys h k d = k
IsDistinct-append (x ∷ xs) ys h k d =
    (rw (has_key-append x xs ys, h.0, d.0) refl, IsDistinct-append xs ys h.1 k d.1)

-- A key of the first part is none of the second.
pub has_key-second :
    (k : Key) (xs ys : List Key)
    → IsDistinct (xs ++ ys)
    → has_key k xs ≡ true
    → has_key k ys ≡ false
has_key-second k [] ys d h = cc
has_key-second k (x ∷ xs) ys d h = elim (Bool-cases (key_eq x k)) [
  | inl e ↦
      let both : has_key x (xs ++ ys) ≡ (has_key x xs || has_key x ys) = has_key-append x xs ys in
      let none_left : has_key x ys ≡ false =
        second (has_key x xs) (has_key x ys) (sym both ∙ d.0) in
      subst (λ j. has_key j ys ≡ false) (eq-key_eq x k e) none_left
  | inr e ↦ has_key-second k xs ys d.1 (rw e at h)
]
  where
    second : (a b : Bool) → (a || b) ≡ false → b ≡ false
    second true b n = cc
    second false b n = n

has_key-put_row :
    (k : Key) (r : Existing) (m : List Existing)
    → has_key k (keys_of (put_row r m)) ≡ (key_eq r.key k || has_key k (keys_of m))
unfolding put_row
has_key-put_row k r [] = refl
has_key-put_row k r (x ∷ m) = elim (Bool-cases (key_eq x.key r.key)) [
  | inl e ↦ rw (e, key_eq_cong x.key r.key k e) (ground arith)
  | inr e ↦ rw e (ground (arith, has_key-put_row k r m))
]

put_row-IsDistinct :
    (r : Existing) (m : List Existing) → IsDistinct (keys_of m) → IsDistinct (keys_of (put_row r m))
unfolding put_row
put_row-IsDistinct r [] d = (refl, tt)
put_row-IsDistinct r (x ∷ m) d = elim (Bool-cases (key_eq x.key r.key)) [
  | inl e ↦ rw e (subst (λ k. has_key k (keys_of m) ≡ false) (eq-key_eq x.key r.key e) d.0, d.1)
  | inr e ↦
      rw e
        (rw (has_key-put_row x.key r m, key_eq_comm r.key x.key, e) d.0, put_row-IsDistinct r m d.1)
]

-- The map of the existing rows has no key twice.
pub index_rows-IsDistinct :
    (m rs : List Existing) → IsDistinct (keys_of m) → IsDistinct (keys_of (index_rows m rs))
unfolding index_rows
index_rows-IsDistinct m [] d = d
index_rows-IsDistinct m (r ∷ rs) d =
    index_rows-IsDistinct (put_row r m) rs (put_row-IsDistinct r m d)

put_row_new :
    (r : Existing) (m : List Existing)
    → has_key r.key (keys_of m) ≡ false
    → put_row r m ≡ m ++ r ∷ []
unfolding put_row
put_row_new r [] h = refl
put_row_new r (x ∷ m) h = elim (Bool-cases (key_eq x.key r.key)) [
  | inl e ↦ let no : true ≡ false = rw e at h in cc
  | inr e ↦ rw e (ap (x ∷◌) (put_row_new r m (rw e at h)))
]

not_before : (k : Key) (xs ys : List Key) → IsDistinct (xs ++ k ∷ ys) → has_key k xs ≡ false
not_before k xs ys d = elim (Bool-cases (has_key k xs)) [
  | inl e ↦ let no : true ≡ false = rw (key_eq_refl k) at (has_key-second k xs (k ∷ ys) d e) in cc
  | inr e ↦ e
]

-- If the rows have no key twice, their map is their list.
pub index_rows_distinct :
    (m rs : List Existing) → IsDistinct (keys_of (m ++ rs)) → index_rows m rs ≡ m ++ rs
unfolding index_rows
index_rows_distinct m [] d = sym (append-nil m)
index_rows_distinct m (r ∷ rs) d =
    let keys : keys_of (m ++ r ∷ rs) ≡ keys_of m ++ r.key ∷ keys_of rs =
      map-append (λ x. x.key) m (r ∷ rs) in
    let new : has_key r.key (keys_of m) ≡ false =
      not_before r.key (keys_of m) (keys_of rs) (subst IsDistinct keys d) in
    let next : (m ++ r ∷ []) ++ rs ≡ m ++ r ∷ rs = append_assoc m (r ∷ []) rs in
    rw (put_row_new r m new) (
      index_rows_distinct (m ++ r ∷ []) rs (subst (λ l. IsDistinct (keys_of l)) (sym next) d)
      ∙ next)
