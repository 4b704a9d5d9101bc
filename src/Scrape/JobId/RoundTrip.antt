-- ===== src/Scrape/JobId/RoundTrip.antt =====
-- Formatting and parsing are inverse to one another.
use trend_tree.Prelude.{
  ℕ, ◌≡◌, refl, ap, sym, ◌∙◌, subst, ◌↔◌, inl, inr, [], ◌∷◌, ◌++◌, Option, none, some, Bool, true,
  false, not, Text, lit, text_eq, text_eq_iff, is_empty, all, ◌==◌, Bool-cases, Option-cases, arith,
}
use trend_tree.Scrape.JobId.{
  JobParts, is_vendor, is_platform, Fault, Checked, refused, accepted, assert_parts, unless, joined,
  format_job_id, Cut, prepend, cut, checked, parse_rest, parse_cut, parse_job_id,
}

abbrev dotless : Text → Bool
dotless = all (λ c. not (c == b'.'))

vendor-dotless : (v : Text) → is_vendor v ≡ true → dotless v ≡ true
unfolding is_vendor
vendor-dotless v h = elim (Bool-cases (text_eq v (lit "bd"))) [
  | inl e ↦ subst (λ t. dotless t ≡ true) (sym ((text_eq_iff v (lit "bd")).0 e)) refl
  | inr e ↦
      let other : text_eq v (lit "apify") ≡ true = rw e at h in
      subst (λ t. dotless t ≡ true) (sym ((text_eq_iff v (lit "apify")).0 other)) refl
]

platform-dotless : (p : Text) → is_platform p ≡ true → dotless p ≡ true
unfolding is_platform
platform-dotless p h = elim (Bool-cases (text_eq p (lit "tiktok"))) [
  | inl e ↦ subst (λ t. dotless t ≡ true) (sym ((text_eq_iff p (lit "tiktok")).0 e)) refl
  | inr e ↦ elim (Bool-cases (text_eq p (lit "reddit"))) [
    | inl f ↦ subst (λ t. dotless t ≡ true) (sym ((text_eq_iff p (lit "reddit")).0 f)) refl
    | inr f ↦
        let other : text_eq p (lit "kickstarter") ≡ true = rw (e, f) at h in
        subst (λ t. dotless t ≡ true) (sym ((text_eq_iff p (lit "kickstarter")).0 other)) refl
  ]
]

cut-append :
    (v r : Text) → dotless v ≡ true → cut (v ++ b'.' ∷ r) ≡ some (record { before = v; after = r })
unfolding cut
cut-append [] r h = refl
cut-append (c ∷ v) r h = elim (Bool-cases (c == b'.')) [
  | inl e ↦ let no : false ≡ true = rw e at h in cc
  | inr e ↦ let rest : dotless v ≡ true = rw e at h in rw (e, cut-append v r rest) refl
]

abbrev IsCut : Text → Option Cut → Type 0
IsCut s none = Unit
IsCut s (some k) = s ≡ k.before ++ b'.' ∷ k.after

prepend-IsCut : (c : ℕ) (s : Text) (o : Option Cut) → IsCut s o → IsCut (c ∷ s) (prepend c o)
prepend-IsCut c s none h = tt
prepend-IsCut c s (some k) h = ap (c ∷◌) h

cut-IsCut : (s : Text) → IsCut s (cut s)
unfolding cut
cut-IsCut [] = tt
cut-IsCut (c ∷ s) = elim (Bool-cases (c == b'.')) [
  | inl e ↦ rw e (ap (◌∷ s) (same c e))
  | inr e ↦ rw e (prepend-IsCut c s (cut s) (cut-IsCut s))
]
  where
    same : (c : ℕ) → (c == b'.') ≡ true → c ≡ b'.'
    same c e = ground arith

-- What is accepted is the text of parts that pass.
abbrev IsParsed : Text → Checked JobParts → Type 0
IsParsed id (refused f) = Unit
IsParsed id (accepted p) = (id ≡ joined p) × (assert_parts p ≡ none)

checked-IsParsed : (id : Text) (p : JobParts) → id ≡ joined p → IsParsed id (checked p)
checked-IsParsed id p h = elim (Option-cases (assert_parts p)) [
  | inl e ↦ rw e (h, e)
  | inr (f, e) ↦ rw e tt
]

parse_rest-IsParsed :
    (id vendor rest : Text) (o : Option Cut)
    → id ≡ vendor ++ b'.' ∷ rest
    → IsCut rest o
    → IsParsed id (parse_rest vendor o)
unfolding parse_rest
parse_rest-IsParsed id vendor rest none h k = tt
parse_rest-IsParsed id vendor rest (some j) h k =
    checked-IsParsed id (record { vendor = vendor; platform = j.before; handle = j.after })
      (h ∙ ap (λ t. vendor ++ b'.' ∷ t) k)

parse_cut-IsParsed : (id : Text) (o : Option Cut) → IsCut id o → IsParsed id (parse_cut o)
unfolding parse_cut
parse_cut-IsParsed id none h = tt
parse_cut-IsParsed id (some k) h =
    parse_rest-IsParsed id k.before k.after (cut k.after) h (cut-IsCut k.after)

parse_job_id-IsParsed : (id : Text) → IsParsed id (parse_job_id id)
unfolding parse_job_id
parse_job_id-IsParsed id = elim (Bool-cases (is_empty id)) [
  | inl e ↦ rw e tt
  | inr e ↦ rw e (parse_cut-IsParsed id (cut id) (cut-IsCut id))
]

unless-accepted :
    {A : Type 0} (o : Option Fault) (a b : A) → unless o a ≡ accepted b → (o ≡ none) × (a ≡ b)
unless-accepted none a b h = (refl, cc)
unless-accepted (some f) a b h = cc

passes-vendor : (p : JobParts) → assert_parts p ≡ none → is_vendor p.vendor ≡ true
unfolding assert_parts
passes-vendor p h = elim (Bool-cases (is_vendor p.vendor)) [
  | inl e ↦ e
  | inr e ↦ let no : some (Fault.unknown_vendor p.vendor) ≡ none = rw e at h in cc
]

passes-platform : (p : JobParts) → assert_parts p ≡ none → is_platform p.platform ≡ true
unfolding assert_parts
passes-platform p h = elim (Bool-cases (is_platform p.platform)) [
  | inl e ↦ e
  | inr e ↦
      let no : some (Fault.unknown_platform p.platform) ≡ none = rw (passes-vendor p h, e) at h in
      cc
]

parse-joined : (p : JobParts) → assert_parts p ≡ none → parse_job_id (joined p) ≡ accepted p
unfolding parse_job_id parse_cut parse_rest
parse-joined p h =
    rw
      (
        never_empty p.vendor (p.platform ++ b'.' ∷ p.handle),
        cut-append p.vendor (p.platform ++ b'.' ∷ p.handle)
            (vendor-dotless p.vendor (passes-vendor p h)),
        cut-append p.platform p.handle (platform-dotless p.platform (passes-platform p h)),
        h,
      )
      refl
  where
    never_empty : (v r : Text) → is_empty (v ++ b'.' ∷ r) ≡ false
    never_empty [] r = refl
    never_empty (c ∷ v) r = refl

-- A text is the id that is issued for some parts exactly when it parses to these parts: every id
-- that is issued is read back as what it was made of, and no other text is accepted.
pub format_job_id-parse_job_id :
    (p : JobParts) (id : Text) → (format_job_id p ≡ accepted id) ↔ (parse_job_id id ≡ accepted p)
unfolding format_job_id
format_job_id-parse_job_id p id = (
  λ h.
      let (passes, same) = unless-accepted (assert_parts p) (joined p) id h in
      subst (λ t. parse_job_id t ≡ accepted p) same (parse-joined p passes),
  λ h.
      let (same, passes) = subst (IsParsed id) h (parse_job_id-IsParsed id) in
      rw passes (ap accepted (sym same)),
)
