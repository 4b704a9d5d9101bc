-- ===== src/Ingest/Run/Gathering.antt =====
-- What the loop over the results gathers: no video twice, and every result counted.
use trend_tree.Prelude.{
  ℕ, suc, ◌+◌, ◌≤◌, ◌≡◌, refl, ap, sym, ◌∙◌, subst, inl, inr, List, [], ◌∷◌, ◌++◌, map, Option,
  none, some, Bool, true, false, arith, Text, text_eq, text_eq_iff, is_empty, trim, any, count,
  count-append, length, ◌==◌, flatten, Bool-cases, if◌then◌else◌,
}
use mathlib.Core.List.{map-append}
use trend_tree.Sourcing.Context.{Reply, replied, threw}
use trend_tree.Ingest.Video.{Url, VideoLink, parse_video_link}
use trend_tree.Ingest.Signals.{SearchHit, VideoCandidate, Kept, TitleVerdict, Sent, filter_titles}
use trend_tree.Ingest.Run.{
  Gathered, place_link, gather_results, Stage, passed, failed, keep_batch, read_verdicts,
  after_sent, and_more, run_filters, video_id, fresh_of,
}

abbrev pub candidate_ids : List VideoCandidate → List Text
candidate_ids = map (λ c. c.link.video_id)

-- One if the text is among the texts.
abbrev pub once : Text → List Text → ℕ
once k seen = if any (text_eq k) seen then 1 else 0

abbrev Bounded : Text → List Text → Gathered → Type 0
Bounded k seen g = count (text_eq k) (candidate_ids g.candidates) + once k seen ≤ 1

abbrev pub Counted : Gathered → Type 0
Counted g = g.results ≡ g.empty_titles + g.not_video_links + g.duplicates + length g.candidates

place_link-Bounded :
    (k : Text) (f : SearchHit) (title : Text) (seen : List Text) (o : Option VideoLink)
    (with_id : Text → Gathered) (rest : Gathered)
    → ((id : Text) → Bounded k (id ∷ seen) (with_id id))
    → Bounded k seen rest
    → Bounded k seen (place_link f title seen o with_id rest)
place_link-Bounded k f title seen none with_id rest h g = g
place_link-Bounded k f title seen (some l) with_id rest h g =
    elim (Bool-cases (any (text_eq l.video_id) seen)) [
      | inl e ↦ rw e g
      | inr e ↦
          let more = h l.video_id in
          elim (Bool-cases (text_eq k l.video_id)) [
            | inl s ↦
                let fresh : any (text_eq k) seen ≡ false =
                  subst (λ x. any (text_eq x) seen ≡ false) (sym ((text_eq_iff k l.video_id).0 s))
                    e in
                rw (e, s, fresh) (hit _ (rw s at more))
            | inr s ↦ rw (e, s) (rw s at more)
          ]
    ]
  where
    hit : (n : ℕ) → n + 1 ≤ 1 → suc n + 0 ≤ 1
    hit n h = omega arith

place_link-Counted :
    (f : SearchHit) (title : Text) (seen : List Text) (o : Option VideoLink)
    (with_id : Text → Gathered) (rest : Gathered)
    → ((id : Text) → Counted (with_id id))
    → Counted rest
    → Counted (place_link f title seen o with_id rest)
place_link-Counted f title seen none with_id rest h g = omega (arith, g)
place_link-Counted f title seen (some l) with_id rest h g =
    elim (Bool-cases (any (text_eq l.video_id) seen)) [
      | inl e ↦ rw e (omega (arith, g))
      | inr e ↦ rw e (omega (arith, h l.video_id))
    ]

module _ (parse_url : Text → Option Url) where
  gather_results-Bounded :
      (k : Text) (seen : List Text) (fs : List SearchHit)
      → Bounded k seen (gather_results parse_url seen fs)
  unfolding gather_results
  gather_results-Bounded k seen [] = elim (Bool-cases (any (text_eq k) seen)) [
    | inl e ↦ rw e (omega arith)
    | inr e ↦ rw e (omega arith)
  ]
  gather_results-Bounded k seen (f ∷ fs) =
      let rest = gather_results-Bounded k seen fs in
      let placed =
        place_link-Bounded k f (trim f.result.title) seen (parse_video_link parse_url f.result.link)
          (λ id. gather_results parse_url (id ∷ seen) fs) (gather_results parse_url seen fs)
          (λ id. gather_results-Bounded k (id ∷ seen) fs) rest in
      elim (Bool-cases (is_empty (trim f.result.title))) [ inl e ↦ rw e rest | inr e ↦ rw e placed ]

  -- No video is a candidate twice.
  pub gather_results_distinct :
      (k : Text) (fs : List SearchHit)
      → count (text_eq k) (candidate_ids (gather_results parse_url [] fs).candidates) ≤ 1
  gather_results_distinct k fs = omega (arith, gather_results-Bounded k [] fs)

  pub gather_results-Counted :
      (seen : List Text) (fs : List SearchHit) → Counted (gather_results parse_url seen fs)
  unfolding gather_results
  gather_results-Counted seen [] = refl
  gather_results-Counted seen (f ∷ fs) =
      let rest = gather_results-Counted seen fs in
      let placed =
        place_link-Counted f (trim f.result.title) seen (parse_video_link parse_url f.result.link)
          (λ id. gather_results parse_url (id ∷ seen) fs) (gather_results parse_url seen fs)
          (λ id. gather_results-Counted (id ∷ seen) fs) rest in
      elim (Bool-cases (is_empty (trim f.result.title))) [
        | inl e ↦ rw e (omega (arith, rest))
        | inr e ↦ rw e placed
      ]

-- Of the candidates, the filter keeps some.
keep_batch-count :
    (p : Text → Bool) (cs : List VideoCandidate) (vs : List TitleVerdict)
    → count p (map video_id (keep_batch cs vs)) ≤ count p (candidate_ids cs)
unfolding keep_batch
keep_batch-count p [] vs = omega arith
keep_batch-count p (c ∷ cs) [] = omega arith
keep_batch-count p (c ∷ cs) (v ∷ vs) = elim (Bool-cases v.keep) [
  | inl e ↦ rw e (ground (arith, keep_batch-count p cs vs))
  | inr e ↦ rw e (ground (arith, keep_batch-count p cs vs))
]

abbrev pub KeptWithin : (Text → Bool) → ℕ → Stage (List Kept) → Type 0
KeptWithin p n (failed es e) = Unit
KeptWithin p n (passed es ks) = count p (map video_id ks) ≤ n

read_verdicts-KeptWithin :
    (p : Text → Bool) (cs : List VideoCandidate) (r : Reply (Option (List TitleVerdict)))
    → KeptWithin p (count p (candidate_ids cs)) (read_verdicts cs r)
unfolding read_verdicts
read_verdicts-KeptWithin p cs (threw m) = tt
read_verdicts-KeptWithin p cs (replied none) = tt
read_verdicts-KeptWithin p cs (replied (some vs)) = elim (Bool-cases (length vs == length cs)) [
  | inl e ↦ rw e (keep_batch-count p cs vs)
  | inr e ↦ rw e tt
]

and_more-KeptWithin :
    (p : Text → Bool) (m n : ℕ) (s t : Stage (List Kept))
    → KeptWithin p m s
    → KeptWithin p n t
    → KeptWithin p (m + n) (and_more s t)
and_more-KeptWithin p m n (failed es e) t h k = tt
and_more-KeptWithin p m n (passed es ks) (failed fs e) h k = tt
and_more-KeptWithin p m n (passed es ks) (passed fs more) h k =
    rw (map-append video_id ks more)
      (omega (arith, count-append p (map video_id ks) (map video_id more), h, k))

after_sent-KeptWithin :
    (p : Text → Bool) (n : ℕ) (es : List Sent) (s : Stage (List Kept))
    → KeptWithin p n s
    → KeptWithin p n (after_sent es s)
after_sent-KeptWithin p n es (failed fs e) h = tt
after_sent-KeptWithin p n es (passed fs ks) h = h

pub run_filters-KeptWithin :
    (p : Text → Bool) (reply : ℕ → Reply (Option (List TitleVerdict))) (i : ℕ)
    (bs : List (List VideoCandidate))
    → KeptWithin p (count p (candidate_ids (flatten bs))) (run_filters reply i bs)
unfolding run_filters
run_filters-KeptWithin p reply i [] = omega arith
run_filters-KeptWithin p reply i (b ∷ bs) =
    let split : count p (candidate_ids (b ++ flatten bs))
        ≡ count p (candidate_ids b) + count p (candidate_ids (flatten bs)) =
      ap (count p) (map-append (λ (c : VideoCandidate). c.link.video_id) b (flatten bs))
      ∙ count-append p (candidate_ids b) (candidate_ids (flatten bs)) in
    rw split (
      after_sent-KeptWithin p _ (filter_titles (map (λ c. c.title) b) ∷ [])
        (and_more (read_verdicts b (reply i)) (run_filters reply (suc i) bs))
        (and_more-KeptWithin p _ _ (read_verdicts b (reply i)) (run_filters reply (suc i) bs)
          (read_verdicts-KeptWithin p b (reply i)) (run_filters-KeptWithin p reply (suc i) bs)))

fresh_of_existing :
    (k : Text) (existing : List Text) (ks : List Kept)
    → any (text_eq k) existing ≡ true
    → count (text_eq k) (map video_id (fresh_of existing ks)) ≡ 0
unfolding fresh_of
fresh_of_existing k existing [] h = refl
fresh_of_existing k existing (x ∷ ks) h = elim (Bool-cases (any (text_eq (video_id x)) existing)) [
  | inl e ↦ rw e (fresh_of_existing k existing ks h)
  | inr e ↦ elim (Bool-cases (text_eq k (video_id x))) [
    | inl s ↦
        let no : true ≡ false =
          sym (subst (λ y. any (text_eq y) existing ≡ true) ((text_eq_iff k (video_id x)).0 s) h)
          ∙ e in
        cc
    | inr s ↦ rw (e, s) (fresh_of_existing k existing ks h)
  ]
]

fresh_of-le :
    (k : Text) (existing : List Text) (ks : List Kept)
    → count (text_eq k) (map video_id (fresh_of existing ks)) ≤ count (text_eq k) (map video_id ks)
unfolding fresh_of
fresh_of-le k existing [] = omega arith
fresh_of-le k existing (x ∷ ks) = elim (Bool-cases (any (text_eq (video_id x)) existing)) [
  | inl e ↦ rw e (ground (arith, fresh_of-le k existing ks))
  | inr e ↦ rw e (ground (arith, fresh_of-le k existing ks))
]

-- What is fresh of the kept: no more than was kept, and nothing that exists.
pub fresh_of-count :
    (k : Text) (existing : List Text) (ks : List Kept)
    → count (text_eq k) (map video_id ks) ≤ 1
    → count (text_eq k) (map video_id (fresh_of existing ks)) + once k existing ≤ 1
fresh_of-count k existing ks h = elim (Bool-cases (any (text_eq k) existing)) [
  | inl e ↦ rw (e, fresh_of_existing k existing ks e) (omega arith)
  | inr e ↦ rw e (omega (arith, fresh_of-le k existing ks, h))
]
