-- ===== src/Lifecycle/Collect/Fates.antt =====
-- Every entry of a batch is skipped, decided or reported, once.
use trend_tree.Sourcing.Context.{Reply, replied, threw}
use trend_tree.Prelude.{
  ℕ, suc, ◌+◌, ◌≡◌, refl, ◌∙◌, inl, inr, List, [], ◌∷◌, map, Option, none, some, Bool, true, false,
  not, arith, Text, text_eq, Double, nan, num, lt_double, ltb, any, count, filter, Bool-cases,
  if◌then◌else◌,
}
use trend_tree.Lifecycle.Collect.{
  Response, Outcome, failed, responded, Entry, Parsed, parsed_object, parsed_other, Decision,
  least_hours, most_hours, clamp_next_eval, HeatBase, heat_base_of, is_cancelled, BatchError,
  error_key, Retry, Sorted, answer_text, decision_of, build_decision, decide, place, place_based,
  sort_entries, redecide, Retried, place_retry, retry_all,
}

-- The hours are between 6 and 168, or no number.
abbrev pub IsClamped : Double → Type 0
IsClamped h = (lt_double h least_hours ≡ false) × (lt_double most_hours h ≡ false)

clamp_next_eval-IsClamped : (h : Double) → IsClamped (clamp_next_eval h)
unfolding clamp_next_eval lt_double
clamp_next_eval-IsClamped nan = (refl, refl)
clamp_next_eval-IsClamped (num h) = elim (Bool-cases (ltb h 0xc018000000000000)) [
  | inl e ↦ rw e (refl, refl)
  | inr e ↦ elim (Bool-cases (ltb 0xc065000000000000 h)) [
    | inl f ↦ rw (e, f) (refl, refl)
    | inr f ↦ rw (e, f) (e, f)
  ]
]

-- The decision is one of the batch, for the key.
abbrev pub IsDecisionFor : Text → Text → Double → Decision → Type 0
IsDecisionFor batch_name key base d =
    (d.trend_id ≡ key)
    × (d.heat_base ≡ base)
    × (d.chain_id ≡ batch_name)
    × IsClamped d.next_eval_in_hours

abbrev pub Decided : Text → Text → Double → Option Decision → Type 0
Decided batch_name key base none = Unit
Decided batch_name key base (some d) = IsDecisionFor batch_name key base d

-- The entry is not looked at.
abbrev pub is_skipped : List Text → Entry → Bool
is_skipped applied e = if is_cancelled e then true else any (text_eq e.key) applied

-- The keys of the entries that are looked at.
abbrev pub keys_left : List Text → List Entry → List Text
keys_left applied es = map (λ e. e.key) (filter (λ e. not (is_skipped applied e)) es)

abbrev pub decision_keys : List Decision → List Text
decision_keys = map (λ d. d.trend_id)

abbrev pub error_keys : List BatchError → List Text
error_keys = map error_key

abbrev pub retry_keys : List Retry → List Text
retry_keys = map (λ r. r.key)

-- How many keys in the three lists pass a test.
abbrev pub placed : (Text → Bool) → Sorted → ℕ
placed p s =
    count p (decision_keys s.decisions)
    + count p (error_keys s.errors)
    + count p (retry_keys s.to_retry)

module _ (json_parse : Text → Option Parsed) where
  build_decision-Decided :
      (key : Text) (base : Double) (batch_name : Text) (r : Response)
      → Decided batch_name key base (build_decision json_parse key base batch_name r)
  unfolding build_decision
  build_decision-Decided key base batch_name r = by_parsed (json_parse (answer_text r))
    where
      by_parsed :
          (p : Option Parsed) → Decided batch_name key base (decision_of key base batch_name r p)
      by_parsed none = tt
      by_parsed (some parsed_other) = tt
      by_parsed (some (parsed_object json hours)) =
          (refl, refl, refl, clamp_next_eval-IsClamped hours)

  pub decide-Decided :
      (batch_name key : Text) (base : Double) (o : Outcome)
      → Decided batch_name key base (decide json_parse batch_name key base o)
  unfolding decide
  decide-Decided batch_name key base (failed err) = tt
  decide-Decided batch_name key base (responded r) = build_decision-Decided key base batch_name r

  placed-place :
      (p : Text → Bool) (batch_name key : Text) (o : Outcome) (base : Double) (d : Option Decision)
      (rest : Sorted)
      → Decided batch_name key base d
      → placed p (place key o base d rest) ≡ (if p key then suc (placed p rest) else placed p rest)
  placed-place p batch_name key o base none rest h = ground arith
  placed-place p batch_name key o base (some d) rest h = rw h.0 (ground arith)

  placed-place_based :
      (p : Text → Bool) (batch_name key : Text) (o : Outcome) (b : Option Double) (rest : Sorted)
      → placed p (place_based json_parse batch_name key o b rest)
        ≡ (if p key then suc (placed p rest) else placed p rest)
  placed-place_based p batch_name key o none rest = ground arith
  placed-place_based p batch_name key o (some base) rest =
      placed-place p batch_name key o base (decide json_parse batch_name key base o) rest
        (decide-Decided batch_name key base o)

  pub placed-sort_entries :
      (p : Text → Bool) (batch_name : Text) (applied : List Text) (bases : List HeatBase)
      (es : List Entry)
      → placed p (sort_entries json_parse batch_name applied bases es)
        ≡ count p (keys_left applied es)
  unfolding sort_entries
  placed-sort_entries p batch_name applied bases [] = omega arith
  placed-sort_entries p batch_name applied bases (e ∷ es) =
      let rest = placed-sort_entries p batch_name applied bases es in
      elim (Bool-cases (is_skipped applied e)) [
        | inl s ↦ rw s rest
        | inr s ↦ rw s (
            placed-place_based p batch_name e.key e.outcome (heat_base_of bases e.key)
              (sort_entries json_parse batch_name applied bases es)
            ∙ rw rest refl)
      ]

  abbrev pub retried_count : (Text → Bool) → Retried → ℕ
  retried_count p r = count p (decision_keys r.decisions) + count p (error_keys r.errors)

  pub redecide-Decided :
      (batch_name : Text) (r : Retry) (reply : Reply Response)
      → Decided batch_name r.key r.base (redecide json_parse batch_name r reply)
  unfolding redecide
  redecide-Decided batch_name r (threw m) = tt
  redecide-Decided batch_name r (replied response) =
      build_decision-Decided r.key r.base batch_name response

  retried_count-place_retry :
      (p : Text → Bool) (batch_name : Text) (r : Retry) (reply : Reply Response)
      (d : Option Decision) (rest : Retried)
      → Decided batch_name r.key r.base d
      → retried_count p (place_retry r reply d rest)
        ≡ (if p r.key then suc (retried_count p rest) else retried_count p rest)
  retried_count-place_retry p batch_name r reply none rest h = ground arith
  retried_count-place_retry p batch_name r reply (some d) rest h = rw h.0 (ground arith)

  pub retried_count-retry_all :
      (p : Text → Bool) (batch_name : Text) (reply : ℕ → Reply Response) (i : ℕ) (rs : List Retry)
      → retried_count p (retry_all json_parse batch_name reply i rs) ≡ count p (retry_keys rs)
  unfolding retry_all
  retried_count-retry_all p batch_name reply i [] = omega arith
  retried_count-retry_all p batch_name reply i (r ∷ rs) =
      retried_count-place_retry p batch_name r (reply i)
        (redecide json_parse batch_name r (reply i))
        (retry_all json_parse batch_name reply (suc i) rs) (redecide-Decided batch_name r (reply i))
      ∙ rw (retried_count-retry_all p batch_name reply (suc i) rs) refl
