-- ===== src/Lifecycle/Collect/Due.antt =====
-- What `collect` gives: decisions that are due, and every entry accounted for.
use trend_tree.Sourcing.Context.{Reply}
use trend_tree.Prelude.{
  ℕ, suc, ◌+◌, ◌≡◌, refl, inl, inr, List, [], ◌∷◌, Option, none, some, Bool, true, false, arith,
  Text, text_eq, Double, any, count, count-append, All, All-append, Bool-cases, if◌then◌else◌,
}
use mathlib.Core.List.{map-append}
use trend_tree.Lifecycle.Collect.{
  Response, Outcome, Entry, Parsed, Decision, HeatBase, heat_base_of, is_cancelled, error_key,
  Retry, Sorted, decide, place, place_based, sort_entries, redecide, Retried, place_retry,
  retry_all, collect,
}
use trend_tree.Lifecycle.Collect.Fates.{
  IsClamped, IsDecisionFor, Decided, is_skipped, keys_left, decision_keys, error_keys,
  decide-Decided, redecide-Decided, placed-sort_entries, retried_count-retry_all,
}

-- A decision is of its batch, for a trend that was not applied before, with the heat base of the
-- batch's row, and with clamped hours.
abbrev pub IsDue : Text → List Text → List HeatBase → Decision → Type 0
IsDue batch_name applied bases d =
    (any (text_eq d.trend_id) applied ≡ false)
    × (heat_base_of bases d.trend_id ≡ some d.heat_base)
    × (d.chain_id ≡ batch_name)
    × IsClamped d.next_eval_in_hours

abbrev IsRetryDue : List Text → List HeatBase → Retry → Type 0
IsRetryDue applied bases r =
    (any (text_eq r.key) applied ≡ false) × (heat_base_of bases r.key ≡ some r.base)

IsDecisionFor-IsDue :
    (batch_name key : Text) (applied : List Text) (bases : List HeatBase) (base : Double)
    (d : Decision)
    → any (text_eq key) applied ≡ false
    → heat_base_of bases key ≡ some base
    → IsDecisionFor batch_name key base d
    → IsDue batch_name applied bases d
IsDecisionFor-IsDue batch_name key applied bases base d fresh based h =
    (rw h.0 fresh, rw (h.0, h.1) based, h.2, h.3)

SortedDue : Text → List Text → List HeatBase → Sorted → Type 0
SortedDue batch_name applied bases s =
    All (IsDue batch_name applied bases) s.decisions × All (IsRetryDue applied bases) s.to_retry

RetriedDue : Text → List Text → List HeatBase → Retried → Type 0
RetriedDue batch_name applied bases r = All (IsDue batch_name applied bases) r.decisions

module _ (json_parse : Text → Option Parsed) (batch_name : Text) (applied : List Text)
    (bases : List HeatBase) where
  place-SortedDue :
      (key : Text) (o : Outcome) (base : Double) (d : Option Decision) (rest : Sorted)
      → any (text_eq key) applied ≡ false
      → heat_base_of bases key ≡ some base
      → Decided batch_name key base d
      → SortedDue batch_name applied bases rest
      → SortedDue batch_name applied bases (place key o base d rest)
  unfolding SortedDue
  place-SortedDue key o base none rest fresh based h due = (due.0, ((fresh, based), due.1))
  place-SortedDue key o base (some d) rest fresh based h due =
      ((IsDecisionFor-IsDue batch_name key applied bases base d fresh based h, due.0), due.1)

  place_based-SortedDue :
      (key : Text) (o : Outcome) (b : Option Double) (rest : Sorted)
      → any (text_eq key) applied ≡ false
      → heat_base_of bases key ≡ b
      → SortedDue batch_name applied bases rest
      → SortedDue batch_name applied bases (place_based json_parse batch_name key o b rest)
  unfolding SortedDue
  place_based-SortedDue key o none rest fresh based due = due
  place_based-SortedDue key o (some base) rest fresh based due =
      place-SortedDue key o base (decide json_parse batch_name key base o) rest fresh based
        (decide-Decided json_parse batch_name key base o) due

  not_applied :
      (cancelled was_applied : Bool)
      → (if cancelled then true else was_applied) ≡ false
      → was_applied ≡ false
  not_applied true was_applied h = cc
  not_applied false was_applied h = h

  sort_entries-SortedDue :
      (es : List Entry)
      → SortedDue batch_name applied bases (sort_entries json_parse batch_name applied bases es)
  unfolding sort_entries SortedDue
  sort_entries-SortedDue [] = (tt, tt)
  sort_entries-SortedDue (e ∷ es) = elim (Bool-cases (is_skipped applied e)) [
    | inl s ↦ rw s (sort_entries-SortedDue es)
    | inr s ↦ rw s (
        place_based-SortedDue e.key e.outcome (heat_base_of bases e.key)
          (sort_entries json_parse batch_name applied bases es)
          (not_applied (is_cancelled e) (any (text_eq e.key) applied) s) refl
          (sort_entries-SortedDue es))
  ]

  place_retry-RetriedDue :
      (r : Retry) (reply : Reply Response) (d : Option Decision) (rest : Retried)
      → IsRetryDue applied bases r
      → Decided batch_name r.key r.base d
      → RetriedDue batch_name applied bases rest
      → RetriedDue batch_name applied bases (place_retry r reply d rest)
  unfolding RetriedDue
  place_retry-RetriedDue r reply none rest h g due = due
  place_retry-RetriedDue r reply (some d) rest h g due =
      (IsDecisionFor-IsDue batch_name r.key applied bases r.base d h.0 h.1 g, due)

  retry_all-RetriedDue :
      (reply : ℕ → Reply Response) (i : ℕ) (rs : List Retry)
      → All (IsRetryDue applied bases) rs
      → RetriedDue batch_name applied bases (retry_all json_parse batch_name reply i rs)
  unfolding retry_all RetriedDue
  retry_all-RetriedDue reply i [] h = tt
  retry_all-RetriedDue reply i (r ∷ rs) h =
      place_retry-RetriedDue r (reply i) (redecide json_parse batch_name r (reply i))
        (retry_all json_parse batch_name reply (suc i) rs) h.0
        (redecide-Decided json_parse batch_name r (reply i))
        (retry_all-RetriedDue reply (suc i) rs h.1)

-- Collecting a batch decides for no trend that was applied before, only with the heat base of the
-- batch's row, and with hours between 6 and 168 or no number. The keys of the decisions and of the
-- errors together are those of the entries that are not cancelled and whose trend was not applied
-- before, each as often: whatever the model answers, the first time and at a retry, no such entry
-- is lost and none is decided twice.
pub collect_lem :
    (json_parse : Text → Option Parsed) (batch_name : Text) (applied : List Text)
    (bases : List HeatBase) (entries : List Entry) (reply : ℕ → Reply Response)
    → let result = collect json_parse batch_name applied bases entries reply in
      All (IsDue batch_name applied bases) result.decisions
      × ((p : Text → Bool)
          → count p (decision_keys result.decisions) + count p (error_keys result.errors)
            ≡ count p (keys_left applied entries))
unfolding collect SortedDue RetriedDue
collect_lem json_parse batch_name applied bases entries reply =
    let first = sort_entries json_parse batch_name applied bases entries in
    let second = retry_all json_parse batch_name reply 0 first.to_retry in
    let due = sort_entries-SortedDue json_parse batch_name applied bases entries in
    (
      All-append (IsDue batch_name applied bases) first.decisions second.decisions due.0
          (retry_all-RetriedDue json_parse batch_name applied bases reply 0 first.to_retry due.1),
      λ p.
          rw
            (
              map-append (λ (d : Decision). d.trend_id) first.decisions second.decisions,
              map-append error_key first.errors second.errors,
            )
            (omega (
              arith,
              count-append p (decision_keys first.decisions) (decision_keys second.decisions),
              count-append p (error_keys first.errors) (error_keys second.errors),
              placed-sort_entries json_parse p batch_name applied bases entries,
              retried_count-retry_all json_parse p batch_name reply 0 first.to_retry,
            )),
    )
