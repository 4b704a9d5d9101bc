-- ===== src/Promotion/Fanout/Delivery.antt =====
-- What the workers do with the targets, in every interleaving.
use trend_tree.Prelude.{
  ℕ, suc, ◌+◌, ◌≤◌, ◌<◌, ◌≡◌, refl, ap, ◌∙◌, ◌⊎◌, inl, inr, List, [], ◌∷◌, ◌++◌, Bool, arith, ◌&&◌,
  not, true, false, count, count-append, length, length-append,
}
use trend_tree.Promotion.Targets.{Target}
use trend_tree.Promotion.Fanout.{
  Fanout, worker_count, Step, take_next, answer, refuse, read_body, body_fault, fault, Reach, start,
  more, fan_out,
}

-- How many of the responses, and of those that were not ok, are for targets that pass a test.
abbrev pub answers : (Target → Bool) → Fanout → ℕ
answers p s = count (λ a. p a.target) s.dispatched

abbrev pub refusals : (Target → Bool) → Fanout → ℕ
refusals p s = count (λ a. not a.ok && p a.target) s.dispatched

-- How many of the targets that pass a test wait, are under way or have a response.
abbrev pub taken : (Target → Bool) → Fanout → ℕ
taken p s = count p s.left + count p s.busy + answers p s

-- For the targets that pass a test: none has more than one POST; each waits, is under way or is in
-- a list of results; and one is in both lists only after a response that was not ok, whose body is
-- not being read any more.
pub record Accounts (targets : List Target) (s : Fanout) (p : Target → Bool) : Type 0 where
  pub once : taken p s ≤ count p targets
  pub kept : count p targets ≤ taken p s + count p s.errors
  pub twice : taken p s + count p s.errors + count p s.reading ≤ count p targets + refusals p s

-- What is still to be done: three steps for a target that waits, two for one under way, and one
-- for a body that is being read.
abbrev pub work : Fanout → ℕ
work s =
    length s.left
    + length s.left
    + length s.left
    + (length s.busy + length s.busy)
    + length s.reading

count-middle :
    (p : Target → Bool) (before after : List Target) (t : Target)
    → count p (before ++ t ∷ after) ≡ count p (before ++ after) + count p (t ∷ [])
count-middle p before after t = omega (
  arith,
  count-append p before (t ∷ after),
  count-append p before after,
  count-append p (t ∷ []) after,
)

length-middle :
    (before after : List Target) (t : Target)
    → length (before ++ t ∷ after) ≡ suc (length (before ++ after))
length-middle before after t =
    omega (arith, length-append before (t ∷ after), length-append before after)

-- The counts and the length of a list before and after a target is taken out of it.
taken_out :
    (p : Target → Bool) (xs before after : List Target) (t : Target)
    → xs ≡ before ++ t ∷ after
    → (count p xs ≡ count p (before ++ after) + count p (t ∷ []))
      × (length xs ≡ suc (length (before ++ after)))
taken_out p xs before after t e =
    (ap (count p) e ∙ count-middle p before after t, ap length e ∙ length-middle before after t)

module _ (targets : List Target) (p : Target → Bool) (w : ℕ) (s : Fanout) where
  Step-Accounts : (u : Fanout) → Step w s u → Accounts targets s p → Accounts targets u p
  Step-Accounts _ (take_next t ts e h) a =
      let l = ap (count p) e in
      let one = count-append p (t ∷ []) ts in
      let b = count-append p s.busy (t ∷ []) in
      record {
        once = omega (arith, l, one, b, a.once);
        kept = omega (arith, l, one, b, a.kept);
        twice = omega (arith, l, one, b, a.twice);
      }
  Step-Accounts _ (answer before after t e) a =
      let b = (taken_out p s.busy before after t e).0 in
      let as' =
        count-append (λ a. p a.target) s.dispatched (record { target = t; ok = true } ∷ []) in
      let rs =
        count-append (λ a. not a.ok && p a.target) s.dispatched
          (record { target = t; ok = true } ∷ []) in
      record {
        once = omega (arith, b, as', a.once);
        kept = omega (arith, b, as', a.kept);
        twice = omega (arith, b, as', rs, a.twice);
      }
  Step-Accounts _ (refuse before after t e) a =
      let b = (taken_out p s.busy before after t e).0 in
      let as' =
        count-append (λ a. p a.target) s.dispatched (record { target = t; ok = false } ∷ []) in
      let rs =
        count-append (λ a. not a.ok && p a.target) s.dispatched
          (record { target = t; ok = false } ∷ []) in
      let r = count-append p s.reading (t ∷ []) in
      record {
        once = omega (arith, b, as', a.once);
        kept = omega (arith, b, as', a.kept);
        twice = omega (arith, b, as', rs, r, a.twice);
      }
  Step-Accounts _ (read_body before after t e) a =
      let r = (taken_out p s.reading before after t e).0 in
      record { once = a.once; kept = a.kept; twice = omega (arith, r, a.twice) }
  Step-Accounts _ (body_fault before after t e) a =
      let r = (taken_out p s.reading before after t e).0 in
      let es = count-append p s.errors (t ∷ []) in
      record {
        once = a.once;
        kept = omega (arith, es, a.kept);
        twice = omega (arith, r, es, a.twice);
      }
  Step-Accounts _ (fault before after t e) a =
      let b = (taken_out p s.busy before after t e).0 in
      let es = count-append p s.errors (t ∷ []) in
      record {
        once = omega (arith, b, a.once);
        kept = omega (arith, b, es, a.kept);
        twice = omega (arith, b, es, a.twice);
      }

  -- A step takes work off, and no step gives a further worker something to do.
  Step-work :
      (u : Fanout)
      → Step w s u
      → (suc (work u) ≤ work s)
        × (length s.busy + length s.reading ≤ w → length u.busy + length u.reading ≤ w)
  Step-work _ (take_next t ts e h) =
      let l = ap length e in
      let b = length-append s.busy (t ∷ []) in (omega (arith, l, b), λ few. omega (arith, b, h))
  Step-work _ (answer before after t e) =
      let b = (taken_out p s.busy before after t e).1 in
      (omega (arith, b), λ few. omega (arith, b, few))
  Step-work _ (refuse before after t e) =
      let b = (taken_out p s.busy before after t e).1 in
      let r = length-append s.reading (t ∷ []) in
      (omega (arith, b, r), λ few. omega (arith, b, r, few))
  Step-work _ (read_body before after t e) =
      let r = (taken_out p s.reading before after t e).1 in
      (omega (arith, r), λ few. omega (arith, r, few))
  Step-work _ (body_fault before after t e) =
      let r = (taken_out p s.reading before after t e).1 in
      (omega (arith, r), λ few. omega (arith, r, few))
  Step-work _ (fault before after t e) =
      let b = (taken_out p s.busy before after t e).1 in
      (omega (arith, b), λ few. omega (arith, b, few))

-- What holds in every state that the workers reach.
Reach-Accounts :
    (workers : ℕ) (targets : List Target) (n : ℕ) (s : Fanout)
    → Reach workers (fan_out targets) n s
    → ((p : Target → Bool) → Accounts targets s p)
      × (length s.busy + length s.reading ≤ workers)
      × (n + work s ≤ length targets + length targets + length targets)
Reach-Accounts workers targets _ _ start = (
  λ p. record { once = omega arith; kept = omega arith; twice = omega arith },
  omega arith,
  omega arith,
)
Reach-Accounts workers targets _ _ (more n t u r step) =
    let (right, few, steps) = Reach-Accounts workers targets n t r in
    let (less, still_few) = Step-work targets (λ _. true) workers t u step in
    (
      (λ p. Step-Accounts targets p workers t u step (right p)),
      still_few few,
      omega (arith, steps, less),
    )

-- A state in which no worker has anything to do: each target has an answer or an error, at most
-- one answer, and both only if the answer was not ok.
abbrev pub IsOver : List Target → Fanout → Type 0
IsOver targets s =
    (s.left ≡ [])
    × (s.busy ≡ [])
    × (s.reading ≡ [])
    × ((p : Target → Bool)
        → (answers p s ≤ count p targets)
          × (count p targets ≤ answers p s + count p s.errors)
          × (answers p s + count p s.errors ≤ count p targets + refusals p s))

worker_count-pos : (targets : List Target) → 0 < length targets → 0 < worker_count targets
unfolding worker_count
worker_count-pos targets h = omega (arith, h)

worker_count-le : (targets : List Target) → worker_count targets ≤ 5
unfolding worker_count
worker_count-le targets = omega arith

-- With its lists known, a state is over or a worker can step.
next_step :
    (targets : List Target) (n : ℕ) (s : Fanout) (left busy reading : List Target)
    → s.left ≡ left
    → s.busy ≡ busy
    → s.reading ≡ reading
    → ((p : Target → Bool) → Accounts targets s p)
    → n + work s ≤ length targets + length targets + length targets
    → IsOver targets s ⊎ ((u : Fanout) × Step (worker_count targets) s u)
next_step targets n s left (t ∷ busy) reading f e g right steps = inr (_, fault [] busy t e)
next_step targets n s left [] (t ∷ reading) f e g right steps = inr (_, read_body [] reading t g)
next_step targets n s [] [] [] f e g right steps = inl (
  f,
  e,
  g,
  λ p.
      let l = ap (count p) f in
      let b = ap (count p) e in
      let r = ap (count p) g in
      let a = right p in
      (omega (arith, a.once, l, b), omega (arith, a.kept, l, b), omega (arith, a.twice, l, b, r)),
)
next_step targets n s (t ∷ left) [] [] f e g right steps =
    let some_target : 0 < length targets = omega (arith, steps, ap length f) in
    let free : length s.busy + length s.reading < worker_count targets =
      omega (arith, worker_count-pos targets some_target, ap length e, ap length g) in
    inr (_, take_next t left f free)

-- In whatever order the workers take targets, their POSTs end and the bodies of their refusals are
-- read, at most five workers are busy; each target has at most one POST, waits, is under way or is
-- in a list of results, and is in both lists only after a response that was not ok; and at most
-- three steps are taken for each target. The workers never block: as long as they are not done
-- some worker can step, and when they are done every target has an answer or an error, at most one
-- answer, and both only if the answer was not ok.
pub fan_out_lem :
    (targets : List Target) (n : ℕ) (s : Fanout)
    → Reach (worker_count targets) (fan_out targets) n s
    → (length s.busy + length s.reading ≤ 5)
      × ((p : Target → Bool) → Accounts targets s p)
      × (n ≤ length targets + length targets + length targets)
      × (IsOver targets s ⊎ ((u : Fanout) × Step (worker_count targets) s u))
fan_out_lem targets n s r =
    let (right, few, steps) = Reach-Accounts (worker_count targets) targets n s r in
    (
      omega (arith, few, worker_count-le targets),
      right,
      omega (arith, steps),
      next_step targets n s s.left s.busy s.reading refl refl refl right steps,
    )
