-- ===== src/Promotion/Verdict/Shapes.antt =====
-- What the prompt sees of a verdict, and that it resolves to itself.
use trend_tree.Prelude.{
  ℕ, ◌≡◌, ◌≢◌, [], true, false, Option, none, some, Text, starts_with, is_short_id, is_space,
}
use trend_tree.Promotion.Verdict.{
  duplicate_of, duplicate_of_prefix, is_allowed, Fault, Verdict, Resolved, refused, resolved,
  resolve_distillation_verdict,
}

abbrev IsSolid : ℕ → Type 0
IsSolid c = is_space c ≡ false

-- An id that the class `[A-Za-z0-9_\-]{1,64}` admits.
abbrev pub IsUsable : Text → Type 0
IsUsable t = is_short_id 64 t ≡ true

-- A target is usable.
abbrev pub HasUsable : Option Text → Type 0
HasUsable none = Unit
HasUsable (some t) = IsUsable t

-- The verdict that the prompt sees resolves again, to the same prompt and the same kind.
abbrev pub IsSettled : Verdict → Type 0
IsSettled r =
    (again : Verdict) × (resolve_distillation_verdict r.prompt_verdict [] ≡ resolved again)
    × (again.prompt_verdict ≡ r.prompt_verdict)
    × (again.is_duplicate_of ≡ r.is_duplicate_of)

-- What a resolution of the trimmed text `raw` says.
abbrev pub IsRoutable : Text → Resolved → Type 0
IsRoutable raw (refused Fault.missing_verdict) = raw ≡ []
IsRoutable raw (refused (Fault.unknown_verdict v)) =
    (v ≡ raw)
    × (v ≢ duplicate_of)
    × (starts_with v duplicate_of_prefix ≡ false)
    × (is_allowed v ≡ false)
IsRoutable raw (resolved r) =
    (r.verdict ≡ raw)
    × (starts_with r.prompt_verdict duplicate_of_prefix ≡ r.is_duplicate_of)
    × HasUsable r.dedup_target
    × IsSettled r

abbrev Settles : Text → Type 0
Settles raw =
    resolve_distillation_verdict raw []
    ≡ resolved (record {
      verdict = raw;
      is_duplicate_of = false;
      dedup_target = none;
      prompt_verdict = raw;
    })
