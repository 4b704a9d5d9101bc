-- ===== src/Scrape/JobId.antt =====
-- `scrape_job_id.mjs`: a job's id names its vendor, its platform and the vendor's own handle.
pub mod RoundTrip
use trend_tree.Prelude.{
  ℕ, List, [], ◌∷◌, ◌++◌, Option, none, some, Bool, true, false, not, ◌||◌, Text, lit, text_eq,
  is_empty, is_short_id, ◌==◌, if◌then◌else◌,
}

pub record JobParts : Type 0 where
  pub vendor : Text
  pub platform : Text
  pub handle : Text

-- `VENDORS.has(v)`
unfoldable pub is_vendor : Text → Bool
is_vendor v = text_eq v (lit "bd") || text_eq v (lit "apify")

-- `PLATFORMS.has(p)`
unfoldable pub is_platform : Text → Bool
is_platform p =
    text_eq p (lit "tiktok") || text_eq p (lit "reddit") || text_eq p (lit "kickstarter")

-- The messages of an `InvalidJobIdError`.
pub data Fault : Type 0 where
  empty_id wrong_form : Fault
  unknown_vendor unknown_platform malformed_handle : Text → Fault

-- A result, or what is thrown.
pub data Checked (A : Type 0) : Type 0 where
  refused : Fault → Checked A
  accepted : A → Checked A

-- None passes.
unfoldable pub assert_parts : JobParts → Option Fault
assert_parts p =
    if not (is_vendor p.vendor)
    then some (unknown_vendor p.vendor)
    else if not (is_platform p.platform)
    then some (unknown_platform p.platform)
    else if not (is_short_id 128 p.handle)
    then some (malformed_handle p.handle)
    else none

abbrev pub unless : {A : Type 0} → Option Fault → A → Checked A
unless none a = accepted a
unless (some f) a = refused f

abbrev pub joined : JobParts → Text
joined p = p.vendor ++ b'.' ∷ (p.platform ++ b'.' ∷ p.handle)

unfoldable pub format_job_id : JobParts → Checked Text
format_job_id p = unless (assert_parts p) (joined p)

pub record Cut : Type 0 where
  pub before : Text
  pub after : Text

abbrev pub prepend : ℕ → Option Cut → Option Cut
prepend c none = none
prepend c (some k) = some (record k { before = c ∷ k.before })

-- The text before the first dot and the text after it.
unfoldable pub cut : Text → Option Cut
cut [] = none
cut (c ∷ cs) = if c == b'.' then some (record { before = []; after = cs }) else prepend c (cut cs)

abbrev pub checked : JobParts → Checked JobParts
checked p = unless (assert_parts p) p

-- From the second dot.
unfoldable pub parse_rest : Text → Option Cut → Checked JobParts
parse_rest vendor none = refused wrong_form
parse_rest vendor (some k) =
    checked (record { vendor = vendor; platform = k.before; handle = k.after })

-- From the first dot.
unfoldable pub parse_cut : Option Cut → Checked JobParts
parse_cut none = refused wrong_form
parse_cut (some k) = parse_rest k.before (cut k.after)

unfoldable pub parse_job_id : Text → Checked JobParts
parse_job_id id = if is_empty id then refused empty_id else parse_cut (cut id)
