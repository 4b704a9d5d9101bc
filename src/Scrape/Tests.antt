-- ===== src/Scrape/Tests.antt =====
-- The ids of two jobs, and the theorem about them.
use trend_tree.Prelude.{◌≡◌, ◌↔◌, refl, Text, lit, text_eq, is_short_id}
use trend_tree.Scrape.JobId.{
  JobParts, refused, accepted, wrong_form, unknown_vendor, is_vendor, is_platform, assert_parts,
  format_job_id, cut, parse_rest, parse_cut, parse_job_id,
}
use trend_tree.Scrape.JobId.RoundTrip.{format_job_id-parse_job_id}

abbrev parts : JobParts
parts = record { vendor = lit "bd"; platform = lit "tiktok"; handle = lit "s_m1a2b3c4" }

abbrev job_id : Text
job_id = lit "bd.tiktok.s_m1a2b3c4"

job_id-issued : format_job_id parts ≡ accepted job_id
unfolding text_eq is_short_id is_vendor is_platform assert_parts format_job_id
job_id-issued = refl

no_dot-refused : parse_job_id (lit "bd-tiktok") ≡ refused wrong_form
unfolding cut parse_rest parse_cut parse_job_id
no_dot-refused = refl

other-refused : parse_job_id (lit "x.tiktok.s1") ≡ refused (unknown_vendor (lit "x"))
unfolding text_eq is_short_id is_vendor is_platform assert_parts cut parse_rest parse_cut
    parse_job_id
other-refused = refl

format_job_id-parse_job_id_example :
    (format_job_id parts ≡ accepted job_id) ↔ (parse_job_id job_id ≡ accepted parts)
format_job_id-parse_job_id_example = format_job_id-parse_job_id parts job_id
