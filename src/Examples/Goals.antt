-- ===== src/Examples/Goals.antt =====
-- The proofs of a goal and the navigation URLs of authenticated authoring, at concrete inputs.
use browsertools.Prelude.{◌≡◌, refl, some, pos, [], ◌∷◌, bytes, bytes_eq}
use browsertools.Text.{
  has_prefix, without_prefix, contains_text, contains_any, split, are_sorted, insert_sorted,
  sort_strings, equal_strings,
}
use browsertools.Label.{
  prompt_injection_phrases, is_placeholder, reason_for_canonicalization, mentions_phrase,
  is_sensitive, reduce_accessibility_label, safe_candidate_label,
}
use browsertools.Disclosure.{
  path_unescape, unsafe_segment, decoded_ok, segment_ok, segments_ok, validate_path,
}
use browsertools.RegistrationUrl.{
  contains_template, portable_query_key, is_plain_url, is_sensitive_key, unsafe_value,
  query_item_ok, query_ok, canonical_query, query_part, parse,
}
use browsertools.AuthorUrl.{parse_origin, is_loopback_address, navigable, normalize_on, normalize}
use browsertools.AuthorSession.Types.{normalized_context}
use browsertools.AuthorSession.Origins.{
  exact_origin, clean_absolute_url, origin_for_url, clean_protocol_url, dashboard_matches, add_key,
  within_limits, validate_bounds, normalized_bounds,
}
use browsertools.AuthorSession.Vocabulary.{
  is_identifier, is_diagnostic, kinds_ok, validate_challenge_kinds, normalized_challenge_kinds,
  promotable_label, default_title,
}
use browsertools.AuthorSession.Goal.{
  fitting, only_match, match_goal, priority, insert_by_priority, sort_by_priority, matches_like,
  first_success, authentication_success_proof,
}
use browsertools.Prelude.{bytes_eq, bytes_lt}
use browsertools.Registration.Server.{lookup, put}
use browsertools.Registration.Reduce.{is_portable_role}
use browsertools.AuthorSession.Types.{Candidate, Observation, GoalPredicate, GoalProof}
use browsertools.AuthorSession.Goal.Proofs.{IsSole}
use browsertools.AuthorSession.Goal.Success.{
  IsAt, IsGoal, IsAlone, match_goal-IsSole, authentication_success_proof-IsSole,
}
use browsertools.AuthorUrl.Normal.{IsNavigation, normalize-IsNavigation}
use browsertools.Examples.World.{lib, site, page}
use browsertools.Examples.AuthorWorld.{urls}

abbrev row : Candidate
row = record { id = bytes "r"; role = bytes "row"; label = bytes "Paid"; matches = pos 1 }

abbrev heading : Candidate
heading = record { id = bytes "h"; role = bytes "heading"; label = bytes "Orders"; matches = pos 1 }

abbrev dashboard : Observation
dashboard = record {
  origin = site;
  path = bytes "/join";
  context = bytes "main";
  contexts = [];
  candidates = row ∷ heading ∷ [];
  diagnostics = [];
}

-- The goal is another page, or the paid row of this one.
abbrev elsewhere : GoalPredicate
elsewhere = record {
  origin = site;
  path = bytes "/done";
  context = [];
  role = bytes "row";
  label = [];
}

abbrev paid : GoalPredicate
paid = record elsewhere { path = bytes "/join"; label = bytes "Paid" }

abbrev proof_for : Candidate → GoalProof
proof_for c = record {
  origin = site;
  path = bytes "/join";
  context = bytes "main";
  role = c.role;
  label = c.label;
  matches = pos 1;
}

paid-matches : match_goal paid dashboard ≡ some (proof_for row)
unfolding has_prefix without_prefix contains_text contains_any split are_sorted insert_sorted
    sort_strings equal_strings prompt_injection_phrases is_placeholder reason_for_canonicalization
    mentions_phrase is_sensitive reduce_accessibility_label safe_candidate_label path_unescape
    unsafe_segment decoded_ok segment_ok segments_ok validate_path contains_template
    portable_query_key is_plain_url is_sensitive_key unsafe_value query_item_ok query_ok
    canonical_query query_part parse parse_origin is_loopback_address navigable normalize_on
    normalize normalized_context exact_origin clean_absolute_url origin_for_url clean_protocol_url
    dashboard_matches add_key within_limits validate_bounds normalized_bounds is_identifier
    is_diagnostic kinds_ok validate_challenge_kinds normalized_challenge_kinds promotable_label
    default_title fitting only_match match_goal priority insert_by_priority sort_by_priority
    matches_like first_success authentication_success_proof bytes_eq bytes_lt lookup put
    is_portable_role
paid-matches = refl

heading-found : authentication_success_proof dashboard elsewhere ≡ some (proof_for heading)
unfolding has_prefix without_prefix contains_text contains_any split are_sorted insert_sorted
    sort_strings equal_strings prompt_injection_phrases is_placeholder reason_for_canonicalization
    mentions_phrase is_sensitive reduce_accessibility_label safe_candidate_label path_unescape
    unsafe_segment decoded_ok segment_ok segments_ok validate_path contains_template
    portable_query_key is_plain_url is_sensitive_key unsafe_value query_item_ok query_ok
    canonical_query query_part parse parse_origin is_loopback_address navigable normalize_on
    normalize normalized_context exact_origin clean_absolute_url origin_for_url clean_protocol_url
    dashboard_matches add_key within_limits validate_bounds normalized_bounds is_identifier
    is_diagnostic kinds_ok validate_challenge_kinds normalized_challenge_kinds promotable_label
    default_title fitting only_match match_goal priority insert_by_priority sort_by_priority
    matches_like first_success authentication_success_proof bytes_eq bytes_lt lookup put
    is_portable_role
heading-found = refl

match_goal-IsSole_example :
    IsSole (proof_for row) dashboard.candidates
    × IsAt dashboard (proof_for row)
    × IsGoal paid (proof_for row)
    × IsAlone paid (proof_for row) dashboard.candidates
match_goal-IsSole_example = match_goal-IsSole paid dashboard (proof_for row) paid-matches

authentication_success_proof-IsSole_example :
    IsSole (proof_for heading) dashboard.candidates × IsAt dashboard (proof_for heading)
authentication_success_proof-IsSole_example =
    authentication_success_proof-IsSole dashboard elsewhere (proof_for heading) refl heading-found

page-normal : normalize lib urls page ≡ some (page, site)
unfolding has_prefix without_prefix contains_text contains_any split are_sorted insert_sorted
    sort_strings equal_strings prompt_injection_phrases is_placeholder reason_for_canonicalization
    mentions_phrase is_sensitive reduce_accessibility_label safe_candidate_label path_unescape
    unsafe_segment decoded_ok segment_ok segments_ok validate_path contains_template
    portable_query_key is_plain_url is_sensitive_key unsafe_value query_item_ok query_ok
    canonical_query query_part parse parse_origin is_loopback_address navigable normalize_on
    normalize normalized_context exact_origin clean_absolute_url origin_for_url clean_protocol_url
    dashboard_matches add_key within_limits validate_bounds normalized_bounds is_identifier
    is_diagnostic kinds_ok validate_challenge_kinds normalized_challenge_kinds promotable_label
    default_title fitting only_match match_goal priority insert_by_priority sort_by_priority
    matches_like first_success authentication_success_proof bytes_eq bytes_lt lookup put
    is_portable_role
page-normal = refl

normalize-IsNavigation_example : IsNavigation lib urls page page site
normalize-IsNavigation_example = normalize-IsNavigation lib urls page page site page-normal
