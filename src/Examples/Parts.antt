-- ===== src/Examples/Parts.antt =====
-- The theorems about the parts, at concrete inputs.
use browsertools.Prelude.{
  ◌≡◌, ◌≤◌, ◌↔◌, ◌⊎◌, refl, pos, true, false, Option, none, some, List, [], ◌∷◌, ◌++◌, Bytes, bytes,
  bytes_eq, bytes_lt, member, length,
}
use browsertools.Text.{
  has_prefix, without_prefix, contains_text, contains_any, split, are_sorted, insert_sorted,
  sort_strings, equal_strings,
}
use browsertools.Search.{search_loop, search_strings, contains}
use browsertools.Label.{
  prompt_injection_phrases, is_placeholder, reason_for_canonicalization, mentions_phrase,
  is_sensitive, reduce_accessibility_label, safe_candidate_label,
}
use browsertools.Disclosure.{
  path_unescape, unsafe_segment, decoded_ok, segment_ok, segments_ok, validate_path,
}
use browsertools.RegistrationUrl.{
  contains_template, portable_query_key, is_plain_url, is_sensitive_key, unsafe_value,
  query_item_ok, query_ok, canonical_query, query_part, parse,
}
use browsertools.Registration.Origins.{
  ascii_only, no_repeats, exact_origin, clean_url_for_protocol, validate_navigation_url,
  normalize_origins,
}
use browsertools.Registration.Bounds.{validate_bounds, normalized_bounds}
use browsertools.Registration.Control.{
  max_safe_number, number_ok, public_text, options_ok, validate_control_metadata,
  human_control_label, promotable_candidate, action_ok, validate_preview,
}
use browsertools.Registration.Verification.{
  matches_verification, validate_verification_observation, validate_verification_authority,
  verification_equal, validate_network_summary, provider_traffic_ok, no_authority,
  validate_network_summary_for_protocol,
}
use browsertools.Registration.Server.{new_server, ◌>>=◌, ◌>>◌, lookup, put}
use browsertools.Registration.Reduce.{
  is_portable_role, valid_diagnostic, insert_candidate, sort_candidates, same_locator, candidate_id,
  raw_ok, keep_control, keep_verification, plain_candidate, reduce_candidate, reduce_candidates,
  merge_diagnostics, add_records, candidate_records, reduce_codes, reduce_checked,
  reduce_observation,
}
use browsertools.Registration.Actions.{
  write, close_session, fail_after_close, fail, require, require_some, fail_browser, with_active,
  browser_call,
}
use browsertools.Registration.Handlers.{
  is_identifier, open_browser, open_session, start, remember, reduce_raw, observe, navigate,
  preview, approve_verification,
}
use browsertools.Registration.Review.{
  history_candidates, count_bound, portable_locator, count_submits, validate_reviewed_submit,
  profile_origins, validate_retained_navigation, review_candidates,
}
use browsertools.Registration.Evidence.{
  step_locator, same_text_locator, credential_ok, fill_ok, clicked_page, all_used, candidate_ok,
  add_checked, observation_ok, history_records, previews_ok, bound_ok, inputs_ok, after_click,
}
use browsertools.Registration.Binding.{
  walk_step, walk_steps, validate_verification_evidence, validate_typed_evidence,
}
use browsertools.Registration.Session.{
  review_choice, review, complete, finish, close_without_result,
}
use browsertools.Registration.Serve.{
  client_fields, allowed_fields, decode_client_message, phase_messages, is_extension, is_known,
  is_admitted, capabilities, dispatch, handle_open, handle, give_up, after_message, end_of_lines,
  serve_lines, after_hello, serve,
}
use browsertools.Registration.Types
use browsertools.Registration.Types.{
  Protocol, v1, v4, Bounds, NetworkSummary, HumanVerification, Candidate, PreviewRequest,
  ControlMetadata, Observation, RawObservation,
}
use browsertools.Registration.Server.{Server}
use browsertools.RegistrationUrl.{Facts}
use browsertools.Disclosure.{max_escaped_bytes}
use browsertools.Registration.Bounds.{default_bounds}
use browsertools.Registration.Bounds.Range.{IsWithinLimits, validate_bounds_iff}
use browsertools.Registration.Reduce.Diagnostics.{AreCodes, Merged, merge_diagnostics-Merged}
use browsertools.Registration.Reduce.Portable.{IsDisclosable, reduce_observation-IsDisclosable}
use browsertools.Registration.Control.Previews.{IsPreview, validate_preview-IsPreview}
use browsertools.Registration.Verification.Accounting.{
  IsAccounted, ProviderOk, validate_network_summary_for_protocol_sound,
}
use browsertools.RegistrationUrl.Exact.{IsExact, parse-IsExact}
use browsertools.Disclosure.Segments.{TailIsSafe, validate_path-safe}
use browsertools.Label.Reduction.{IsPlain, safe-reduce, reduce-IsPlain_or_placeholder}
use browsertools.ContentTrust.{
  encode_pointer_token, decode_pointer_token, action_prefix, selected_action_name,
}
use browsertools.ContentTrust.Tokens.{decode-encode, selected_action_name-encode}
use browsertools.Registration.Origins.Scope.{IsOn, clean_url_for_protocol-IsOn}
use browsertools.Search.Membership.{contains-eq-member}
use browsertools.Examples.World.{lib, seen, summary, page, site}

abbrev observing_server : Server
observing_server = record (new_server v1) { origins = site ∷ []; bounds = default_bounds }

abbrev page_facts : Facts
page_facts = record { url = page; origin = site; path = bytes "/join" }

page_parses : parse lib page true (exact_origin lib) ≡ some page_facts
unfolding bytes_eq bytes_lt Types.protocol_eq has_prefix without_prefix contains_text contains_any
    split are_sorted insert_sorted sort_strings equal_strings search_loop search_strings contains
    prompt_injection_phrases is_placeholder reason_for_canonicalization mentions_phrase is_sensitive
    reduce_accessibility_label safe_candidate_label path_unescape unsafe_segment decoded_ok
    segment_ok segments_ok validate_path contains_template portable_query_key is_plain_url
    is_sensitive_key unsafe_value query_item_ok query_ok canonical_query query_part parse ascii_only
    no_repeats exact_origin clean_url_for_protocol validate_navigation_url normalize_origins
    validate_bounds normalized_bounds max_safe_number number_ok public_text options_ok
    validate_control_metadata human_control_label promotable_candidate action_ok validate_preview
    matches_verification validate_verification_observation validate_verification_authority
    verification_equal validate_network_summary provider_traffic_ok no_authority
    validate_network_summary_for_protocol new_server ◌>>=◌ ◌>>◌ lookup put is_portable_role
    valid_diagnostic insert_candidate sort_candidates same_locator candidate_id raw_ok keep_control
    keep_verification plain_candidate reduce_candidate reduce_candidates merge_diagnostics
    add_records candidate_records reduce_codes reduce_checked reduce_observation write close_session
    fail_after_close fail require require_some fail_browser with_active browser_call is_identifier
    open_browser open_session start remember reduce_raw observe navigate preview
    approve_verification history_candidates count_bound portable_locator count_submits
    validate_reviewed_submit profile_origins validate_retained_navigation review_candidates
    step_locator same_text_locator credential_ok fill_ok clicked_page all_used candidate_ok
    add_checked observation_ok history_records previews_ok bound_ok inputs_ok after_click walk_step
    walk_steps validate_verification_evidence validate_typed_evidence review_choice review complete
    finish close_without_result client_fields allowed_fields decode_client_message phase_messages
    is_extension is_known is_admitted capabilities dispatch handle_open handle give_up after_message
    end_of_lines serve_lines after_hello serve
page_parses = refl

parse-IsExact_example : IsExact lib page true (exact_origin lib) page_facts
parse-IsExact_example = parse-IsExact lib page true (exact_origin lib) page_facts page_parses

page_cleans : clean_url_for_protocol lib v1 page ≡ some (page, site)
unfolding bytes_eq bytes_lt Types.protocol_eq has_prefix without_prefix contains_text contains_any
    split are_sorted insert_sorted sort_strings equal_strings search_loop search_strings contains
    prompt_injection_phrases is_placeholder reason_for_canonicalization mentions_phrase is_sensitive
    reduce_accessibility_label safe_candidate_label path_unescape unsafe_segment decoded_ok
    segment_ok segments_ok validate_path contains_template portable_query_key is_plain_url
    is_sensitive_key unsafe_value query_item_ok query_ok canonical_query query_part parse ascii_only
    no_repeats exact_origin clean_url_for_protocol validate_navigation_url normalize_origins
    validate_bounds normalized_bounds max_safe_number number_ok public_text options_ok
    validate_control_metadata human_control_label promotable_candidate action_ok validate_preview
    matches_verification validate_verification_observation validate_verification_authority
    verification_equal validate_network_summary provider_traffic_ok no_authority
    validate_network_summary_for_protocol new_server ◌>>=◌ ◌>>◌ lookup put is_portable_role
    valid_diagnostic insert_candidate sort_candidates same_locator candidate_id raw_ok keep_control
    keep_verification plain_candidate reduce_candidate reduce_candidates merge_diagnostics
    add_records candidate_records reduce_codes reduce_checked reduce_observation write close_session
    fail_after_close fail require require_some fail_browser with_active browser_call is_identifier
    open_browser open_session start remember reduce_raw observe navigate preview
    approve_verification history_candidates count_bound portable_locator count_submits
    validate_reviewed_submit profile_origins validate_retained_navigation review_candidates
    step_locator same_text_locator credential_ok fill_ok clicked_page all_used candidate_ok
    add_checked observation_ok history_records previews_ok bound_ok inputs_ok after_click walk_step
    walk_steps validate_verification_evidence validate_typed_evidence review_choice review complete
    finish close_without_result client_fields allowed_fields decode_client_message phase_messages
    is_extension is_known is_admitted capabilities dispatch handle_open handle give_up after_message
    end_of_lines serve_lines after_hello serve
page_cleans = refl

clean_url_for_protocol-IsOn_example : IsOn lib page site
clean_url_for_protocol-IsOn_example = clean_url_for_protocol-IsOn lib v1 page page site page_cleans

abbrev docs_path : Bytes
docs_path = bytes "/docs/a%20b/"

docs_path-ok : validate_path lib docs_path ≡ true
unfolding bytes_eq bytes_lt Types.protocol_eq has_prefix without_prefix contains_text contains_any
    split are_sorted insert_sorted sort_strings equal_strings search_loop search_strings contains
    prompt_injection_phrases is_placeholder reason_for_canonicalization mentions_phrase is_sensitive
    reduce_accessibility_label safe_candidate_label path_unescape unsafe_segment decoded_ok
    segment_ok segments_ok validate_path contains_template portable_query_key is_plain_url
    is_sensitive_key unsafe_value query_item_ok query_ok canonical_query query_part parse ascii_only
    no_repeats exact_origin clean_url_for_protocol validate_navigation_url normalize_origins
    validate_bounds normalized_bounds max_safe_number number_ok public_text options_ok
    validate_control_metadata human_control_label promotable_candidate action_ok validate_preview
    matches_verification validate_verification_observation validate_verification_authority
    verification_equal validate_network_summary provider_traffic_ok no_authority
    validate_network_summary_for_protocol new_server ◌>>=◌ ◌>>◌ lookup put is_portable_role
    valid_diagnostic insert_candidate sort_candidates same_locator candidate_id raw_ok keep_control
    keep_verification plain_candidate reduce_candidate reduce_candidates merge_diagnostics
    add_records candidate_records reduce_codes reduce_checked reduce_observation write close_session
    fail_after_close fail require require_some fail_browser with_active browser_call is_identifier
    open_browser open_session start remember reduce_raw observe navigate preview
    approve_verification history_candidates count_bound portable_locator count_submits
    validate_reviewed_submit profile_origins validate_retained_navigation review_candidates
    step_locator same_text_locator credential_ok fill_ok clicked_page all_used candidate_ok
    add_checked observation_ok history_records previews_ok bound_ok inputs_ok after_click walk_step
    walk_steps validate_verification_evidence validate_typed_evidence review_choice review complete
    finish close_without_result client_fields allowed_fields decode_client_message phase_messages
    is_extension is_known is_admitted capabilities dispatch handle_open handle give_up after_message
    end_of_lines serve_lines after_hello serve
docs_path-ok = refl

validate_path-safe_example :
    (length docs_path ≤ max_escaped_bytes)
    × (has_prefix docs_path (bytes "/") ≡ true)
    × (contains_any docs_path (bytes "?#\\") ≡ false)
    × TailIsSafe lib (split b'/' docs_path)
validate_path-safe_example = validate_path-safe lib docs_path docs_path-ok

-- A segment that climbs is refused, however it is written.
climbing_path : validate_path lib (bytes "/docs/%2e%2E/x") ≡ false
unfolding bytes_eq bytes_lt Types.protocol_eq has_prefix without_prefix contains_text contains_any
    split are_sorted insert_sorted sort_strings equal_strings search_loop search_strings contains
    prompt_injection_phrases is_placeholder reason_for_canonicalization mentions_phrase is_sensitive
    reduce_accessibility_label safe_candidate_label path_unescape unsafe_segment decoded_ok
    segment_ok segments_ok validate_path contains_template portable_query_key is_plain_url
    is_sensitive_key unsafe_value query_item_ok query_ok canonical_query query_part parse ascii_only
    no_repeats exact_origin clean_url_for_protocol validate_navigation_url normalize_origins
    validate_bounds normalized_bounds max_safe_number number_ok public_text options_ok
    validate_control_metadata human_control_label promotable_candidate action_ok validate_preview
    matches_verification validate_verification_observation validate_verification_authority
    verification_equal validate_network_summary provider_traffic_ok no_authority
    validate_network_summary_for_protocol new_server ◌>>=◌ ◌>>◌ lookup put is_portable_role
    valid_diagnostic insert_candidate sort_candidates same_locator candidate_id raw_ok keep_control
    keep_verification plain_candidate reduce_candidate reduce_candidates merge_diagnostics
    add_records candidate_records reduce_codes reduce_checked reduce_observation write close_session
    fail_after_close fail require require_some fail_browser with_active browser_call is_identifier
    open_browser open_session start remember reduce_raw observe navigate preview
    approve_verification history_candidates count_bound portable_locator count_submits
    validate_reviewed_submit profile_origins validate_retained_navigation review_candidates
    step_locator same_text_locator credential_ok fill_ok clicked_page all_used candidate_ok
    add_checked observation_ok history_records previews_ok bound_ok inputs_ok after_click walk_step
    walk_steps validate_verification_evidence validate_typed_evidence review_choice review complete
    finish close_without_result client_fields allowed_fields decode_client_message phase_messages
    is_extension is_known is_admitted capabilities dispatch handle_open handle give_up after_message
    end_of_lines serve_lines after_hello serve
climbing_path = refl

summary-ok : validate_network_summary_for_protocol summary (pos 256) v1 none ≡ true
unfolding bytes_eq bytes_lt Types.protocol_eq has_prefix without_prefix contains_text contains_any
    split are_sorted insert_sorted sort_strings equal_strings search_loop search_strings contains
    prompt_injection_phrases is_placeholder reason_for_canonicalization mentions_phrase is_sensitive
    reduce_accessibility_label safe_candidate_label path_unescape unsafe_segment decoded_ok
    segment_ok segments_ok validate_path contains_template portable_query_key is_plain_url
    is_sensitive_key unsafe_value query_item_ok query_ok canonical_query query_part parse ascii_only
    no_repeats exact_origin clean_url_for_protocol validate_navigation_url normalize_origins
    validate_bounds normalized_bounds max_safe_number number_ok public_text options_ok
    validate_control_metadata human_control_label promotable_candidate action_ok validate_preview
    matches_verification validate_verification_observation validate_verification_authority
    verification_equal validate_network_summary provider_traffic_ok no_authority
    validate_network_summary_for_protocol new_server ◌>>=◌ ◌>>◌ lookup put is_portable_role
    valid_diagnostic insert_candidate sort_candidates same_locator candidate_id raw_ok keep_control
    keep_verification plain_candidate reduce_candidate reduce_candidates merge_diagnostics
    add_records candidate_records reduce_codes reduce_checked reduce_observation write close_session
    fail_after_close fail require require_some fail_browser with_active browser_call is_identifier
    open_browser open_session start remember reduce_raw observe navigate preview
    approve_verification history_candidates count_bound portable_locator count_submits
    validate_reviewed_submit profile_origins validate_retained_navigation review_candidates
    step_locator same_text_locator credential_ok fill_ok clicked_page all_used candidate_ok
    add_checked observation_ok history_records previews_ok bound_ok inputs_ok after_click walk_step
    walk_steps validate_verification_evidence validate_typed_evidence review_choice review complete
    finish close_without_result client_fields allowed_fields decode_client_message phase_messages
    is_extension is_known is_admitted capabilities dispatch handle_open handle give_up after_message
    end_of_lines serve_lines after_hello serve
summary-ok = refl

validate_network_summary_for_protocol_sound_example :
    IsAccounted summary (pos 256) × ProviderOk summary v1 none
validate_network_summary_for_protocol_sound_example =
    validate_network_summary_for_protocol_sound summary (pos 256) v1 none summary-ok

abbrev next_button : Candidate
next_button = record {
  verification = none;
  id = bytes "candidate-a";
  role = bytes "button";
  label = bytes "Next";
  matches = pos 1;
  control = some (record {
    kind = bytes "button";
    required = none;
    min_length = none;
    max_length = none;
    minimum = none;
    maximum = none;
    options = [];
  });
}

abbrev click_next : PreviewRequest
click_next = record {
  candidate_id = bytes "candidate-a";
  generation = pos 1;
  action = bytes "click";
  purpose = bytes "public_form_preview";
  option = none;
  checked = none;
}

click_next-ok : validate_preview lib next_button click_next ≡ true
unfolding bytes_eq bytes_lt Types.protocol_eq has_prefix without_prefix contains_text contains_any
    split are_sorted insert_sorted sort_strings equal_strings search_loop search_strings contains
    prompt_injection_phrases is_placeholder reason_for_canonicalization mentions_phrase is_sensitive
    reduce_accessibility_label safe_candidate_label path_unescape unsafe_segment decoded_ok
    segment_ok segments_ok validate_path contains_template portable_query_key is_plain_url
    is_sensitive_key unsafe_value query_item_ok query_ok canonical_query query_part parse ascii_only
    no_repeats exact_origin clean_url_for_protocol validate_navigation_url normalize_origins
    validate_bounds normalized_bounds max_safe_number number_ok public_text options_ok
    validate_control_metadata human_control_label promotable_candidate action_ok validate_preview
    matches_verification validate_verification_observation validate_verification_authority
    verification_equal validate_network_summary provider_traffic_ok no_authority
    validate_network_summary_for_protocol new_server ◌>>=◌ ◌>>◌ lookup put is_portable_role
    valid_diagnostic insert_candidate sort_candidates same_locator candidate_id raw_ok keep_control
    keep_verification plain_candidate reduce_candidate reduce_candidates merge_diagnostics
    add_records candidate_records reduce_codes reduce_checked reduce_observation write close_session
    fail_after_close fail require require_some fail_browser with_active browser_call is_identifier
    open_browser open_session start remember reduce_raw observe navigate preview
    approve_verification history_candidates count_bound portable_locator count_submits
    validate_reviewed_submit profile_origins validate_retained_navigation review_candidates
    step_locator same_text_locator credential_ok fill_ok clicked_page all_used candidate_ok
    add_checked observation_ok history_records previews_ok bound_ok inputs_ok after_click walk_step
    walk_steps validate_verification_evidence validate_typed_evidence review_choice review complete
    finish close_without_result client_fields allowed_fields decode_client_message phase_messages
    is_extension is_known is_admitted capabilities dispatch handle_open handle give_up after_message
    end_of_lines serve_lines after_hello serve
click_next-ok = refl

validate_preview-IsPreview_example : IsPreview lib next_button click_next
validate_preview-IsPreview_example =
    validate_preview-IsPreview lib next_button click_next click_next-ok

no_codes : AreCodes []
no_codes = record { valid = refl; unique = refl }

merge_diagnostics-Merged_example :
    Merged [] [] seen.diagnostics (merge_diagnostics [] [] seen.diagnostics)
merge_diagnostics-Merged_example =
    merge_diagnostics-Merged [] [] seen.diagnostics no_codes no_codes (λ c h. cc)

validate_bounds_iff_example :
    (validate_bounds (some default_bounds) ≡ true)
    ↔ IsWithinLimits (normalized_bounds (some default_bounds))
validate_bounds_iff_example = validate_bounds_iff (some default_bounds)

abbrev sent : Option Observation → Observation
sent none = record { generation = 0; origin = []; path = []; candidates = []; diagnostics = [] }
sent (some o) = o

abbrev outcome : Option Observation × Server
outcome = reduce_observation lib seen observing_server

server_codes : AreCodes observing_server.diagnostics
unfolding new_server
server_codes = record { valid = refl; unique = refl }

seen-accepted : outcome ≡ (some (sent outcome.0), outcome.1)
unfolding bytes_eq bytes_lt Types.protocol_eq has_prefix without_prefix contains_text contains_any
    split are_sorted insert_sorted sort_strings equal_strings search_loop search_strings contains
    prompt_injection_phrases is_placeholder reason_for_canonicalization mentions_phrase is_sensitive
    reduce_accessibility_label safe_candidate_label path_unescape unsafe_segment decoded_ok
    segment_ok segments_ok validate_path contains_template portable_query_key is_plain_url
    is_sensitive_key unsafe_value query_item_ok query_ok canonical_query query_part parse ascii_only
    no_repeats exact_origin clean_url_for_protocol validate_navigation_url normalize_origins
    validate_bounds normalized_bounds max_safe_number number_ok public_text options_ok
    validate_control_metadata human_control_label promotable_candidate action_ok validate_preview
    matches_verification validate_verification_observation validate_verification_authority
    verification_equal validate_network_summary provider_traffic_ok no_authority
    validate_network_summary_for_protocol new_server ◌>>=◌ ◌>>◌ lookup put is_portable_role
    valid_diagnostic insert_candidate sort_candidates same_locator candidate_id raw_ok keep_control
    keep_verification plain_candidate reduce_candidate reduce_candidates merge_diagnostics
    add_records candidate_records reduce_codes reduce_checked reduce_observation write close_session
    fail_after_close fail require require_some fail_browser with_active browser_call is_identifier
    open_browser open_session start remember reduce_raw observe navigate preview
    approve_verification history_candidates count_bound portable_locator count_submits
    validate_reviewed_submit profile_origins validate_retained_navigation review_candidates
    step_locator same_text_locator credential_ok fill_ok clicked_page all_used candidate_ok
    add_checked observation_ok history_records previews_ok bound_ok inputs_ok after_click walk_step
    walk_steps validate_verification_evidence validate_typed_evidence review_choice review complete
    finish close_without_result client_fields allowed_fields decode_client_message phase_messages
    is_extension is_known is_admitted capabilities dispatch handle_open handle give_up after_message
    end_of_lines serve_lines after_hello serve
seen-accepted = refl

reduce_observation-IsDisclosable_example :
    IsDisclosable lib observing_server seen (sent outcome.0) × AreCodes outcome.1.diagnostics
reduce_observation-IsDisclosable_example =
    reduce_observation-IsDisclosable lib seen observing_server outcome.1 (sent outcome.0)
      server_codes seen-accepted

abbrev hosts : List Bytes
hosts = bytes "a.test" ∷ bytes "b.test" ∷ bytes "c.test" ∷ []

hosts-sorted : are_sorted hosts ≡ true
unfolding bytes_eq bytes_lt Types.protocol_eq has_prefix without_prefix contains_text contains_any
    split are_sorted insert_sorted sort_strings equal_strings search_loop search_strings contains
    prompt_injection_phrases is_placeholder reason_for_canonicalization mentions_phrase is_sensitive
    reduce_accessibility_label safe_candidate_label path_unescape unsafe_segment decoded_ok
    segment_ok segments_ok validate_path contains_template portable_query_key is_plain_url
    is_sensitive_key unsafe_value query_item_ok query_ok canonical_query query_part parse ascii_only
    no_repeats exact_origin clean_url_for_protocol validate_navigation_url normalize_origins
    validate_bounds normalized_bounds max_safe_number number_ok public_text options_ok
    validate_control_metadata human_control_label promotable_candidate action_ok validate_preview
    matches_verification validate_verification_observation validate_verification_authority
    verification_equal validate_network_summary provider_traffic_ok no_authority
    validate_network_summary_for_protocol new_server ◌>>=◌ ◌>>◌ lookup put is_portable_role
    valid_diagnostic insert_candidate sort_candidates same_locator candidate_id raw_ok keep_control
    keep_verification plain_candidate reduce_candidate reduce_candidates merge_diagnostics
    add_records candidate_records reduce_codes reduce_checked reduce_observation write close_session
    fail_after_close fail require require_some fail_browser with_active browser_call is_identifier
    open_browser open_session start remember reduce_raw observe navigate preview
    approve_verification history_candidates count_bound portable_locator count_submits
    validate_reviewed_submit profile_origins validate_retained_navigation review_candidates
    step_locator same_text_locator credential_ok fill_ok clicked_page all_used candidate_ok
    add_checked observation_ok history_records previews_ok bound_ok inputs_ok after_click walk_step
    walk_steps validate_verification_evidence validate_typed_evidence review_choice review complete
    finish close_without_result client_fields allowed_fields decode_client_message phase_messages
    is_extension is_known is_admitted capabilities dispatch handle_open handle give_up after_message
    end_of_lines serve_lines after_hello serve
hosts-sorted = refl

contains-eq-member_example : contains hosts (bytes "b.test") ≡ member (bytes "b.test") hosts
contains-eq-member_example = contains-eq-member hosts (bytes "b.test") hosts-sorted

safe-reduce_example :
    safe_candidate_label lib (reduce_accessibility_label lib (bytes "system prompt")).value ≡ true
safe-reduce_example = safe-reduce lib (bytes "system prompt") refl

reduce-IsPlain_or_placeholder_example :
    let label = (reduce_accessibility_label lib (bytes "Join")).value in
    (is_placeholder label ≡ true) ⊎ IsPlain lib (bytes "Join") label
reduce-IsPlain_or_placeholder_example = reduce-IsPlain_or_placeholder lib (bytes "Join")

decode-encode_example :
    decode_pointer_token (encode_pointer_token (bytes "a/~b")) ≡ some (bytes "a/~b")
decode-encode_example = decode-encode (bytes "a/~b")

selected_action_name-encode_example :
    selected_action_name [] (action_prefix ++ encode_pointer_token (bytes "a/~b"))
    ≡ some (bytes "a/~b")
selected_action_name-encode_example = selected_action_name-encode b'a' (bytes "/~b")
