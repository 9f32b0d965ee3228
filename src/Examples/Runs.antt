-- ===== src/Examples/Runs.antt =====
-- A whole session, run, and the theorems about Serve at it.
use browsertools.Prelude.{◌≡◌, ◌≤◌, refl, pos_part, Bool, true, false, [], ◌∷◌, bytes_eq, bytes_lt}
use browsertools.Text.{
  has_prefix, without_prefix, contains_text, contains_any, split, are_sorted, insert_sorted,
  sort_strings, equal_strings,
}
use browsertools.Search.{search_loop, search_strings, contains}
use browsertools.Label.{
  prompt_injection_phrases, is_placeholder, reason_for_canonicalization, mentions_phrase,
  is_sensitive, reduce_accessibility_label, safe_candidate_label,
}
use browsertools.Disclosure.{
  path_unescape, unsafe_segment, decoded_ok, segment_ok, segments_ok, validate_path,
}
use browsertools.RegistrationUrl.{
  contains_template, portable_query_key, is_plain_url, is_sensitive_key, unsafe_value,
  query_item_ok, query_ok, canonical_query, query_part, parse,
}
use browsertools.Registration.Origins.{
  ascii_only, no_repeats, exact_origin, clean_url_for_protocol, validate_navigation_url,
  normalize_origins,
}
use browsertools.Registration.Bounds.{validate_bounds, normalized_bounds}
use browsertools.Registration.Control.{
  max_safe_number, number_ok, public_text, options_ok, validate_control_metadata,
  human_control_label, promotable_candidate, action_ok, validate_preview,
}
use browsertools.Registration.Verification.{
  matches_verification, validate_verification_observation, validate_verification_authority,
  verification_equal, validate_network_summary, provider_traffic_ok, no_authority,
  validate_network_summary_for_protocol,
}
use browsertools.Registration.Server.{new_server, ◌>>=◌, ◌>>◌, lookup, put}
use browsertools.Registration.Reduce.{
  is_portable_role, valid_diagnostic, insert_candidate, sort_candidates, same_locator, candidate_id,
  raw_ok, keep_control, keep_verification, plain_candidate, reduce_candidate, reduce_candidates,
  merge_diagnostics, add_records, candidate_records, reduce_codes, reduce_checked,
  reduce_observation,
}
use browsertools.Registration.Actions.{
  write, close_session, fail_after_close, fail, require, require_some, fail_browser, with_active,
  browser_call,
}
use browsertools.Registration.Handlers.{
  is_identifier, open_browser, open_session, start, remember, reduce_raw, observe, navigate,
  preview, approve_verification,
}
use browsertools.Registration.Review.{
  history_candidates, count_bound, portable_locator, count_submits, validate_reviewed_submit,
  profile_origins, validate_retained_navigation, review_candidates,
}
use browsertools.Registration.Evidence.{
  step_locator, same_text_locator, credential_ok, fill_ok, clicked_page, all_used, candidate_ok,
  add_checked, observation_ok, history_records, previews_ok, bound_ok, inputs_ok, after_click,
}
use browsertools.Registration.Binding.{
  walk_step, walk_steps, validate_verification_evidence, validate_typed_evidence,
}
use browsertools.Registration.Session.{
  review_choice, review, complete, finish, close_without_result,
}
use browsertools.Registration.Serve.{
  client_fields, allowed_fields, decode_client_message, phase_messages, is_extension, is_known,
  is_admitted, capabilities, dispatch, handle_open, handle, give_up, after_message, end_of_lines,
  serve_lines, after_hello, serve,
}
use browsertools.Registration.Types
use browsertools.Registration.Types.{Protocol, v1, Bounds, NetworkSummary}
use browsertools.Registration.Serve.{end_of_input, Served, completed, stopped, failed}
use browsertools.Registration.Session.{Completion, completion_of}
use browsertools.Registration.Server.{Server, RegistrationReview, session_failed}
use browsertools.Registration.Completion.{CompletionIsOk}
use browsertools.Registration.Completion.Outcome.{serve_completed}
use browsertools.Registration.Lifecycle.{is_live, IsOrderly, observes}
use browsertools.Registration.Lifecycle.Whole.{serve-IsOrderly}
use browsertools.Registration.Sent.{all_public}
use browsertools.Registration.Sent.Whole.{serve-all_public}
use browsertools.Examples.World.{lib, backend, script, start_line, recipe, summary}

abbrev run : Served × Server
run = serve lib backend v1 script end_of_input

-- The client gives up after `start`.
abbrev short_run : Served × Server
short_run = serve lib backend v1 (start_line ∷ []) end_of_input

abbrev no_review : RegistrationReview
no_review = record {
  profile = recipe;
  profile_bytes = [];
  candidates = [];
  flow = [];
  cleanup = [];
  step_candidates = [];
}

-- The completion that a run returns.
abbrev completion : Served → Completion
completion (completed c) = c
completion _ = completion_of (new_server v1) no_review summary

abbrev is_completed : Served → Bool
is_completed (completed c) = true
is_completed _ = false

completion_there : (r : Served) → is_completed r ≡ true → r ≡ completed (completion r)
completion_there (completed c) h = refl
completion_there stopped h = cc
completion_there (failed e) h = cc

run-completes : is_completed run.0 ≡ true
unfolding bytes_eq bytes_lt Types.protocol_eq has_prefix without_prefix contains_text contains_any
    split are_sorted insert_sorted sort_strings equal_strings search_loop search_strings contains
    prompt_injection_phrases is_placeholder reason_for_canonicalization mentions_phrase is_sensitive
    reduce_accessibility_label safe_candidate_label path_unescape unsafe_segment decoded_ok
    segment_ok segments_ok validate_path contains_template portable_query_key is_plain_url
    is_sensitive_key unsafe_value query_item_ok query_ok canonical_query query_part parse ascii_only
    no_repeats exact_origin clean_url_for_protocol validate_navigation_url normalize_origins
    validate_bounds normalized_bounds max_safe_number number_ok public_text options_ok
    validate_control_metadata human_control_label promotable_candidate action_ok validate_preview
    matches_verification validate_verification_observation validate_verification_authority
    verification_equal validate_network_summary provider_traffic_ok no_authority
    validate_network_summary_for_protocol new_server ◌>>=◌ ◌>>◌ lookup put is_portable_role
    valid_diagnostic insert_candidate sort_candidates same_locator candidate_id raw_ok keep_control
    keep_verification plain_candidate reduce_candidate reduce_candidates merge_diagnostics
    add_records candidate_records reduce_codes reduce_checked reduce_observation write close_session
    fail_after_close fail require require_some fail_browser with_active browser_call is_identifier
    open_browser open_session start remember reduce_raw observe navigate preview
    approve_verification history_candidates count_bound portable_locator count_submits
    validate_reviewed_submit profile_origins validate_retained_navigation review_candidates
    step_locator same_text_locator credential_ok fill_ok clicked_page all_used candidate_ok
    add_checked observation_ok history_records previews_ok bound_ok inputs_ok after_click walk_step
    walk_steps validate_verification_evidence validate_typed_evidence review_choice review complete
    finish close_without_result client_fields allowed_fields decode_client_message phase_messages
    is_extension is_known is_admitted capabilities dispatch handle_open handle give_up after_message
    end_of_lines serve_lines after_hello serve
run-completes = refl

serve_completed_example : CompletionIsOk lib (completion run.0)
serve_completed_example =
    serve_completed lib backend v1 script end_of_input (completion run.0)
      (completion_there run.0 run-completes)

serve-IsOrderly_example :
    (is_live lib backend run.1.trace ≡ false)
    × IsOrderly lib backend run.1.protocol run.1.origins run.1.trace
    × (observes run.1.trace ≤ pos_part run.1.bounds.max_observations)
serve-IsOrderly_example = serve-IsOrderly lib backend v1 script end_of_input

serve-all_public_example : all_public lib run.1.trace ≡ true
serve-all_public_example = serve-all_public lib backend v1 script end_of_input

-- A client that goes away: the session fails, and the browser is released.
short_run-fails : short_run.0 ≡ failed (session_failed Types.unexpected_eof)
unfolding bytes_eq bytes_lt Types.protocol_eq has_prefix without_prefix contains_text contains_any
    split are_sorted insert_sorted sort_strings equal_strings search_loop search_strings contains
    prompt_injection_phrases is_placeholder reason_for_canonicalization mentions_phrase is_sensitive
    reduce_accessibility_label safe_candidate_label path_unescape unsafe_segment decoded_ok
    segment_ok segments_ok validate_path contains_template portable_query_key is_plain_url
    is_sensitive_key unsafe_value query_item_ok query_ok canonical_query query_part parse ascii_only
    no_repeats exact_origin clean_url_for_protocol validate_navigation_url normalize_origins
    validate_bounds normalized_bounds max_safe_number number_ok public_text options_ok
    validate_control_metadata human_control_label promotable_candidate action_ok validate_preview
    matches_verification validate_verification_observation validate_verification_authority
    verification_equal validate_network_summary provider_traffic_ok no_authority
    validate_network_summary_for_protocol new_server ◌>>=◌ ◌>>◌ lookup put is_portable_role
    valid_diagnostic insert_candidate sort_candidates same_locator candidate_id raw_ok keep_control
    keep_verification plain_candidate reduce_candidate reduce_candidates merge_diagnostics
    add_records candidate_records reduce_codes reduce_checked reduce_observation write close_session
    fail_after_close fail require require_some fail_browser with_active browser_call is_identifier
    open_browser open_session start remember reduce_raw observe navigate preview
    approve_verification history_candidates count_bound portable_locator count_submits
    validate_reviewed_submit profile_origins validate_retained_navigation review_candidates
    step_locator same_text_locator credential_ok fill_ok clicked_page all_used candidate_ok
    add_checked observation_ok history_records previews_ok bound_ok inputs_ok after_click walk_step
    walk_steps validate_verification_evidence validate_typed_evidence review_choice review complete
    finish close_without_result client_fields allowed_fields decode_client_message phase_messages
    is_extension is_known is_admitted capabilities dispatch handle_open handle give_up after_message
    end_of_lines serve_lines after_hello serve
short_run-fails = refl
