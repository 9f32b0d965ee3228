-- ===== src/Examples/Author.antt =====
-- A whole session of authenticated authoring, run, and the theorems about it.
use browsertools.Prelude.{◌≡◌, refl, true, false, [], ◌∷◌, Bytes, bytes, arith}
use browsertools.Text.{
  has_prefix, without_prefix, contains_text, contains_any, split, are_sorted, insert_sorted,
  sort_strings, equal_strings,
}
use browsertools.Label.{
  prompt_injection_phrases, is_placeholder, reason_for_canonicalization, mentions_phrase,
  is_sensitive, reduce_accessibility_label, safe_candidate_label,
}
use browsertools.Disclosure.{
  path_unescape, unsafe_segment, decoded_ok, segment_ok, segments_ok, validate_path,
}
use browsertools.RegistrationUrl.{
  contains_template, portable_query_key, is_plain_url, is_sensitive_key, unsafe_value,
  query_item_ok, query_ok, canonical_query, query_part, parse,
}
use browsertools.AuthorUrl.{parse_origin, is_loopback_address, navigable, normalize}
use browsertools.Machine.{◌>>=◌, ◌>>◌, guard, value_or}
use browsertools.AuthorSession.Types.{normalized_context}
use browsertools.AuthorSession.Origins.{
  exact_origin, clean_absolute_url, origin_for_url, clean_protocol_url, dashboard_matches, add_key,
  within_limits, validate_bounds, normalized_bounds,
}
use browsertools.AuthorSession.Vocabulary.{
  is_identifier, is_diagnostic, kinds_ok, validate_challenge_kinds, normalized_challenge_kinds,
  promotable_label, default_title,
}
use browsertools.AuthorSession.Goal.{
  fitting, only_match, match_goal, priority, insert_by_priority, sort_by_priority, matches_like,
  first_success, authentication_success_proof,
}
use browsertools.AuthorSession.Server.{new_server, approval_id}
use browsertools.AuthorSession.Contexts.{
  climb, parent_known, may_hold, remove, keys, must_wait, identity_ok, metadata_ok, context_ok,
  add_context, pass, after_pass, resolve, add_contexts,
}
use browsertools.AuthorSession.Reduce.{
  insert_candidate, sort_candidates, merge_diagnostics, raw_ok, reduced_candidate,
  reduce_candidates, reduce_checked, reduce_observation,
}
use browsertools.AuthorSession.Actions.{
  write, close_session, fail_after_close, fail, require, require_some, with_active, browser_call,
}
use browsertools.AuthorSession.Start.{
  predicate_ok, texts_ok, validate_start, canonical_origins, approve_origins, start_session,
}
use browsertools.AuthorSession.Observing.{
  reduce_raw, adopt, authenticate, offer_completion, observe,
}
use browsertools.AuthorSession.HumanInput.{
  browser_action_for_record, kinds_for, checkpoint_for, kind_accepted, input_step, focus_target,
  focus, complete_human_input,
}
use browsertools.AuthorSession.Execution.{
  step_kind, action_for, step_for, execute_on, execute, require_approval, request_navigation,
  request_target, request_click, request_kind, request_execute, grant, approved, approve, deny,
}
use browsertools.AuthorSession.Outputs.{
  role_matches, insert_selection, sort_selections, request_ok, record_ok, requests_ok, same_page,
  is_same, exact_matches, matches_in, select, select_all, select_on, review_outputs,
}
use browsertools.AuthorSession.Finish.{
  build_request, data_digest, artifact_path, review, complete, closed_some, tear_down, store,
  finish, close_without_result,
}
use browsertools.AuthorSession.Serve.{
  client_fields, allowed_fields, decode_client_message, phase_messages, dispatch, handle_open,
  handle, fail_with, after_message, end_of_lines, serve_lines, after_hello, serve,
}
use browsertools.Prelude.{bytes_eq, bytes_lt}
use browsertools.Registration.Server.{lookup, put}
use browsertools.Registration.Reduce.{is_portable_role}
use browsertools.AuthorSession.Types.{Context, Contexts}
use browsertools.AuthorSession.Contexts.{resolved}
use browsertools.AuthorSession.Contexts.Termination.{is_exhausted, add_contexts-ends}
use browsertools.AuthorSession.Contexts.Forest.{IsForest, add_contexts-IsForest}
use browsertools.AuthorSession.Serve.{Served, stopped, end_of_input}
use browsertools.AuthorSession.Server.{Server}
use browsertools.AuthorSession.Approvals.{is_authorized, is_output_failure, IsTold, holds_browser}
use browsertools.AuthorSession.Approvals.Whole.{serve-authorized, serve-IsTold}
use browsertools.Examples.World.{site}
use browsertools.Examples.AuthorWorld.{author, backend, script}

abbrev run : Served × Server
run = serve author backend script end_of_input

run-stops : run.0 ≡ stopped
unfolding has_prefix without_prefix contains_text contains_any split are_sorted insert_sorted
    sort_strings equal_strings prompt_injection_phrases is_placeholder reason_for_canonicalization
    mentions_phrase is_sensitive reduce_accessibility_label safe_candidate_label path_unescape
    unsafe_segment decoded_ok segment_ok segments_ok validate_path contains_template
    portable_query_key is_plain_url is_sensitive_key unsafe_value query_item_ok query_ok
    canonical_query query_part parse parse_origin is_loopback_address navigable normalize ◌>>=◌ ◌>>◌
    guard value_or normalized_context exact_origin clean_absolute_url origin_for_url
    clean_protocol_url dashboard_matches add_key within_limits validate_bounds normalized_bounds
    is_identifier is_diagnostic kinds_ok validate_challenge_kinds normalized_challenge_kinds
    promotable_label default_title fitting only_match match_goal priority insert_by_priority
    sort_by_priority matches_like first_success authentication_success_proof new_server approval_id
    climb parent_known may_hold remove keys must_wait identity_ok metadata_ok context_ok add_context
    pass after_pass resolve add_contexts insert_candidate sort_candidates merge_diagnostics raw_ok
    reduced_candidate reduce_candidates reduce_checked reduce_observation write close_session
    fail_after_close fail require require_some with_active browser_call predicate_ok texts_ok
    validate_start canonical_origins approve_origins start_session reduce_raw adopt authenticate
    offer_completion observe browser_action_for_record kinds_for checkpoint_for kind_accepted
    input_step focus_target focus complete_human_input step_kind action_for step_for execute_on
    execute require_approval request_navigation request_target request_click request_kind
    request_execute grant approved approve deny role_matches insert_selection sort_selections
    request_ok record_ok requests_ok same_page is_same exact_matches matches_in select select_all
    select_on review_outputs build_request data_digest artifact_path review complete closed_some
    tear_down store finish close_without_result client_fields allowed_fields decode_client_message
    phase_messages dispatch handle_open handle fail_with after_message end_of_lines serve_lines
    after_hello serve bytes_eq bytes_lt lookup put is_portable_role
run-stops = refl

serve-authorized_example :
    (is_authorized author run.1.trace ≡ true)
    × (is_output_failure run.0 ≡ false → holds_browser backend run.1.trace ≡ false)
serve-authorized_example = serve-authorized author backend script end_of_input

serve-IsTold_example : IsTold backend run.0 run.1
serve-IsTold_example = serve-IsTold author backend script end_of_input

abbrev popup : Bytes → Context
popup parent = record { kind = bytes "popup"; parent = parent; origin = site; path = []; name = [] }

-- A popup of a popup, reported before its parent.
abbrev reported : Contexts
reported = (bytes "a", popup (bytes "b")) ∷ (bytes "b", popup (bytes "main")) ∷ []

abbrev added : Contexts
added = (bytes "b", popup (bytes "main")) ∷ (bytes "a", popup (bytes "b")) ∷ []

reported-added : add_contexts author (site ∷ []) [] reported ≡ resolved added
unfolding has_prefix without_prefix contains_text contains_any split are_sorted insert_sorted
    sort_strings equal_strings prompt_injection_phrases is_placeholder reason_for_canonicalization
    mentions_phrase is_sensitive reduce_accessibility_label safe_candidate_label path_unescape
    unsafe_segment decoded_ok segment_ok segments_ok validate_path contains_template
    portable_query_key is_plain_url is_sensitive_key unsafe_value query_item_ok query_ok
    canonical_query query_part parse parse_origin is_loopback_address navigable normalize ◌>>=◌ ◌>>◌
    guard value_or normalized_context exact_origin clean_absolute_url origin_for_url
    clean_protocol_url dashboard_matches add_key within_limits validate_bounds normalized_bounds
    is_identifier is_diagnostic kinds_ok validate_challenge_kinds normalized_challenge_kinds
    promotable_label default_title fitting only_match match_goal priority insert_by_priority
    sort_by_priority matches_like first_success authentication_success_proof new_server approval_id
    climb parent_known may_hold remove keys must_wait identity_ok metadata_ok context_ok add_context
    pass after_pass resolve add_contexts insert_candidate sort_candidates merge_diagnostics raw_ok
    reduced_candidate reduce_candidates reduce_checked reduce_observation write close_session
    fail_after_close fail require require_some with_active browser_call predicate_ok texts_ok
    validate_start canonical_origins approve_origins start_session reduce_raw adopt authenticate
    offer_completion observe browser_action_for_record kinds_for checkpoint_for kind_accepted
    input_step focus_target focus complete_human_input step_kind action_for step_for execute_on
    execute require_approval request_navigation request_target request_click request_kind
    request_execute grant approved approve deny role_matches insert_selection sort_selections
    request_ok record_ok requests_ok same_page is_same exact_matches matches_in select select_all
    select_on review_outputs build_request data_digest artifact_path review complete closed_some
    tear_down store finish close_without_result client_fields allowed_fields decode_client_message
    phase_messages dispatch handle_open handle fail_with after_message end_of_lines serve_lines
    after_hello serve bytes_eq bytes_lt lookup put is_portable_role
reported-added = refl

empty-IsForest : IsForest author (site ∷ []) []
unfolding lookup
empty-IsForest = record { entries = λ id c e. cc; few = ground arith }

add_contexts-IsForest_example : IsForest author (site ∷ []) added
add_contexts-IsForest_example =
    add_contexts-IsForest author (site ∷ []) [] reported added empty-IsForest reported-added

add_contexts-ends_example : is_exhausted (add_contexts author (site ∷ []) [] reported) ≡ false
add_contexts-ends_example = add_contexts-ends author (site ∷ []) [] reported
