-- ===== src/Examples/World.antt =====
-- A small world for the runs: one site, one page, one profile, and a browser that behaves.
use browsertools.Prelude.{
  ◌+◌, pos, true, false, none, some, List, [], ◌∷◌, ◌++◌, Bytes, bytes, bytes_eq, length,
  if◌then◌else◌,
}
use browsertools.Library.{Library, Url}
use browsertools.Registration.Types
use browsertools.Registration.Types.{
  RawObservation, RawCandidate, NetworkSummary, HumanVerification, Observation,
}
use browsertools.Registration.Profile.{Profile, profile_v10, Flow, Step, Locator, ClientMessage}
use browsertools.Registration.Server.{Backend}
use browsertools.Registration.Serve.{Line}

abbrev pub site : Bytes
site = bytes "https://a.test"

abbrev pub page : Bytes
page = bytes "https://a.test/join"

abbrev pub site_url : Url
site_url = record {
  scheme = bytes "https";
  opaque = [];
  host = bytes "a.test";
  hostname = bytes "a.test";
  port = [];
  path = [];
  escaped_path = [];
  raw_query = [];
  fragment = [];
  has_user = false;
  force_query = false;
  is_abs = true;
}

abbrev pub page_url : Url
page_url = record site_url { path = bytes "/join"; escaped_path = bytes "/join" }

abbrev submit_locator : Locator
submit_locator = record { role = bytes "button"; name = bytes "Join"; text = []; value = [] }

abbrev submit_step : Step
submit_step = record {
  navigate = [];
  type_credential = none;
  fill_input = none;
  click = none;
  submit = some submit_locator;
  wait_for = none;
  human_checkpoint = none;
}

abbrev pub flow : Flow
flow = record { sequence = submit_step ∷ []; success = submit_locator; human_verification = none }

abbrev pub recipe : Profile
recipe = record {
  profile = profile_v10;
  observation_kind = bytes "accessibility_snapshot";
  application_origins = site ∷ [];
  registration_origins = site ∷ [];
  flows = (bytes "join", flow) ∷ [];
  credential_slots = [];
  input_slots = [];
}

-- One letter per index, so that the ids are in order.
abbrev pub lib : Library
lib = record {
  trim_space = λ s. s;
  to_lower = λ s. s;
  collapse_spaces = λ s. s;
  valid_utf8 = λ s. true;
  rune_count = λ s. length s;
  has_control = λ s. false;
  matches_email = λ s. false;
  matches_phone = λ s. false;
  matches_assignment = λ s. false;
  matches_secret = λ s. false;
  redact = λ s. s;
  sensitive_key = λ s. false;
  parse_url = λ s.
      if bytes_eq s site then some site_url else if bytes_eq s page then some page_url else none;
  parse_query = λ s. none;
  encode_query = λ q. [];
  parse_ip = λ s. none;
  join_host_port = λ h p. h ++ (bytes ":" ++ p);
  canonical_number = λ s. none;
  candidate_digest = λ g r l i. (97 + i) ∷ [];
  message_length = λ m. 100;
  history_length = λ h. 100;
  parse_profile = λ s. some recipe;
  valid_at = λ p t. true;
  marshal_profile = λ p. some (bytes "{}");
  parse_origin = λ s. some s;
  same_verification = λ a b. false;
}

abbrev button : Bytes → RawCandidate
button label = record {
  verification = none;
  role = bytes "button";
  label = label;
  matches = pos 1;
  control = none;
}

abbrev pub seen : RawObservation
seen = record {
  origin = site;
  path = bytes "/join";
  candidates = button (bytes "Join") ∷ button (bytes "Back") ∷ [];
  diagnostics = bytes "synthetic_fixture" ∷ bytes "synthetic_fixture" ∷ [];
}

abbrev pub summary : NetworkSummary
summary = record {
  provider_requests = pos 0;
  provider_post_requests = pos 0;
  provider_response_bytes = pos 0;
  requests = pos 5;
  get_requests = pos 4;
  head_requests = pos 1;
}

abbrev pub backend : Backend
backend = record {
  opened_session = λ t. some (record { previews = true; verifies = true });
  opened_well = λ t. true;
  observed = λ t. some seen;
  navigated = λ t. true;
  previewed = λ t. true;
  approved = λ t. true;
  closed_with = λ t. some summary;
  elapsed = λ t. 1000;
  canceled = λ t. false;
  clock = λ t. 1700000000000000000;
  written = λ t. true;
}

abbrev pub blank : ClientMessage
blank = record {
  protocol = Types.v1;
  type = Types.observe;
  profile_id = [];
  url = [];
  origins = [];
  bounds = none;
  method = Types.get;
  profile = [];
  candidate_ids = [];
  flow = [];
  cleanup_disposition = [];
  preview = none;
  step_candidates = [];
  candidate_id = [];
  verification = none;
}

abbrev pub line_of : ClientMessage → List Bytes → Line
line_of m names = record {
  well_formed = true;
  protocol = m.protocol;
  type = m.type;
  field_names = names;
  message = some m;
}

abbrev header : List Bytes
header = bytes "protocol" ∷ bytes "type" ∷ []

abbrev pub start_message : ClientMessage
start_message = record blank {
  type = Types.start;
  profile_id = bytes "acct";
  url = page;
  origins = site ∷ [];
}

abbrev pub navigate_message : ClientMessage
navigate_message = record blank { type = Types.navigate; url = page }

abbrev pub review_message : ClientMessage
review_message = record blank {
  type = Types.review;
  profile = bytes "{}";
  candidate_ids = bytes "candidate-b" ∷ [];
  flow = bytes "join";
  cleanup_disposition = bytes "delete_separately";
}

abbrev pub start_line : Line
start_line =
    line_of start_message (header ++ bytes "profileId" ∷ bytes "url" ∷ bytes "origins" ∷ [])

abbrev pub script : List Line
script =
    start_line
    ∷ line_of navigate_message (header ++ bytes "method" ∷ bytes "url" ∷ [])
    ∷ line_of blank header
    ∷ line_of review_message (header ++ bytes "profile" ∷ bytes "flow" ∷ [])
    ∷ line_of (record blank { type = Types.finish }) header
    ∷ []
