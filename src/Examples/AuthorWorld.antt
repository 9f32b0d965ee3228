-- ===== src/Examples/AuthorWorld.antt =====
-- A world for authenticated authoring: one site with a dashboard, and a browser that behaves.
use browsertools.Prelude.{pos, true, false, none, some, List, [], ◌∷◌, bytes, bytes_eq}
use browsertools.AuthorUrl.{UrlLibrary}
use browsertools.AuthorSession.Types
use browsertools.AuthorSession.Types.{
  ClientMessage, GoalPredicate, RawCandidate, RawObservation, Execution, OutputRequest,
}
use browsertools.AuthorSession.Server.{AuthorLibrary, Backend}
use browsertools.AuthorSession.Serve.{Line}
use browsertools.Examples.World.{lib, site, page}

abbrev pub urls : UrlLibrary
urls = record {
  equal_fold = bytes_eq;
  is_port_number = λ s. true;
  query_keys = λ s. [];
  escaped_root = λ u. u.escaped_path;
  url_string = λ u. page;
}

abbrev pub author : AuthorLibrary
author = record {
  base = lib;
  urls = urls;
  candidate_digest = λ g c r l i. bytes "0";
  sha256_hex = λ s. bytes "0123456789abcdef0123";
  in_private_root = λ s. s;
  build = λ r. some (bytes "{}");
}

abbrev goal : GoalPredicate
goal = record {
  origin = site;
  path = bytes "/join";
  context = [];
  role = bytes "button";
  label = bytes "Join";
}

abbrev button : RawCandidate
button = record {
  backend_id = bytes "b1";
  role = bytes "button";
  label = bytes "Join";
  input_kind = [];
  challenge_kinds = [];
  target_origin = [];
  matches = pos 1;
}

abbrev pub seen : RawObservation
seen = record {
  origin = site;
  path = bytes "/join";
  context = [];
  candidates = button ∷ [];
  contexts = [];
  diagnostics = [];
}

abbrev pub executed : Execution
executed = record { post_observed = pos 1; opened_id = []; opened = none }

abbrev pub backend : Backend
backend = record {
  opened = λ t. true;
  focused = λ t. true;
  origin_added = λ t. true;
  closed_well = λ t. true;
  observed = λ t. some seen;
  executed = λ t. some executed;
  elapsed = λ t. 1000;
  canceled = λ t. false;
  clock = λ t. 1700000000000000000;
  written = λ t. true;
  kept = λ t. true;
  private_root_ok = true;
}

abbrev pub blank : ClientMessage
blank = record {
  protocol = Types.protocol_name;
  type = Types.observe;
  title = [];
  url = [];
  dashboard_url = [];
  goal = [];
  origins = [];
  goal_predicate = none;
  bounds = none;
  context = [];
  candidate_id = [];
  action = Types.click;
  post_budget = pos 0;
  approval_id = [];
  challenge_kind = [];
  outputs = none;
  confirmed = false;
}

abbrev pub line_of : ClientMessage → Line
line_of m = record { well_formed = true; type = m.type; field_names = []; message = some m }

abbrev pub start_message : ClientMessage
start_message = record blank {
  type = Types.start;
  title = bytes "Join";
  url = page;
  dashboard_url = page;
  goal = bytes "Join the site";
  origins = site ∷ [];
  goal_predicate = some goal;
}

abbrev pub click_message : ClientMessage
click_message = record blank {
  type = Types.execute;
  candidate_id = bytes "candidate-0";
  post_budget = pos 2;
}

abbrev pub approve_message : ClientMessage
approve_message = record blank { type = Types.approve; approval_id = bytes "approval-0001" }

abbrev complete_message : ClientMessage
complete_message = record blank { type = Types.human_complete; confirmed = true; outputs = some [] }

abbrev pub script : List Line
script =
    line_of start_message
    ∷ line_of blank
    ∷ line_of click_message
    ∷ line_of approve_message
    ∷ line_of blank
    ∷ line_of complete_message
    ∷ line_of (record blank { type = Types.finish })
    ∷ []
