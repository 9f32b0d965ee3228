-- ===== src/Library.antt =====
-- What the code takes from Go's unicode-aware and regular-expression routines, from net/url and
-- net, from encoding/json and crypto/sha256, and from third-party modules. All of it is a parameter.
use browsertools.Prelude.{ℕ, Bool, Option, List, Bytes}
use browsertools.Registration.Types.{Observation, HumanVerification}
use browsertools.Registration.Profile.{Profile, ServerMessage}

-- A *url.URL, by the fields and methods that the code reads.
pub record Url : Type 0 where
  pub scheme : Bytes
  pub opaque : Bytes
  pub host : Bytes
  pub hostname : Bytes
  pub port : Bytes
  pub path : Bytes
  pub escaped_path : Bytes
  pub raw_query : Bytes
  pub fragment : Bytes
  pub has_user : Bool
  pub force_query : Bool
  pub is_abs : Bool

-- A parsed net.IP: its String(), and IsLoopback().
pub record Ip : Type 0 where
  pub text : Bytes
  pub is_loopback : Bool

pub record Library : Type 0 where
  -- strings.TrimSpace, strings.ToLower
  pub trim_space : Bytes → Bytes
  pub to_lower : Bytes → Bytes
  -- strings.Join(strings.FieldsFunc(s, unicode.IsSpace or unicode.IsControl), " ")
  pub collapse_spaces : Bytes → Bytes
  -- utf8.ValidString, utf8.RuneCountInString, and whether some rune is unicode.IsControl
  pub valid_utf8 : Bytes → Bool
  pub rune_count : Bytes → ℕ
  pub has_control : Bytes → Bool
  -- the regular expressions for an email address, a phone number, a credential assignment, a secret
  pub matches_email : Bytes → Bool
  pub matches_phone : Bytes → Bool
  pub matches_assignment : Bytes → Bool
  pub matches_secret : Bytes → Bool
  -- redact.String and redact.SensitiveKey of the evidence module
  pub redact : Bytes → Bytes
  pub sensitive_key : Bytes → Bool
  -- url.Parse, url.ParseQuery, Values.Encode, net.ParseIP, net.JoinHostPort
  pub parse_url : Bytes → Option Url
  pub parse_query : Bytes → Option (List (Bytes × List Bytes))
  pub encode_query : List (Bytes × List Bytes) → Bytes
  pub parse_ip : Bytes → Option Ip
  pub join_host_port : Bytes → Bytes → Bytes
  -- the number of a port without sign or leading zero, as strconv.Atoi and strconv.Itoa agree on it
  pub canonical_number : Bytes → Option ℕ
  -- the digest in candidateID: fmt.Sprintf, SHA-256 and hex of generation, role, label and index
  pub candidate_digest : ℕ → Bytes → Bytes → ℕ → Bytes
  -- len(json.Marshal(...)) of a message and of a list of observations
  pub message_length : ServerMessage → ℕ
  pub history_length : List Observation → ℕ
  -- registrationprofile: Parse (whose schema check is third-party), ValidateAt, MarshalJSON
  pub parse_profile : Bytes → Option Profile
  pub valid_at : Profile → ℕ → Bool
  pub marshal_profile : Profile → Option Bytes
  -- profile.ParseOrigin
  pub parse_origin : Bytes → Option Bytes
  -- reflect.DeepEqual of two verification descriptors
  pub same_verification : HumanVerification → HumanVerification → Bool
