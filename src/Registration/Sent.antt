-- ===== src/Registration/Sent.antt =====
-- What it means that a written observation may be disclosed (registrationauthorsession/session.go).
pub mod Steps
pub mod Handlers
pub mod Whole
use browsertools.Prelude.{◌≡◌, ◌&&◌, Bool, true, false, List, all, leb_ℤ, pos}
use browsertools.Text.{are_sorted}
use browsertools.Library.{Library}
use browsertools.Label.{safe_candidate_label}
use browsertools.Disclosure.{validate_path}
use browsertools.Registration.Types.{Candidate, Observation}
use browsertools.Registration.Profile.{ServerMessage, observation, hello, state, diagnostic}
use browsertools.Registration.Server.{Server, Event, wrote}
use browsertools.Registration.Reduce.{is_portable_role, valid_diagnostic}
use browsertools.Registration.Reduce.Candidates.{distinct_locators}
use browsertools.Registration.Reduce.Diagnostics.{AreCodes}

module _ (lib : Library) where
  -- A candidate with a portable role, a safe label and a match.
  abbrev pub public_candidate : Candidate → Bool
  public_candidate c =
      is_portable_role c.role && safe_candidate_label lib c.label && leb_ℤ (pos 1) c.matches

  -- An observation with a safe path, public and distinct candidates, and known codes in order.
  abbrev pub is_public : Observation → Bool
  is_public o =
      validate_path lib o.path
      && all public_candidate o.candidates
      && distinct_locators o.candidates
      && all valid_diagnostic o.diagnostics
      && are_sorted o.diagnostics

  abbrev pub public_message : ServerMessage → Bool
  public_message (observation o) = is_public o
  public_message _ = true

  abbrev pub public_event : Event → Bool
  public_event (wrote m) = public_message m
  public_event _ = true

  abbrev pub all_public : List Event → Bool
  all_public trace = all public_event trace

  -- What holds also after a failure, and what holds between two messages.
  pub record IsWritten (s : Server) : Type 0 where
    pub sent : all_public s.trace ≡ true

  pub record IsClean (s : Server) : Type 0 where
    pub sent : all_public s.trace ≡ true
    pub codes : AreCodes s.diagnostics
