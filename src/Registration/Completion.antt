-- ===== src/Registration/Completion.antt =====
-- What a completion of the session stands for: the facts of its review and of its network summary.
pub mod Reviews
pub mod Choice
pub mod Outcome
use browsertools.Prelude.{
  ◌≡◌, Bool, true, false, Option, none, some, List, [], ◌∷◌, all, member, pos, eq_ℤ, is_empty,
}
use browsertools.Library.{Library}
use browsertools.Registration.Types.{Protocol, ReviewedCandidate}
use browsertools.Registration.Profile.{Profile, Flow}
use browsertools.Registration.Verification.{validate_network_summary_for_protocol}
use browsertools.Registration.Review.{profile_fits, validate_reviewed_submit}
use browsertools.Registration.Server.{Server, RegistrationReview, lookup}
use browsertools.Registration.Session.{Completion, cleanups}

-- Each reviewed candidate matched one element of its page.
abbrev pub all_unique : List ReviewedCandidate → Bool
all_unique cs = all (λ c. eq_ℤ c.matches (pos 1)) cs

module _ (lib : Library) where
  -- The chosen flow is in the profile, and its one submit is bound to one reviewed candidate.
  abbrev pub submit_bound : RegistrationReview → Option Flow → Bool
  submit_bound r none = false
  submit_bound r (some f) = validate_reviewed_submit lib f r.candidates

  pub record ReviewIsOk (p : Protocol) (r : RegistrationReview) : Type 0 where
    pub fits : profile_fits p r.profile.profile ≡ true
    pub encoded : lib.marshal_profile r.profile ≡ some r.profile_bytes
    pub bound : submit_bound r (lookup r.flow r.profile.flows) ≡ true
    pub unique : all_unique r.candidates ≡ true
    pub cleanup : member r.cleanup cleanups ≡ true

  -- A review that the server keeps is in order.
  pub record KeepsReview (s : Server) : Type 0 where
    pub at : (r : RegistrationReview) → s.reviewed_profile ≡ some r → ReviewIsOk s.protocol r

  pub record CompletionIsOk (c : Completion) : Type 0 where
    pub review : ReviewIsOk c.protocol c.review
    pub network :
        validate_network_summary_for_protocol c.network c.bounds.max_requests c.protocol
          c.verification_authority
        ≡ true
