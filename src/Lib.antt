-- ===== src/Lib.antt =====
-- Verification library of browsertools.
--
-- browsertools authors and checks browser profiles. This library models the registration author
-- session: a server that lets a client look at a registration page through a browser, without ever
-- submitting it, and ends with a reviewed profile; the author session, in which a client reaches a goal
-- on a site behind a login, every click approved by a person; and the checks that keep the output of
-- both free of secrets. It also models how content trust finds the action that an operation names.
--
-- The client sends lines to Serve, which decodes each (protocol.go), hands it to the handler of its
-- type (session.go, inputs.go, verification.go), and writes what came of it. A handler asks the browser
-- for a call within the active time that is left, reduces what it observed, and keeps the candidates;
-- URLs go through registrationurl and origins through exactOrigin, paths through disclosurepath, and
-- labels through the reduction of authorsession.
--
-- Which file models what:
--   Text                     string routines of Go's standard library that the source calls
--   Search                   contains of registrationauthorsession/session.go, with sort.SearchStrings
--   Library                  the code that is not here, as a record of functions: parsers of JSON, URLs,
--                            IP addresses and profiles, regular expressions, digests, redaction
--   Label                    authorsession/label.go
--   Disclosure               disclosurepath/path.go, with url.PathUnescape
--   RegistrationUrl          internal/registrationurl/url.go
--   Registration.Types       the wire types of registrationauthorsession/protocol.go and inputs.go
--   Registration.Profile     what the session reads of a registration profile, and its messages
--   Registration.Origins     exactOrigin, cleanURLForProtocol, ValidateNavigationURL, normalizeOrigins
--   Registration.Bounds      validateBounds, normalizedBounds
--   Registration.Control     ValidateControlMetadata, ValidatePreview, humanControlLabel
--   Registration.Verification  verification.go, and validateNetworkSummary
--   Registration.Server      the server's state, the calls to the browser, and the backend
--   Registration.Reduce      reduceObservation
--   Registration.Actions     write, fail, failBrowser, failAfterClose, closeSession, withActiveContext
--   Registration.Handlers    start, observe, navigate, preview, approveVerification
--   Registration.Review      validateReviewedSubmit, historyCandidates, and the origins of a profile
--   Registration.Evidence, Registration.Binding  ValidateTypedEvidence, ValidateVerificationEvidence
--   Registration.Session     review, finish, closeWithoutResult
--   Registration.Serve       decodeClientMessage, handle, and the loop of Serve
--   Registration.Rules       rules for proofs about actions
--   Registration.Lifecycle   assertions about the use of the browser, by handler
--   Registration.Completion  assertions about the review and the completion
--   Registration.Sent        assertions about the observations that are written
--   Machine                  actions on a state that may fail, and assertions about them
--   AuthorUrl                authorurl/url.go, and ParseOrigin of profile/profile.go
--   AuthorSession.Types      the wire and state types of authorsession/session.go, and those of
--                            authorresult/result.go that the session fills
--   AuthorSession.Origins    exactOrigin, originForURL, cleanAbsoluteURL, dashboardMatches, validateBounds
--   AuthorSession.Vocabulary the closed vocabularies, validateChallengeKinds, promotableLabel
--   AuthorSession.Goal       matchGoal, authenticationSuccessProof
--   AuthorSession.Server     the server's state, the events, and the backend
--   AuthorSession.Contexts   addContext, addContexts
--   AuthorSession.Reduce     reduceObservation
--   AuthorSession.Actions    write, fail, failAfterClose, closeSession, withActiveContext
--   AuthorSession.Start      validateStart, startSession
--   AuthorSession.Observing  observe
--   AuthorSession.HumanInput  focus, completeHumanInput
--   AuthorSession.Execution  requestExecute, requireApproval, approve, deny, execute
--   AuthorSession.Outputs    reviewOutputs
--   AuthorSession.Finish     complete, finish, closeWithoutResult
--   AuthorSession.Serve      decodeClientMessage, handle, and the loop of Serve
--   AuthorSession.Rules      rules for proofs about the session's actions
--   AuthorSession.Approvals  assertions about the authority of what the session does, by handler
--   AuthorSession.Evidence   assertions about what the stored artifacts are built from, by handler
--   ContentTrust             the naming of actions in contenttrust/resolver.go
--   Examples                 a concrete library and backend, and the theorems at concrete inputs
--
-- State and effects. The server is a record with the fields of the source's struct; its sets originSet
-- and diagnosticSet are the lists that they repeat. An action takes the server to a result and a server.
-- The server also carries the trace of all calls and writes, newest first, and the backend answers by
-- the trace, so that every behaviour of the browser, the context, the clock and the output is covered:
-- also one that answers differently to the same call at another time.
--
-- Numbers. A Go string is the list of its bytes. Counters that start at 0 are natural numbers, other
-- integers are signed; none wraps within the limits of the protocol. A finite float is its multiple of
-- 2 ^ -1074. Times and durations are nanoseconds.
--
-- Termination. The loops are recursion on the input lines, the candidates, the steps or the codes;
-- the binary search takes fuel, the length of its list, which halving never uses up. addContexts takes
-- the number of contexts, of which every round that goes on adds one; its depth loop has three steps, as
-- its bound gives.
--
-- Not modelled: the decoding of JSON lines (a line comes decoded, with whether it was well formed and
-- the names of its fields), the reading of the input, the goroutine that closes the input when the
-- context ends, the browser itself, SuggestFields, authorresult.Build, which checks the envelope of an author
-- session once more (a parameter), the steps of writePrivateExclusive and validatePrivateRoot on the
-- disk (an answer of the backend), and the other packages of the repository.
pub mod Prelude
pub mod Text
pub mod Search
pub mod Library
pub mod Machine
pub mod Label
pub mod Disclosure
pub mod RegistrationUrl
pub mod Registration
pub mod AuthorUrl
pub mod AuthorSession
pub mod ContentTrust
pub mod Examples
