-- ===== src/AuthorSession/Evidence/Whole.antt =====
-- About Serve and handle of authorsession/session.go: what is stored has its evidence.
use browsertools.Prelude.{◌≡◌, ◌&&◌, Bool, true, false}
use browsertools.AuthorSession.Types.{MessageType, ClientMessage}
use browsertools.AuthorSession.Serve.{Next, read_on, stop, phase_messages}
use browsertools.AuthorSession.Server.{AuthorLibrary, Backend, Server}
use browsertools.AuthorSession.Evidence.{Backed, Kept, is_completion, is_confirmed}

-- The two messages that are taken before the session is started.
abbrev is_opening : MessageType → Bool
is_opening MessageType.start = true
is_opening MessageType.close = true
is_opening _ = false

module _ (a : AuthorLibrary) (backend : Backend) where
  -- What a message leaves behind that was taken up.
  abbrev NextKept : Next → Server → Type 0
  NextKept read_on s = Kept a s
  NextKept stop s = Backed a s.trace

  -- A completion that was just confirmed is on the record.
  abbrev Heard : MessageType → ClientMessage → Server → Type 0
  Heard t m s = Kept a s × (is_completion t && m.confirmed ≡ true → is_confirmed s.trace ≡ true)

  abbrev Admitted : MessageType → ClientMessage → Server → Type 0
  Admitted t m s = Heard t m s × (phase_messages s.phase t ≡ true)
