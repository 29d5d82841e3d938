-- ===== src/Service/Sessions/Cited.antt =====
-- The session that a receipt cites is of the instance that served, and resolves.
use phala_llm_router.Base.{ℕ, Option, none, some, Text, ◌≡◌}
use phala_llm_router.Receipts.Types.{UpstreamVerifiedEvent}
use phala_llm_router.Service.Claims.Instance.{per_instance_session_claims}
use phala_llm_router.Service.Sessions.{claims_of}
use phala_llm_router.Service.Sessions.Live.{Live}
use phala_llm_router.Session.{Codecs, SessionClaims}
use phala_llm_router.Session.Index.{SessionIndex}
use phala_llm_router.Service.Sessions.Origin.{SealOf}

-- What the claims of a cited session are, for the instance that served.
abbrev pub ClaimsOf : UpstreamVerifiedEvent → Option Text → SessionClaims → Type 0
ClaimsOf event none claims = (key : Option Text) × (claims ≡ claims_of event key)
ClaimsOf event (some instance) claims = claims ≡ per_instance_session_claims event instance

-- A session that is good for the instance that served.
abbrev CitedWell :
    Codecs
    → ℕ
    → ℕ
    → UpstreamVerifiedEvent
    → SessionIndex
    → Option Text
    → Text
    → SessionClaims
    → Type 0
CitedWell c now e event ix instance id claims =
    Live e ix id × ClaimsOf event instance claims × SealOf c now e event instance claims id
