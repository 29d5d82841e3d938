-- ===== src/Tests/Data.antt =====
-- A session, and codecs at which the properties of the session log can be run.
use phala_llm_router.Base.{
  ℕ, [], ◌∷◌, none, some, codes, ite, if_pos, if_neg, ◌≡◌, refl, sym, subst, ℕ_discrete,
  text_discrete,
}
use phala_llm_router.Canonical.{Bytes}
use phala_llm_router.Json.{Value, null, string}
use phala_llm_router.Session.{AttestedSession, Codecs, Claim, ClaimStatus}
use phala_llm_router.Session.Log.{LineCodec}
use phala_llm_router.Session.Log.Lines.{IsObjectLine}
use phala_llm_router.Session.Log.Recovery.{RoundTrips}

abbrev no_claim : Claim
no_claim = record { status = ClaimStatus.unknown; source = none; reason = none }

abbrev pub up : AttestedSession
up = record {
  api_version = codes "aci/1";
  session_id = codes "as_\"up\"";
  upstream_name = codes "up";
  endpoint = none;
  verifier_id = codes "v";
  established_at = 3;
  expires_at = 20;
  identity = none;
  channel_binding = [];
  claims = record {
    tee_attested = no_claim;
    gpu_attested = no_claim;
    tcb_up_to_date = no_claim;
    os_known_good = no_claim;
    serving_software_known_good = no_claim;
    model_weights_provenance = no_claim;
    extra = [];
  };
  evidence = record { digest = none; data_uri = none };
}

-- The hashed material is the upstream's name, and the digest of bytes is the bytes.
abbrev pub codecs : Codecs
codecs = record {
  to_value = λ m. some (string m.upstream_name);
  sha256 = λ b. b;
  base64_decode = λ t. some t;
}

pub Value-discrete : Discrete Value
Value-discrete = hlevel ℕ_discrete

pub session_discrete : Discrete AttestedSession
session_discrete = hlevel (ℕ_discrete, Value-discrete)

abbrev pub the_line : Bytes
the_line = codes "{0}"

-- One line at sequence number 0 and time 5, for one session.
abbrev pub line_codec : LineCodec
line_codec = record {
  encode = λ seq ts kind s.
      ite (session_discrete s up)
        (ite (ℕ_discrete seq 0) (ite (ℕ_discrete ts 5) (some the_line) none) none) none;
  decode = λ b.
      ite (text_discrete b the_line)
        (some (record { seq = 0; ts = 5; record_type = codes "session"; payload = null })) none;
  session_of = λ p. some up;
}

line_codec_only :
    (seq ts : ℕ) (s : AttestedSession) (b : Bytes)
    → line_codec.encode seq ts (codes "session") s ≡ some b
    → (s ≡ up) × (seq ≡ 0) × (ts ≡ 5) × (b ≡ the_line)
line_codec_only seq ts s b h = elim (session_discrete s up) [
  | no p ↦ absurd (cc (rw (if_neg _ p) at h))
  | yes p ↦ elim (ℕ_discrete seq 0) [
    | no q ↦ absurd (cc (rw (if_pos _ p, if_neg _ q) at h))
    | yes q ↦ elim (ℕ_discrete ts 5) [
      | no r ↦ absurd (cc (rw (if_pos _ p, if_pos _ q, if_neg _ r) at h))
      | yes r ↦ (p, q, r, cc (rw (if_pos _ p, if_pos _ q, if_pos _ r) at h))
    ]
  ]
]

the_line-IsObjectLine : IsObjectLine the_line
the_line-IsObjectLine = record {
  middle = 48 ∷ [];
  braces = refl;
  one_line = (refl, (refl, (refl, tt)));
}

pub line_codec-RoundTrips : RoundTrips line_codec
unfolding text_discrete ℕ_discrete
line_codec-RoundTrips = record {
  object_line = λ seq ts s b h.
      subst IsObjectLine (sym (line_codec_only seq ts s b h).3) the_line-IsObjectLine;
  payload =
      λ seq ts s b h. let (p, q, r, e) = line_codec_only seq ts s b h in (null, rw (q, r, e), rw p);
}

pub encode-up : line_codec.encode 0 5 (codes "session") up ≡ some the_line
unfolding ℕ_discrete
encode-up = rw (if_pos (session_discrete up up) refl)
