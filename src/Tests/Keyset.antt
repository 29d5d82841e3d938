-- ===== src/Tests/Keyset.antt =====
-- A launch whose first keyset is revoked.
use phala_llm_router.Base.{
  Bool, ◌||◌, zero, suc, true, false, List, [], ◌∷◌, none, some, Text, codes, text_eq, text_eq_iff,
  text_discrete, ℕ_discrete, ◌≡◌, refl, sym, ap, ◌∙◌, arith,
}
use phala_llm_router.Canonical.{Bytes, Result, ok, err, canonicalize, jcs_sha256_hex, utf16_compare}
use phala_llm_router.Keyset.{
  KeysetEpoch, WorkloadKeyset, PersistedKeysetEpoch, epoch, resolve_epoch, roll_forward,
  RevocationStatement, is_revoked, roll_loop, state, launched, finish, digest_at, resolve_with,
  resolve_launcher_epoch, keyset_material_fingerprint, workload_keyset_digest,
}
use phala_llm_router.Keyset.Roll.{rolls, Distinguished, after, launched-unrevoked}
use phala_llm_router.Keyset.Revocations.{
  reopen, record_all, named, reopened-revoked, persist, record_statement, all_pass,
}

program : Unit {0}
unfolding workload_keyset_digest keyset_material_fingerprint canonicalize jcs_sha256_hex
    utf16_compare resolve_launcher_epoch resolve_with resolve_epoch roll_loop roll_forward finish
    is_revoked text_eq text_discrete ℕ_discrete rolls record_all record_statement persist all_pass
    named
program = tt

-- A digest that is the bytes themselves.
abbrev plain : Bytes → Text
plain b = b

abbrev make_keyset : KeysetEpoch → WorkloadKeyset
make_keyset e = record {
  workload_identity = record {
    public_key = record { algo = codes "p"; public_key_hex = codes "01" };
    subject = none;
  };
  keyset_epoch = e;
  receipt_signing_keys = [];
  e2ee_public_keys = [];
  tls_public_keys = [];
}

abbrev value_of : Result Text → Text
value_of (ok t) = t
value_of (err e) = []

abbrev fingerprint : Text
fingerprint =
    value_of
      (keyset_material_fingerprint plain (make_keyset (record { version = 0; not_after = 0 })))

-- The keyset of version 1 was revoked.
abbrev revoked : List RevocationStatement
revoked =
    record {
      workload_id = codes "w";
      workload_keyset_digest =
          value_of
            (workload_keyset_digest plain (make_keyset (record { version = 1; not_after = 110 })));
      purpose = codes "aci.keyset.revocation.v1";
      revocation = record { algo = codes "p"; value_hex = codes "02" };
      revoked_at = 9;
    }
    ∷ []

abbrev digest : KeysetEpoch → Result Text
digest = digest_at plain make_keyset revoked 10 100

abbrev start : PersistedKeysetEpoch
start = resolve_epoch none fingerprint 10 100

apart :
    (r s : Result Text) (d : Text)
    → text_eq (value_of r) (value_of s) ≡ false
    → r ≡ ok d
    → s ≡ ok d
    → ⊥
apart r s d h p q =
    cc (h, (text_eq_iff (value_of r) (value_of s)).1 (ap value_of p ∙ sym (ap value_of q)))

start-Distinguished : Distinguished digest revoked 10 100 2 start
unfolding program
start-Distinguished zero zero d lt le p q = absurd (omega arith)
start-Distinguished zero (suc zero) d lt le p q = apart _ _ d refl p q
start-Distinguished zero (suc (suc zero)) d lt le p q = apart _ _ d refl p q
start-Distinguished (suc zero) (suc (suc zero)) d lt le p q = apart _ _ d refl p q
start-Distinguished i j d lt le p q = absurd (omega arith)

abbrev rolled : PersistedKeysetEpoch
rolled = record { version = 2; not_after = 110; material_fingerprint = fingerprint }

launched_rolled :
    resolve_launcher_epoch plain make_keyset revoked 10 100 (state none) true
    ≡ launched (epoch rolled) (some rolled)
unfolding program
launched_rolled = refl

fingerprint-ok :
    keyset_material_fingerprint plain (make_keyset (record { version = 0; not_after = 0 }))
    ≡ ok fingerprint
unfolding program
fingerprint-ok = refl

launched-unrevoked_example :
    (d : Text) × (workload_keyset_digest plain (make_keyset (epoch rolled)) ≡ ok d)
    × (is_revoked revoked d ≡ false)
    × (p : PersistedKeysetEpoch) × (epoch p ≡ epoch rolled)
    × (after (some rolled) none ≡ some p)
launched-unrevoked_example =
    launched-unrevoked plain make_keyset revoked 10 100 none true (epoch rolled) (some rolled)
      fingerprint fingerprint-ok start-Distinguished launched_rolled

abbrev statement : Text → RevocationStatement
statement d = record {
  workload_id = codes "w";
  workload_keyset_digest = d;
  purpose = codes "aci.keyset.revocation.v1";
  revocation = record { algo = codes "p"; value_hex = codes "02" };
  revoked_at = 9;
}

abbrev issued : List (RevocationStatement × Bool)
issued =
    (statement (codes "a"), true)
    ∷ (statement (codes "b"), true)
    ∷ (statement (codes "a"), true)
    ∷ []

all_pass-issued : all_pass issued ≡ true
unfolding all_pass
all_pass-issued = refl

reopened-revoked_example :
    (is_revoked (record_all (reopen []) issued).statements (codes "a")
      ≡ (is_revoked [] (codes "a") || named (codes "a") issued))
    × (is_revoked (reopen (record_all (reopen []) issued).file).statements (codes "a")
        ≡ (is_revoked [] (codes "a") || named (codes "a") issued))
reopened-revoked_example = reopened-revoked (codes "a") issued (reopen []) refl refl all_pass-issued

-- A record whose write fails is not in the file, and the second attempt, which returns `Ok`, does
-- not write it either: a service that is started again no longer refuses the keyset.
unsaved :
    let failed = record_statement (reopen []) (statement (codes "a")) false in
    let again = record_statement failed.0 (statement (codes "a")) true in
    (failed.1 ≡ false)
    × (again.1 ≡ true)
    × (is_revoked again.0.statements (codes "a") ≡ true)
    × (is_revoked (reopen again.0.file).statements (codes "a") ≡ false)
unfolding program
unsaved = (refl, refl, refl, refl)
