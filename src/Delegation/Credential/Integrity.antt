-- ===== src/Delegation/Credential/Integrity.antt =====
-- What the credentials of the builders of app/delegation/credential_crypto.py satisfy: the check of
-- the same file accepts them.
use Prim.Native.String.{◌++◌}
use text.Mathlib.TextLemmas.{append-ne-nil_of_right_ne-nil}
use bu_iam.Prelude.{
  ◌≢◌, ℕ, List, or_else, eq_iff, String, ◌≡◌, refl, true, false, Option, none, some, arith, ◌==◌,
  eq_refl, or_text, sym, ap, ◌∙◌,
}
use bu_iam.Prelude.Result.{ok}
use bu_iam.Libs.{Libs}
use bu_iam.Protocol.{DelegationCredential}
use bu_iam.World.{World}
use bu_iam.Identity.Did.{build_did, build_verification_method_id}
use bu_iam.Identity.Crypto.{verify_with_kid}
use bu_iam.Identity.Crypto.RoundTrip.{HasRsaKey, sign_with_kid-rsa}
use bu_iam.Delegation.Credential.{
  gateway_system_id, root_credential_parent, signed_root_id, credential_self_content,
  signed_content, content_hash, compute_credential_id,
}
use bu_iam.Delegation.Credential.Build.{
  Grant, root_id, parent_id, unsigned_credential, with_signature, with_ids, sign_credential,
  build_delegation_credential, unsigned_agent_vc, build_agent_capability_vc,
}
use bu_iam.Delegation.Credential.Check.{known_alg, verify_credential_integrity}

-- A parent names its root.
abbrev pub NamesRoot : Option DelegationCredential → Type 0
NamesRoot none = Unit {0}
NamesRoot (some p) = (p.root_credential_id == "") ≡ false

signed_root_id-or_text :
    (parent : Option DelegationCredential) (cid : String)
    → NamesRoot parent
    → signed_root_id (parent_id parent) (or_text (root_id parent) cid)
      ≡ signed_root_id (parent_id parent) (root_id parent)
unfolding signed_root_id parent_id root_id
signed_root_id-or_text none cid h = refl
signed_root_id-or_text (some p) cid h = rw h

-- What the final ids leave alone: a credential's signed content.
abbrev KeepsRoot : Libs → DelegationCredential → String → Type 0
KeepsRoot lib u sig =
    signed_root_id u.parent_credential_id
      (or_text u.root_credential_id (compute_credential_id lib (with_signature lib u sig)))
    ≡ signed_root_id u.parent_credential_id u.root_credential_id

module _ (lib : Libs) (u : DelegationCredential) (sig : String) where
  signed_content-with_signature :
      signed_content lib (with_signature lib u sig) ≡ signed_content lib u
  unfolding signed_content credential_self_content with_signature
  signed_content-with_signature = refl

  signed_content-with_ids :
      KeepsRoot lib u sig
      → signed_content lib (with_ids lib (with_signature lib u sig)) ≡ signed_content lib u
  unfolding signed_content credential_self_content with_ids with_signature
  signed_content-with_ids keeps = rw (keeps, signed_content, credential_self_content)

  content_hash-with_ids :
      KeepsRoot lib u sig
      → content_hash lib (with_ids lib (with_signature lib u sig))
        ≡ (with_ids lib (with_signature lib u sig)).content_hash
  unfolding content_hash with_ids with_signature
  content_hash-with_ids keeps = ap lib.sha256_hex (signed_content-with_ids keeps)

  id-with_ids :
      KeepsRoot lib u sig
      → compute_credential_id lib (with_ids lib (with_signature lib u sig))
        ≡ (with_ids lib (with_signature lib u sig)).credential_id
  unfolding compute_credential_id with_ids with_signature
  id-with_ids keeps =
      ap (λ t. lib.sha256_hex (or_else u.parent_credential_id root_credential_parent ++ t))
        (signed_content-with_ids keeps ∙ sym signed_content-with_signature)

-- The tests of the check, one by one.
integrity_intro :
    (lib : Libs) (c : DelegationCredential) (sig vm : String) (w : World)
    → known_alg c.signature_alg ≡ true
    → c.proof_signature ≡ some sig
    → c.signature ≡ sig
    → content_hash lib c ≡ c.content_hash
    → compute_credential_id lib c ≡ c.credential_id
    → c.proof_verification_method ≡ some vm
    → (vm == "") ≡ false
    → verify_with_kid lib c.signature_alg (signed_content lib c) sig vm w ≡ ok true
    → verify_credential_integrity lib c w ≡ true
unfolding verify_credential_integrity
integrity_intro lib c sig vm w alg proof plain hash id method named accepted = ground (
  arith,
  eq_iff (content_hash lib c) c.content_hash,
  eq_iff (compute_credential_id lib c) c.credential_id,
  eq_refl sig,
)

-- A signed credential passes the check, if the check of its signature does.
integrity-sign :
    (lib : Libs) (u : DelegationCredential) (sig vm : String) (w : World)
    → KeepsRoot lib u sig
    → known_alg u.signature_alg ≡ true
    → u.proof_verification_method ≡ some vm
    → (vm == "") ≡ false
    → verify_with_kid lib u.signature_alg (signed_content lib u) sig vm w ≡ ok true
    → verify_credential_integrity lib (with_ids lib (with_signature lib u sig)) w ≡ true
unfolding with_ids with_signature
integrity-sign lib u sig vm w keeps alg is_vm named accepted =
    integrity_intro lib (with_ids lib (with_signature lib u sig)) sig vm w alg refl refl
      (content_hash-with_ids lib u sig keeps) (id-with_ids lib u sig keeps) is_vm named
      (rw (signed_content-with_ids lib u sig keeps) accepted)

hash_key-ne : ◌≢◌ {A = String} "#key-1" ""
hash_key-ne e = ground (arith, eq_iff "#key-1" "")

-- A method id is never the empty text.
pub method_id-ne-empty : (did : String) → (build_verification_method_id did == "") ≡ false
unfolding build_verification_method_id
method_id-ne-empty did =
    ground (arith, eq_iff (did ++ "#key-1") "", append-ne-nil_of_right_ne-nil did hash_key-ne)

-- The id of the key that signs for a subject.
abbrev pub method_of : String → String
method_of subject_id = build_verification_method_id (build_did subject_id)

-- Both builders: what they sign passes the check.
sign_credential-integrity :
    (lib : Libs) (u : DelegationCredential) (vm : String) (w : World)
    → u.signature_alg ≡ "BUIAM-RS256"
    → ((cid : String)
        → signed_root_id u.parent_credential_id (or_text u.root_credential_id cid)
          ≡ signed_root_id u.parent_credential_id u.root_credential_id)
    → u.proof_verification_method ≡ some vm
    → (vm == "") ≡ false
    → HasRsaKey lib vm w
    → (c : DelegationCredential) × (sign_credential lib u vm w ≡ ok c)
      × (verify_credential_integrity lib c w ≡ true)
unfolding sign_credential
sign_credential-integrity lib u vm w rs256 keeps is_vm named k =
    let (sig, signed, accepted) =
      sign_with_kid-rsa lib (signed_content lib u) vm u.signature_alg w rs256 k in
    (
      with_ids lib (with_signature lib u sig),
      rw signed,
      integrity-sign lib u sig vm w (keeps _) (rw rs256 (unfold known_alg in refl)) is_vm named
          accepted,
    )

-- Under the RSA algorithm, where the issuer's method id has its RSA key and the parent, if there
-- is one, names a root, `build_delegation_credential` returns a credential that
-- `verify_credential_integrity` accepts.
pub build_delegation_credential-integrity :
    (lib : Libs) (g : Grant) (w : World)
    → lib.signature_alg ≡ "BUIAM-RS256"
    → NamesRoot g.parent
    → HasRsaKey lib (method_of g.issuer_id) w
    → (c : DelegationCredential) × (build_delegation_credential lib g w ≡ ok c)
      × (verify_credential_integrity lib c w ≡ true)
unfolding build_delegation_credential unsigned_credential
build_delegation_credential-integrity lib g w rs256 root k =
    sign_credential-integrity lib (unsigned_credential lib g w) (method_of g.issuer_id) w rs256
      (λ cid. signed_root_id-or_text g.parent cid root) refl (method_id-ne-empty _) k

-- Under the RSA algorithm, where the gateway's method id has its RSA key,
-- `build_agent_capability_vc` returns a credential that `verify_credential_integrity` accepts.
pub build_agent_capability_vc-integrity :
    (lib : Libs) (agent_id : String) (caps : List String) (endpoint agent_type : String)
    (ttl_days : ℕ) (w : World)
    → lib.signature_alg ≡ "BUIAM-RS256"
    → HasRsaKey lib (method_of gateway_system_id) w
    → (c : DelegationCredential) × (build_agent_capability_vc lib agent_id caps endpoint agent_type
          ttl_days w
        ≡ ok c)
      × (verify_credential_integrity lib c w ≡ true)
unfolding build_agent_capability_vc unsigned_agent_vc signed_root_id
build_agent_capability_vc-integrity lib agent_id caps endpoint agent_type ttl_days w rs256 k =
    sign_credential-integrity lib
      (unsigned_agent_vc lib agent_id caps endpoint agent_type ttl_days w)
      (method_of gateway_system_id) w rs256 (λ cid. refl) refl
      (method_id-ne-empty (build_did gateway_system_id)) k
