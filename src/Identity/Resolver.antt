-- ===== src/Identity/Resolver.antt =====
-- app/identity/did_resolver.py: a verification method id to the key that its DID document names.
use bu_iam.Prelude.{String, not, Option, none, some, ◌==◌, if◌then◌else◌}
use bu_iam.Prelude.Text.{partition}
use bu_iam.Prelude.Result.{ok, err, guard, or_raise, ◌>>=◌, ◌>>◌}
use bu_iam.Json.{Json, arr, obj, Items, nil, cons, Fields, end, get, truth}
use bu_iam.Libs.{Libs, str}
use bu_iam.Protocol.Errors.{did_error, other, Read}
use bu_iam.World.{World}
use bu_iam.Store.DidRegistry.{get_did_document}

-- `public_key_jwk`, normalised
pub data PublicJwk : Type 0 where
  mldsa_jwk : String → String → PublicJwk
  rsa_jwk : String → String → String → PublicJwk

pub record ResolvedVerificationMethod : Type 0 where
  pub did : String
  pub verification_method_id : String
  pub subject_id : String
  pub public_key_jwk : PublicJwk

-- str(jwk.get("kty", ""))
unfoldable pub kty_of : PublicJwk → String
kty_of (mldsa_jwk pk alg) = "ML-DSA"
kty_of (rsa_jwk kty n e) = kty

unfoldable pub resolve_did_document : String → World → Read Fields
resolve_did_document did w = or_raise (get_did_document did w) (did_error "DID not found")

-- str(d.get(key, default))
unfoldable pub str_or : Libs → String → String → Fields → String
unfolding get
str_or lib key default fs = elim (get key fs) [ none ↦ default | some v ↦ str lib v ]

-- `value or []`, iterated: a value that is no list has no `get` in its items.
unfoldable pub items_or_raise : Option Json → Read Items
unfolding truth
items_or_raise none = ok nil
items_or_raise (some (arr xs)) = ok xs
items_or_raise (some v) = if truth v then err (other "TypeError") else ok nil

-- `value or {}`, on which `get` is called
unfoldable pub dict_or_raise : Option Json → Read Fields
unfolding truth
dict_or_raise none = ok end
dict_or_raise (some (obj fs)) = ok fs
dict_or_raise (some v) = if truth v then err (other "AttributeError") else ok end

unfoldable pub dict_key : Option Json → Read Fields
dict_key (some (obj fs)) = ok fs
dict_key v = err (did_error "verification method missing publicKeyJwk")

unfoldable pub normalize_mldsa : Libs → Fields → Read PublicJwk
unfolding get str_or
normalize_mldsa lib jwk = do
  pk ← or_raise (get "pk" jwk) (did_error "ML-DSA verification method missing pk")
  ok (mldsa_jwk (str lib pk) (str_or lib "alg" "ML-DSA-65" jwk))

unfoldable pub normalize_rsa : Libs → Fields → Read PublicJwk
unfolding get str_or
normalize_rsa lib jwk = do
  n ← or_raise (get "n" jwk) (did_error "RSA verification method missing n/e")
  e ← or_raise (get "e" jwk) (did_error "RSA verification method missing n/e")
  ok (rsa_jwk (str_or lib "kty" "RSA" jwk) (str lib n) (str lib e))

unfoldable pub normalize_jwk : Libs → Fields → Read PublicJwk
unfolding str_or normalize_mldsa normalize_rsa
normalize_jwk lib jwk =
    if str_or lib "kty" "" jwk == "ML-DSA" then normalize_mldsa lib jwk else normalize_rsa lib jwk

-- str(value or "")
unfoldable pub text_if_true : Libs → Option Json → String
unfolding truth
text_if_true lib none = ""
text_if_true lib (some v) = if truth v then str lib v else ""

-- str((document.get("metadata") or {}).get("subject_id") or "")
unfoldable pub metadata_subject : Libs → Fields → Read String
unfolding get text_if_true dict_or_raise
metadata_subject lib document = do
  metadata ← dict_or_raise (get "metadata" document)
  let subject = text_if_true lib (get "subject_id" metadata)
  guard (not (subject == "")) (did_error "DID document missing metadata.subject_id")
  ok subject

-- str(method.get("id")): a missing id reads "None".
unfoldable pub method_id : Libs → Fields → String
unfolding get
method_id lib method = elim (get "id" method) [ none ↦ "None" | some v ↦ str lib v ]

module _ (lib : Libs) (did vm_id : String) (document : Fields) where
  unfoldable pub found_method : Fields → Read ResolvedVerificationMethod
  unfolding get dict_key normalize_jwk metadata_subject
  found_method method = do
    jwk ← dict_key (get "publicKeyJwk" method)
    key ← normalize_jwk lib jwk
    subject_id ← metadata_subject lib document
    ok (record {
      did = did;
      verification_method_id = vm_id;
      subject_id = subject_id;
      public_key_jwk = key;
    })

  -- the `for` loop: the first method with the id decides
  unfoldable pub find_method : Items → Read ResolvedVerificationMethod
  unfolding found_method method_id
  find_method nil = err (did_error "verification method not found")
  find_method (cons (obj method) rest) =
      let others = find_method rest in
      if method_id lib method == vm_id then found_method method else others
  find_method (cons v rest) = err (other "AttributeError")

unfoldable pub resolve_verification_method : Libs → String → World → Read ResolvedVerificationMethod
unfolding partition resolve_did_document get items_or_raise find_method
resolve_verification_method lib vm_id w = do
  let parts = partition b'#' vm_id
  guard parts.found (did_error "verification method id must be did#fragment")
  guard (not (parts.before == "")) (did_error "invalid verification method id")
  guard (not (parts.after == "")) (did_error "invalid verification method id")
  document ← resolve_did_document parts.before w
  methods ← items_or_raise (get "verificationMethod" document)
  find_method lib parts.before vm_id document methods
