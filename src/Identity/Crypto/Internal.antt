-- ===== src/Identity/Crypto/Internal.antt =====
-- The signing of app/identity/crypto.py raises no `HTTPException`.
use bu_iam.Prelude.{String, Option, none, some}
use bu_iam.Json.{Json, Items, nil, cons, obj, Fields}
use bu_iam.Libs.{Libs, RsaKey}
use bu_iam.Protocol.Errors.Internal.{IsInternal, internal}
use bu_iam.World.{World}
use bu_iam.Identity.Resolver.{
  items_or_raise, dict_or_raise, dict_key, normalize_jwk, normalize_mldsa, normalize_rsa,
  metadata_subject, found_method, find_method, resolve_did_document, resolve_verification_method,
}
use bu_iam.Identity.Crypto.{
  pow_mod, rsa_sign_with_private_key, rsa_sign_with_kid, mldsa_sign_with_kid, sign_with_kid,
}

items_or_raise-IsInternal : (o : Option Json) → IsInternal (items_or_raise o)
unfolding items_or_raise
items_or_raise-IsInternal none = search internal
items_or_raise-IsInternal (some (Json.arr xs)) = search internal
items_or_raise-IsInternal (some v) = search internal

dict_or_raise-IsInternal : (o : Option Json) → IsInternal (dict_or_raise o)
unfolding dict_or_raise
dict_or_raise-IsInternal none = search internal
dict_or_raise-IsInternal (some (obj fs)) = search internal
dict_or_raise-IsInternal (some v) = search internal

dict_key-IsInternal : (o : Option Json) → IsInternal (dict_key o)
unfolding dict_key
dict_key-IsInternal (some (obj fs)) = search internal
dict_key-IsInternal o = search internal

normalize-IsInternal : (lib : Libs) (jwk : Fields) → IsInternal (normalize_jwk lib jwk)
unfolding normalize_jwk normalize_mldsa normalize_rsa
normalize-IsInternal lib jwk = search internal

subject-IsInternal : (lib : Libs) (document : Fields) → IsInternal (metadata_subject lib document)
unfolding metadata_subject
subject-IsInternal lib document = search (internal, dict_or_raise-IsInternal)

find_method-IsInternal :
    (lib : Libs) (did vm : String) (document : Fields) (ms : Items)
    → IsInternal (find_method lib did vm document ms)
unfolding find_method found_method
find_method-IsInternal lib did vm document nil = search internal
find_method-IsInternal lib did vm document (cons (obj m) rest) = search (
  internal,
  dict_key-IsInternal,
  normalize-IsInternal,
  subject-IsInternal,
  find_method-IsInternal lib did vm document rest,
)
find_method-IsInternal lib did vm document (cons v rest) = search internal

resolve-IsInternal :
    (lib : Libs) (vm : String) (w : World) → IsInternal (resolve_verification_method lib vm w)
unfolding resolve_verification_method resolve_did_document
resolve-IsInternal lib vm w =
    search (internal, items_or_raise-IsInternal, find_method-IsInternal) depth 14

pub sign_with_file_key-IsInternal :
    (lib : Libs) (input : String) (key : RsaKey)
    → IsInternal (rsa_sign_with_private_key lib input key)
unfolding rsa_sign_with_private_key pow_mod
sign_with_file_key-IsInternal lib input key = search internal

pub sign_with_kid-IsInternal :
    (lib : Libs) (alg input vm : String) (w : World) → IsInternal (sign_with_kid lib alg input vm w)
unfolding sign_with_kid rsa_sign_with_kid mldsa_sign_with_kid
sign_with_kid-IsInternal lib alg input vm w =
    search (internal, resolve-IsInternal, sign_with_file_key-IsInternal)
