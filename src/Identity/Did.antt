-- ===== src/Identity/Did.antt =====
-- app/identity/did.py: the identifiers.
use Prim.Native.String.{◌++◌}
use bu_iam.Prelude.{String}

unfoldable pub build_did : String → String
build_did subject_id = "did:buiam:" ++ subject_id

-- with the default key label
unfoldable pub build_verification_method_id : String → String
build_verification_method_id did = did ++ "#key-1"
