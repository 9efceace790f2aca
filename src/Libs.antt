-- ===== src/Libs.antt =====
-- What the program calls and does not implement: `json.dumps` and `hashlib`, base64 and liboqs, the
-- key files under data/keys, and the environment variable BUIAM_AUTH_SIGNATURE_ALG.
use bu_iam.Prelude.{ℕ, String, Bool, Option, List}
use bu_iam.Json.{Json, text}

pub record RsaKey : Type 0 where
  pub n : ℕ
  pub e : ℕ
  pub d : ℕ

-- Python's integers: `negsuc n` is -(n + 1).
pub data ℤ : Type 0 where
  pos : ℕ → ℤ
  negsuc : ℕ → ℤ

pub record Libs : Type 0 where
  -- json.dumps(value, ensure_ascii=False, separators=(",", ":"), sort_keys=True)
  pub dumps : Json → String
  -- str(value), of a value that is no text
  pub repr : Json → String
  -- hashlib.sha256(text.encode()).hexdigest()
  pub sha256_hex : String → String
  -- int.from_bytes(hashlib.sha256(text.encode()).digest(), "big")
  pub sha256_int : String → ℕ
  -- int.from_bytes(b64url_decode(text), "big"); `none` where the decoder raises
  pub decode_int : String → Option ℕ
  -- b64url_encode(value.to_bytes(length, "big")), the length first
  pub encode_int : ℕ → ℕ → String
  -- b64url_encode(text.encode())
  pub encode_text : String → String
  -- json.loads(b64url_decode(text)); `none` where either raises
  pub loads_text : String → Option Json
  -- json.loads(text); `none` where it raises a JSONDecodeError
  pub loads : String → Option Json
  -- json.dumps(value, ensure_ascii=False)
  pub dumps_plain : Json → String
  -- int(value); `none` where it raises
  pub int_of : Json → Option ℤ
  -- liboqs under an algorithm and a key; `none` where it raises
  pub oqs_sign : String → String → String → Option String
  -- liboqs under an algorithm and a key; `false` where it raises
  pub oqs_verify : String → String → String → String → Bool
  -- load_private_key(key_id), load_public_key(key_id); `none` where the file cannot be read
  pub private_key : String → Option RsaKey
  pub public_key : String → Option RsaKey
  -- load_mldsa_private_key(key_id): its algorithm and its key
  pub mldsa_private_key : String → Option (String × String)
  -- load_mldsa_public_key(key_id): its algorithm and its key
  pub mldsa_public_key : String → Option (String × String)
  -- os.getenv("BUIAM_USE_MLDSA", "false").lower() == "true"
  pub use_mldsa : Bool
  -- time.strftime("%Y-%m-%dT%H:%M:%SZ", time.gmtime(t))
  pub utc_text : ℕ → String
  -- SQLite's `vc_type LIKE '%marker%'`, on the JSON text of the list
  pub vc_type_like : String → List String → Bool
  -- the UTC time with the text that time.localtime gives to a time
  pub local_time : ℕ → ℕ
  -- the calls that Python still nests before a RecursionError
  pub recursion_limit : ℕ
  -- os.getenv("BUIAM_AUTH_SIGNATURE_ALG", "BUIAM-RS256")
  pub signature_alg : String

-- `str(value)`
abbrev pub str : Libs → Json → String
str lib (text t) = t
str lib v = lib.repr v
