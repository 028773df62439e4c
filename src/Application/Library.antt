-- ===== src/Application/Library.antt =====
-- What internal/application calls of other libraries: HMAC, SHA-256, hex and base64 of Go's standard
-- library, and the encoding of google.golang.org/protobuf.
use vorax_simulator.Base.{ℕ, String, ◌≡◌, Bool, true, false, Option, some, str_eq}
use vorax_simulator.Protocol.{GameState}
use vorax_simulator.Text.Split.{has_dot}

pub record Library : Type 1 where
  pub Bytes : Type 0
  -- The nil slice, which a map gives for a key that is missing.
  pub no_bytes : Bytes
  pub size : Bytes → ℕ
  -- `hmac.New(sha256.New, key)`, one `Write` of the text, and `Sum(nil)`.
  pub hmac : Bytes → String → Bytes
  pub same_bytes : Bytes → Bytes → Bool
  pub sha256 : Bytes → Bytes
  -- The first eight bytes, as a uint64, of the SHA-256 digest of a text.
  pub sha256_word : String → ℕ
  pub hex : Bytes → String
  -- base64.RawURLEncoding
  pub encode : Bytes → String
  pub decode : String → Option Bytes
  -- `proto.MarshalOptions{Deterministic: true}`; `none` is an error.
  pub marshal : GameState → Option Bytes
  pub unmarshal : Bytes → Option GameState

-- What their documentation says, as far as the service relies on it.
pub record IsDocumented (l : Library) : Type 0 where
  pub decode-encode : (b : l.Bytes) → l.decode (l.encode b) ≡ some b
  -- The alphabet of the encoding has letters, digits, `-` and `_`.
  pub encode-has_dot : (b : l.Bytes) → has_dot (l.encode b) ≡ false
  pub same_bytes-refl : (b : l.Bytes) → l.same_bytes b b ≡ true
  pub unmarshal-marshal :
      (s : GameState) (b : l.Bytes) → l.marshal s ≡ some b → l.unmarshal b ≡ some s
  -- Two hex digits for each of the 32 bytes of a digest.
  pub hex-sha256 : (b : l.Bytes) → str_eq (l.hex (l.sha256 b)) "" ≡ false
