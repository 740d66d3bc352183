-- ===== src/Cursor.antt =====
-- internal/cursor/codec.go: signed cursors of a page. encoding/json, encoding/base64, strings.Split and
-- the HMAC are a parameter. Times count nanoseconds from Go's zero time; an expiry counts whole seconds
-- from there too, where the source counts them from 1970.
pub mod Signed
mod Examples
use Prim.Native.String.{◌++◌ as join}
use repo_plane.Base.{
  ℕ, ◌*◌, ◌/◌, String, Bool, true, false, not, ◌&&◌, ◌||◌, Option, none, some, List, [], ◌∷◌, ltb,
  ◌==◌, ◌!=◌, String_eq, ℕ_eq, if◌then◌else◌, length, Result, ok, err, reject, ◌>>=◌, ◌>>◌,
}

pub data CursorError : Type 0 where
  invalid expired : CursorError

pub record Payload : Type 0 where
  pub format_version : ℕ
  pub workspace_id : String
  pub result_set_id : String
  pub next_ordinal : ℕ
  pub expires : ℕ

pub record Wire : Type 0 where
  pub marshal : Payload → Option (List ℕ)
  pub unmarshal : List ℕ → Option Payload
  pub to_base64 : List ℕ → String
  pub of_base64 : String → Option (List ℕ)
  pub split : String → List String
  -- HMAC-SHA256 with the key, and hmac.Equal
  pub mac : List ℕ → List ℕ → List ℕ
  pub mac_equal : List ℕ → List ℕ → Bool

abbrev pub second : ℕ
second = 1000000000

abbrev pub payload_of : String → String → ℕ → ℕ → Payload
payload_of workspace_id result_set_id next_ordinal expires_at = record {
  format_version = 1;
  workspace_id = workspace_id;
  result_set_id = result_set_id;
  next_ordinal = next_ordinal;
  expires = expires_at / second;
}

abbrev required {ℓ} : {A : Type ℓ} → Option A → Result CursorError A
required none = err invalid
required (some a) = ok a

-- The key of a codec, when it has 32 bytes at least.
unfoldable pub new_codec : List ℕ → Result CursorError (List ℕ)
new_codec key = reject (ltb (length key) 32) invalid >> ok key

unfoldable pub accept : ℕ → String → Payload → Result CursorError Payload
accept now expected decoded = do
  reject (decoded.format_version != 1 || decoded.workspace_id == "" || decoded.result_set_id == "")
      invalid
  reject (expected != "" && decoded.workspace_id != expected) invalid
  reject (not (ltb now (decoded.expires * second))) expired
  ok decoded

module _ (w : Wire) (key : List ℕ) where
  unfoldable pub sign : List ℕ → List ℕ
  sign payload = w.mac key payload

  unfoldable pub encode : String → String → ℕ → ℕ → Result CursorError String
  encode workspace_id result_set_id next_ordinal expires_at = do
    reject (workspace_id == "" || result_set_id == "" || expires_at == 0) invalid
    payload ← required (w.marshal (payload_of workspace_id result_set_id next_ordinal expires_at))
    ok (join (join (w.to_base64 payload) ".") (w.to_base64 (sign payload)))

  unfoldable pub decode_parts : ℕ → String → List String → Result CursorError Payload
  decode_parts now expected (first ∷ second_part ∷ []) = do
    payload ← required (w.of_base64 first)
    signature ← required (w.of_base64 second_part)
    reject (not (w.mac_equal signature (sign payload))) invalid
    decoded ← required (w.unmarshal payload)
    accept now expected decoded
  decode_parts now expected _ = err invalid

  unfoldable pub decode : ℕ → String → String → Result CursorError Payload
  decode now encoded expected = decode_parts now expected (w.split encoded)
