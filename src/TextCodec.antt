-- ===== src/TextCodec.antt =====
-- internal/textcodec/codec.go: the strict checks of the Korean encodings, and decoding, encoding and
-- the round-trip test. Bytes are numbers below 256. UTF-8 validity and the codec of
-- golang.org/x/text are parameters.
pub mod Strict
mod Examples
use repo_plane.Base.{
  ℕ, zero, suc, String, Bool, true, false, not, ◌&&◌, ◌||◌, List, [], ◌∷◌, ltb, leb, ◌==◌,
  String_eq, ℕ_eq, if◌then◌else◌, Result, ok, err, ◌>>=◌, ◌>>◌, reject, Eq, map,
}

pub data CodecError : Type 0 where
  unsupported invalid encode_failed : CodecError

pub data Encoding : Type 0 where
  utf8 cp949 euc_kr : Encoding

-- `name` after strings.ToLower(strings.TrimSpace(name)).
unfoldable pub normalize : String → Result CodecError Encoding
normalize name =
    if name == "utf-8" || name == "utf8"
    then ok utf8
    else if name == "cp949" || name == "windows-949" || name == "uhc"
    then ok cp949
    else if name == "euc-kr" || name == "euckr"
    then ok euc_kr
    else err unsupported

abbrev pub between : ℕ → ℕ → ℕ → Bool
between lo hi b = leb lo b && leb b hi

-- Each loop recurs on the bytes left; a double byte takes two.
unfoldable pub valid_euc_strict : List ℕ → Bool
valid_euc_strict [] = true
valid_euc_strict (lead ∷ []) = leb lead 0x7F
valid_euc_strict (lead ∷ trail ∷ rest) =
    let single = valid_euc_strict (trail ∷ rest) in
    let double = valid_euc_strict rest in
    if leb lead 0x7F then single else between 0xA1 0xFE lead && between 0xA1 0xFE trail && double

unfoldable pub valid_cp949_trail : ℕ → Bool
valid_cp949_trail b = between 0x41 0x5A b || between 0x61 0x7A b || between 0x81 0xFE b

unfoldable pub valid_cp949 : List ℕ → Bool
valid_cp949 [] = true
valid_cp949 (lead ∷ []) = leb lead 0x7F
valid_cp949 (lead ∷ trail ∷ rest) =
    let single = valid_cp949 (trail ∷ rest) in
    let double = valid_cp949 rest in
    if leb lead 0x7F then single else between 0x81 0xFE lead && valid_cp949_trail trail && double

-- The libraries that the code calls: utf8.Valid, and the EUC-KR decoder and encoder of x/text.
pub record Codec : Type 0 where
  pub utf8_valid : List ℕ → Bool
  pub decode_korean : List ℕ → Result CodecError (List ℕ)
  pub encode_korean : List ℕ → Result CodecError (List ℕ)

-- bytes.TrimPrefix(input, EF BB BF)
unfoldable pub trim_bom : List ℕ → List ℕ
trim_bom (a ∷ b ∷ c ∷ rest) = if a == 0xEF && b == 0xBB && c == 0xBF then rest else a ∷ b ∷ c ∷ rest
trim_bom bs = bs

unfoldable pub equal_bytes : List ℕ → List ℕ → Bool
equal_bytes [] [] = true
equal_bytes (a ∷ as') (b ∷ bs) = a == b && equal_bytes as' bs
equal_bytes _ _ = false

module _ (c : Codec) where
  transform : List ℕ → Result CodecError (List ℕ)
  transform input = do
    decoded ← c.decode_korean input
    reject (not (c.utf8_valid decoded)) invalid
    ok decoded

  decode_as : Encoding → List ℕ → Result CodecError (List ℕ)
  unfolding transform
  decode_as utf8 input = do
    reject (not (c.utf8_valid (trim_bom input))) invalid
    ok (trim_bom input)
  decode_as euc_kr input = do reject (not (valid_euc_strict input)) invalid; transform input
  decode_as cp949 input = do reject (not (valid_cp949 input)) invalid; transform input

  unfoldable pub decode : String → List ℕ → Result CodecError (List ℕ)
  unfolding decode_as
  decode name input = do encoding ← normalize name; decode_as encoding input

  encode_as : Encoding → List ℕ → Result CodecError (List ℕ)
  encode_as utf8 input = ok input
  encode_as euc_kr input = do
    result ← c.encode_korean input
    reject (not (valid_euc_strict result)) invalid
    ok result
  encode_as cp949 input = c.encode_korean input

  unfoldable pub encode : String → List ℕ → Result CodecError (List ℕ)
  unfolding encode_as
  encode name input = do encoding ← normalize name; encode_as encoding input

  unfoldable pub round_trips : String → List ℕ → Result CodecError Bool
  round_trips name original = do
    decoded ← decode name original
    encoded ← encode name decoded
    ok (equal_bytes original encoded)
