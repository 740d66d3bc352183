-- ===== src/TextCodec/Examples.antt =====
-- The two bytes of one Korean syllable, and a codec that keeps bytes as they are.
use repo_plane.Base.{ℕ, ◌≡◌, ◌↔◌, refl, true, List, [], ◌∷◌, ok}
use repo_plane.TextCodec.{Codec, valid_euc_strict, valid_cp949, valid_cp949_trail}
use repo_plane.TextCodec.Strict.{IsEucText, valid_euc_strict_iff}

abbrev syllable : List ℕ
syllable = 0xB0 ∷ 0xA1 ∷ []

abbrev codec : Codec
codec = record { utf8_valid = λ bs. true; decode_korean = λ bs. ok bs; encode_korean = λ bs. ok bs }

is_euc : valid_euc_strict syllable ≡ true
unfolding valid_euc_strict
is_euc = refl

is_cp949 : valid_cp949 syllable ≡ true
unfolding valid_cp949 valid_cp949_trail
is_cp949 = refl

valid_euc_strict_iff_example : (valid_euc_strict syllable ≡ true) ↔ IsEucText syllable
valid_euc_strict_iff_example = valid_euc_strict_iff syllable
