-- ===== src/TextCodec/Strict.antt =====
-- What the strict checks of internal/textcodec/codec.go accept, and what the round-trip test says.
use repo_plane.Base.{
  ℕ, ◌≤◌, String, ◌≡◌, refl, inl, inr, ◌↔◌, Bool, true, ◌&&◌, List, [], ◌∷◌, ◌++◌, arith, leb, ℕ_eq,
  ok, Bool-cases, Result-cases,
}
use repo_plane.TextCodec.{
  between, valid_euc_strict, valid_cp949_trail, valid_cp949, Codec, equal_bytes, decode, encode,
  round_trips,
}

-- The texts of strict EUC-KR: ASCII bytes, and pairs of bytes from A1 to FE.
pub data IsEucText : List ℕ → Type 0 where
  done : IsEucText []
  ascii : {b : ℕ} {rest : List ℕ} → b ≤ 0x7F → IsEucText rest → IsEucText (b ∷ rest)
  pair :
      {a b : ℕ} {rest : List ℕ}
      → 0xA1 ≤ a
      → a ≤ 0xFE
      → 0xA1 ≤ b
      → b ≤ 0xFE
      → IsEucText rest
      → IsEucText (a ∷ b ∷ rest)

-- The strict check accepts every such text.
euc_complete : {bs : List ℕ} → IsEucText bs → valid_euc_strict bs ≡ true
unfolding valid_euc_strict
euc_complete done = refl
euc_complete (ascii {b} {rest = []} h t) = ground arith
euc_complete (ascii {b} {rest = c ∷ rest} h t) = ground (arith, euc_complete t)
euc_complete (pair h1 h2 h3 h4 t) = ground (arith, euc_complete t)

euc_sound : (bs : List ℕ) → valid_euc_strict bs ≡ true → IsEucText bs
unfolding valid_euc_strict
euc_sound [] h = done
euc_sound (a ∷ []) h = ascii (ground arith) done
euc_sound (a ∷ b ∷ rest) h = elim (Bool-cases (leb a 0x7F)) [
  | inl low ↦ ascii (ground arith) (euc_sound (b ∷ rest) (ground arith))
  | inr high ↦
      pair (ground arith) (ground arith) (ground arith) (ground arith)
        (euc_sound rest (ground arith))
]

-- `validateEUCStrict` accepts exactly the texts of strict EUC-KR.
pub valid_euc_strict_iff : (bs : List ℕ) → (valid_euc_strict bs ≡ true) ↔ IsEucText bs
valid_euc_strict_iff bs = (euc_sound bs, euc_complete)

-- Strict EUC-KR is a part of what the CP949 check accepts.
pub euc-cp949 : (bs : List ℕ) → valid_euc_strict bs ≡ true → valid_cp949 bs ≡ true
unfolding valid_euc_strict valid_cp949 valid_cp949_trail
euc-cp949 [] h = refl
euc-cp949 (a ∷ []) h = h
euc-cp949 (a ∷ b ∷ rest) h = ground (arith, euc-cp949 (b ∷ rest), euc-cp949 rest)

pair_append : (p q r s t : Bool) → (p && q && r) ≡ true → (r ≡ true → s ≡ t) → (p && q && s) ≡ t
pair_append p q r s t h k = ground (arith, k)

-- Texts that pass the check may be joined.
pub valid_cp949-append :
    (xs ys : List ℕ) → valid_cp949 xs ≡ true → valid_cp949 (xs ++ ys) ≡ valid_cp949 ys
unfolding valid_cp949
valid_cp949-append [] ys h = refl
valid_cp949-append (a ∷ []) [] h = ground arith
valid_cp949-append (a ∷ []) (b ∷ ys) h = ground arith
valid_cp949-append (a ∷ b ∷ rest) ys h = elim (Bool-cases (leb a 0x7F)) [
  | inl low ↦ rw low (valid_cp949-append (b ∷ rest) ys (rw low at h))
  | inr high ↦ rw high (
      pair_append (between 0x81 0xFE a) (valid_cp949_trail b) (valid_cp949 rest)
        (valid_cp949 (rest ++ ys)) (valid_cp949 ys) (rw high at h) (valid_cp949-append rest ys))
]

equal_bytes_refl : (xs : List ℕ) → equal_bytes xs xs ≡ true
unfolding equal_bytes
equal_bytes_refl [] = refl
equal_bytes_refl (x ∷ xs) = ground (arith, equal_bytes_refl xs)

equal_bytes_iff : (xs ys : List ℕ) → (equal_bytes xs ys ≡ true) ↔ (xs ≡ ys)
unfolding equal_bytes
equal_bytes_iff [] [] = ground arith
equal_bytes_iff [] (y ∷ ys) = ground arith
equal_bytes_iff (x ∷ xs) [] = ground arith
equal_bytes_iff (x ∷ xs) (y ∷ ys) = ground (arith, equal_bytes_iff xs ys)

module _ (c : Codec) (name : String) (original : List ℕ) where
  round_trips_found :
      round_trips c name original ≡ ok true
      → (text : List ℕ) × (decode c name original ≡ ok text) × (encode c name text ≡ ok original)
  unfolding round_trips
  round_trips_found h = elim (Result-cases (decode c name original)) [
    | inl (e, q) ↦ ground (arith, q)
    | inr (text, q) ↦ elim (Result-cases (encode c name text)) [
      | inl (e, q') ↦ ground (arith, q, q')
      | inr (back, q') ↦ (text, q, ground (arith, q, q', equal_bytes_iff original back))
    ]
  ]

  -- `RoundTrips` answers yes exactly when the bytes decode to a text that encodes to those bytes.
  pub round_trips_iff :
      (round_trips c name original ≡ ok true)
      ↔ ((text : List ℕ) × (decode c name original ≡ ok text) × (encode c name text ≡ ok original))
  unfolding round_trips
  round_trips_iff =
      (round_trips_found, λ (text, d, e). rw (d, e) (ground (arith, equal_bytes_refl original)))
