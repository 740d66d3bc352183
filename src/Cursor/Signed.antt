-- ===== src/Cursor/Signed.antt =====
-- What a cursor of internal/cursor/codec.go carries, and what a decoded one has been checked for.
use Prim.Native.String.{◌++◌ as join}
use repo_plane.Base.{
  ℕ, ◌*◌, ◌/◌, ◌<◌, String, ◌≡◌, refl, ◌⊎◌, inl, inr, true, false, some, List, [], ◌∷◌, arith, ◌==◌,
  String_eq, ℕ_eq, eq_iff, Bool-cases, Option-cases, ok, subst,
}
use repo_plane.Cursor.{
  Payload, payload_of, Wire, second, sign, encode, accept, decode_parts, decode,
}

-- What the libraries promise for the bytes of one payload: unmarshalling undoes marshalling, base64
-- decoding undoes encoding, the two parts split again, and equal codes compare as equal.
pub record Sound (w : Wire) (key : List ℕ) (p : Payload) (bs : List ℕ) : Type 0 where
  pub json : w.unmarshal bs ≡ some p
  pub content : w.of_base64 (w.to_base64 bs) ≡ some bs
  pub signature : w.of_base64 (w.to_base64 (w.mac key bs)) ≡ some (w.mac key bs)
  pub parts :
      w.split (join (join (w.to_base64 bs) ".") (w.to_base64 (w.mac key bs)))
      ≡ w.to_base64 bs ∷ w.to_base64 (w.mac key bs) ∷ []
  pub same : w.mac_equal (w.mac key bs) (w.mac key bs) ≡ true

-- What has been checked of a decoded cursor: its two parts are the payload and the code of that payload
-- under the key, both in base64.
pub record Checked (w : Wire) (key : List ℕ) (now : ℕ) (parts : List String) (expected : String)
    (p : Payload) : Type 0 where
  pub first : String
  pub second_part : String
  pub content : List ℕ
  pub signature : List ℕ
  pub two : parts ≡ first ∷ second_part ∷ []
  pub is_content : w.of_base64 first ≡ some content
  pub is_signature : w.of_base64 second_part ≡ some signature
  pub signed : w.mac_equal signature (w.mac key content) ≡ true
  pub carried : w.unmarshal content ≡ some p
  pub version : p.format_version ≡ 1
  pub owner : (expected ≡ "") ⊎ (p.workspace_id ≡ expected)
  pub alive : now < p.expires * second

accept-same :
    (now : ℕ) (expected : String) (decoded : Payload) {p : Payload}
    → accept now expected decoded ≡ ok p
    → decoded ≡ p
unfolding accept
accept-same now expected decoded h = ground (arith, h)

accept-owner :
    (now : ℕ) (expected : String) (decoded : Payload) {p : Payload}
    → accept now expected decoded ≡ ok p
    → (expected ≡ "") ⊎ (decoded.workspace_id ≡ expected)
unfolding accept
accept-owner now expected decoded h = elim (Bool-cases (expected == "")) [
  | inl any_owner ↦ inl ((eq_iff expected "").0 any_owner)
  | inr owned ↦ inr (ground (arith, h, owned, eq_iff decoded.workspace_id expected))
]

accept-alive :
    (now : ℕ) (expected : String) (decoded : Payload) {p : Payload}
    → accept now expected decoded ≡ ok p
    → (decoded.format_version ≡ 1) × (now < decoded.expires * second)
unfolding accept
accept-alive now expected decoded h = ground (arith, h)

module _ (w : Wire) (key : List ℕ) (now : ℕ) (expected : String) where
  checked :
      (first second_part : String) (content signature : List ℕ)
      → w.of_base64 first ≡ some content
      → w.of_base64 second_part ≡ some signature
      → w.mac_equal signature (w.mac key content) ≡ true
      → (decoded : Payload) → w.unmarshal content ≡ some decoded
      → {p : Payload} → accept now expected decoded ≡ ok p
      → Checked w key now (first ∷ second_part ∷ []) expected p
  checked first second_part content signature one two signed decoded carried h =
      subst (λ x. Checked w key now (first ∷ second_part ∷ []) expected x)
        (accept-same now expected decoded h)
        (record {
          first = first;
          second_part = second_part;
          two = refl;
          is_content = one;
          is_signature = two;
          content = content;
          signature = signature;
          signed = signed;
          carried = carried;
          version = (accept-alive now expected decoded h).0;
          owner = accept-owner now expected decoded h;
          alive = (accept-alive now expected decoded h).1;
        })

  parts-Checked :
      (ps : List String) {p : Payload}
      → decode_parts w key now expected ps ≡ ok p
      → Checked w key now ps expected p
  unfolding decode_parts sign
  parts-Checked [] h = absurd (ground (arith, h))
  parts-Checked (a ∷ []) h = absurd (ground (arith, h))
  parts-Checked (a ∷ b ∷ c ∷ ps) h = absurd (ground (arith, h))
  parts-Checked (a ∷ b ∷ []) {p} h = elim (Option-cases (w.of_base64 a)) [
    | inl bad ↦ absurd (ground (arith, bad, h))
    | inr (content, first) ↦ elim (Option-cases (w.of_base64 b)) [
      | inl bad ↦ absurd (ground (arith, first, bad, h))
      | inr (signature, other) ↦ elim (Bool-cases (w.mac_equal signature (w.mac key content))) [
        | inr bad ↦ absurd (ground (arith, first, other, bad, h))
        | inl signed ↦ elim (Option-cases (w.unmarshal content)) [
          | inl bad ↦ absurd (ground (arith, first, other, signed, bad, h))
          | inr (decoded, carried) ↦
              checked a b content signature first other signed decoded carried
                (ground (arith, first, other, signed, carried, h))
        ]
      ]
    ]
  ]

-- A cursor that decodes splits into two parts, whose bytes are a payload and a code that compares as
-- equal with the HMAC of that payload under the key; the payload is the one returned, is of this format
-- and of the expected workspace if one is expected, and has not expired.
pub decode-Checked :
    (w : Wire) (key : List ℕ) (now : ℕ) (encoded expected : String) {p : Payload}
    → decode w key now encoded expected ≡ ok p
    → Checked w key now (w.split encoded) expected p
unfolding decode
decode-Checked w key now encoded expected h = parts-Checked w key now expected (w.split encoded) h

accept-all :
    (now : ℕ) (expected : String) (p : Payload)
    → p.format_version ≡ 1
    → (p.workspace_id == "") ≡ false
    → (p.result_set_id == "") ≡ false
    → (expected ≡ "") ⊎ (expected ≡ p.workspace_id)
    → now < p.expires * second
    → accept now expected p ≡ ok p
unfolding accept
accept-all now expected p v named set (inl e) alive =
    ground (arith, v, named, set, e, alive, eq_iff expected "")
accept-all now expected p v named set (inr e) alive =
    ground (arith, v, named, set, e, alive, eq_iff p.workspace_id expected)

decode-signed :
    (w : Wire) (key : List ℕ) (now : ℕ) (expected : String) (p : Payload) (bs : List ℕ)
    → Sound w key p bs
    → accept now expected p ≡ ok p
    → decode w key now (join (join (w.to_base64 bs) ".") (w.to_base64 (w.mac key bs))) expected
      ≡ ok p
unfolding decode decode_parts sign
decode-signed w key now expected p bs sound accepted =
    ground (arith, sound.parts, sound.content, sound.signature, sound.same, sound.json, accepted)

-- A cursor that was encoded decodes, until it expires and for its own workspace or any, to the payload
-- it was made from, where the libraries keep their promises for the bytes of that payload.
pub decode-encode :
    (w : Wire) (key : List ℕ) (now : ℕ) (workspace_id result_set_id : String)
    (next_ordinal expires_at : ℕ) (expected : String) {encoded : String}
    → ((bs : List ℕ)
        → w.marshal (payload_of workspace_id result_set_id next_ordinal expires_at) ≡ some bs
        → Sound w key (payload_of workspace_id result_set_id next_ordinal expires_at) bs)
    → encode w key workspace_id result_set_id next_ordinal expires_at ≡ ok encoded
    → now < expires_at / second * second
    → (expected ≡ "") ⊎ (expected ≡ workspace_id)
    → decode w key now encoded expected
      ≡ ok (payload_of workspace_id result_set_id next_ordinal expires_at)
unfolding encode sign
decode-encode w key now workspace_id result_set_id next_ordinal expires_at expected sound made alive
      owner =
    let p = payload_of workspace_id result_set_id next_ordinal expires_at in
    elim (Option-cases (w.marshal p)) [
      | inl bad ↦ absurd (ground (arith, bad, made))
      | inr (bs, marshalled) ↦
          subst (λ x. decode w key now x expected ≡ ok p) (ground (arith, marshalled, made))
            (decode-signed w key now expected p bs (sound bs marshalled) (
              accept-all now expected p refl (ground (arith, made)) (ground (arith, made)) owner
                alive))
    ]
