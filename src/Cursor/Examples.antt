-- ===== src/Cursor/Examples.antt =====
-- A cursor of one page, on a wire that knows one payload and one signature.
use repo_plane.Base.{
  ℕ, ◌*◌, String, ◌≡◌, refl, subst, inr, true, none, some, List, [], ◌∷◌, ok, arith, ◌==◌,
  String_eq, if◌then◌else◌,
}
use repo_plane.Cursor.{
  Payload, payload_of, Wire, second, sign, encode, accept, decode_parts, decode,
}
use repo_plane.Cursor.Signed.{Sound, Checked, decode-Checked, decode-encode}

abbrev page : Payload
page = payload_of "ws" "rs" 3 (20 * second)

abbrev to_base64 : List ℕ → String
to_base64 [] = "s"
to_base64 (b ∷ bs) = "p"

abbrev wire : Wire
wire = record {
  marshal = λ p. some (1 ∷ []);
  unmarshal = λ bs. some page;
  to_base64 = to_base64;
  of_base64 = λ s. if s == "p" then some (1 ∷ []) else if s == "s" then some [] else none;
  split = λ s. if s == "p.s" then "p" ∷ "s" ∷ [] else s ∷ [];
  mac = λ key bs. [];
  mac_equal = λ a b. true;
}

wire-Sound : (bs : List ℕ) → some (1 ∷ []) ≡ some bs → Sound wire [] page bs
wire-Sound bs h =
    let same : 1 ∷ [] ≡ bs = ground (arith, h) in
    subst (λ x. Sound wire [] page x) same
      (record { json = refl; content = refl; signature = refl; parts = refl; same = refl })

encodes : encode wire [] "ws" "rs" 3 (20 * second) ≡ ok "p.s"
unfolding encode sign
encodes = refl

decodes : decode wire [] 5 "p.s" "ws" ≡ ok page
unfolding decode decode_parts accept sign
decodes = refl

decode-Checked_example : Checked wire [] 5 ("p" ∷ "s" ∷ []) "ws" page
decode-Checked_example = decode-Checked wire [] 5 "p.s" "ws" decodes

decode-encode_example : decode wire [] 5 "p.s" "ws" ≡ ok page
decode-encode_example =
    decode-encode wire [] 5 "ws" "rs" 3 (20 * second) "ws" wire-Sound encodes (omega arith)
      (inr refl)
