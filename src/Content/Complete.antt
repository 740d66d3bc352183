-- ===== src/Content/Complete.antt =====
-- When the loop of HashBounded (internal/content/bounded.go) gives a hash.
use repo_plane.Base.{
  ℕ, zero, suc, ◌+◌, ◌-◌, ◌≤◌, ◌<◌, String, ◌≡◌, refl, sym, ap, subst, ◌⊎◌, inl, inr, Bool, false,
  List, [], ◌∷◌, ◌++◌, arith, leb, ℕ_eq, length, take, drop, length-append, length-take,
  take-append-drop, append_empty, Bool-cases, ok,
}
use repo_plane.Content.{
  Chunk, bytes, last, failure, Status, more, eof, failing, read, Hashed, turn, read_size, hash_loop,
  hash_bounded,
}
use repo_plane.Content.Whole.{stream, left_after, split-stream}

-- A reader that ends with io.EOF, where every read before gives a byte and no error.
pub data IsClean : List Chunk → Type 0 where
  at_end : IsClean []
  at_last : {bs : List ℕ} {r : List Chunk} → IsClean (last bs ∷ r)
  goes_on : {bs : List ℕ} {r : List Chunk} → 1 ≤ length bs → IsClean r → IsClean (bytes bs ∷ r)

length-drop : (room : ℕ) (bs : List ℕ) → room < length bs → 1 ≤ length (drop room bs)
length-drop room bs h = ground (
  arith,
  h,
  length-append (take room bs) (drop room bs),
  take-append-drop room bs,
  length-take room bs,
)

-- What a read of a clean reader gives.
abbrev Goes : ℕ → List Chunk → Type 0
Goes room r =
    ((read room r).1.0 ≡ eof)
    ⊎ (((read room r).1.0 ≡ more) × ((1 ≤ length (read room r).0) × IsClean (read room r).1.1))

read-IsClean : (room : ℕ) (r : List Chunk) → 1 ≤ room → IsClean r → Goes room r
unfolding read
read-IsClean room [] h at_end = inl refl
read-IsClean room (failure bs ∷ r) h c = elim c [ ]
read-IsClean room (last bs ∷ r) h at_last = elim (Bool-cases (leb (length bs) room)) [
  | inl fits ↦ inl (rw fits refl)
  | inr over ↦ inr (rw over (refl, (ground (arith, length-take room bs, over, h), at_last)))
]
read-IsClean room (bytes bs ∷ r) h (goes_on some_bytes c) =
    elim (Bool-cases (leb (length bs) room)) [
      | inl fits ↦ inr (rw fits (refl, (some_bytes, c)))
      | inr over ↦ inr (
          rw over (
            refl,
            (
              ground (arith, length-take room bs, over, h),
              goes_on (length-drop room bs (ground (arith, over))) c,
            ),
          ))
    ]

module _ (hash : List ℕ → String) (max : ℕ) where
  abbrev never : ℕ → Bool
  never i = false

  abbrev Hashes : List ℕ → Hashed → Type 0
  Hashes all x = x ≡ ok (hash all, length all)

  turn-Hashes :
      (status : Status) (n : ℕ) (seen : List ℕ) (rest : List Chunk) (again : Hashed)
      → length seen ≤ max
      → (status ≡ eof) ⊎ ((status ≡ more) × ((1 ≤ n) × Hashes (seen ++ stream rest) again))
      → Hashes
          (seen ++ left_after status rest)
          (turn hash never max status n (length seen) seen again)
  unfolding turn left_after
  turn-Hashes eof n seen rest again fits w =
      subst (λ x. Hashes x (turn hash never max eof n (length seen) seen again))
        (sym (append_empty seen)) (ground (arith, fits))
  turn-Hashes failing n seen rest again fits w = absurd (ground (arith, w))
  turn-Hashes more n seen rest again fits (inl e) = absurd (ground (arith, e))
  turn-Hashes more n seen rest again fits (inr (e, (some_read, next))) =
      ground (arith, fits, some_read, next)

  loop-Hashes :
      (fuel i : ℕ) (seen : List ℕ) (r : List Chunk)
      → IsClean r
      → max - length seen < fuel
      → length (seen ++ stream r) ≤ max
      → Hashes (seen ++ stream r) (hash_loop hash never max fuel i seen r)
  unfolding hash_loop left_after
  loop-Hashes zero i seen r c enough fits = absurd (omega arith)
  loop-Hashes (suc fuel) i seen r c enough fits =
      let room = read_size hash never max (length seen) in
      let got = read room r in
      let whole = split-stream hash never max seen r in
      let small : length (seen ++ got.0) ≤ max = ground (
        arith,
        fits,
        ap length whole,
        length-append (seen ++ got.0) (left_after got.1.0 got.1.1),
      ) in
      rw whole (
        rw (sym (length-append seen got.0)) (
          turn-Hashes got.1.0 (length got.0) (seen ++ got.0) got.1.1
            (hash_loop hash never max fuel (suc i) (seen ++ got.0) got.1.1) small
            (elim (read-IsClean room r (ground arith) c) [
              | inl ends ↦ inl ends
              | inr (goes, (some_read, clean)) ↦ inr (
                goes,
                (
                  some_read,
                  loop-Hashes fuel (suc i) (seen ++ got.0) got.1.1 clean
                      (ground (arith, length-append seen got.0, some_read, small, enough))
                      (ground (
                        arith,
                        fits,
                        ap length whole,
                        ap (λ x. length ((seen ++ got.0) ++ left_after x got.1.1)) goes,
                      )),
                ),
              )
            ])))

-- A reader that ends with io.EOF, gives a byte in every read before, and holds at most the maximum of
-- bytes is hashed, when the context is never done: the answer is the hash of the stream and its length.
pub hash_bounded_complete :
    (hash : List ℕ → String) (max : ℕ) (r : List Chunk)
    → IsClean r
    → 1 ≤ max
    → length (stream r) ≤ max
    → hash_bounded hash (λ i. false) max r ≡ ok (hash (stream r), length (stream r))
unfolding hash_bounded
hash_bounded_complete hash max r c positive fits =
    let found = loop-Hashes hash max (max + 1) 0 [] r c (omega arith) fits in
    ground (arith, positive, found)
