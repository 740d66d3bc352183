-- ===== src/Content/Whole.antt =====
-- The hash and the read of internal/content/bounded.go against the whole stream of the reader.
use repo_plane.Base.{
  ℕ, zero, suc, ◌+◌, ◌-◌, ◌^◌, ◌%◌, ◌≤◌, ◌<◌, String, ◌≡◌, ◌≢◌, ◌⊎◌, refl, sym, ap, subst, ◌∙◌, inl,
  inr, Bool, false, List, [], ◌∷◌, ◌++◌, arith, ltb, leb, ◌==◌, ℕ_eq, length, take, drop,
  length-append, length-take, take-append-drop, take_all, append_assoc, append_empty, Bool-cases,
  Result, ok, err,
}
use repo_plane.Base.Int.{ℤ, pos, negsuc, of_bits}
use repo_plane.Content.{
  ContentError, exhausted, Chunk, bytes, last, failure, Status, more, eof, failing, read, Hashed,
  turn, read_size, hash_loop, hash_bounded, read_bounded,
}

-- Everything that a reader gives up to its end or its first error.
unfoldable pub stream : List Chunk → List ℕ
stream [] = []
stream (bytes bs ∷ r) = bs ++ stream r
stream (last bs ∷ r) = bs
stream (failure bs ∷ r) = bs

unfoldable pub left_after : Status → List Chunk → List ℕ
left_after more r = stream r
left_after eof r = []
left_after failing r = []

rejoin : (room : ℕ) (bs rest : List ℕ) → bs ++ rest ≡ take room bs ++ (drop room bs ++ rest)
rejoin room bs rest =
    ap (λ x. x ++ rest) (sym (take-append-drop room bs))
    ∙ append_assoc (take room bs) (drop room bs) rest

read-stream :
    (room : ℕ) (r : List Chunk)
    → stream r ≡ (read room r).0 ++ left_after (read room r).1.0 (read room r).1.1
unfolding read left_after stream
read-stream room [] = refl
read-stream room (bytes bs ∷ r) = elim (Bool-cases (leb (length bs) room)) [
  | inl fits ↦ rw fits refl
  | inr over ↦ rw over (rejoin room bs (stream r))
]
read-stream room (last bs ∷ r) = elim (Bool-cases (leb (length bs) room)) [
  | inl fits ↦ rw fits (sym (append_empty bs))
  | inr over ↦ rw over (sym (take-append-drop room bs))
]
read-stream room (failure bs ∷ r) = elim (Bool-cases (leb (length bs) room)) [
  | inl fits ↦ rw fits (sym (append_empty bs))
  | inr over ↦ rw over (sym (take-append-drop room bs))
]

module _ (hash : List ℕ → String) (done : ℕ → Bool) (max : ℕ) where
  turn-whole :
      (status : Status) (n : ℕ) (seen : List ℕ) (again : Hashed) {h : String} {total : ℕ}
      → (n ≡ 0 → length seen ≤ max)
      → turn hash done max status n (length seen) seen again ≡ ok (h, total)
      → ((status ≡ eof) × ((h ≡ hash seen) × ((total ≡ length seen) × (total ≤ max))))
        ⊎ ((status ≡ more) × ((again ≡ ok (h, total)) × (length seen ≤ max)))
  unfolding turn
  turn-whole eof n seen again z e = inl (refl, ground (arith, z, e))
  turn-whole failing n seen again z e = absurd (ground (arith, z, e))
  turn-whole more n seen again z e = inr (refl, ground (arith, z, e))

  abbrev IsHashOf : List ℕ → String → ℕ → Type 0
  IsHashOf all h total = (h ≡ hash all) × ((total ≡ length all) × (total ≤ max))

  turn-rest :
      (status : Status) (n : ℕ) (seen : List ℕ) (rest : List Chunk) (again : Hashed) {h : String}
      {total : ℕ}
      → (n ≡ 0 → length seen ≤ max)
      → turn hash done max status n (length seen) seen again ≡ ok (h, total)
      → (length seen ≤ max → again ≡ ok (h, total) → IsHashOf (seen ++ stream rest) h total)
      → IsHashOf (seen ++ left_after status rest) h total
  unfolding left_after
  turn-rest status n seen rest again {h} {total} z e ih =
      elim (turn-whole status n seen again z e) [
        | inl (ends, found) ↦
            subst (λ x. IsHashOf (seen ++ left_after x rest) h total) (sym ends)
              (subst (λ x. IsHashOf x h total) (sym (append_empty seen)) found)
        | inr (goes, (next, small)) ↦
            subst (λ x. IsHashOf (seen ++ left_after x rest) h total) (sym goes) (ih small next)
      ]

  pub split-stream :
      (seen : List ℕ) (r : List Chunk)
      → (let got = read (read_size hash done max (length seen)) r in
          seen ++ stream r ≡ (seen ++ got.0) ++ left_after got.1.0 got.1.1)
  split-stream seen r =
      let got = read (read_size hash done max (length seen)) r in
      ap (λ x. seen ++ x) (read-stream (read_size hash done max (length seen)) r)
      ∙ sym (append_assoc seen got.0 (left_after got.1.0 got.1.1))

  turn-total :
      (status : Status) (n : ℕ) (seen : List ℕ) (again : Hashed) (k : ℕ)
      → (length seen ≤ max → 1 ≤ n → again ≢ err (exhausted, k))
      → turn hash done max status n (length seen) seen again ≢ err (exhausted, k)
  unfolding turn
  turn-total eof n seen again k ih e = ground (arith, e)
  turn-total failing n seen again k ih e = ground (arith, e)
  turn-total more n seen again k ih e = elim (Bool-cases (n == 0)) [
    | inl none ↦ ground (arith, none, e)
    | inr some_read ↦ elim (Bool-cases (ltb max (length seen))) [
      | inl over ↦ ground (arith, some_read, over, e)
      | inr fits ↦
          ih (ground (arith, fits)) (ground (arith, some_read)) (ground (arith, some_read, fits, e))
    ]
  ]

  loop-turn :
      (fuel i : ℕ) (seen : List ℕ) (r : List Chunk) {x : Hashed}
      → done i ≡ false
      → hash_loop hash done max (suc fuel) i seen r ≡ x
      → (let got = read (read_size hash done max (length seen)) r in
          turn hash done max got.1.0
            (length got.0)
            (length (seen ++ got.0))
            (seen ++ got.0)
            (hash_loop hash done max fuel (suc i) (seen ++ got.0) got.1.1)
          ≡ x)
  unfolding hash_loop
  loop-turn fuel i seen r goes e =
      let got = read (read_size hash done max (length seen)) r in
      rw (length-append seen got.0) (rw goes at e)

  loop-whole :
      (fuel i : ℕ) (seen : List ℕ) (r : List Chunk) {h : String} {total : ℕ}
      → length seen ≤ max
      → hash_loop hash done max fuel i seen r ≡ ok (h, total)
      → IsHashOf (seen ++ stream r) h total
  unfolding hash_loop
  loop-whole zero i seen r small e = absurd (ground (arith, e))
  loop-whole (suc fuel) i seen r {h} {total} small e = elim (Bool-cases (done i)) [
    | inl stopped ↦ absurd (ground (arith, stopped, e))
    | inr goes ↦
        (let got = read (read_size hash done max (length seen)) r in
          let turned = loop-turn fuel i seen r goes e in
          subst (λ x. IsHashOf x h total) (sym (split-stream seen r))
            (turn-rest got.1.0 (length got.0) (seen ++ got.0) got.1.1
              (hash_loop hash done max fuel (suc i) (seen ++ got.0) got.1.1)
              (λ none. ground (arith, none, small, length-append seen got.0)) turned
              (λ fits next. loop-whole fuel (suc i) (seen ++ got.0) got.1.1 fits next)))
  ]

  -- The fuel is enough: a turn that goes on has read a byte and stays within `max`.
  loop-total :
      (fuel i n : ℕ) (seen : List ℕ) (r : List Chunk)
      → length seen ≤ max
      → max - length seen < fuel
      → hash_loop hash done max fuel i seen r ≢ err (exhausted, n)
  unfolding hash_loop
  loop-total zero i n seen r small enough e = absurd (omega arith)
  loop-total (suc fuel) i n seen r small enough e = elim (Bool-cases (done i)) [
    | inl stopped ↦ ground (arith, stopped, e)
    | inr goes ↦
        (let got = read (read_size hash done max (length seen)) r in
          turn-total got.1.0 (length got.0) (seen ++ got.0)
            (hash_loop hash done max fuel (suc i) (seen ++ got.0) got.1.1) n
            (λ fits some_read.
              loop-total fuel (suc i) n (seen ++ got.0) got.1.1 fits
                (ground (arith, length-append seen got.0, fits, some_read, enough)))
            (loop-turn fuel i seen r goes e))
  ]

-- A hash that is returned is the hash of the whole stream and never of a part: it comes with the
-- length of the stream, which is at most the maximum.
pub hash_bounded-whole :
    (hash : List ℕ → String) (done : ℕ → Bool) (max : ℕ) (r : List Chunk) {h : String} {total : ℕ}
    → hash_bounded hash done max r ≡ ok (h, total)
    → (h ≡ hash (stream r)) × ((total ≡ length (stream r)) × (total ≤ max))
unfolding hash_bounded
hash_bounded-whole hash done max r e = elim (Bool-cases (max == 0)) [
  | inl nothing ↦ absurd (ground (arith, nothing, e))
  | inr positive ↦ loop-whole hash done max (max + 1) 0 [] r (omega arith) (rw positive at e)
]

-- The loop ends on every reader, however often the context is asked: the fuel is never used up.
pub hash_bounded_terminates :
    (hash : List ℕ → String) (done : ℕ → Bool) (max : ℕ) (r : List Chunk) (n : ℕ)
    → hash_bounded hash done max r ≢ err (exhausted, n)
unfolding hash_bounded
hash_bounded_terminates hash done max r n e = elim (Bool-cases (max == 0)) [
  | inl nothing ↦ ground (arith, nothing, e)
  | inr positive ↦
      loop-total hash done max (max + 1) 0 n [] r (omega arith) (omega arith) (rw positive at e)
]

-- What io.ReadAll of io.LimitReader gives on a source: its first n bytes, and none for a negative n.
abbrev pub ReadsAll : (ℤ → Result ContentError (List ℕ)) → List ℕ → Type 0
ReadsAll read_all source =
    ((n : ℕ) → read_all (pos n) ≡ ok (take n source)) × ((n : ℕ) → read_all (negsuc n) ≡ ok [])

bits_fit : (n : ℕ) → n < 2 ^ 63 → of_bits (n % 2 ^ 64) ≡ pos n
bits_fit n h = ground (arith, h)

bits_top : (n : ℕ) → n ≡ 2 ^ 64 → of_bits (n % 2 ^ 64) ≡ pos 0
bits_top n h = ground (arith, h)

bits_wrap : (n : ℕ) → 2 ^ 63 ≤ n → n < 2 ^ 64 → of_bits (n % 2 ^ 64) ≡ negsuc (2 ^ 64 - n - 1)
bits_wrap n big h = ground (arith, big, h)

take-take : (n m : ℕ) (xs : List ℕ) → n ≤ m → take n (take m xs) ≡ take n xs
take-take zero m xs h = refl
take-take (suc n) zero xs h = absurd (omega arith)
take-take (suc n) (suc m) [] h = refl
take-take (suc n) (suc m) (x ∷ xs) h = ap (◌∷◌ x) (take-take n m xs (omega arith))

-- For a limit from 1 to below 2^63 - 1 the caller gets the source up to the limit, with true exactly
-- when the source is longer, where io.ReadAll and io.LimitReader do what `ReadsAll` says.
pub read_bounded_lem :
    (read_all : ℤ → Result ContentError (List ℕ)) (source : List ℕ) (limit : ℕ)
    → ReadsAll read_all source
    → 1 ≤ limit
    → limit + 1 < 2 ^ 63
    → read_bounded read_all limit ≡ ok (take limit source, ltb limit (length source))
unfolding read_bounded
read_bounded_lem read_all source limit reads positive fits =
    let found : read_all (of_bits ((limit + 1) % 2 ^ 64)) ≡ ok (take (limit + 1) source) =
      subst (λ x. read_all x ≡ ok (take (limit + 1) source)) (sym (bits_fit (limit + 1) fits))
        (reads.0 (limit + 1)) in
    let size = length-take (limit + 1) source in
    elim (Bool-cases (ltb limit (length source))) [
      | inl longer ↦
          ground
            (arith, found, positive, longer, size, take-take limit (limit + 1) source (omega arith))
      | inr whole ↦
          ground (
            arith,
            found,
            positive,
            whole,
            size,
            take_all (limit + 1) source,
            take_all limit source,
          )
    ]

-- From 2^63 - 1 to below 2^64 the limit of the reader wraps around, and every source reads as empty and
-- complete, where io.ReadAll and io.LimitReader do what `ReadsAll` says.
pub read_bounded_overflow :
    (read_all : ℤ → Result ContentError (List ℕ)) (source : List ℕ) (limit : ℕ)
    → ReadsAll read_all source
    → 2 ^ 63 ≤ limit + 1
    → limit < 2 ^ 64
    → read_bounded read_all limit ≡ ok ([], false)
unfolding read_bounded
read_bounded_overflow read_all source limit reads big fits =
    elim (Bool-cases (limit + 1 == 2 ^ 64)) [
      | inl top ↦
          (let found : read_all (of_bits ((limit + 1) % 2 ^ 64)) ≡ ok [] =
              subst (λ x. read_all x ≡ ok []) (sym (bits_top (limit + 1) (ground (arith, top))))
                (reads.0 0) in
            ground (arith, found, big))
      | inr below ↦
          (let found : read_all (of_bits ((limit + 1) % 2 ^ 64)) ≡ ok [] =
              subst (λ x. read_all x ≡ ok [])
                (sym (bits_wrap (limit + 1) big (ground (arith, below, fits))))
                (reads.1 (2 ^ 64 - (limit + 1) - 1)) in
            ground (arith, found, big))
    ]
