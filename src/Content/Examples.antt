-- ===== src/Content/Examples.antt =====
-- Five bytes in two reads.
use repo_plane.Base.{
  ℕ, ◌^◌, ◌≡◌, ◌≤◌, refl, String, Bool, false, List, [], ◌∷◌, take, length, ok, Result, arith,
}
use repo_plane.Base.Int.{ℤ, pos, negsuc}
use repo_plane.Content.{
  ContentError, Chunk, bytes, last, read, turn, hash_loop, hash_bounded, read_bounded,
}
use repo_plane.Content.Complete.{IsClean, goes_on, at_last, hash_bounded_complete}
use repo_plane.Content.Whole.{ReadsAll, stream, hash_bounded-whole, read_bounded_overflow}

abbrev reader : List Chunk
reader = bytes (1 ∷ 2 ∷ 3 ∷ []) ∷ last (4 ∷ 5 ∷ []) ∷ []

abbrev hash : List ℕ → String
hash bs = "sha256:"

abbrev never : ℕ → Bool
never i = false

hashes : hash_bounded hash never 8 reader ≡ ok ("sha256:", 5)
unfolding hash_bounded hash_loop turn read
hashes = refl

abbrev five : ℕ
five = 5

hash_bounded-whole_example :
    (hash [] ≡ hash (stream reader)) × ((five ≡ length (stream reader)) × (five ≤ 8))
hash_bounded-whole_example = hash_bounded-whole hash never 8 reader hashes

abbrev source : List ℕ
source = 7 ∷ 8 ∷ 9 ∷ []

abbrev read_all : ℤ → Result ContentError (List ℕ)
read_all (pos n) = ok (take n source)
read_all (negsuc n) = ok []

reads : ReadsAll read_all source
reads = (λ n. refl, λ n. refl)

read_bounded_overflow_example : read_bounded read_all (2 ^ 63) ≡ ok ([], false)
read_bounded_overflow_example =
    read_bounded_overflow read_all source (2 ^ 63) reads (omega arith) (omega arith)

reader-IsClean : IsClean reader
reader-IsClean = goes_on (omega arith) at_last

hash_bounded_complete_example :
    hash_bounded hash never 8 reader ≡ ok (hash (stream reader), length (stream reader))
unfolding stream
hash_bounded_complete_example =
    hash_bounded_complete hash 8 reader reader-IsClean (omega arith) (omega arith)
