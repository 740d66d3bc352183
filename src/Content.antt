-- ===== src/Content.antt =====
-- internal/content/bounded.go: bounded reads and hashes of a source. A reader is the list of what its
-- `Read` calls give: bytes without an error, bytes with io.EOF, or bytes with another error. A call
-- gives no more than the room that it is offered, so the rest of a longer chunk waits for the next
-- one. The hash, io.ReadAll over io.LimitReader, and when the context is done are parameters.
pub mod Whole
pub mod Complete
mod Examples
use repo_plane.Base.{
  ℕ, zero, suc, ◌+◌, ◌-◌, ◌*◌, ◌^◌, ◌%◌, String, Bool, true, false, not, ◌&&◌, List, [], ◌∷◌, ◌++◌,
  ltb, leb, ◌==◌, ◌!=◌, ℕ_eq, if◌then◌else◌, length, take, drop, Result, ok, err, reject, ◌>>=◌,
  ◌>>◌,
}
use repo_plane.Base.Int.{ℤ, of_bits}

-- `exhausted` is the fuel of the model.
pub data ContentError : Type 0 where
  invalid_limit too_large read_error cancelled no_progress exhausted : ContentError

pub data Chunk : Type 0 where
  bytes last failure : List ℕ → Chunk

pub data Status : Type 0 where
  more eof failing : Status

-- io.Reader.Read with a buffer of the size `room`.
unfoldable pub read : ℕ → List Chunk → List ℕ × (Status × List Chunk)
read room [] = ([], (eof, []))
read room (bytes bs ∷ r) =
    if leb (length bs) room
    then (bs, (more, r))
    else (take room bs, (more, bytes (drop room bs) ∷ r))
read room (last bs ∷ r) =
    if leb (length bs) room
    then (bs, (eof, []))
    else (take room bs, (more, last (drop room bs) ∷ r))
read room (failure bs ∷ r) =
    if leb (length bs) room
    then (bs, (failing, []))
    else (take room bs, (more, failure (drop room bs) ∷ r))

abbrev pub Hashed : Type 0
Hashed = Result (ContentError × ℕ) (String × ℕ)

abbrev pub buffer : ℕ
buffer = 32 * 1024

module _ (hash : List ℕ → String) (done : ℕ → Bool) (max : ℕ) where
  -- One turn of the loop after a read: `total` counts the bytes of this read too.
  unfoldable pub turn : Status → ℕ → ℕ → List ℕ → Hashed → Hashed
  turn status n total seen again =
      if n != 0 && ltb max total then err (too_large, total) else elim status [
        | eof ↦ ok (hash seen, total)
        | failing ↦ err (read_error, total)
        | more ↦ if n == 0 then err (no_progress, total) else again
      ]

  abbrev pub read_size : ℕ → ℕ
  read_size total = if ltb (max - total) buffer then max - total + 1 else buffer

  -- `i` counts the turns, and `seen` holds what the hash was given.
  unfoldable pub hash_loop : ℕ → ℕ → List ℕ → List Chunk → Hashed
  hash_loop zero i seen r = err (exhausted, length seen)
  hash_loop (suc fuel) i seen r =
      let got = read (read_size (length seen)) r in
      let again = hash_loop fuel (suc i) (seen ++ got.0) got.1.1 in
      if done i
      then err (cancelled, length seen)
      else turn got.1.0 (length got.0) (length seen + length got.0) (seen ++ got.0) again

  -- Every turn but the last reads a byte, and a turn past `max` bytes is the last.
  unfoldable pub hash_bounded : List Chunk → Hashed
  hash_bounded r = if max == 0 then err (invalid_limit, 0) else hash_loop (max + 1) 0 [] r

-- `read_all` is io.ReadAll of io.LimitReader, which takes the int64 of the sum.
unfoldable pub read_bounded :
    (ℤ → Result ContentError (List ℕ)) → ℕ → Result ContentError (List ℕ × Bool)
read_bounded read_all limit = do
  reject (limit == 0) invalid_limit
  content ← read_all (of_bits ((limit + 1) % 2 ^ 64))
  ok (if ltb limit (length content) then (take limit content, true) else (content, false))
