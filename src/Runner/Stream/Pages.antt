-- ===== src/Runner/Stream/Pages.antt =====
-- A client that follows `next_offset` until `eof` gets a captured stream whole, page by page
-- (readStream of internal/runner/execute.go).
use repo_plane.Base.{
  ℕ, zero, suc, min, ◌+◌, ◌-◌, ◌≤◌, ◌<◌, ◌^◌, String, ◌≡◌, refl, true, false, Option, none, some,
  List, [], ◌∷◌, ◌++◌, map, arith, ltb, leb, if◌then◌else◌, length, all, drop, length-take, Result,
  ok, err, Bool-cases, inl, inr, ap, sym, ◌∙◌, drop-drop, length-drop, take_rest, empty_of_length,
}
use repo_plane.Runner.Files.{OpenFile, opened}
use repo_plane.Runner.Stream.{
  StreamResult, StreamError, read_stream, read_opened, with_bytes, read_limit, page_of, stream_ref,
  stream_file_ref,
}

-- No call on the file fails.
pub record IsReadable (f : OpenFile) : Type 0 where
  pub stat : f.stat_fails ≡ false
  pub seek : f.seek_fails ≡ false
  pub reads : f.read_fails ≡ false

-- What `read_stream` gives at an offset within the file.
module _ (encode : List ℕ → String) (run stream : String) (limit : ℕ) (f : OpenFile) where
  abbrev pub page : ℕ → StreamResult
  page offset =
      let bytes = page_of encode offset limit f in
      record {
        ref = stream_ref run stream;
        file_ref = stream_file_ref run stream;
        size_bytes = length f.content;
        offset = offset;
        next_offset = offset + length bytes;
        bytes_base64 = encode bytes;
        eof = leb (length f.content) (offset + length bytes);
        truncated = ltb (offset + length bytes) (length f.content);
        availability = "stored";
      }

  read_stream-page :
      (offset : ℕ)
      → IsReadable f
      → offset ≤ length f.content
      → read_stream encode run stream (opened f) offset limit true ≡ ok (page offset)
  unfolding read_stream read_opened with_bytes
  read_stream-page offset r h =
      let in_file : ltb (length f.content) offset ≡ false = ground (arith, h) in
      rw (r.stat, r.seek, r.reads, in_file) refl

  answered : Result StreamError StreamResult → (ℕ → Option (List String)) → Option (List String)
  answered (err e) rest = none
  answered (ok r) rest =
      let more = rest r.next_offset in
      if r.eof
      then some (r.bytes_base64 ∷ [])
      else elim more [ none ↦ none | some pages ↦ some (r.bytes_base64 ∷ pages) ]

  -- The pages that the client gets from an offset on, in at most so many requests.
  unfoldable pub fetch : ℕ → ℕ → Option (List String)
  unfolding answered
  fetch zero offset = none
  fetch (suc n) offset =
      answered (read_stream encode run stream (opened f) offset limit true) (fetch n)

abbrev pub concat : List (List ℕ) → List ℕ
concat [] = []
concat (x ∷ xs) = x ++ concat xs

-- The pages encode pieces of the bytes, none longer than the limit.
pub record Pieces (encode : List ℕ → String) (limit : ℕ) (bytes : List ℕ)
    (pages : Option (List String)) : Type 0 where
  pub pieces : List (List ℕ)
  pub encoded : pages ≡ some (map encode pieces)
  pub whole : concat pieces ≡ bytes
  pub bounded : all (λ piece. leb (length piece) limit) pieces ≡ true

module _ (encode : List ℕ → String) (run stream : String) (limit : ℕ) (f : OpenFile)
    (readable : IsReadable f) (positive : 1 ≤ limit) (small : limit < 2 ^ 63) where
  page_split :
      (offset : ℕ)
      → page_of encode offset limit f
          ++ drop (offset + length (page_of encode offset limit f)) f.content
        ≡ drop offset f.content
  page_split offset =
      let bytes = page_of encode offset limit f in
      ap (λ xs. bytes ++ xs) (drop-drop offset (length bytes) f.content)
      ∙ take_rest (read_limit encode limit) (drop offset f.content)

  page_length :
      (offset : ℕ) → length (page_of encode offset limit f) ≡ min limit (length f.content - offset)
  page_length offset = ground (
    arith,
    small,
    length-take (read_limit encode limit) (drop offset f.content),
    length-drop offset f.content,
  )

  fetch-Pieces :
      (fuel offset : ℕ)
      → offset ≤ length f.content
      → length f.content - offset < fuel
      → Pieces encode limit (drop offset f.content) (fetch encode run stream limit f fuel offset)
  unfolding fetch
  fetch-Pieces zero offset h enough = absurd (omega (arith, enough))
  fetch-Pieces (suc fuel) offset h enough =
      let bytes = page_of encode offset limit f in
      let next = offset + length bytes in
      let size = length f.content in
      rw (read_stream-page encode run stream limit f offset readable h)
        (elim (Bool-cases (leb size next)) [
          | inl ends ↦ rw ends (record {
            pieces = bytes ∷ [];
            encoded = refl;
            whole =
                ap (λ xs. bytes ++ xs)
                  (sym (
                    empty_of_length (drop next f.content)
                      (ground (arith, length-drop next f.content, ends))))
                ∙ page_split offset;
            bounded = ground (arith, page_length offset);
          })
          | inr goes ↦
              (let inside : next ≤ size = ground (arith, goes) in
                let less : size - next < fuel =
                  ground (arith, goes, enough, page_length offset, positive) in
                let rest = fetch-Pieces fuel next inside less in
                rw (goes, rest.encoded)
                  (record {
                    pieces = bytes ∷ rest.pieces;
                    encoded = refl;
                    whole = ap (λ xs. bytes ++ xs) rest.whole ∙ page_split offset;
                    bounded = ground (arith, page_length offset, rest.bounded);
                  }))
        ])

-- From offset 0 of a log whose calls do not fail, with a limit from 1 to below 2^63, a client that asks for the
-- next page until `eof` gets an answer within size + 1 requests: pages that encode, in order, the whole
-- log, none longer than the limit.
pub fetch-whole :
    (encode : List ℕ → String) (run stream : String) (limit : ℕ) (f : OpenFile)
    → IsReadable f
    → 1 ≤ limit
    → limit < 2 ^ 63
    → Pieces encode limit f.content (fetch encode run stream limit f (length f.content + 1) 0)
fetch-whole encode run stream limit f readable positive small =
    fetch-Pieces encode run stream limit f readable positive small (length f.content + 1) 0
      (omega arith) (omega arith)
