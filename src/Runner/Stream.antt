-- ===== src/Runner/Stream.antt =====
-- readStream of internal/runner/execute.go: the pages of a captured stream. The encoding of
-- encoding/base64 is a parameter.
pub mod Pages
use Prim.Native.String.{◌++◌ as join}
use repo_plane.Base.{
  ℕ, zero, suc, ◌+◌, ◌-◌, ◌≤◌, ◌<◌, ◌^◌, String, ◌≡◌, refl, Bool, true, false, not, ◌||◌, Option,
  none, some, List, [], ◌∷◌, ◌++◌, map, arith, ltb, leb, if◌then◌else◌, length, take, drop,
  length-take, Result, ok, err, reject, ◌>>◌, Bool-cases, inl, inr, ap, sym, ◌∙◌, take-append-drop,
}
use repo_plane.Runner.Files.{OpenFile, Opened, missing, failing, opened}

pub record StreamResult : Type 0 where
  pub ref : String
  pub file_ref : String
  pub size_bytes : ℕ
  pub offset : ℕ
  pub next_offset : ℕ
  pub bytes_base64 : String
  pub eof : Bool
  pub truncated : Bool
  pub availability : String

-- An error of the file, or an offset beyond its size.
pub data StreamError : Type 0 where
  file_error offset_exceeds : StreamError

abbrev pub stream_ref : String → String → String
stream_ref run stream = join "stream:" (join run (join ":" stream))

abbrev pub stream_file_ref : String → String → String
stream_file_ref run stream = join "state:runs/" (join run (join "/" (join stream ".log")))

module _ (encode : List ℕ → String) where
  -- `int64(limit)` is negative from 2^63 on, and io.LimitReader then ends at once.
  abbrev pub read_limit : ℕ → ℕ
  read_limit limit = if ltb limit (2 ^ 63) then limit else 0

  -- The bytes that io.ReadAll gives after the seek, at most the limit. An offset is at most the size of
  -- the file, which fits into int64.
  abbrev pub page_of : ℕ → ℕ → OpenFile → List ℕ
  page_of offset limit f = take (read_limit limit) (drop offset f.content)

  unfoldable pub with_bytes : ℕ → ℕ → OpenFile → StreamResult → Result StreamError StreamResult
  with_bytes offset limit f result =
      let bytes = page_of offset limit f in
      let next = offset + length bytes in
      do
        reject (f.seek_fails || f.read_fails) file_error
        ok (record result {
          next_offset = next;
          bytes_base64 = encode bytes;
          eof = leb (length f.content) next;
          truncated = ltb next (length f.content);
        })

  unfoldable pub read_opened :
      String → String → Opened → ℕ → ℕ → Bool → Result StreamError StreamResult
  read_opened ref file_ref missing offset limit include = err file_error
  read_opened ref file_ref failing offset limit include = err file_error
  read_opened ref file_ref (opened f) offset limit include =
      let size = length f.content in
      let result : StreamResult = record {
        ref = ref;
        file_ref = file_ref;
        size_bytes = size;
        offset = offset;
        next_offset = offset;
        bytes_base64 = "";
        eof = leb size offset;
        truncated = false;
        availability = "stored";
      } in
      do
        reject f.stat_fails file_error
        reject (ltb size offset) offset_exceeds
        if include
            then with_bytes offset limit f result
            else ok (record result { truncated = not (leb size offset) })

  -- `log` is what os.Open gives for the log of this stream.
  unfoldable pub read_stream :
      String → String → Opened → ℕ → ℕ → Bool → Result StreamError StreamResult
  read_stream run stream log offset limit include =
      read_opened (stream_ref run stream) (stream_file_ref run stream) log offset limit include
