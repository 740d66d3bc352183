-- ===== src/Runner/Capture.antt =====
-- boundedFileWriter of internal/runner/execute.go and boundedMemoryWriter of internal/runner/service.go:
-- the capture of what a process writes. A byte is a number.
use repo_plane.Base.{
  ℕ, ◌+◌, ◌-◌, ◌≤◌, ◌≡◌, refl, Bool, true, false, ◌||◌, Option, none, some, List, [], ◌∷◌, ◌++◌,
  arith, ltb, if◌then◌else◌, length, take, length-append, length-take, take_all, take_at,
  take-append, append_empty, append_assoc, empty_of_length, ap, sym, subst, ◌∙◌, Bool-cases, inl,
  inr,
}

-- `file` is what the log file holds.
pub record BoundedFileWriter : Type 0 where
  pub file : List ℕ
  pub limit : ℕ
  pub written : ℕ
  pub truncated : Bool

abbrev pub new_capture : ℕ → BoundedFileWriter
new_capture limit = record { file = []; limit = limit; written = 0; truncated = false }

-- What `os.File.Write` does with the bytes: it writes them all, or the first ones and fails.
write_file : Option ℕ → List ℕ → ℕ → BoundedFileWriter → (ℕ × Bool) × BoundedFileWriter
write_file none bytes accepted w =
    let out = record w { file = w.file ++ bytes; written = w.written + length bytes } in
    ((accepted, false), out)
write_file (some n) bytes accepted w =
    let kept = take n bytes in
    let out = record w { file = w.file ++ kept; written = w.written + length kept } in
    ((length kept, true), out)

-- `fault` is where the write of the file stops, if it fails. The answer is the count and whether there
-- is an error.
unfoldable pub capture_write :
    Option ℕ → List ℕ → BoundedFileWriter → (ℕ × Bool) × BoundedFileWriter
unfolding write_file
capture_write fault bytes w =
    let remaining = if ltb w.written w.limit then w.limit - w.written else 0 in
    let cut = ltb remaining (length bytes) in
    let to_write = if cut then take remaining bytes else bytes in
    let marked = record w { truncated = cut || w.truncated } in
    if ltb 0 (length to_write)
    then write_file fault to_write (length bytes) marked
    else ((length bytes, false), marked)

abbrev pub snapshot : BoundedFileWriter → ℕ × Bool
snapshot w = (w.written, w.truncated)

-- The writes that os/exec makes, chunk by chunk; it stops after the first error.
unfoldable pub capture_all : List (Option ℕ × List ℕ) → BoundedFileWriter → BoundedFileWriter
capture_all [] w = w
capture_all ((fault, bytes) ∷ rest) w =
    let (answer, w') = capture_write fault bytes w in
    let done = capture_all rest w' in if answer.1 then w' else done

-- All that the process writes.
unfoldable pub joined : List (Option ℕ × List ℕ) → List ℕ
joined [] = []
joined ((fault, bytes) ∷ rest) = bytes ++ joined rest

pub record IsBounded (limit : ℕ) (w : BoundedFileWriter) : Type 0 where
  pub fixed : w.limit ≡ limit
  pub counted : w.written ≡ length w.file
  pub within : w.written ≤ w.limit

write-IsBounded :
    (limit : ℕ) (fault : Option ℕ) (bytes : List ℕ) (w : BoundedFileWriter)
    → IsBounded limit w
    → IsBounded limit (capture_write fault bytes w).1
unfolding capture_write
write-IsBounded limit none bytes w b = record {
  fixed = ground (arith, b.fixed);
  counted = ground (
    arith,
    b.counted,
    length-append w.file bytes,
    length-append w.file (take (w.limit - w.written) bytes),
    length-append w.file (take 0 bytes),
  );
  within = ground (arith, b.within, length-take (w.limit - w.written) bytes);
}
write-IsBounded limit (some n) bytes w b =
    let room = w.limit - w.written in
    record {
      fixed = ground (arith, b.fixed);
      counted = ground (
        arith,
        b.counted,
        length-append w.file (take n bytes),
        length-append w.file (take n (take room bytes)),
        length-append w.file (take n (take 0 bytes)),
      );
      within = ground (
        arith,
        b.within,
        length-take n bytes,
        length-take n (take room bytes),
        length-take room bytes,
        length-take n (take 0 bytes),
        length-take 0 bytes,
      );
    }

all-IsBounded :
    (limit : ℕ) (chunks : List (Option ℕ × List ℕ)) (w : BoundedFileWriter)
    → IsBounded limit w
    → IsBounded limit (capture_all chunks w)
unfolding capture_all
all-IsBounded limit [] w b = b
all-IsBounded limit ((fault, bytes) ∷ rest) w b =
    let next = write-IsBounded limit fault bytes w b in
    elim (Bool-cases (capture_write fault bytes w).0.1) [
      | inl stops ↦ rw stops next
      | inr goes ↦ rw goes (all-IsBounded limit rest (capture_write fault bytes w).1 next)
    ]

-- Whatever a process writes and wherever the disk fails, the captured file holds as many bytes as the
-- receipt counts, and no more than the limit.
pub capture_bounded :
    (limit : ℕ) (chunks : List (Option ℕ × List ℕ))
    → ((capture_all chunks (new_capture limit)).written
        ≡ length (capture_all chunks (new_capture limit)).file)
      × ((capture_all chunks (new_capture limit)).written ≤ limit)
capture_bounded limit chunks =
    let start : IsBounded limit (new_capture limit) = record {
      fixed = refl;
      counted = refl;
      within = omega arith;
    } in
    let done = all-IsBounded limit chunks (new_capture limit) start in
    (done.counted, ground (arith, done.within, done.fixed))

file-write :
    (bytes : List ℕ) (w : BoundedFileWriter)
    → (capture_write none bytes w).1.file ≡ w.file ++ take (w.limit - w.written) bytes
unfolding capture_write
file-write bytes w =
    let room = w.limit - w.written in
    ground (
      arith,
      take_all room bytes,
      append_empty w.file,
      empty_of_length (take room bytes),
      empty_of_length (take 0 bytes),
      empty_of_length bytes,
      length-take room bytes,
      take_at room 0 bytes,
    )

-- What a capture without a fault holds after the bytes `seen`.
record Captured (limit : ℕ) (seen : List ℕ) (w : BoundedFileWriter) : Type 0 where
  bound : w.limit ≡ limit
  kept : w.file ≡ take limit seen
  counted : w.written ≡ length w.file
  flagged : w.truncated ≡ ltb limit (length seen)

write-Captured :
    (limit : ℕ) (seen bytes : List ℕ) (w : BoundedFileWriter)
    → Captured limit seen w
    → Captured limit (seen ++ bytes) (capture_write none bytes w).1
unfolding capture_write
write-Captured limit seen bytes w c = record {
  bound = ground (arith, c.bound);
  kept =
      file-write bytes w
      ∙ ap (λ xs. xs ++ take (w.limit - w.written) bytes) c.kept
      ∙ ap (λ xs. take limit seen ++ xs)
          (take_at (w.limit - w.written) (limit - length seen) bytes
            (ground (arith, c.bound, c.counted, ap length c.kept, length-take limit seen)))
      ∙ sym (take-append limit seen bytes);
  counted = ground (
    arith,
    c.counted,
    length-append w.file bytes,
    length-append w.file (take (w.limit - w.written) bytes),
    length-append w.file (take 0 bytes),
  );
  flagged = ground (
    arith,
    c.bound,
    c.flagged,
    c.counted,
    ap length c.kept,
    length-take limit seen,
    length-append seen bytes,
  );
}

-- The chunks that a process writes, none of which meets a fault.
abbrev pub healthy : List (List ℕ) → List (Option ℕ × List ℕ)
healthy [] = []
healthy (bytes ∷ rest) = (none, bytes) ∷ healthy rest

write-succeeds : (bytes : List ℕ) (w : BoundedFileWriter) → (capture_write none bytes w).0.1 ≡ false
unfolding capture_write
write-succeeds bytes w = ground arith

all-Captured :
    (limit : ℕ) (seen : List ℕ) (chunks : List (List ℕ)) (w : BoundedFileWriter)
    → Captured limit seen w
    → Captured limit (seen ++ joined (healthy chunks)) (capture_all (healthy chunks) w)
unfolding capture_all joined
all-Captured limit seen [] w c = subst (λ xs. Captured limit xs w) (sym (append_empty seen)) c
all-Captured limit seen (bytes ∷ rest) w c = rw (write-succeeds bytes w) (
    subst (λ xs. Captured limit xs (capture_all (healthy rest) (capture_write none bytes w).1))
      (append_assoc seen bytes (joined (healthy rest)))
      (all-Captured limit (seen ++ bytes) rest (capture_write none bytes w).1
        (write-Captured limit seen bytes w c)))

-- Where the disk takes every write, the captured file is what the process wrote, cut at the limit,
-- however it was split into chunks; the receipt counts the bytes of the file, and says that they are
-- truncated exactly when the process wrote more than the limit.
pub capture_lem :
    (limit : ℕ) (chunks : List (List ℕ))
    → ((capture_all (healthy chunks) (new_capture limit)).file
        ≡ take limit (joined (healthy chunks)))
      × (snapshot (capture_all (healthy chunks) (new_capture limit)) ≡ (
        length (take limit (joined (healthy chunks))),
        ltb limit (length (joined (healthy chunks))),
      ))
capture_lem limit chunks =
    let done = all-Captured limit [] chunks (new_capture limit) (record {
      bound = refl;
      kept = sym (take_all limit [] (omega arith));
      counted = refl;
      flagged = ground arith;
    }) in
    (done.kept, ground (arith, done.kept, done.counted, done.flagged))
