-- ===== src/Logger/File/Rotation.antt =====
-- logzer/logfile.go: the size of the log file.
use tcg.Common.{
  ℕ, zero, suc, ◌+◌, ◌≤◌, ◌<◌, ◌≡◌, ◌⊎◌, inl, inr, refl, ap, sym, ◌∙◌, Bool, true, Option, none,
  some, [], ◌++◌, Bytes, length, length-append, ltb, lt→ltb, ltb→le, ◌==◌, arith, Bool-cases,
}
use tcg.Logger.File.{
  Disk, open_file, State, Answers, bytes_of, open_log, shift, rotated, rotate, put_bytes, opened,
  made_room, write, moved, move_current, again,
}

-- A file that is open, and whose counted size is that of the file on the disk.
abbrev pub counted : ℕ → ℕ → Disk → State
counted max_size rotation d = (
  record {
    file = open_file;
    file_size = length (bytes_of d.current);
    max_size = max_size;
    rotation = rotation;
  },
  d,
)

-- Answers of a system that writes, and opens the file that it rotated.
abbrev pub willing : Bool → Bool → Bool → Answers
willing opens opens_again writes_again = record {
  opens = opens;
  opens_rotated = true;
  writes = true;
  opens_again = opens_again;
  writes_again = writes_again;
}

moved-current : (i : ℕ) (o : Option Bytes) (d : Disk) → (moved i o d).current ≡ d.current
moved-current i none d = refl
moved-current i (some b) d = refl

shift-current : (n : ℕ) (d : Disk) → (shift n d).current ≡ d.current
unfolding shift
shift-current zero d = refl
shift-current (suc i) d =
    shift-current i (moved i (d.numbered i) d) ∙ moved-current i (d.numbered i) d

move_current_gone :
    (o : Option Bytes) (d : Disk) → d.current ≡ o → (move_current o d).current ≡ none
move_current_gone none d e = e
move_current_gone (some b) d e = refl

rotated-current : (n : ℕ) (d : Disk) → (rotated n d).current ≡ none
unfolding rotated
rotated-current n d = elim (Bool-cases (n == 0)) [
  | inl e ↦ rw e refl
  | inr e ↦ rw e (move_current_gone (shift n d).current (shift n d) refl)
]

rotate-counted :
    (max_size n : ℕ) (d : Disk)
    → (e : Disk) × (e.current ≡ some [])
      × (rotate true (counted max_size n d) ≡ counted max_size n e)
unfolding rotate open_log
rotate-counted max_size n d =
    let gone = rotated-current n d in
    (
      record (rotated n d) { current = some (bytes_of (rotated n d).current) },
      ap (λ c. some (bytes_of c)) gone,
      refl,
    )

put_bytes-counted :
    (p : Bytes) (max_size n : ℕ) (d : Disk)
    → put_bytes true p (counted max_size n d)
      ≡ (true, counted max_size n (record d { current = some (bytes_of d.current ++ p) }))
unfolding put_bytes
put_bytes-counted p max_size n d =
    ap
      (λ k. (
        true,
        (
          record { file = open_file; file_size = k; max_size = max_size; rotation = n },
          record d { current = some (bytes_of d.current ++ p) },
        ),
      ))
      (sym (length-append (bytes_of d.current) p))

-- A write to a file that is open and counted, where the limit is positive and the system writes, and
-- opens the file again if it was rotated: it succeeds, the file stays open and counted, it ends with
-- what was written, and either it is no longer than the limit or it holds nothing else.
pub write_bounded :
    (opens opens_again writes_again : Bool) (p : Bytes) (max_size n : ℕ) (d : Disk)
    → 0 < max_size
    → (e : Disk) × (before : Bytes) × (write
          (willing opens opens_again writes_again)
          p
          (counted max_size n d)
        ≡ (true, counted max_size n e))
      × (e.current ≡ some (before ++ p))
      × ((length (before ++ p) ≤ max_size) ⊎ (before ≡ []))
unfolding write opened made_room
write_bounded opens opens_again writes_again p max_size n d m =
    let ans = willing opens opens_again writes_again in
    let positive = lt→ltb 0 max_size m in
    elim (Bool-cases (ltb max_size (length (bytes_of d.current) + length p))) [
      | inl full ↦
          (let (e, empty, r) = rotate-counted max_size n d in
            (
              record e { current = some (bytes_of e.current ++ p) },
              [],
              rw (positive, full)
                  (ap (again ans p) (ap (put_bytes true p) r ∙ put_bytes-counted p max_size n e)),
              ap (λ c. some (bytes_of c ++ p)) empty,
              inr refl,
            ))
      | inr fits ↦ (
        record d { current = some (bytes_of d.current ++ p) },
        bytes_of d.current,
        rw (positive, fits) (ap (again ans p) (put_bytes-counted p max_size n d)),
        refl,
        inl (
            omega (
              arith,
              length-append (bytes_of d.current) p,
              ltb→le max_size (length (bytes_of d.current) + length p) fits,
            )),
      )
    ]
