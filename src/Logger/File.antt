-- ===== src/Logger/File.antt =====
-- logzer/logfile.go: the log file and its rotation. The disk holds the file and its numbered copies; a
-- rename of a file that is not there does nothing. `Disk.none` of a file is a file that is not there.
pub mod Rotation
use tcg.Common.{
  ℕ, zero, suc, ◌+◌, Bool, true, false, ◌&&◌, Option, none, some, List, [], ◌++◌, Bytes, length,
  ltb, ◌==◌, if◌then◌else◌,
}

-- FilePath, and `FilePath.i`.
pub record Disk : Type 0 where
  pub current : Option Bytes
  pub numbered : ℕ → Option Bytes

-- `file`: nil, a file that is closed, or one that is open.
pub data Handle : Type 0 where
  no_file closed_file open_file : Handle

-- A file's size is not negative, and MaxSize and Rotate that are not positive act as 0 and 1.
pub record LogFile : Type 0 where
  pub file : Handle
  pub file_size : ℕ
  pub max_size : ℕ
  pub rotation : ℕ

abbrev pub bytes_of : Option Bytes → Bytes
bytes_of none = []
bytes_of (some b) = b

abbrev pub State : Type 0
State = LogFile × Disk

abbrev pub closed : Handle → Handle
closed no_file = no_file
closed closed_file = closed_file
closed open_file = closed_file

-- `opens` is whether the system opens the file, which it then makes if it is not there.
unfoldable pub open_log : Bool → State → State
open_log true (f, d) = (
  record f { file = open_file; file_size = length (bytes_of d.current) },
  record d { current = some (bytes_of d.current) },
)
open_log false (f, d) = (record f { file = closed (f.file) }, d)

abbrev pub at {ℓ} : {A : Type ℓ} → ℕ → A → (ℕ → A) → ℕ → A
at i x f j = if j == i then x else f j

-- `os.Rename` of the copy i to the copy i + 1.
abbrev pub moved : ℕ → Option Bytes → Disk → Disk
moved i none d = d
moved i (some b) d = record d { numbered = at (suc i) (some b) (at i none d.numbered) }

unfoldable pub shift : ℕ → Disk → Disk
shift zero d = d
shift (suc i) d = shift i (moved i (d.numbered i) d)

abbrev pub move_current : Option Bytes → Disk → Disk
move_current none d = d
move_current (some b) d = record d { current = none; numbered = at 1 (some b) d.numbered }

unfoldable pub rotated : ℕ → Disk → Disk
unfolding shift
rotated n d =
    if n == 0 then record d { current = none } else let e = shift n d in move_current e.current e

unfoldable pub rotate : Bool → State → State
unfolding rotated open_log
rotate opens (f, d) = open_log opens (record f { file = closed (f.file) }, rotated f.rotation d)

-- What the system answers to one Write: the first opening, that of the rotation, the first write, the
-- opening after it failed, and the second write.
pub record Answers : Type 0 where
  pub opens : Bool
  pub opens_rotated : Bool
  pub writes : Bool
  pub opens_again : Bool
  pub writes_again : Bool

abbrev pub is_open : Handle → Bool
is_open open_file = true
is_open _ = false

abbrev pub is_file : Handle → Bool
is_file no_file = false
is_file _ = true

-- `file.Write`, whole or not at all, with whether it succeeded; it appends.
unfoldable pub put_bytes : Bool → Bytes → State → Bool × State
put_bytes writes p (f, d) =
    if is_open f.file && writes
    then (
      true,
      (
        record f { file_size = f.file_size + length p },
        record d { current = some (bytes_of d.current ++ p) },
      ),
    )
    else (false, (f, d))

abbrev pub again : Answers → Bytes → Bool × State → Bool × State
unfolding open_log put_bytes
again ans p (true, s) = (true, s)
again ans p (false, s) = put_bytes ans.writes_again p (open_log ans.opens_again s)

unfoldable pub opened : Answers → State → State
unfolding open_log
opened ans s = elim s.0.file [ no_file ↦ open_log ans.opens s | _ ↦ s ]

unfoldable pub made_room : Answers → Bytes → State → State
unfolding rotate
made_room ans p s =
    if is_file s.0.file && (ltb 0 s.0.max_size && ltb s.0.max_size (s.0.file_size + length p))
    then rotate ans.opens_rotated s
    else s

unfoldable pub write : Answers → Bytes → State → Bool × State
unfolding opened made_room put_bytes
write ans p s = again ans p (put_bytes ans.writes p (made_room ans p (opened ans s)))
