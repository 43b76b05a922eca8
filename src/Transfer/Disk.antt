-- ===== src/Transfer/Disk.antt =====
-- The files that the servers write: `open(name, O_CREAT | O_RDWR)` and `write`.
use ece.Base.{
  ℕ, ◌+◌, ◌≡◌, refl, ◌≢◌, fun_ext, [], ◌++◌, append_assoc, Option, none, some, arith, Bytes, length,
  length-append, take, drop, take-append_front, drop-append_front, drop-drop, str_eq, str_eq_refl,
  str_eq_iff, Bool-cases, inl, inr, if◌then◌else◌,
}

-- The contents by name; `none` where there is no file.
abbrev pub Files : Type 0
Files = Bytes → Option Bytes

unfoldable pub put : Bytes → Bytes → Files → Files
put name content files other = if str_eq other name then some content else files other

-- What stands in a file before `open` returns: O_CREAT makes an empty one, and nothing truncates.
unfoldable pub found : Option Bytes → Bytes
found none = []
found (some content) = content

-- `open` for a name; the descriptor stands at position 0.
unfoldable pub open_file : Bytes → Files → Files
unfolding put found
open_file name files = put name (found (files name)) files

-- `write` at the position of the descriptor, which is within the file.
unfoldable pub write_at : ℕ → Bytes → Bytes → Bytes
write_at position d content = take position content ++ (d ++ drop (position + length d) content)

-- `write` to an open file.
unfoldable pub write_file : Bytes → ℕ → Bytes → Files → Files
unfolding put found write_at
write_file name position d files = put name (write_at position d (found (files name))) files

pub put-get : (name content : Bytes) (files : Files) → put name content files name ≡ some content
unfolding put
put-get name content files = rw (str_eq_refl name) refl

pub put_other :
    (name other content : Bytes) (files : Files)
    → other ≢ name
    → put name content files other ≡ files other
unfolding put
put_other name other content files h = ground (arith, str_eq_iff other name)

pub put-put : (name a b : Bytes) (files : Files) → put name b (put name a files) ≡ put name b files
unfolding put
put-put name a b files =
    fun_ext
      (λ other. elim (Bool-cases (str_eq other name)) [ inl e ↦ rw e refl | inr e ↦ rw e refl ])

-- What is left of the old content behind what was written from the start.
abbrev pub over : Bytes → Bytes → Bytes
over written old = written ++ drop (length written) old

-- Writing on from the end of what was written from the start.
pub write_at-over :
    (written d old : Bytes)
    → write_at (length written) d (over written old) ≡ over (written ++ d) old
unfolding write_at
write_at-over written d old =
    rw
      (
        take-append_front written (drop (length written) old),
        drop-append_front written (length d) (drop (length written) old),
        drop-drop (length d) (length written) old,
        append_assoc written d (drop (length (written ++ d)) old),
        length-append written d,
      )
      refl

pub write_file-over :
    (name written d old : Bytes) (files : Files)
    → write_file name (length written) d (put name (over written old) files)
      ≡ put name (over (written ++ d) old) files
unfolding write_file found
write_file-over name written d old files =
    rw (put-get name (over written old) files, write_at-over written d old) (put-put name _ _ files)

-- The first write after `open`.
pub write_file-open_file :
    (name d : Bytes) (files : Files)
    → write_file name 0 d (open_file name files) ≡ put name (over d (found (files name))) files
unfolding open_file
write_file-open_file name d files = write_file-over name [] d (found (files name)) files
