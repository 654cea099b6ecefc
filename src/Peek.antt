-- ===== src/Peek.antt =====
-- The `peek` command: c-shell/src/peek.c.
pub mod Files
pub mod Backward
pub mod Segments
pub mod Pieces
pub mod Numbered
pub mod Options
use c_shell.Base.{
  ◌>>=◌, ℕ, zero, suc, ◌+◌, ◌-◌, Bool, true, false, ◌&&◌, ◌||◌, List, [], ◌∷◌, ◌++◌, map, Option,
  some, none, take, drop, reverse, length, ltb, ◌==◌, if◌then◌else◌, Bytes, str_eq, codes,
}
use c_shell.Lexer.{Token}
use c_shell.Numbers.{ℤ, pos, negsuc, is_blank}

-- What is printed: a byte, or a number and a blank (`"%d "`).
pub data Item : Type 0 where
  char : ℕ → Item
  num : ℤ → Item

unfoldable pub chars : Bytes → List Item
chars bs = map char bs

-- A buffer read as a C string: it ends at the first NUL.
unfoldable pub c_string : Bytes → Bytes
c_string [] = []
c_string (b ∷ bs) = let rest = c_string bs in if b == 0 then [] else b ∷ rest

unfoldable pub all_blank : Bytes → Bool
unfolding is_blank
all_blank [] = true
all_blank (b ∷ bs) = is_blank b && all_blank bs

unfoldable pub is_empty : Bytes → Bool
unfolding c_string all_blank
is_empty line = all_blank (c_string line)

-- `sizeof(line) - 1`
abbrev pub line_room : ℕ
line_room = 1023

abbrev pub push_first : ℕ → List Bytes → List Bytes
push_first b [] = (b ∷ []) ∷ []
push_first b (l ∷ ls) = (b ∷ l) ∷ ls

-- What the calls of `fgets` leave in `line`, up to the end of the file, where the one that is running
-- takes `room` bytes more: each ends behind a newline or when the buffer is full.
unfoldable pub fgets_all : ℕ → Bytes → List Bytes
fgets_all room [] = []
fgets_all room (b ∷ bs) =
    let fresh = fgets_all line_room bs in
    let more = fgets_all (room - 1) bs in
    if (b == b'\n') || (room == 1) then (b ∷ []) ∷ fresh else push_first b more

unfoldable pub count_loop : ℕ → List Bytes → ℕ
unfolding is_empty
count_loop count [] = count
count_loop count (l ∷ ls) = count_loop (if is_empty l then count else suc count) ls

unfoldable pub get_line_count : Bytes → ℕ
unfolding count_loop fgets_all
get_line_count file = count_loop 0 (fgets_all line_room file)

-- The output, with the count behind it.
unfoldable pub nums_loop : ℕ → List Bytes → List Item × ℕ
unfolding is_empty chars c_string
nums_loop count [] = ([], count)
nums_loop count (l ∷ ls) =
    let skipped = nums_loop count ls in
    let counted = nums_loop (suc count) ls in
    if is_empty l
    then (chars (c_string l) ++ skipped.0, skipped.1)
    else (num (pos (suc count)) ∷ (chars (c_string l) ++ counted.0), counted.1)

unfoldable pub nums_line : Bytes → ℕ → List Item × ℕ
unfolding nums_loop fgets_all
nums_line file count = nums_loop count (fgets_all line_room file)

-- `sizeof(buffer)`, and that of `line`.
abbrev pub buffer_size : ℕ
buffer_size = 1024

-- `buffer` from its end, after a `read` at `start` of the bytes before `pos`.
abbrev pub buffer_back : Bytes → ℕ → ℕ → Bytes
buffer_back file start end = reverse (take (end - start) (drop start file))

-- `line[line_pos - 1]`, ..., `line[0]`, which is the order they are printed in, and the output.
pub record Scan : Type 0 where
  pub line : Bytes
  pub out : List Item

-- The loop over `line`, and the newline.
abbrev pub with_newline : Bytes → List Item
with_newline line = chars line ++ char b'\n' ∷ []

-- A byte of the file, in `reverse`. A line of more than 1024 bytes runs over the end of `line`, where
-- the program has no defined behaviour any more: `none`.
unfoldable pub reverse_byte : ℕ → Scan → Option Scan
unfolding chars
reverse_byte b s =
    if b == b'\n'
    then some record { line = []; out = s.out ++ with_newline s.line }
    else if ltb (length s.line) buffer_size
    then some record s { line = b ∷ s.line }
    else none

unfoldable pub reverse_bytes : Bytes → Scan → Option Scan
unfolding reverse_byte
reverse_bytes [] s = some s
reverse_bytes (b ∷ bs) s = do s' ← reverse_byte b s; reverse_bytes bs s'

-- The loop over the buffers that end at `pos`; `fuel` bounds its rounds.
unfoldable pub reverse_loop : ℕ → Bytes → ℕ → Scan → Option Scan
unfolding reverse_bytes
reverse_loop zero file at s = some s
reverse_loop (suc fuel) file zero s = some s
reverse_loop (suc fuel) file (suc p) s = do
  let start = suc p - buffer_size
  s' ← reverse_bytes (buffer_back file start (suc p)) s
  reverse_loop fuel file start s'

-- The line that is left, behind the loop.
unfoldable pub last_line : Scan → List Item
unfolding chars
last_line s = elim s.line [ [] ↦ s.out | b ∷ bs ↦ s.out ++ with_newline s.line ]

unfoldable pub reverse_file : Bytes → Option (List Item)
unfolding reverse_loop last_line
reverse_file file = do
  s ← reverse_loop (length file) file (length file) record { line = []; out = [] }
  some (last_line s)

-- `line` in the same order, the next number and the output, in `reverse_with_nums`.
pub record NumberedScan : Type 0 where
  pub line : Bytes
  pub line_number : ℤ
  pub out : List Item

-- `line_number--`
unfoldable pub decremented : ℤ → ℤ
decremented (pos zero) = negsuc 0
decremented (pos (suc n)) = pos n
decremented (negsuc n) = negsuc (suc n)

-- Prints `line`, with its number unless it is blank.
unfoldable pub print_numbered : NumberedScan → NumberedScan
unfolding all_blank decremented chars
print_numbered s =
    if all_blank s.line
    then record s { line = []; out = s.out ++ with_newline s.line }
    else record {
      line = [];
      line_number = decremented s.line_number;
      out = s.out ++ (num s.line_number ∷ with_newline s.line);
    }

-- A byte of the file, in `reverse_with_nums`: a full `line` takes no more.
unfoldable pub numbered_byte : ℕ → NumberedScan → NumberedScan
unfolding print_numbered
numbered_byte b s =
    if b == b'\n'
    then print_numbered s
    else if ltb (length s.line) line_room
    then record s { line = b ∷ s.line }
    else s

unfoldable pub numbered_bytes : Bytes → NumberedScan → NumberedScan
unfolding numbered_byte
numbered_bytes [] s = s
numbered_bytes (b ∷ bs) s = numbered_bytes bs (numbered_byte b s)

unfoldable pub numbered_loop : ℕ → Bytes → ℕ → NumberedScan → NumberedScan
unfolding numbered_bytes
numbered_loop zero file at s = s
numbered_loop (suc fuel) file zero s = s
numbered_loop (suc fuel) file (suc p) s =
    let start = suc p - buffer_size in
    numbered_loop fuel file start (numbered_bytes (buffer_back file start (suc p)) s)

unfoldable pub last_numbered : NumberedScan → List Item
unfolding print_numbered
last_numbered s = elim s.line [ [] ↦ s.out | b ∷ bs ↦ (print_numbered s).out ]

unfoldable pub reverse_with_nums : Bytes → ℕ → List Item
unfolding numbered_loop last_numbered
reverse_with_nums file total_lines = last_numbered (
    numbered_loop (length file) file (length file)
      record { line = []; line_number = pos total_lines; out = [] })
