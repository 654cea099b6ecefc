-- ===== src/Peek/Segments.antt =====
-- What `reverse` and `reverse_with_nums` of c-shell/src/peek.c print of a file: its lines, backward.
use c_shell.Base.{
  ℕ, ◌≡◌, refl, sym, ap, ◌∙◌, Bool, true, ◌&&◌, List, [], ◌∷◌, ◌++◌, Option, some, none, reverse,
  append-nil, length, leb, ◌==◌, if◌then◌else◌, ◌>>=◌, Bytes, Bool-cases, inl, inr, arith,
}
use c_shell.Peek.{
  Item, with_newline, chars, buffer_size, Scan, reverse_byte, reverse_bytes, last_line,
  reverse_file,
}
use c_shell.Peek.Backward.{reverse_loop_lem, reverse_bytes-snoc, take-all}

-- The pieces of a file between its newlines: a line, and the lines below it.
unfoldable pub segments : Bytes → Bytes × List Bytes
segments [] = ([], [])
segments (b ∷ bs) = let (s, ss) = segments bs in if b == b'\n' then ([], s ∷ ss) else (b ∷ s, ss)

abbrev pub fits : Bytes → Bool
fits s = leb (length s) buffer_size

unfoldable pub all_fit : List Bytes → Bool
all_fit [] = true
all_fit (s ∷ ss) = fits s && all_fit ss

-- The last line first.
pub backward : List Bytes → List Item
backward [] = []
backward (s ∷ ss) = backward ss ++ with_newline s

-- The first line of the file comes last; it is left out when it is empty.
abbrev pub first_line : Bytes → List Item
first_line [] = []
first_line (b ∷ bs) = with_newline (b ∷ bs)

abbrev collected : Bytes × List Bytes → Option Scan
collected (s, ss) =
    if fits s && all_fit ss then some record { line = s; out = backward ss } else none

collected-step :
    (b : ℕ) (s : Bytes) (ss : List Bytes)
    → (collected (s, ss) >>= reverse_byte b)
      ≡ collected (if b == b'\n' then ([], s ∷ ss) else (b ∷ s, ss))
unfolding reverse_byte all_fit backward chars
collected-step b s ss = elim (Bool-cases (b == b'\n')) [
  | inl newline ↦ rw newline ground arith
  | inr other ↦ rw other ground arith
]

reverse_bytes-collected :
    (file : Bytes)
    → reverse_bytes (reverse file) record { line = []; out = [] } ≡ collected (segments file)
unfolding reverse_bytes segments all_fit backward
reverse_bytes-collected [] = refl
reverse_bytes-collected (b ∷ bs) =
    reverse_bytes-snoc (reverse bs) b _
    ∙ ap (λ o. o >>= reverse_byte b) (reverse_bytes-collected bs)
    ∙ collected-step b (segments bs).0 (segments bs).1

last_line-first :
    (s : Bytes) (ss : List Bytes)
    → last_line record { line = s; out = backward ss } ≡ backward ss ++ first_line s
unfolding last_line chars
last_line-first [] ss = sym (append-nil (backward ss))
last_line-first (b ∷ bs) ss = refl

ended :
    (s : Bytes) (ss : List Bytes)
    → (collected (s, ss) >>= λ c. some (last_line c))
      ≡ (if fits s && all_fit ss then some (backward ss ++ first_line s) else none)
ended s ss = elim (Bool-cases (fits s && all_fit ss)) [
  | inl e ↦ rw e (ap some (last_line-first s ss))
  | inr e ↦ rw e refl
]

-- `reverse` prints the lines of a file backward, each with a newline; a file that ends in a newline
-- gives an empty line first, and an empty first line is left out. That holds exactly if no line has
-- more than 1024 bytes: else it writes past the end of its buffer.
pub reverse_file_lem :
    (file : Bytes)
    → let (s, ss) = segments file in
      reverse_file file
      ≡ (if fits s && all_fit ss then some (backward ss ++ first_line s) else none)
unfolding reverse_file
reverse_file_lem file =
    let (s, ss) = segments file in
    ap (λ o. o >>= λ c. some (last_line c))
      (reverse_loop_lem (length file) file (length file) _ (omega arith)
        ∙ ap (λ bs. reverse_bytes (reverse bs) record { line = []; out = [] }) (take-all file)
        ∙ reverse_bytes-collected file)
    ∙ ended (segments file).0 (segments file).1
