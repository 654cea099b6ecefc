-- ===== src/Peek/Pieces.antt =====
-- The numbered lines of a file as `nums_line` of c-shell/src/peek.c prints them, from what `fgets` reads.
use c_shell.Base.{
  ℕ, suc, ◌-◌, ◌<◌, ◌≡◌, refl, ap, ◌∙◌, Bool, true, false, not, ◌&&◌, List, [], ◌∷◌, ◌++◌,
  append-nil, length, ltb, ◌==◌, if◌then◌else◌, Bytes, Bool-cases, inl, inr, ==_iff, arith,
}
use c_shell.Numbers.{pos, is_blank}
use c_shell.Peek.{
  Item, char, num, chars, c_string, all_blank, is_empty, line_room, push_first, fgets_all,
  count_loop, get_line_count, nums_loop, nums_line, with_newline,
}
use c_shell.Peek.Segments.{segments}

unfoldable pub no_nul : Bytes → Bool
no_nul [] = true
no_nul (b ∷ bs) = not (b == 0) && no_nul bs

-- A line without a NUL that `line` can take with its newline.
abbrev pub plain : Bytes → Bool
plain s = ltb (length s) line_room && no_nul s

unfoldable pub all_plain : List Bytes → Bool
all_plain [] = true
all_plain (s ∷ ss) = plain s && all_plain ss

abbrev pub next : ℕ → Bytes → ℕ
next n s = if all_blank s then n else suc n

-- What stands before a line: its number, if it is not blank.
abbrev pub mark : ℕ → Bytes → List Item
mark n s = if all_blank s then [] else num (pos (suc n)) ∷ []

unfoldable pub last_number : ℕ → List Bytes → ℕ
last_number n [] = n
last_number n (s ∷ ss) = last_number (next n s) ss

-- The lines from the one behind number `n`, as they are printed, the newline between two.
unfoldable pub listing : ℕ → Bytes → List Bytes → List Item
listing n s [] = mark n s ++ chars s
listing n s (t ∷ ts) = (mark n s ++ with_newline s) ++ listing (next n s) t ts

-- The same lines with the same numbers, the last one first.
unfoldable pub backward_listing : ℕ → List Bytes → List Item
backward_listing n [] = []
backward_listing n (s ∷ ss) = backward_listing (next n s) ss ++ (mark n s ++ with_newline s)

abbrev pub first_listed : Bytes → List Item
first_listed [] = []
first_listed (b ∷ bs) = mark 0 (b ∷ bs) ++ with_newline (b ∷ bs)

-- The lines as `fgets` gives them.
abbrev pieces : Bytes → List Bytes → List Bytes
pieces [] [] = []
pieces (b ∷ bs) [] = (b ∷ bs) ∷ []
pieces s (t ∷ ts) = (s ++ b'\n' ∷ []) ∷ pieces t ts

push_first-pieces :
    (b : ℕ) (s : Bytes) (ss : List Bytes) → push_first b (pieces s ss) ≡ pieces (b ∷ s) ss
push_first-pieces b [] [] = refl
push_first-pieces b (c ∷ cs) [] = refl
push_first-pieces b s (t ∷ ts) = refl

fgets_all-nil : (room : ℕ) → fgets_all room [] ≡ []
unfolding fgets_all
fgets_all-nil room = refl

fgets_all-newline :
    (room : ℕ) (b : ℕ) (bs : Bytes)
    → (b == b'\n') ≡ true
    → fgets_all room (b ∷ bs) ≡ (b'\n' ∷ []) ∷ fgets_all line_room bs
unfolding fgets_all
fgets_all-newline room b bs h =
    rw h (ap (λ c. (c ∷ []) ∷ fgets_all line_room bs) ((==_iff b b'\n').0 h))

fgets_all-other :
    (room : ℕ) (b : ℕ) (bs : Bytes)
    → (b == b'\n') ≡ false
    → 1 < room
    → fgets_all room (b ∷ bs) ≡ push_first b (fgets_all (room - 1) bs)
unfolding fgets_all
fgets_all-other room b bs h large =
    let more : (room == 1) ≡ false = ground (arith, large) in rw (h, more) refl

fgets_all-pieces :
    (room : ℕ) (file : Bytes)
    → (length (segments file).0 < room)
    → all_plain (segments file).1 ≡ true
    → fgets_all room file ≡ pieces (segments file).0 (segments file).1
unfolding segments all_plain
fgets_all-pieces room [] = λ h short. fgets_all-nil room
fgets_all-pieces room (b ∷ bs) = elim (Bool-cases (b == b'\n')) [
  | inl newline ↦ rw newline (λ h short.
      let below : length (segments bs).0 < line_room = ground (arith, short) in
      let rest : all_plain (segments bs).1 ≡ true = ground (arith, short) in
      fgets_all-newline room b bs newline
      ∙ ap (◌∷◌ (b'\n' ∷ [])) (fgets_all-pieces line_room bs below rest))
  | inr other ↦ rw other (λ h short.
      fgets_all-other room b bs other (omega (arith, h))
      ∙ ap (push_first b) (fgets_all-pieces (room - 1) bs (omega (arith, h)) short)
      ∙ push_first-pieces b (segments bs).0 (segments bs).1)
]

c_string-plain : (s : Bytes) → no_nul s ≡ true → c_string s ≡ s
unfolding c_string no_nul
c_string-plain [] h = refl
c_string-plain (b ∷ bs) h = ground (arith, h, c_string-plain bs)

no_nul-newline : (s : Bytes) → no_nul s ≡ true → no_nul (s ++ b'\n' ∷ []) ≡ true
unfolding no_nul
no_nul-newline [] h = refl
no_nul-newline (b ∷ bs) h = ground (arith, h, no_nul-newline bs)

all_blank-newline : (s : Bytes) → all_blank (s ++ b'\n' ∷ []) ≡ all_blank s
unfolding all_blank is_blank
all_blank-newline [] = refl
all_blank-newline (b ∷ bs) = ap (λ t. is_blank b && t) (all_blank-newline bs)

chars-newline : (s : Bytes) → chars (s ++ b'\n' ∷ []) ≡ with_newline s
unfolding chars
chars-newline [] = refl
chars-newline (b ∷ bs) = ap (◌∷◌ (char b)) (chars-newline bs)

is_empty-plain : (s : Bytes) → no_nul s ≡ true → is_empty s ≡ all_blank s
unfolding is_empty
is_empty-plain s h = ap all_blank (c_string-plain s h)

is_empty-newline : (s : Bytes) → no_nul s ≡ true → is_empty (s ++ b'\n' ∷ []) ≡ all_blank s
is_empty-newline s h = is_empty-plain (s ++ b'\n' ∷ []) (no_nul-newline s h) ∙ all_blank-newline s

no_nul-head : (s : Bytes) (ss : List Bytes) → all_plain (s ∷ ss) ≡ true → no_nul s ≡ true
unfolding all_plain
no_nul-head s ss h = ground (arith, h)

pub all_plain-tail : (s : Bytes) (ss : List Bytes) → all_plain (s ∷ ss) ≡ true → all_plain ss ≡ true
unfolding all_plain
all_plain-tail s ss h = ground (arith, h)

pub all_plain-shorter :
    (b : ℕ) (s : Bytes) (ss : List Bytes)
    → all_plain ((b ∷ s) ∷ ss) ≡ true
    → all_plain (s ∷ ss) ≡ true
unfolding all_plain no_nul
all_plain-shorter b s ss h = ground (arith, h)

pub length-plain : (s : Bytes) (ss : List Bytes) → all_plain (s ∷ ss) ≡ true → length s < line_room
unfolding all_plain
length-plain s ss h = ground (arith, h)

count_loop-pieces :
    (n : ℕ) (s : Bytes) (ss : List Bytes)
    → all_plain (s ∷ ss) ≡ true
    → count_loop n (pieces s ss) ≡ last_number n (s ∷ ss)
unfolding count_loop last_number all_blank
count_loop-pieces n [] [] h = refl
count_loop-pieces n (b ∷ bs) [] h = rw (is_empty-plain (b ∷ bs) (no_nul-head (b ∷ bs) [] h)) refl
count_loop-pieces n s (t ∷ ts) h =
    rw (count_loop, is_empty-newline s (no_nul-head s (t ∷ ts) h))
      (count_loop-pieces (next n s) t ts (all_plain-tail s (t ∷ ts) h))

-- One piece that `nums_line` prints.
nums_loop-piece :
    (n : ℕ) (s l : Bytes) (ls : List Bytes)
    → no_nul l ≡ true
    → all_blank l ≡ all_blank s
    → nums_loop n (l ∷ ls)
      ≡ ((mark n s ++ chars l) ++ (nums_loop (next n s) ls).0, (nums_loop (next n s) ls).1)
unfolding nums_loop chars
nums_loop-piece n s l ls plain_ blank =
    rw (c_string-plain l plain_, blank)
      (elim (Bool-cases (all_blank s)) [ inl e ↦ rw e refl | inr e ↦ rw e refl ])

nums_loop-pieces :
    (n : ℕ) (s : Bytes) (ss : List Bytes)
    → all_plain (s ∷ ss) ≡ true
    → nums_loop n (pieces s ss) ≡ (listing n s ss, last_number n (s ∷ ss))
unfolding nums_loop last_number listing all_blank
nums_loop-pieces n [] [] h = refl
nums_loop-pieces n (b ∷ bs) [] h =
    let no = no_nul-head (b ∷ bs) [] h in
    nums_loop-piece n (b ∷ bs) (b ∷ bs) [] no refl
    ∙ ap (λ o. (o, last_number n ((b ∷ bs) ∷ []))) (append-nil _)
nums_loop-pieces n s (t ∷ ts) h =
    let no = no_nul-head s (t ∷ ts) h in
    nums_loop-piece n s (s ++ b'\n' ∷ []) (pieces t ts) (no_nul-newline s no) (all_blank-newline s)
    ∙ rw (chars-newline s, nums_loop-pieces (next n s) t ts (all_plain-tail s (t ∷ ts) h)) refl

-- A file whose lines are all plain.
unfoldable pub IsPlain : Bytes → Type 0
IsPlain file = all_plain ((segments file).0 ∷ (segments file).1) ≡ true

module _ (file : Bytes) (ok : IsPlain file) where
  file-pieces : fgets_all line_room file ≡ pieces (segments file).0 (segments file).1
  unfolding IsPlain
  file-pieces =
      fgets_all-pieces line_room file (length-plain _ _ ok)
        (all_plain-tail (segments file).0 (segments file).1 ok)

  pub get_line_count-last :
      get_line_count file ≡ last_number 0 ((segments file).0 ∷ (segments file).1)
  unfolding get_line_count IsPlain
  get_line_count-last = ap (count_loop 0) file-pieces ∙ count_loop-pieces 0 _ _ ok

  pub nums_line_lem :
      (n : ℕ)
      → nums_line file n ≡ (
        listing n (segments file).0 (segments file).1,
        last_number n ((segments file).0 ∷ (segments file).1),
      )
  unfolding nums_line IsPlain
  nums_line_lem n = ap (nums_loop n) file-pieces ∙ nums_loop-pieces n _ _ ok
