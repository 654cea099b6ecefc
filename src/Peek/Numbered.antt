-- ===== src/Peek/Numbered.antt =====
-- The numbers that `peek -rn` prints: `get_line_count` and `reverse_with_nums` of c-shell/src/peek.c.
use c_shell.Base.{
  ℕ, ◌<◌, ◌≡◌, refl, sym, ap, ◌∙◌, true, false, List, [], ◌∷◌, ◌++◌, reverse, append-nil, length,
  ◌==◌, Bytes, Bool-cases, inl, inr, arith,
}
use c_shell.Numbers.{pos}
use c_shell.Peek.{
  Item, all_blank, line_room, get_line_count, nums_line, with_newline, NumberedScan, print_numbered,
  numbered_byte, numbered_bytes, last_numbered, reverse_with_nums,
}
use c_shell.Peek.Backward.{numbered_loop_lem, numbered_bytes-snoc, take-all}
use c_shell.Peek.Segments.{segments}
use c_shell.Peek.Pieces.{
  mark, next, last_number, listing, backward_listing, first_listed, all_plain, IsPlain,
  all_plain-tail, all_plain-shorter, length-plain, get_line_count-last, nums_line_lem,
}

print_numbered-next :
    (n : ℕ) (s : Bytes) (o : List Item)
    → print_numbered record { line = s; line_number = pos (next n s); out = o }
      ≡ record { line = []; line_number = pos n; out = o ++ (mark n s ++ with_newline s) }
unfolding print_numbered
print_numbered-next n s o = elim (Bool-cases (all_blank s)) [
  | inl e ↦ rw e refl
  | inr e ↦ rw e refl
]

numbered_byte-newline :
    (b n : ℕ) (s : Bytes) (ss : List Bytes)
    → (b == b'\n') ≡ true
    → numbered_byte b
        record { line = s; line_number = pos (next n s); out = backward_listing (next n s) ss }
      ≡ record { line = []; line_number = pos n; out = backward_listing n (s ∷ ss) }
unfolding numbered_byte backward_listing
numbered_byte-newline b n s ss newline =
    rw newline (print_numbered-next n s (backward_listing (next n s) ss))

numbered_byte-other :
    (b : ℕ) (s : NumberedScan)
    → (b == b'\n') ≡ false
    → length s.line < line_room
    → numbered_byte b s ≡ record s { line = b ∷ s.line }
unfolding numbered_byte
numbered_byte-other b s other h = rw other ground (arith, h)

-- The backward pass, over a file with `last_number n ss` lines in all that have a number.
numbered_bytes-listing :
    (n : ℕ) (file : Bytes)
    → all_plain ((segments file).0 ∷ (segments file).1) ≡ true
    → numbered_bytes
        (reverse file)
        record { line = []; line_number = pos (last_number n (segments file).1); out = [] }
      ≡ record {
        line = (segments file).0;
        line_number = pos n;
        out = backward_listing n (segments file).1;
      }
unfolding numbered_bytes segments last_number backward_listing
numbered_bytes-listing n [] = λ h. refl
numbered_bytes-listing n (b ∷ bs) = elim (Bool-cases (b == b'\n')) [
  | inl newline ↦ rw newline (λ h.
      numbered_bytes-snoc (reverse bs) b _
      ∙ ap (numbered_byte b)
          (numbered_bytes-listing (next n (segments bs).0) bs (all_plain-tail [] _ h))
      ∙ numbered_byte-newline b n (segments bs).0 (segments bs).1 newline)
  | inr other ↦ rw other (λ h.
      numbered_bytes-snoc (reverse bs) b _
      ∙ ap (numbered_byte b) (numbered_bytes-listing n bs (all_plain-shorter b _ _ h))
      ∙ numbered_byte-other b _ other (length-plain _ _ (all_plain-shorter b _ _ h)))
]

module _ (file : Bytes) (ok : IsPlain file) where
  last_numbered-first :
      (s : Bytes) (o : List Item)
      → last_numbered record { line = s; line_number = pos (next 0 s); out = o }
        ≡ o ++ first_listed s
  unfolding last_numbered
  last_numbered-first [] o = sym (append-nil o)
  last_numbered-first (b ∷ bs) o = ap (λ s. s.out) (print_numbered-next 0 (b ∷ bs) o)

  abbrev at_end : List Bytes → NumberedScan
  at_end ss = record {
    line = [];
    line_number = pos (last_number (next 0 (segments file).0) ss);
    out = [];
  }

  backward_lem :
      reverse_with_nums file (get_line_count file)
      ≡ backward_listing (next 0 (segments file).0) (segments file).1
        ++ first_listed (segments file).0
  unfolding reverse_with_nums last_number IsPlain
  backward_lem =
      let s = (segments file).0 in
      let ss = (segments file).1 in
      rw get_line_count-last (
        ap last_numbered (
          numbered_loop_lem (length file) file (length file) _ (omega arith)
          ∙ ap (λ bs. numbered_bytes (reverse bs) (at_end ss)) (take-all file)
          ∙ numbered_bytes-listing (next 0 s) file ok)
        ∙ last_numbered-first s (backward_listing (next 0 s) ss))

-- For a file whose lines are shorter than 1023 bytes and without a NUL, `nums_line` prints each line
-- that is not blank behind its number, counted on from the number given, and `reverse_with_nums`,
-- after `get_line_count`, prints the same lines backward, each with the number that `nums_line` gives
-- it when it counts from 0, and leaves out an empty first line.
pub numbered_both_ways :
    (file : Bytes) (n : ℕ)
    → IsPlain file
    → (nums_line file n ≡ (
      listing n (segments file).0 (segments file).1,
      last_number n ((segments file).0 ∷ (segments file).1),
    ))
      × (reverse_with_nums file (get_line_count file)
          ≡ backward_listing (next 0 (segments file).0) (segments file).1
            ++ first_listed (segments file).0)
numbered_both_ways file n ok = (nums_line_lem file ok n, backward_lem file ok)
