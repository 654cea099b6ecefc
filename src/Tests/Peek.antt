-- ===== src/Tests/Peek.antt =====
-- `peek` on small files.
use c_shell.Base.{◌≡◌, refl, ◌++◌, List, [], ◌∷◌, some, Bytes, if◌then◌else◌, str_eq, codes}
use c_shell.Lexer.{Token}
use c_shell.Ping.Targets.{text}
use c_shell.Peek.{num, chars, nums_line, get_line_count, reverse_file, reverse_with_nums}
use c_shell.Peek.Files.{Node, missing, regular, exec_peak}
use c_shell.Peek.Segments.{segments, all_fit, backward, first_line, reverse_file_lem}
use c_shell.Peek.Pieces.{
  IsPlain, all_plain, no_nul, listing, last_number, backward_listing, first_listed, next,
}
use c_shell.Peek.Numbered.{numbered_both_ways}
use c_shell.Numbers.{pos}

abbrev notes : Bytes
notes = codes "first\n\nthird\n"

abbrev node : Bytes → Node
node name = if str_eq name (codes "notes") then regular notes else missing

abbrev words : List Token
words = text (codes "notes") ∷ text (codes "-n") ∷ text (codes "missing") ∷ text (codes "-r") ∷ []

peek_runs :
    exec_peak node [] words
    ≡ some (
        chars (codes "\n")
        ++ (num (pos 2) ∷ chars (codes "third\n\n")
            ++ (num (pos 1) ∷ chars (codes "first\npeek: no such file or directory\n"))))
unfolding exec_peak str_eq
peek_runs = refl

notes-IsPlain : IsPlain notes
unfolding IsPlain all_plain no_nul segments
notes-IsPlain = refl

reverse_file_lem_example :
    reverse_file notes ≡ some (backward (segments notes).1 ++ first_line (segments notes).0)
unfolding segments all_fit
reverse_file_lem_example = reverse_file_lem notes

numbered_both_ways_example :
    (nums_line notes 4 ≡ (
      listing 4 (segments notes).0 (segments notes).1,
      last_number 4 ((segments notes).0 ∷ (segments notes).1),
    ))
    × (reverse_with_nums notes (get_line_count notes)
        ≡ backward_listing (next 0 (segments notes).0) (segments notes).1
          ++ first_listed (segments notes).0)
numbered_both_ways_example = numbered_both_ways notes 4 notes-IsPlain
