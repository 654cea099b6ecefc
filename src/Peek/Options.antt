-- ===== src/Peek/Options.antt =====
-- The options and names of `peek`, in any order: `exec_peak` of c-shell/src/peek.c.
use c_shell.Base.{
  ◌>>=◌, ℕ, suc, ◌+◌, ◌≤◌, ◌<◌, ◌≡◌, refl, subst, ap, ◌∙◌, Bool, true, false, not, ◌&&◌, ◌||◌, List,
  [], ◌∷◌, ◌++◌, append_assoc, append-nil, length, length-append, leb, ◌==◌, if◌then◌else◌, Option,
  some, none, Bytes, Bool-cases, inl, inr, str_eq, codes, arith,
}
use c_shell.Lexer.{Token}
use c_shell.Peek.{Item, chars}
use c_shell.Peek.Files.{
  Node, Options, letters, copied, parsed, max_files, starts_dash, behind_first, options_loop,
  files_loop, no_options, exec_peak,
}

unfoldable pub has : ℕ → Bytes → Bool
has c [] = false
has c (x ∷ xs) = (x == c) || has c xs

-- Only the letters n and r.
unfoldable pub only_known : Bytes → Bool
only_known [] = true
only_known (c ∷ cs) = ((c == b'n') || (c == b'r')) && only_known cs

-- A word of options has a letter behind its `-`, and only known ones.
abbrev pub is_option : Bytes → Bool
is_option [] = false
is_option (d ∷ []) = false
is_option (d ∷ c ∷ cs) = (d == b'-') && only_known (c ∷ cs)

abbrev pub is_name : Bytes → Bool
is_name v = not (starts_dash v)

unfoldable pub all_proper : List Token → Bool
all_proper [] = true
all_proper (t ∷ ts) = (is_name t.value || is_option t.value) && all_proper ts

-- Whether some option has the letter.
unfoldable pub chosen : ℕ → List Token → Bool
chosen c [] = false
chosen c (t ∷ ts) = (starts_dash t.value && has c (behind_first t.value)) || chosen c ts

unfoldable pub names : List Token → List Bytes
names [] = []
names (t ∷ ts) = if starts_dash t.value then names ts else t.value ∷ names ts

abbrev with_letters : Bytes → Options → Options
with_letters cs o = record o {
  show_nums = o.show_nums || has b'n' cs;
  rever = o.rever || has b'r' cs;
}

letters-known :
    (cs : Bytes) (o : Options) → only_known cs ≡ true → letters cs o ≡ some (with_letters cs o)
unfolding letters only_known has
letters-known [] o h = ground arith
letters-known (c ∷ cs) o h = ground (
  arith,
  h,
  letters-known cs record o { show_nums = true },
  letters-known cs record o { rever = true },
)

abbrev with_words : List Token → Options → Options
with_words ts o = record {
  show_nums = o.show_nums || chosen b'n' ts;
  rever = o.rever || chosen b'r' ts;
  files = o.files ++ names ts;
}

-- One token, as `options_loop` takes it.
not_copying-option : (v : Bytes) → is_option v ≡ true → str_eq v (codes "-") ≡ false
unfolding str_eq
not_copying-option [] h = cc
not_copying-option (d ∷ []) h = cc
not_copying-option (d ∷ c ∷ cs) h = ground arith

not_copying-name : (v : Bytes) → starts_dash v ≡ false → str_eq v (codes "-") ≡ false
unfolding str_eq
not_copying-name [] h = refl
not_copying-name (d ∷ ds) h = ground (arith, h)

known-option : (v : Bytes) → is_option v ≡ true → only_known (behind_first v) ≡ true
known-option [] h = cc
known-option (d ∷ []) h = cc
known-option (d ∷ c ∷ cs) h = ground (arith, h)

options_loop-name :
    (t : Token) (ts : List Token) (o : Options) (stdin : List Bytes) (out : List Item)
    → starts_dash t.value ≡ false
    → length o.files < max_files
    → options_loop (t ∷ ts) o stdin out
      ≡ options_loop ts record o { files = o.files ++ t.value ∷ [] } stdin out
unfolding options_loop
options_loop-name t ts o stdin out h few =
    let room : leb max_files (length o.files) ≡ false = ground (arith, few) in
    rw (not_copying-name t.value h, h, room) refl

options_loop-option :
    (t : Token) (ts : List Token) (o : Options) (stdin : List Bytes) (out : List Item)
    → starts_dash t.value ≡ true
    → is_option t.value ≡ true
    → options_loop (t ∷ ts) o stdin out
      ≡ options_loop ts (with_letters (behind_first t.value) o) stdin out
unfolding options_loop
options_loop-option t ts o stdin out h known =
    rw
      (
        not_copying-option t.value known,
        h,
        letters-known (behind_first t.value) o (known-option t.value known),
      )
      refl

or_assoc : (a b c : Bool) → ((a || b) || c) ≡ (a || (b || c))
or_assoc a b c = ground arith

with_words-nil : (o : Options) → o ≡ with_words [] o
unfolding chosen names
with_words-nil o = rw (append-nil o.files) ground arith

with_words-option :
    (t : Token) (ts : List Token) (o : Options)
    → starts_dash t.value ≡ true
    → with_words ts (with_letters (behind_first t.value) o) ≡ with_words (t ∷ ts) o
unfolding chosen names
with_words-option t ts o dash =
    rw
      (
        dash,
        or_assoc o.show_nums (has b'n' (behind_first t.value)) (chosen b'n' ts),
        or_assoc o.rever (has b'r' (behind_first t.value)) (chosen b'r' ts),
      )
      refl

with_words-name :
    (t : Token) (ts : List Token) (o : Options)
    → starts_dash t.value ≡ false
    → with_words ts record o { files = o.files ++ t.value ∷ [] } ≡ with_words (t ∷ ts) o
unfolding chosen names
with_words-name t ts o name = rw (name, append_assoc o.files (t.value ∷ []) (names ts)) refl

names-option :
    (t : Token) (ts : List Token) → starts_dash t.value ≡ true → names (t ∷ ts) ≡ names ts
unfolding names
names-option t ts dash = rw dash refl

names-name :
    (t : Token) (ts : List Token)
    → starts_dash t.value ≡ false
    → names (t ∷ ts) ≡ t.value ∷ names ts
unfolding names
names-name t ts name = rw name refl

more_names :
    (files : List Bytes) (v : Bytes) (n : ℕ)
    → length files + suc n ≤ max_files
    → length (files ++ v ∷ []) + n ≤ max_files
more_names files v n h = omega (arith, h, length-append files (v ∷ []))

options_loop-nil :
    (o : Options) (stdin : List Bytes) (out : List Item)
    → options_loop [] o stdin out ≡ (out, parsed o stdin)
unfolding options_loop
options_loop-nil o stdin out = refl

options_loop-words :
    (ts : List Token) (o : Options) (stdin : List Bytes) (out : List Item)
    → all_proper ts ≡ true
    → length o.files + length (names ts) ≤ max_files
    → options_loop ts o stdin out ≡ (out, parsed (with_words ts o) stdin)
unfolding all_proper
options_loop-words [] o stdin out h few =
    options_loop-nil o stdin out ∙ ap (λ p. (out, parsed p stdin)) (with_words-nil o)
options_loop-words (t ∷ ts) o stdin out h few =
    let rest : all_proper ts ≡ true = ground (arith, h) in
    elim (Bool-cases (starts_dash t.value)) [
      | inl dash ↦
          let known : is_option t.value ≡ true = ground (arith, h, dash) in
          let o' = with_letters (behind_first t.value) o in
          options_loop-option t ts o stdin out dash known
          ∙ options_loop-words ts o' stdin out rest
              (subst (λ vs. length o.files + length vs ≤ max_files) (names-option t ts dash) few)
          ∙ ap (λ p. (out, parsed p stdin)) (with_words-option t ts o dash)
      | inr name ↦
          let bound : length o.files + suc (length (names ts)) ≤ max_files =
            subst (λ vs. length o.files + length vs ≤ max_files) (names-name t ts name) few in
          let o' = record o { files = o.files ++ t.value ∷ [] } in
          options_loop-name t ts o stdin out name (omega (arith, bound))
          ∙ options_loop-words ts o' stdin out rest (more_names o.files t.value _ bound)
          ∙ ap (λ p. (out, parsed p stdin)) (with_words-name t ts o name)
    ]

nothing_before :
    (vs : List Bytes) (copy : List Item) (shown : Option (List Item))
    → elim vs [ [] ↦ some copy | f ∷ fs ↦ shown >>= λ rest. some ([] ++ rest) ]
      ≡ elim vs [ [] ↦ some copy | f ∷ fs ↦ shown ]
nothing_before [] copy shown = refl
nothing_before (f ∷ fs) copy none = refl
nothing_before (f ∷ fs) copy (some rest) = refl

-- Words that are options of the letters n and r or names without a `-` in front, at most 100 of them
-- names, may stand in any order: without a name `peek` copies its input, else it shows the files named
-- in their order, with numbers if some option has an n, and backward if some option has an r.
pub exec_peak_lem :
    (node : Bytes → Node) (stdin : List Bytes) (ts : List Token)
    → all_proper ts ≡ true
    → length (names ts) ≤ max_files
    → exec_peak node stdin ts ≡ elim (names ts) [
      | [] ↦ some (chars (copied stdin))
      | f ∷ fs ↦
          files_loop node
            record { show_nums = chosen b'n' ts; rever = chosen b'r' ts; files = names ts }
            (names ts)
            0
    ]
unfolding exec_peak
exec_peak_lem node stdin ts h few =
    rw (options_loop-words ts no_options stdin [] h (omega (arith, few)))
      (nothing_before (names ts) _ _)
