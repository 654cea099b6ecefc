-- ===== src/Reveal/Listing.antt =====
-- What `reveal` lists of one directory: c-shell/src/reveal.c.
use c_shell.Base.{
  ℕ, ◌≡◌, refl, ap, sym, subst, if◌then◌else◌, Bool, true, false, List, [], ◌∷◌, ◌++◌, Option, some,
  none, ◌==◌, Bytes, str_eq, codes, Bool-cases, Option-cases, inl, inr, arith,
}
use mathlib.Core.List.{Perm}
use c_shell.Lexer.{Token}
use c_shell.Hop.{Shell}
use c_shell.Sorting.{IsSorted, qsort, qsort-Perm, qsort-IsSorted, str_le-total, str_le-transitive}
use c_shell.Reveal.{
  Directories, compare_names, is_hidden, kept, sorted, skips, Request, letters, first_path,
  reveal_token, parse_reveal, no_request, path_or_dot, reveal_path, resolved, resolve_path, lines,
  exec_reveal,
}

-- The name begins with a dot.
abbrev pub Dotted : Bytes → Type 0
Dotted e = (cs : Bytes) × (e ≡ codes "." ++ cs)

-- `ls` has those of the names, in their order, that do not begin with a dot.
pub data Undotted : List Bytes → List Bytes → Type 0 where
  none_left : Undotted [] []
  out : {e : Bytes} {es ls : List Bytes} → Dotted e → Undotted es ls → Undotted (e ∷ es) ls
  stays :
      {e : Bytes} {es ls : List Bytes}
      → (Dotted e → ⊥)
      → Undotted es ls
      → Undotted (e ∷ es) (e ∷ ls)

-- All names, or those without a dot in front.
abbrev pub Wanted : Bool → List Bytes → List Bytes → Type 0
Wanted true es ls = ls ≡ es
Wanted false es ls = Undotted es ls

pub hidden-Dotted : (e : Bytes) → is_hidden e ≡ true → Dotted e
hidden-Dotted [] h = absurd (cc)
hidden-Dotted (c ∷ cs) h = let dot : c ≡ b'.' = ground (arith, h) in (cs, rw dot refl)

pub shown-Dotted : (e : Bytes) → is_hidden e ≡ false → Dotted e → ⊥
shown-Dotted e h (cs, dotted) = let shut : is_hidden e ≡ true = rw dotted refl in cc

kept-Wanted : (all : Bool) (es : List Bytes) → Wanted all es (kept (skips all) es)
unfolding kept
kept-Wanted true [] = refl
kept-Wanted true (e ∷ es) = ap (◌∷◌ e) (kept-Wanted true es)
kept-Wanted false [] = none_left
kept-Wanted false (e ∷ es) =
    let rest = kept (skips false) es in
    let keep : Bool → List Bytes = λ b. if b then rest else e ∷ rest in
    elim (Bool-cases (is_hidden e)) [
      | inl h ↦
          subst (λ b. Undotted (e ∷ es) (keep b)) (sym h)
            (out (hidden-Dotted e h) (kept-Wanted false es))
      | inr h ↦
          subst (λ b. Undotted (e ∷ es) (keep b)) (sym h)
            (stays (shown-Dotted e h) (kept-Wanted false es))
    ]

module _ (fs : Directories) (fuel : ℕ) (s : Shell) (ts : List Token) where
  -- When the tokens ask for no recursion and the path is a directory, `reveal` prints each of its names
  -- that does not begin with a dot, or each name when all are asked for, exactly as often as the
  -- directory has it, in ascending order.
  pub exec_reveal-names :
      (r : Request) (path : Bytes) (es : List Bytes)
      → parse_reveal ts no_request ≡ some r
      → r.recursive ≡ false
      → resolve_path s (path_or_dot r.path) ≡ some path
      → fs.opendir path ≡ some es
      → (ns : List Bytes) × (ls : List Bytes) × (exec_reveal fs fuel s ts ≡ lines (some ls))
        × Wanted r.show_all es ns
        × Perm ns ls
        × IsSorted compare_names ls
  unfolding exec_reveal resolved reveal_path sorted
  exec_reveal-names r path es given flat found opened =
      let ks = kept (skips r.show_all) es in
      (
        ks,
        qsort compare_names ks,
        rw (given, found, opened, flat) refl,
        kept-Wanted r.show_all es,
        qsort-Perm compare_names ks,
        qsort-IsSorted compare_names str_le-total str_le-transitive ks,
      )

-- The path that the tokens give is not `-`.
abbrev NoDash : Option Bytes → Type 0
NoDash none = Unit
NoDash (some p) = str_eq p (codes "-") ≡ false

abbrev NoDashes : Option Request → Type 0
NoDashes none = Unit
NoDashes (some r) = NoDash r.path

letters-NoDashes : (cs : Bytes) (r : Request) → NoDash r.path → NoDashes (letters cs r)
unfolding letters
letters-NoDashes [] r h = h
letters-NoDashes (c ∷ cs) r h = elim (Bool-cases (c == b'a')) [
  | inl e ↦ rw e (letters-NoDashes cs record r { show_all = true } h)
  | inr e ↦ elim (Bool-cases (c == b't')) [
    | inl e' ↦ rw (e, e') (letters-NoDashes cs record r { recursive = true } h)
    | inr e' ↦ rw (e, e') tt
  ]
]

first_path-NoDashes :
    (v : Bytes) (r : Request) → str_eq v (codes "-") ≡ false → NoDashes (first_path v r)
first_path-NoDashes v r h = elim (Option-cases r.path) [ inl e ↦ rw e h | inr (p, e) ↦ rw e tt ]

reveal_token-NoDashes : (v : Bytes) (r : Request) → NoDash r.path → NoDashes (reveal_token v r)
unfolding reveal_token str_eq
reveal_token-NoDashes [] r h = first_path-NoDashes [] r refl
reveal_token-NoDashes (c ∷ cs) r h = elim (Bool-cases (c == b'-')) [
  | inl e ↦ rw e (letters-NoDashes cs r h)
  | inr e ↦ rw e (first_path-NoDashes (c ∷ cs) r (rw e refl))
]

parse_reveal-NoDashes :
    (ts : List Token) (r : Request) → NoDash r.path → NoDashes (parse_reveal ts r)
unfolding parse_reveal
parse_reveal-NoDashes [] r h = h
parse_reveal-NoDashes (t ∷ ts) r h = elim (Option-cases (reveal_token t.value r)) [
  | inl e ↦ rw e tt
  | inr (r', e) ↦
      rw e (parse_reveal-NoDashes ts r' (subst NoDashes e (reveal_token-NoDashes t.value r h)))
]

resolve_path-NoDash :
    (s s' : Shell) (o : Option Bytes)
    → s.home_dir ≡ s'.home_dir
    → NoDash o
    → resolve_path s (path_or_dot o) ≡ resolve_path s' (path_or_dot o)
unfolding resolve_path str_eq
resolve_path-NoDash s s' none home h = refl
resolve_path-NoDash s s' (some p) home h = rw (h, home) refl

-- Whatever the arguments, what `reveal` does depends neither on the directory before nor on whether
-- there is one: `reveal -` lists the current directory.
previous_unused :
    (fs : Directories) (fuel : ℕ) (s : Shell) (prev : Bytes) (flag : Bool) (ts : List Token)
    → exec_reveal fs fuel record s { prev_dir = prev; prev_dir_flag = flag } ts
      ≡ exec_reveal fs fuel s ts
unfolding exec_reveal
previous_unused fs fuel s prev flag ts = elim (Option-cases (parse_reveal ts no_request)) [
  | inl e ↦ rw e refl
  | inr (r, e) ↦
      rw
        (
          e,
          resolve_path-NoDash record s { prev_dir = prev; prev_dir_flag = flag } s r.path refl
              (subst NoDashes e (parse_reveal-NoDashes ts no_request tt)),
        )
        refl
]
