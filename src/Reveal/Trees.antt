-- ===== src/Reveal/Trees.antt =====
-- What `reveal -t` lists of a tree of directories: c-shell/src/reveal.c.
use c_shell.Base.{
  ◌<◌, ◌⊎◌, ◌∙◌, take, codes, str_eq, str_eq_sound, Bool-cases, inl, inr, ℕ, zero, suc, ◌≤◌, ◌≡◌,
  refl, ap, Bool, true, false, List, [], ◌∷◌, ◌++◌, some, none, Bytes, leb, if◌then◌else◌, arith,
}
use c_shell.Reveal.{
  Directories, compare_names, is_hidden, is_dots, kept, sorted, skips_below, joined, displayed,
  entry_lines, reveal_entries, reveal_directory, Request, parse_reveal, no_request, path_or_dot,
  resolve_path, resolved, reveal_path, lines, exec_reveal,
}
use mathlib.Core.List.{Perm}
use mathlib.Core.List.Perm
use c_shell.Lexer.{Token}
use c_shell.Sorting.{
  IsSorted, IsSorted-unique, qsort, qsort-Perm, qsort-IsSorted, str_le-total, str_le-transitive,
  str_le-antisym,
}
use c_shell.Reveal.Listing.{Dotted, hidden-Dotted, shown-Dotted}
use c_shell.Hop.{Shell}

-- What stands under a name: nothing that `stat` finds, a file, a directory that does not open, or one
-- with the names that are listed, in their order.
mutual
  pub data Tree : Type 0 where
    broken plain closed : Tree
    branch : Forest → Tree

  pub data Forest : Type 0 where
    nil : Forest
    cons : Bytes → Tree → Forest → Forest

unfoldable pub names : Forest → List Bytes
names nil = []
names (cons n t f) = n ∷ names f

abbrev pub larger : ℕ → ℕ → ℕ
larger a b = if leb a b then b else a

unfoldable mutual
  pub height : Tree → ℕ
  height broken = 0
  height plain = 0
  height closed = 1
  height (branch f) = suc (heights f)

  pub heights : Forest → ℕ
  heights nil = 0
  heights (cons n t f) = larger (height t) (heights f)

-- The name below what is shown of its directory, in 4095 bytes.
abbrev pub below : Bytes → Bytes → Bytes
below [] name = take 4095 name
below (c ∷ cs) name = take 4095 ((c ∷ cs) ++ b'/' ∷ name)

displayed-below : (shown name : Bytes) → displayed shown name ≡ below shown name
unfolding displayed joined
displayed-below [] name = refl
displayed-below (c ∷ cs) name = refl

-- The listing: each directory before what stands in it.
unfoldable mutual
  pub walk : Bytes → Tree → List Bytes
  walk shown broken = []
  walk shown plain = shown ∷ []
  walk shown closed = (shown ++ b'/' ∷ []) ∷ []
  walk shown (branch f) = (shown ++ b'/' ∷ []) ∷ walks shown f

  pub walks : Bytes → Forest → List Bytes
  walks shown nil = []
  walks shown (cons n t f) = walk (below shown n) t ++ walks shown f

-- The entry stands for a directory that is listed already, or its parent.
abbrev pub Dots : Bytes → Type 0
Dots e = (e ≡ codes ".") ⊎ (e ≡ codes "..")

-- Left out of the tree: `.` and `..`, and unless all are asked for the names with a dot in front.
abbrev pub LeftOut : Bool → Bytes → Type 0
LeftOut true e = Dots e
LeftOut false e = Dotted e

-- `ns` has those of the entries, in their order, that are not left out.
pub data Kept (all : Bool) : List Bytes → List Bytes → Type 0 where
  none_left : Kept all [] []
  out : {e : Bytes} {es ns : List Bytes} → LeftOut all e → Kept all es ns → Kept all (e ∷ es) ns
  stays :
      {e : Bytes} {es ns : List Bytes}
      → (LeftOut all e → ⊥)
      → Kept all es ns
      → Kept all (e ∷ es) (e ∷ ns)

is_dots-Dots : (e : Bytes) → is_dots e ≡ true → Dots e
is_dots-Dots e h = elim (Bool-cases (str_eq e (codes "."))) [
  | inl one ↦ inl (str_eq_sound e (codes ".") one)
  | inr other ↦ inr (str_eq_sound e (codes "..") (ground (arith, h, other)))
]

Dots-is_dots : (e : Bytes) → Dots e → is_dots e ≡ true
unfolding str_eq
Dots-is_dots e (inl h) = rw h refl
Dots-is_dots e (inr h) = rw h refl

Dots-Dotted : (e : Bytes) → Dots e → Dotted e
Dots-Dotted e (inl h) = ([], h)
Dots-Dotted e (inr h) = (codes ".", h)

skips-LeftOut : (all : Bool) (e : Bytes) → skips_below all e ≡ true → LeftOut all e
skips-LeftOut true e h = is_dots-Dots e h
skips-LeftOut false e h = elim (Bool-cases (is_hidden e)) [
  | inl hidden ↦ hidden-Dotted e hidden
  | inr shown ↦ Dots-Dotted e (is_dots-Dots e (ground (arith, h, shown)))
]

keeps-LeftOut : (all : Bool) (e : Bytes) → skips_below all e ≡ false → LeftOut all e → ⊥
keeps-LeftOut true e h left = let is = Dots-is_dots e left in cc
keeps-LeftOut false e h left = shown-Dotted e (ground (arith, h)) left

skipped_if : {P : Type 0} (b : Bool) → (b ≡ false → P → ⊥) → P → b ≡ true
skipped_if true h p = refl
skipped_if false h p = absurd (h refl p)

kept_if : {P : Type 0} (b : Bool) → (b ≡ true → P) → (P → ⊥) → b ≡ false
kept_if true h n = absurd (n (h refl))
kept_if false h n = refl

Kept-unique : (all : Bool) (es ns : List Bytes) → Kept all es ns → kept (skips_below all) es ≡ ns
unfolding kept
Kept-unique all [] _ none_left = refl
Kept-unique all (e ∷ es) ns (out left rest) =
    let skip = skipped_if (skips_below all e) (keeps-LeftOut all e) left in
    rw skip (Kept-unique all es ns rest)
Kept-unique all (e ∷ es) (_ ∷ ns) (stays kept rest) =
    let keep = kept_if (skips_below all e) (skips-LeftOut all e) kept in
    rw keep (ap (◌∷◌ e) (Kept-unique all es ns rest))

module _ (fs : Directories) (all : Bool) where
  -- The directory opens, and the forest has its entries that are not left out, in ascending order.
  abbrev pub Listed : Bytes → Forest → Type 0
  Listed path f =
      (es : List Bytes) × (ns : List Bytes) × (fs.opendir path ≡ some es)
      × Kept all es ns
      × Perm ns (names f)
      × IsSorted compare_names (names f)

  Listed-sorted :
      (es ns ls : List Bytes)
      → Kept all es ns
      → Perm ns ls
      → IsSorted compare_names ls
      → sorted (skips_below all) es ≡ ls
  unfolding sorted
  Listed-sorted es ns ls keep perm order =
      let q = qsort compare_names ns in
      ap (qsort compare_names) (Kept-unique all es ns keep)
      ∙ IsSorted-unique compare_names str_le-total str_le-transitive str_le-antisym q ls
          (qsort-IsSorted compare_names str_le-total str_le-transitive ns) order
          (Perm.trans (Perm.symm (qsort-Perm compare_names ns)) perm)

  -- The tree stands at this path.
  unfoldable mutual
    pub Stands : Bytes → Tree → Type 0
    Stands path broken = fs.stat path ≡ none
    Stands path plain = fs.stat path ≡ some false
    Stands path closed = (fs.stat path ≡ some true) × (fs.opendir path ≡ none)
    Stands path (branch f) = (fs.stat path ≡ some true) × Listed path f × Members path f

    pub Members : Bytes → Forest → Type 0
    Members path nil = Unit
    Members path (cons n t f) = Stands (joined path n) t × Members path f

  reveal_directory-Listed :
      (fuel : ℕ) (path shown : Bytes) (f : Forest) (o : List Bytes)
      → Listed path f
      → reveal_entries fs (reveal_directory fs all fuel) path shown (names f) ≡ some o
      → reveal_directory fs all (suc fuel) path shown ≡ some o
  unfolding reveal_directory
  reveal_directory-Listed fuel path shown f o (es, ns, opened, keep, perm, order) h =
      rw (opened, Listed-sorted es ns (names f) keep perm order) h

  larger-left : (a b n : ℕ) → larger a b ≤ n → a ≤ n
  larger-left a b n h = ground (arith, h)

  larger-right : (a b n : ℕ) → larger a b ≤ n → b ≤ n
  larger-right a b n h = ground (arith, h)

  mutual
    unfolding entry_lines Stands walk height reveal_directory names reveal_entries

    entry_lines-Stands :
        (fuel : ℕ) (path shown : Bytes) (t : Tree)
        → Stands path t
        → height t ≤ fuel
        → entry_lines (reveal_directory fs all fuel) path shown (fs.stat path) ≡ some (walk shown t)
    entry_lines-Stands fuel path shown broken h low = rw h refl
    entry_lines-Stands fuel path shown plain h low = rw h refl
    entry_lines-Stands zero path shown closed h low = absurd (omega arith)
    entry_lines-Stands (suc fuel) path shown closed h low = rw (h.0, h.1) refl
    entry_lines-Stands zero path shown (branch f) h low = absurd (omega arith)
    entry_lines-Stands (suc fuel) path shown (branch f) h low =
        rw
          (
            h.0,
            reveal_directory-Listed fuel path shown f (walks shown f) h.1
                (reveal_entries-Members fuel path shown f h.2 (omega (arith, low))),
          )
          refl

    reveal_entries-Members :
        (fuel : ℕ) (path shown : Bytes) (f : Forest)
        → Members path f
        → heights f ≤ fuel
        → reveal_entries fs (reveal_directory fs all fuel) path shown (names f)
          ≡ some (walks shown f)
    reveal_entries-Members fuel path shown nil h low = refl
    reveal_entries-Members fuel path shown (cons n t f) h low =
        rw
          (
            displayed-below shown n,
            entry_lines-Stands fuel (joined path n) (below shown n) t h.0
                (larger-left (height t) (heights f) fuel low),
            reveal_entries-Members fuel path shown f h.1
                (larger-right (height t) (heights f) fuel low),
          )
          refl

  pub reveal_directory-walks :
      (fuel : ℕ) (path shown : Bytes) (f : Forest)
      → Listed path f
      → Members path f
      → heights f < fuel
      → reveal_directory fs all fuel path shown ≡ some (walks shown f)
  reveal_directory-walks zero path shown f listed members low = absurd (omega arith)
  reveal_directory-walks (suc fuel) path shown f listed members low =
      reveal_directory-Listed fuel path shown f (walks shown f) listed
        (reveal_entries-Members fuel path shown f members (omega (arith, low)))

module _ (fs : Directories) (fuel : ℕ) (s : Shell) (ts : List Token) where
  -- When the tokens ask for the recursion and the path is a directory with a tree below it of fewer
  -- levels than the fuel, `reveal` lists the whole tree without `.` and `..`, and without the names that
  -- begin with a dot unless all are asked for, each directory before what stands in it and the names of
  -- each in ascending order, and shows each with the path that was asked for in front, unless that is the
  -- current directory.
  pub exec_reveal-tree :
      (r : Request) (path : Bytes) (f : Forest)
      → parse_reveal ts no_request ≡ some r
      → r.recursive ≡ true
      → resolve_path s (path_or_dot r.path) ≡ some path
      → Listed fs r.show_all path f
      → Members fs r.show_all path f
      → heights f < fuel
      → exec_reveal fs fuel s ts
        ≡ lines (some (walks (if str_eq path (codes ".") then [] else path) f))
  unfolding exec_reveal resolved reveal_path
  exec_reveal-tree r path f given deep found listed members low =
      let walked = reveal_directory-walks fs r.show_all fuel path in
      rw (given, found, listed.2, deep)
        (elim (Bool-cases (str_eq path (codes "."))) [
          | inl e ↦ rw e (ap lines (walked [] f listed members low))
          | inr e ↦ rw e (ap lines (walked path f listed members low))
        ])
