-- ===== src/Locate/Found.antt =====
-- Which paths `locate` of c-shell/src/locate.c prints, and the one that a command would start.
use c_shell.Base.{
  ℕ, zero, suc, ◌+◌, ◌≤◌, ◌<◌, ◌≡◌, refl, sym, ap, ◌∙◌, Bool, true, false, ◌&&◌, List, [], ◌∷◌,
  ◌++◌, map, append_assoc, Option, some, none, ◌==◌, leb, ltb, length, length-append, if◌then◌else◌,
  Bytes, Bool-cases, inl, inr, take, arith,
}
use c_shell.Lexer.{Token}
use c_shell.Command.Resolve.{
  System, path_max, print_path, strtok_fields, is_executable, search_dirs, find_path,
}
use c_shell.Locate.{
  Line, found, not_found, is_absolute, reported, search_current_directory, search_relative,
  search_dir, path_loop, search_fields, search_path, report, printed, locate_loop, exec_locate,
}

-- The directory that a field of PATH names.
abbrev pub place : Bytes → Bytes → Bytes
place cwd dir = if is_absolute dir then dir else cwd ++ b'/' ∷ dir

abbrev pub under : Bytes → Bytes → Bytes
under filename dir = dir ++ b'/' ∷ filename

-- The candidates, the current directory's first.
abbrev pub candidates : Bytes → List Bytes → Bytes → List Bytes
candidates cwd fields filename = map (under filename) (cwd ∷ map (place cwd) fields)

-- Every directory is absolute and leaves room for the name.
unfoldable pub AllAbsolute : Bytes → List Bytes → Type 0
AllAbsolute filename [] = Unit
AllAbsolute filename (dir ∷ dirs) =
    (is_absolute dir ≡ true) × (length (under filename dir) < 4095) × AllAbsolute filename dirs

abbrev pub first : List Bytes → Option Bytes
first [] = none
first (p ∷ ps) = some p

take-short : (n : ℕ) (bs : Bytes) → length bs ≤ n → take n bs ≡ bs
take-short zero [] h = refl
take-short zero (b ∷ bs) h = absurd (omega arith)
take-short (suc n) [] h = refl
take-short (suc n) (b ∷ bs) h = ap (◌∷◌ b) (take-short n bs (omega (arith, h)))

module _ (sys : System) where
  -- The path is shorter than 4095 bytes and can be executed.
  abbrev pub eligible : Bytes → Bool
  eligible p = ltb (length p) 4095 && is_executable sys p

  unfoldable pub select : List Bytes → List Bytes
  select [] = []
  select (p ∷ ps) = let rest = select ps in if eligible p then p ∷ rest else rest

  reported-selected :
      (p : Bytes) (n : ℕ)
      → n ≡ suc (length p)
      → (if leb path_max n then [] else reported sys p) ≡ select (p ∷ [])
  unfolding reported select
  reported-selected p n e = ground (arith, e)

  length-under :
      (filename dir : Bytes) → length dir + length filename + 2 ≡ suc (length (under filename dir))
  length-under filename dir = omega (arith, length-append dir (b'/' ∷ filename))

  search_current-selected :
      (cwd filename : Bytes)
      → search_current_directory sys (some cwd) filename ≡ select (under filename cwd ∷ [])
  unfolding search_current_directory
  search_current-selected cwd filename =
      reported-selected (under filename cwd) (length cwd + length filename + 2)
        (length-under filename cwd)

  length-below :
      (cwd dir filename : Bytes)
      → length cwd + length dir + length filename + 3
        ≡ suc (length (under filename (cwd ++ b'/' ∷ dir)))
  length-below cwd dir filename =
      omega
        (arith, length-append (cwd ++ b'/' ∷ dir) (b'/' ∷ filename), length-append cwd (b'/' ∷ dir))

  search_dir-selected :
      (cwd filename dir : Bytes)
      → search_dir sys (some cwd) filename dir ≡ select (under filename (place cwd dir) ∷ [])
  unfolding search_dir search_relative
  search_dir-selected cwd filename dir = elim (Bool-cases (is_absolute dir)) [
    | inl e ↦ rw e (reported-selected (under filename dir) _ (length-under filename dir))
    | inr e ↦ rw e (
        ap
          (λ p.
            if leb path_max (length cwd + length dir + length filename + 3)
            then []
            else reported sys p)
          (sym (append_assoc cwd (b'/' ∷ dir) (b'/' ∷ filename)))
        ∙ reported-selected (under filename (cwd ++ b'/' ∷ dir)) _ (length-below cwd dir filename))
  ]

  select-append : (p : Bytes) (ps : List Bytes) → select (p ∷ []) ++ select ps ≡ select (p ∷ ps)
  unfolding select
  select-append p ps = elim (Bool-cases (eligible p)) [ inl e ↦ rw e refl | inr e ↦ rw e refl ]

  path_loop-selected :
      (cwd filename : Bytes) (fields : List Bytes)
      → path_loop sys (some cwd) filename fields
        ≡ select (map (under filename) (map (place cwd) fields))
  unfolding path_loop select
  path_loop-selected cwd filename [] = refl
  path_loop-selected cwd filename (dir ∷ dirs) =
      rw (search_dir-selected cwd filename dir, path_loop-selected cwd filename dirs)
        (select-append (under filename (place cwd dir))
          (map (under filename) (map (place cwd) dirs)))

  -- The lines for each name: its paths, or the one line that there is none.
  unfoldable pub located : Bytes → List Bytes → List Token → List Line
  located cwd fields [] = []
  located cwd fields (t ∷ ts) =
      let ps = select (candidates cwd fields t.value) in
      (if length ps == 0 then not_found t.value ∷ [] else map found ps) ++ located cwd fields ts

  report-lines :
      (cwd : Option Bytes) (name : Bytes) (ps : List Bytes)
      → report sys cwd name ps ≡ (if length ps == 0 then not_found name ∷ [] else map found ps)
  report-lines cwd name [] = refl
  report-lines cwd name (p ∷ ps) =
      let some_found : (length (p ∷ ps) == 0) ≡ false = ground arith in rw some_found refl

  search_fields-selected :
      (cwd path filename : Bytes)
      → length path < path_max
      → search_fields sys (some cwd) filename (some path)
        ≡ some (select (map (under filename) (map (place cwd) (strtok_fields [] path))))
  unfolding search_fields
  search_fields-selected cwd path filename short =
      let fits : leb path_max (length path) ≡ false = ground (arith, short) in
      rw (fits, path_loop-selected cwd filename (strtok_fields [] path)) refl

  locate_loop-located :
      (cwd path : Bytes) (ts : List Token)
      → sys.path_var ≡ some path
      → length path < path_max
      → locate_loop sys (some cwd) ts ≡ some (located cwd (strtok_fields [] path) ts)
  unfolding locate_loop search_path located select
  locate_loop-located cwd path [] set short = refl
  locate_loop-located cwd path (t ∷ ts) set short =
      let ps = map (under t.value) (map (place cwd) (strtok_fields [] path)) in
      rw
        (
          set,
          search_fields-selected cwd path t.value short,
          locate_loop-located cwd path ts set short,
          search_current-selected cwd t.value,
          select-append (under t.value cwd) ps,
          report-lines (some cwd) t.value (select (under t.value cwd ∷ ps)),
        )
        refl

  -- With a current directory and a PATH of fewer than 4096 bytes, `locate` prints for each name the
  -- paths under the current directory and then under the directories of PATH, in order, that are
  -- shorter than 4095 bytes and can be executed, a directory that is not absolute being taken below the
  -- current one; a name without such a path is reported as not found.
  pub exec_locate-located :
      (cwd path : Bytes) (t : Token) (ts : List Token)
      → sys.path_var ≡ some path
      → length path < path_max
      → exec_locate sys (some cwd) (t ∷ ts)
        ≡ printed (some (located cwd (strtok_fields [] path) (t ∷ ts)))
  unfolding exec_locate
  exec_locate-located cwd path t ts set short =
      ap printed (locate_loop-located cwd path (t ∷ ts) set short)

  search_dirs-first :
      (cwd filename : Bytes) (dirs : List Bytes)
      → AllAbsolute filename dirs
      → search_dirs sys filename dirs ≡ first (select (map (under filename) (map (place cwd) dirs)))
  unfolding search_dirs select AllAbsolute
  search_dirs-first cwd filename [] h = refl
  search_dirs-first cwd filename (dir ∷ dirs) h =
      let whole : print_path (under filename dir) ≡ under filename dir =
        take-short 4095 (under filename dir) (omega (arith, h.1)) in
      let short : ltb (length (under filename dir)) 4095 ≡ true = ground (arith, h.1) in
      rw (whole, h.0, short)
        (elim (Bool-cases (is_executable sys (under filename dir))) [
          | inl e ↦ rw e refl
          | inr e ↦ rw e (search_dirs-first cwd filename dirs h.2)
        ])

  -- When the directories of a PATH of fewer than 4096 bytes are absolute and leave room for the name,
  -- `find_path`, which a command's name is looked up with, gives the first of the paths that `locate`
  -- finds on PATH, and fails exactly if it finds none.
  pub find_path-search_path :
      (cwd path filename : Bytes)
      → sys.path_var ≡ some path
      → length path < path_max
      → AllAbsolute filename (strtok_fields [] path)
      → (ps : List Bytes) × (search_path sys (some cwd) filename ≡ some ps)
        × (find_path sys filename ≡ first ps)
  unfolding find_path search_path select
  find_path-search_path cwd path filename set short absolute = (
    select (map (under filename) (map (place cwd) (strtok_fields [] path))),
    rw set (search_fields-selected cwd path filename short),
    rw set (search_dirs-first cwd filename (strtok_fields [] path) absolute),
  )
