-- ===== src/Spawn/Copying.antt =====
-- The copying processes of `setup_input` and `start_output_copier` in c-shell/src/command.c at work.
use c_shell.Base.{
  ℕ, zero, suc, false, ◌+◌, ◌*◌, ◌≤◌, ◌≡◌, refl, sym, ap, ◌∙◌, List, [], ◌∷◌, ◌++◌, append_assoc,
  append-nil, take, drop, map, Option, some, none, length, length-append, ◌==◌, if◌then◌else◌,
  ◌>>=◌, Bytes, arith,
}
use c_shell.Jobs.Invariant.{All}

-- The loop of `write` over a buffer: each answer is how many bytes it takes, where 0 stands for a
-- failure and the process ends. What is written so far, and the answers left.
unfoldable pub write_loop : List ℕ → Bytes → Bytes → Option (Bytes × List ℕ)
write_loop as_ file [] = some (file, as_)
write_loop [] file (b ∷ bs) = none
write_loop (a ∷ as_) file (b ∷ bs) =
    let rest = write_loop as_ (file ++ take a (b ∷ bs)) (drop a (b ∷ bs)) in
    if a == 0 then none else rest

-- A buffer that is read, written to each output file.
unfoldable pub copy_buffer : List ℕ → Bytes → List Bytes → Option (List Bytes × List ℕ)
unfolding write_loop
copy_buffer as_ buffer [] = some ([], as_)
copy_buffer as_ buffer (f ∷ fs) = do
  w ← write_loop as_ f buffer
  rest ← copy_buffer w.1 buffer fs
  some (w.0 ∷ rest.0, rest.1)

-- The buffers that are read from the output pipe up to its end.
unfoldable pub copy_output : List ℕ → List Bytes → List Bytes → Option (List Bytes × List ℕ)
unfolding copy_buffer
copy_output as_ [] files = some (files, as_)
copy_output as_ (b ∷ bs) files = do r ← copy_buffer as_ b files; copy_output r.1 bs r.0

-- The buffers that are read from one input file, written into the pipe.
unfoldable pub feed_file : List ℕ → Bytes → List Bytes → Option (Bytes × List ℕ)
unfolding write_loop
feed_file as_ pipe [] = some (pipe, as_)
feed_file as_ pipe (b ∷ bs) = do w ← write_loop as_ pipe b; feed_file w.1 w.0 bs

-- The input files, each as the buffers that are read from it, in order.
unfoldable pub feed_input : List ℕ → Bytes → List (List Bytes) → Option (Bytes × List ℕ)
unfolding feed_file
feed_input as_ pipe [] = some (pipe, as_)
feed_input as_ pipe (f ∷ fs) = do w ← feed_file as_ pipe f; feed_input w.1 w.0 fs

unfoldable pub concat : List Bytes → Bytes
concat [] = []
concat (b ∷ bs) = b ++ concat bs

-- A write that takes something.
abbrev pub Takes : ℕ → Type 0
Takes a = 1 ≤ a

take-drop : (n : ℕ) (bs : Bytes) → take n bs ++ drop n bs ≡ bs
take-drop zero bs = refl
take-drop (suc n) [] = refl
take-drop (suc n) (b ∷ bs) = ap (◌∷◌ b) (take-drop n bs)

length-drop-le : (n : ℕ) (bs : Bytes) → length (drop n bs) ≤ length bs
length-drop-le zero bs = omega arith
length-drop-le (suc n) [] = omega arith
length-drop-le (suc n) (b ∷ bs) = omega (arith, length-drop-le n bs)

-- The result is this one, with answers left that take something, no more than `used` fewer.
abbrev pub Writes : {A : Type 0} → ℕ → List ℕ → A → Option (A × List ℕ) → Type 0
Writes used as_ a r =
    (left : List ℕ) × (r ≡ some (a, left)) × All Takes left × (length as_ ≤ length left + used)

write_loop-Writes :
    (as_ : List ℕ) (file bs : Bytes)
    → All Takes as_
    → length bs ≤ length as_
    → Writes (length bs) as_ (file ++ bs) (write_loop as_ file bs)
unfolding write_loop
write_loop-Writes as_ file [] all h =
    (as_, ap (λ f. some (f, as_)) (sym (append-nil file)), all, omega arith)
write_loop-Writes [] file (b ∷ bs) all h = absurd (omega (arith, h))
write_loop-Writes (zero ∷ as_) file (b ∷ bs) all h = absurd (omega (arith, all.0))
write_loop-Writes (suc a ∷ as_) file (b ∷ bs) all h =
    let (left, e, all', few) =
      write_loop-Writes as_ (file ++ take (suc a) (b ∷ bs)) (drop (suc a) (b ∷ bs)) all.1
        (omega (arith, h, length-drop-le a bs)) in
    let some_ : (suc a == 0) ≡ false = ground arith in
    (
      left,
      rw some_ (
          e
          ∙ ap (λ f. some (f, left))
              (append_assoc file (take (suc a) (b ∷ bs)) (drop (suc a) (b ∷ bs))
                ∙ ap (λ t. file ++ t) (take-drop (suc a) (b ∷ bs)))),
      all',
      omega (arith, few, length-drop-le a bs),
    )

-- Answers that are enough for each file to take the buffer.
abbrev pub copying : Bytes → List Bytes → ℕ
copying bs files = length files * length bs

copy_buffer-Writes :
    (as_ : List ℕ) (buffer : Bytes) (files : List Bytes)
    → All Takes as_
    → copying buffer files ≤ length as_
    → Writes
        (copying buffer files)
        as_
        (map (λ f. f ++ buffer) files)
        (copy_buffer as_ buffer files)
unfolding copy_buffer
copy_buffer-Writes as_ buffer [] all h = (as_, refl, all, omega arith)
copy_buffer-Writes as_ buffer (f ∷ fs) all h =
    let (left, e, all', few) = write_loop-Writes as_ f buffer all (omega (arith, h)) in
    let (left', e', all'', few') = copy_buffer-Writes left buffer fs all' (omega (arith, h, few)) in
    (left', rw e (rw e' refl), all'', omega (arith, few, few'))

map_appended :
    (bs cs : Bytes) (files : List Bytes)
    → map (λ f. f ++ cs) (map (λ f. f ++ bs) files) ≡ map (λ f. f ++ (bs ++ cs)) files
map_appended bs cs [] = refl
map_appended bs cs (f ∷ fs) =
    ap (λ g. g ∷ map (λ f. f ++ cs) (map (λ f. f ++ bs) fs)) (append_assoc f bs cs)
    ∙ ap (◌∷◌ (f ++ (bs ++ cs))) (map_appended bs cs fs)

map_unchanged : (files : List Bytes) → map (λ f. f ++ []) files ≡ files
map_unchanged [] = refl
map_unchanged (f ∷ fs) =
    ap (λ g. g ∷ map (λ f. f ++ []) fs) (append-nil f) ∙ ap (◌∷◌ f) (map_unchanged fs)

length-appended :
    (bs : Bytes) (files : List Bytes) → length (map (λ f. f ++ bs) files) ≡ length files
length-appended bs [] = refl
length-appended bs (f ∷ fs) = ap suc (length-appended bs fs)

-- When every write takes at least one byte, each output file of a stage gets, behind what it holds,
-- the bytes of all buffers that are read from the stage, in order, with one answer for each byte
-- and file being enough.
pub copy_output-Writes :
    (as_ : List ℕ) (buffers files : List Bytes)
    → All Takes as_
    → copying (concat buffers) files ≤ length as_
    → Writes
        (copying (concat buffers) files)
        as_
        (map (λ f. f ++ concat buffers) files)
        (copy_output as_ buffers files)
unfolding copy_output concat
copy_output-Writes as_ [] files all h =
    (as_, ap (λ fs. some (fs, as_)) (sym (map_unchanged files)), all, omega arith)
copy_output-Writes as_ (b ∷ bs) files all h =
    let apart : copying (b ++ concat bs) files ≡ copying b files + copying (concat bs) files =
      ap (λ n. length files * n) (length-append b (concat bs)) ∙ omega arith in
    let (left, e, all', few) = copy_buffer-Writes as_ b files all (omega (arith, h, apart)) in
    let same = length-appended b files in
    let later : copying (concat bs) (map (λ f. f ++ b) files) ≡ copying (concat bs) files =
      ap (λ n. n * length (concat bs)) same in
    let (left', e', all'', few') =
      copy_output-Writes left bs (map (λ f. f ++ b) files) all'
        (omega (arith, h, few, apart, later)) in
    (
      left',
      rw e (e' ∙ ap (λ fs. some (fs, left')) (map_appended b (concat bs) files)),
      all'',
      omega (arith, few, few', apart, later),
    )

feed_file-Writes :
    (as_ : List ℕ) (pipe : Bytes) (buffers : List Bytes)
    → All Takes as_
    → length (concat buffers) ≤ length as_
    → Writes (length (concat buffers)) as_ (pipe ++ concat buffers) (feed_file as_ pipe buffers)
unfolding feed_file concat
feed_file-Writes as_ pipe [] all h =
    (as_, ap (λ f. some (f, as_)) (sym (append-nil pipe)), all, omega arith)
feed_file-Writes as_ pipe (b ∷ bs) all h =
    let sum = length-append b (concat bs) in
    let (left, e, all', few) = write_loop-Writes as_ pipe b all (omega (arith, h, sum)) in
    let (left', e', all'', few') =
      feed_file-Writes left (pipe ++ b) bs all' (omega (arith, h, few, sum)) in
    (
      left',
      rw e (e' ∙ ap (λ f. some (f, left')) (append_assoc pipe b (concat bs))),
      all'',
      omega (arith, few, few', sum),
    )

-- When every write takes at least one byte, the pipe of a stage with several input files gets their
-- bytes, file by file in order, with one answer for each byte being enough.
pub feed_input-Writes :
    (as_ : List ℕ) (pipe : Bytes) (files : List (List Bytes))
    → All Takes as_
    → length (concat (map concat files)) ≤ length as_
    → Writes
        (length (concat (map concat files)))
        as_
        (pipe ++ concat (map concat files))
        (feed_input as_ pipe files)
unfolding feed_input concat
feed_input-Writes as_ pipe [] all h =
    (as_, ap (λ f. some (f, as_)) (sym (append-nil pipe)), all, omega arith)
feed_input-Writes as_ pipe (f ∷ fs) all h =
    let sum = length-append (concat f) (concat (map concat fs)) in
    let (left, e, all', few) = feed_file-Writes as_ pipe f all (omega (arith, h, sum)) in
    let (left', e', all'', few') =
      feed_input-Writes left (pipe ++ concat f) fs all' (omega (arith, h, few, sum)) in
    (
      left',
      rw e (e' ∙ ap (λ g. some (g, left')) (append_assoc pipe (concat f) (concat (map concat fs)))),
      all'',
      omega (arith, few, few', sum),
    )
