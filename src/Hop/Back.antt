-- ===== src/Hop/Back.antt =====
-- Where `hop -` leads, and which `hop.log` c-shell/src/hop.c and frecency.c write.
use c_shell.Base.{
  ◌≡◌, ◌≢◌, refl, ap, ◌∙◌, true, false, [], ◌∷◌, some, Bytes, str_eq, str_eq_sound, codes,
  Bool-cases, Option-cases, inl, inr, arith,
}
use c_shell.Lexer.{Token, word}
use c_shell.Hop.{
  FileSystem, Shell, read_log, load, no_visits, init_hop, save_frecency, visit, arrive, change_dir,
  hop_one, hop_loop, exec_hop,
}

module _ (fs : FileSystem) where
  visit-keeps :
      (s : Shell)
      → ((visit fs s).cwd ≡ s.cwd)
        × ((visit fs s).prev_dir ≡ s.prev_dir)
        × ((visit fs s).prev_dir_flag ≡ s.prev_dir_flag)
  unfolding visit save_frecency
  visit-keeps s = ground arith

  arrive-moves :
      (s : Shell) (d : Bytes)
      → let r = arrive fs s (some d) in
        (r.0 ≡ true) × (r.1.cwd ≡ d) × (r.1.prev_dir ≡ s.cwd) × (r.1.prev_dir_flag ≡ true)
  arrive-moves s d =
      ground (arith, visit-keeps (record s { cwd = d; prev_dir = s.cwd; prev_dir_flag = true }))

  -- The token `-`.
  abbrev pub dash : Token
  dash = record { kind = word; value = codes "-" }

  dash_returns :
      (s : Shell) (d : Bytes)
      → s.prev_dir_flag ≡ true
      → s.prev_dir ≡ d
      → fs.getcwd_ok s.cwd ≡ true
      → fs.chdir s.cwd d ≡ some d
      → let r = exec_hop fs s (dash ∷ []) in
        (r.0 ≡ 0) × (r.1.cwd ≡ d) × (r.1.prev_dir ≡ s.cwd) × (r.1.prev_dir_flag ≡ true)
  unfolding exec_hop hop_loop hop_one change_dir str_eq
  dash_returns s d flag prev found moved =
      rw (flag, prev, found, moved)
        (refl, (arrive-moves s d).1, (arrive-moves s d).2, (arrive-moves s d).3)

  -- A `change_dir` that succeeds.
  record Succeeds (s : Shell) (path : Bytes) : Type 0 where
    found : fs.getcwd_ok s.cwd ≡ true
    new_wd : Bytes
    arrives : change_dir fs s path ≡ arrive fs s (some new_wd)

  change_dir-Succeeds :
      (s : Shell) (path : Bytes) → (change_dir fs s path).0 ≡ true → Succeeds s path
  unfolding change_dir
  change_dir-Succeeds s path h = elim (Bool-cases (fs.getcwd_ok s.cwd)) [
    | inl found ↦ elim (Option-cases (fs.chdir s.cwd path)) [
      | inl none_there ↦ absurd (ground (arith, h, found, none_there))
      | inr (d, moved) ↦ record { found = found; new_wd = d; arrives = rw (found, moved) refl }
    ]
    | inr lost ↦ absurd (ground (arith, h, lost))
  ]

  change_dir-moves :
      (s : Shell) (path : Bytes)
      → (change_dir fs s path).0 ≡ true
      → let s1 = (change_dir fs s path).1 in
        (s1.prev_dir ≡ s.cwd) × (s1.prev_dir_flag ≡ true) × (fs.getcwd_ok s.cwd ≡ true)
  change_dir-moves s path ok =
      let c = change_dir-Succeeds s path ok in
      let a = arrive-moves s c.new_wd in rw c.arrives (a.2, a.3, c.found)

  -- Behind a successful change of the directory `hop -` leads back to where the shell was, and a second
  -- one to where it went, without a message, if both directories' absolute paths lead to them and
  -- `getcwd` finds the path of the second.
  pub hop_back :
      (s : Shell) (path : Bytes)
      → let s1 = (change_dir fs s path).1 in
        (change_dir fs s path).0 ≡ true
        → fs.getcwd_ok s1.cwd ≡ true
        → ((d : Bytes) → fs.chdir d s.cwd ≡ some s.cwd)
        → ((d : Bytes) → fs.chdir d s1.cwd ≡ some s1.cwd)
        → let r2 = exec_hop fs s1 (dash ∷ []) in
          let r3 = exec_hop fs r2.1 (dash ∷ []) in
          (r2.0 ≡ 0) × (r2.1.cwd ≡ s.cwd) × (r3.0 ≡ 0) × (r3.1.cwd ≡ s1.cwd)
  hop_back s path ok found back forth =
      let s1 = (change_dir fs s path).1 in
      let m = change_dir-moves s path ok in
      let one = dash_returns s1 s.cwd m.1 m.0 found (back s1.cwd) in
      let s2 = (exec_hop fs s1 (dash ∷ [])).1 in
      let two = dash_returns s2 s1.cwd one.3 one.2 (ap fs.getcwd_ok one.1 ∙ m.2) (forth s2.cwd) in
      (one.0, one.1, two.0, two.1)

  read_log-visit :
      (s : Shell) (dir : Bytes)
      → str_eq s.cwd dir ≡ false
      → read_log dir (visit fs s).logs ≡ read_log dir s.logs
  unfolding visit save_frecency read_log
  read_log-visit s dir other = ground (arith, other)

  arrive-logs :
      (s : Shell) (d : Bytes)
      → d ≢ s.cwd
      → read_log s.cwd (arrive fs s (some d)).1.logs ≡ read_log s.cwd s.logs
  arrive-logs s d other =
      let s' : Shell = record s { cwd = d; prev_dir = s.cwd; prev_dir_flag = true } in
      elim (Bool-cases (str_eq d s.cwd)) [
        | inl same ↦ absurd (other (str_eq_sound d s.cwd same))
        | inr apart ↦ ground (arith, read_log-visit s' s.cwd apart)
      ]

  -- A change to another directory writes no `hop.log` where the shell was: a shell that starts there
  -- afterwards has the visits that one would have had before.
  pub hop_forgotten :
      (s : Shell) (path home : Bytes)
      → let s1 = (change_dir fs s path).1 in
        (change_dir fs s path).0 ≡ true
        → s1.cwd ≢ s.cwd
        → (init_hop s.cwd home s1.logs).visits ≡ (init_hop s.cwd home s.logs).visits
  unfolding init_hop
  hop_forgotten s path home ok other =
      let c = change_dir-Succeeds s path ok in
      let a = arrive-moves s c.new_wd in
      let there : (change_dir fs s path).1.cwd ≡ c.new_wd = rw c.arrives a.1 in
      ap (load no_visits) (
        ap (λ r. read_log s.cwd r.1.logs) c.arrives
        ∙ arrive-logs s c.new_wd (λ e. other (there ∙ e)))
