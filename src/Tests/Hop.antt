-- ===== src/Tests/Hop.antt =====
-- The visited directories, `hop` and the prompt.
use c_shell.Base.{
  ℕ, ◌+◌, ◌≤◌, ◌≡◌, ◌≢◌, refl, Bool, true, List, [], ◌∷◌, some, length, Bytes, codes, str_eq, arith,
}
use c_shell.Lexer.{Token, word}
use c_shell.Numbers.{is_blank}
use c_shell.Frecency.{Entry, load_frecency, record_visit, find_frecency_match}
use c_shell.Frecency.Record.{
  find_entry, IsVisits, none_past, visited, is_found, find_entry-record_visit,
}
use c_shell.Frecency.Load.{load_frecency_lem}
use c_shell.Frecency.Log.{digits_before, log_text, log_entries}
use c_shell.Frecency.Saved.{IsSaved, AllSaved, log_entries-log_text}
use c_shell.Frecency.Best.{AllSmall, Chosen, find_frecency_match-Chosen}
use c_shell.Hop.{FileSystem, Shell, no_visits, init_hop, change_dir, exec_hop, get_path}
use c_shell.Hop.Moves.{IsShell, session, exec_hop-IsShell}
use c_shell.Hop.Back.{dash, hop_back, hop_forgotten}

abbrev entry : Bytes → ℕ → ℕ → Entry
entry path frequency last_visit = record {
  path = path;
  frequency = frequency;
  last_visit = last_visit;
}

abbrev log : List Entry
log = entry (codes "/src/api") 3 7 ∷ entry (codes "/src/app") 3 9 ∷ entry (codes "/tmp") 8 2 ∷ []

none-IsVisits : IsVisits no_visits
none-IsVisits = record { few = omega arith; past = none_past }

find_entry-record_visit_example :
    let v = load_frecency no_visits log in
    let r = record_visit (codes "/tmp") v in
    IsVisits r.0
    × (r.0.visit_counter ≡ v.visit_counter + 1)
    × (find_entry (codes "/tmp") r.0.entries
        ≡ visited (codes "/tmp") v (find_entry (codes "/tmp") v.entries))
    × (r.1 ≡ is_found (find_entry (codes "/tmp") r.0.entries))
unfolding str_eq
find_entry-record_visit_example =
    find_entry-record_visit (codes "/tmp") (codes "/tmp") (load_frecency no_visits log)
      (load_frecency_lem no_visits log none-IsVisits).0

abbrev present : Bytes → Bool
present path = true

log-AllSmall : AllSmall log
unfolding AllSmall
log-AllSmall = ground arith

find_frecency_match-Chosen_example :
    Chosen present (codes "src") log (find_frecency_match present (codes "src") log)
find_frecency_match-Chosen_example =
    find_frecency_match-Chosen present (codes "src") log log-AllSmall

-- Every path is a directory that leads to itself.
abbrev fs : FileSystem
fs = record {
  getcwd_ok = λ d. true;
  chdir = λ d path. some path;
  access_ok = λ d path. true;
  writable = λ d. true;
}

abbrev home : Bytes
home = codes "/home/a"

abbrev new_shell : Shell
new_shell = init_hop home home []

abbrev to_tmp : List Token
to_tmp = record { kind = word; value = codes "/tmp" } ∷ []

exec_hop-IsShell_example :
    let s = session fs (init_hop home home []) (to_tmp ∷ []) in
    IsShell fs home s × ((exec_hop fs s to_tmp).0 ≤ length to_tmp)
exec_hop-IsShell_example = exec_hop-IsShell fs home home [] (to_tmp ∷ []) to_tmp

tmp_reached : (change_dir fs new_shell (codes "/tmp")).1.cwd ≡ codes "/tmp"
unfolding change_dir init_hop
tmp_reached = refl

tmp_ok : (change_dir fs new_shell (codes "/tmp")).0 ≡ true
unfolding change_dir init_hop
tmp_ok = refl

hop_back_example :
    let s1 = (change_dir fs new_shell (codes "/tmp")).1 in
    let r2 = exec_hop fs s1 (dash fs ∷ []) in
    let r3 = exec_hop fs r2.1 (dash fs ∷ []) in
    (r2.0 ≡ 0) × (r2.1.cwd ≡ new_shell.cwd) × (r3.0 ≡ 0) × (r3.1.cwd ≡ s1.cwd)
hop_back_example = hop_back fs new_shell (codes "/tmp") tmp_ok refl (λ d. refl) (λ d. refl)

tmp_elsewhere : (change_dir fs new_shell (codes "/tmp")).1.cwd ≢ new_shell.cwd
unfolding change_dir init_hop
tmp_elsewhere = λ e. cc

hop_forgotten_example :
    (init_hop new_shell.cwd home (change_dir fs new_shell (codes "/tmp")).1.logs).visits
    ≡ (init_hop new_shell.cwd home new_shell.logs).visits
hop_forgotten_example = hop_forgotten fs new_shell (codes "/tmp") home tmp_ok tmp_elsewhere

prompt_runs : get_path home (codes "/home/a/src") ≡ codes "~/src"
unfolding get_path str_eq
prompt_runs = refl

abbrev two_visits : List Entry
two_visits = entry (codes "/tmp") 12 345 ∷ entry (codes "/home/a b") 7 1000 ∷ []

log_runs : log_text two_visits ≡ codes "12 345 /tmp\n7 1000 /home/a b\n"
unfolding log_text digits_before
log_runs = refl

tmp-IsSaved : IsSaved (entry (codes "/tmp") 12 345)
unfolding is_blank
tmp-IsSaved = record {
  frequency_ok = omega arith;
  last_visit_ok = omega arith;
  short = omega arith;
  one_line = (refl, (refl, (refl, (refl, tt))));
  plain = refl;
}

home-IsSaved : IsSaved (entry (codes "/home/a b") 7 1000)
unfolding is_blank
home-IsSaved = record {
  frequency_ok = omega arith;
  last_visit_ok = omega arith;
  short = omega arith;
  one_line = (refl, (refl, (refl, (refl, (refl, (refl, (refl, (refl, (refl, tt)))))))));
  plain = refl;
}

log_entries-log_text_example : log_entries (log_text two_visits) ≡ two_visits
unfolding AllSaved is_blank
log_entries-log_text_example = log_entries-log_text two_visits (tmp-IsSaved, (home-IsSaved, tt))
