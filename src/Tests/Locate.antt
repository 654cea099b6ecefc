-- ===== src/Tests/Locate.antt =====
-- `locate` with a PATH of two directories.
use c_shell.Base.{
  ◌≡◌, refl, true, List, [], ◌∷◌, some, none, Bytes, if◌then◌else◌, ◌||◌, str_eq, codes, arith,
}
use c_shell.Lexer.{Token}
use c_shell.Ping.Targets.{text}
use c_shell.Command.Resolve.{System, strtok_fields, find_path}
use c_shell.Locate.{found, not_found, printed, search_path, exec_locate}
use c_shell.Locate.Found.{located, first, AllAbsolute, exec_locate-located, find_path-search_path}

abbrev system : System
system = record {
  stat =
      λ p. if str_eq p (codes "/usr/bin/ls") || str_eq p (codes "/bin/ls") then some true else none;
  access = λ p. true;
  path_var = some (codes "/usr/bin::/bin");
  calloc_ok = λ n. true;
}

abbrev sought : List Token
sought = text (codes "ls") ∷ text (codes "nothing") ∷ []

locate_runs :
    exec_locate system (some (codes "/home")) sought
    ≡ printed (
        some (
          found (codes "/usr/bin/ls") ∷ found (codes "/bin/ls") ∷ not_found (codes "nothing") ∷ []))
unfolding exec_locate str_eq
locate_runs = refl

exec_locate-located_example :
    exec_locate system (some (codes "/home")) sought
    ≡ printed (some (located system (codes "/home") (codes "/usr/bin" ∷ codes "/bin" ∷ []) sought))
unfolding strtok_fields
exec_locate-located_example =
    exec_locate-located system (codes "/home") (codes "/usr/bin::/bin") (text (codes "ls"))
      (text (codes "nothing") ∷ []) refl (omega arith)

find_path-search_path_example :
    (ps : List Bytes) × (search_path system (some (codes "/home")) (codes "ls") ≡ some ps)
    × (find_path system (codes "ls") ≡ first ps)
unfolding strtok_fields AllAbsolute
find_path-search_path_example =
    find_path-search_path system (codes "/home") (codes "/usr/bin::/bin") (codes "ls") refl
      (omega arith) (refl, omega arith, (refl, omega arith, tt))
