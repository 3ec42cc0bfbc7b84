-- ===== src/History/Tests.antt =====
-- Runs of the history pool, and the theorems at concrete inputs. Names are compared exactly here,
-- which is one way the parameter can be.
use conhost.Prelude.{
  ◌≡◌, ◌≤◌, ◌⊎◌, refl, [], ◌∷◌, Text, codes, true, false, equal, length, All, arith,
}
use conhost.History.Entry.{add-window, window}
use conhost.History.Pool.{IsUnique, IsAllocated}
use conhost.History.Lifecycle.{
  Keeps, allocate_for_process-Keeps, FindsHistory, allocate_for_process-finds,
}
use conhost.History.{
  CommandHistory, CommandHistoryPool, add, realloc, back_is, find_position, app_name_matches,
  allocate_for_process, allocate_at, reuse_other, try_set_app_name, best_loop,
  set_number_of_commands_by_exe,
}

abbrev ls : Text
ls = codes "ls"

abbrev cd : Text
cd = codes "cd"

abbrev shell : CommandHistory
shell = record {
  commands = ls ∷ cd ∷ [];
  max_commands = 2;
  app_name = codes "cmd.exe";
  process_handle = 7;
  allocated = true;
}

abbrev cached : CommandHistory
cached = record shell { process_handle = 0; allocated = false; app_name = codes "edit" }

abbrev pool : CommandHistoryPool
pool = cached ∷ shell ∷ []

entries :
    ((add true (codes "dir") false shell).commands ≡ cd ∷ codes "dir" ∷ [])
    × ((add true ls true shell).commands ≡ cd ∷ ls ∷ [])
    × ((add true cd false shell).commands ≡ ls ∷ cd ∷ [])
    × ((realloc 1 shell).commands ≡ ls ∷ [])
unfolding add realloc equal
entries = (refl, refl, refl, refl)

taken :
    allocate_for_process equal true true (codes "vim") 9 2 50 pool
    ≡ record cached { commands = []; app_name = codes "vim"; process_handle = 9; allocated = true }
      ∷ shell
      ∷ []
unfolding allocate_for_process find_position allocate_at reuse_other try_set_app_name best_loop
    app_name_matches equal
taken = refl

shrunk :
    set_number_of_commands_by_exe equal (codes "cmd.exe") 1 pool
    ≡ record shell { commands = ls ∷ []; max_commands = 1 } ∷ cached ∷ []
unfolding set_number_of_commands_by_exe find_position app_name_matches equal realloc
shrunk = refl

pool-IsUnique : IsUnique pool
pool-IsUnique p = ground arith

add-window_example :
    (back_is (codes "dir") (add true (codes "dir") true shell).commands ≡ true)
    × (back_is (codes "dir") (ls ∷ cd ∷ []) ≡ false
        → (add true (codes "dir") false shell).commands ≡ window 2 (ls ∷ cd ∷ []) (codes "dir"))
add-window_example = add-window (codes "dir") true shell (omega arith) (omega arith) (λ h. cc)

allocate_for_process-Keeps_example :
    Keeps 9 2 pool (allocate_for_process equal true false (codes "vim") 9 2 50 pool)
allocate_for_process-Keeps_example =
    allocate_for_process-Keeps equal true false (codes "vim") 9 2 50 pool

allocate_for_process-finds_example :
    FindsHistory equal
      (codes "vim")
      9
      (allocate_for_process equal true true (codes "vim") 9 2 50 pool)
    ⊎ (All IsAllocated pool
        × (2 ≤ length pool)
        × (allocate_for_process equal true true (codes "vim") 9 2 50 pool ≡ pool))
allocate_for_process-finds_example = allocate_for_process-finds equal (codes "vim") 9 2 50 pool
