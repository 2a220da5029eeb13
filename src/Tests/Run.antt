-- ===== src/Tests/Run.antt =====
-- A run of the peak measurement on the machine.
use syncfs.Base.{◌+◌, ◌≡◌, refl, true, false, some, [], ◌∷◌, arith, ltb}
use syncfs.Base.Exec.{ok, Ensures}
use syncfs.Peak.Run.{Daemons, search_files, all_files}
use syncfs.Peak.Run.Mesh.{others}
use syncfs.Peak.Run.Seen.{IsQuick, Searched, search_files-Searched}
use syncfs.Tests.Machine.{machine, clock}

-- Every file is there from time 50 on.
abbrev daemons : Daemons machine
daemons = record {
  mkdtemp = λ s. (ok "/tmp/x", s);
  cleanup = λ p s. (ok tt, s);
  open_log = λ p s. (ok 9, s);
  close_log = λ f s. (ok tt, s);
  read_log = λ f s. (ok "", s);
  write_text = λ p t s. (ok tt, s);
  popen = λ p a d f s. (ok 77, s);
  has_exited = λ p s. (true, s);
  list_fds = λ p s. (some 12, s + 1);
  write_bytes = λ p n s. (ok tt, s);
  is_file = λ p s. (ltb 50 s, s + 1);
  terminate = λ p s. s;
  wait = λ p s. (false, s);
  kill = λ p s. s;
}

abbrev quick : IsQuick clock daemons
quick = record { fds-le-now = λ p s. omega arith; file-le-now = λ p s. omega arith }

search_files-Searched_example :
    Ensures
      (Searched machine clock daemons quick 4000001 (77 ∷ []) ("/tmp/x/f0000" ∷ []) 3)
      (search_files machine daemons 4000001 (77 ∷ []) ("/tmp/x/f0000" ∷ []) 900000 3)
search_files-Searched_example =
    search_files-Searched machine clock daemons quick 4000001 (77 ∷ []) ("/tmp/x/f0000" ∷ []) 900000
      3 (omega arith) (omega arith)

files_run : all_files machine daemons ("/tmp/x/a" ∷ "/tmp/x/b" ∷ []) 40 ≡ (false, 41)
unfolding all_files
files_run = refl

others_run : others machine daemons 0 1 ("a" ∷ "b" ∷ "c" ∷ []) ≡ "tcp://a" ∷ "tcp://c" ∷ []
unfolding others
others_run = refl
