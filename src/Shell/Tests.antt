-- ===== src/Shell/Tests.antt =====
-- The theorems on the shell of hw4/part2 at small commands.
use nsysu_system_programming.Prelude.{
  ℕ, ◌≤◌, ◌<◌, ◌≡◌, refl, ◌++◌, decimal, ◌≢◌, ◌↔◌, ◌⊎◌, true, false, none, some, List, [], ◌∷◌,
  arith, length, get_elem?, get_or, All, Str, codes, atoi,
}
use nsysu_system_programming.Shell.Wait.{
  exited, stopped, continued, failed, returned, undefined, has_amp, last_command, parent,
  parent_lem,
}
use nsysu_system_programming.Shell.Strtok.Join.{IsToken, without, concat}
use nsysu_system_programming.Shell.Redirect.{redirect_to}
use nsysu_system_programming.Shell.Redirect.Loops.{array, arguments}
use nsysu_system_programming.Shell.Redirect.Erase.{redirect_to_lem}
use nsysu_system_programming.Shell.Pipeline.{
  terminal, pipe_end, run_pipeline, stage_at, run_pipeline_lem,
}
use nsysu_system_programming.Shell.Args.{is_bar, arg_list, get_args, pipe_spliter, max_pipe_num}
use nsysu_system_programming.Shell.Args.Words.{IsWord, get_args-join}
use nsysu_system_programming.Shell.Args.Commands.{pipe_spliter-join, pipe_spliter_sound}
use nsysu_system_programming.Shell.Builtin.{
  Host, Inbuilt, builtin, echo, quit, exit, bye, logout, cd, pwd, hostname, id, is_builtin, bi_echo,
  printed, echo_nth,
}
use nsysu_system_programming.Shell.Builtin.Lookup.{keyword, is_builtin_iff}
use nsysu_system_programming.Shell.Turn.{Exec, turn, started}
use nsysu_system_programming.Shell.Turn.Plain.{IsPlain}
use nsysu_system_programming.Shell.Turn.Started.{process_at, turn-plain}

abbrev sorting : List Str
sorting = codes "sort" ∷ codes "<" ∷ codes "in" ∷ codes "-r" ∷ []

redirect_to_lem_example :
    (arguments (redirect_to b'<' (array sorting [])).0 ≡ codes "sort" ∷ codes "-r" ∷ [])
    × ((redirect_to b'<' (array sorting [])).1 ≡ some (codes "in"))
redirect_to_lem_example = redirect_to_lem b'<' sorting []

run_pipeline_lem_run :
    (length (run_pipeline 3) ≡ 3)
    × ((p : ℕ) → (2 < p) ⊎ (get_elem? (run_pipeline 3) p ≡ some (stage_at 2 0 terminal p)))
run_pipeline_lem_run = run_pipeline_lem 2

-- `ls | cat | less`
three_stages :
    run_pipeline 3
    ≡ record { index = 2; stdin = pipe_end 0; stdout = terminal }
      ∷ record { index = 1; stdin = pipe_end 1; stdout = pipe_end 0 }
      ∷ record { index = 0; stdin = terminal; stdout = pipe_end 1 }
      ∷ []
unfolding run_pipeline
three_stages = refl

ls-IsWord : IsWord (codes "ls")
ls-IsWord = record { some_byte = λ e. ground arith; solid = (refl, (refl, tt)) }

and-IsWord : IsWord (codes "&")
and-IsWord = record { some_byte = λ e. ground arith; solid = (refl, tt) }

get_args-join_example :
    (◌<◌ 2 512 → get_args [] (codes "  ls   ls   &") ≡ some (codes "ls" ∷ codes "ls" ∷ []))
    × (◌≤◌ 512 2 → get_args [] (codes "  ls   ls   &") ≡ none)
get_args-join_example =
    get_args-join [] 2 2 (codes "ls") (codes "ls" ∷ codes "&" ∷ [])
      (ls-IsWord, (ls-IsWord, (and-IsWord, tt)))

cat-IsToken : IsToken is_bar (codes "cat")
cat-IsToken = record { some_byte = λ e. ground arith; solid = (refl, (refl, (refl, tt))) }

pipe_spliter_join_run : pipe_spliter (codes "cat|cat") ≡ some (codes "cat" ∷ codes "cat" ∷ [])
pipe_spliter_join_run =
    pipe_spliter-join (codes "cat") (codes "cat" ∷ []) (cat-IsToken, (cat-IsToken, tt))
      (omega arith)

abbrev two_commands : List Str
two_commands = codes "ls " ∷ codes " wc" ∷ []

pipe_spliter_sound_run :
    (two_commands ≢ [])
    × (length two_commands < max_pipe_num)
    × All (IsToken is_bar) two_commands
    × (concat two_commands ≡ without is_bar (codes "|ls || wc|"))
unfolding pipe_spliter
pipe_spliter_sound_run = pipe_spliter_sound (codes "|ls || wc|") two_commands refl

is_builtin_iff_run :
    (is_builtin [] (codes " cd .." ∷ codes "ls" ∷ []) ≡ some cd)
    ↔ (get_or (arg_list [] (get_or (codes " cd .." ∷ codes "ls" ∷ []) 0 [])) 0 [] ≡ keyword cd)
is_builtin_iff_run = is_builtin_iff [] (codes " cd .." ∷ codes "ls" ∷ []) cd

a_host : Host
a_host = record {
  cwd = codes "/";
  host_name = codes "box";
  uid = 0;
  gid = 0;
  user_name = codes "root";
  group_name = codes "root";
}

ls-IsPlain : IsPlain (codes "ls")
ls-IsPlain = record { some_byte = λ e. ground arith; solid = (refl, (refl, tt)) }

wc-IsPlain : IsPlain (codes "wc")
wc-IsPlain = record { some_byte = λ e. ground arith; solid = (refl, (refl, tt)) }

minus_c-IsPlain : IsPlain (codes "-c")
minus_c-IsPlain = record { some_byte = λ e. ground arith; solid = (refl, (refl, tt)) }

ls_no_keyword : (entry : Inbuilt) → codes "ls" ≢ keyword entry
ls_no_keyword builtin e = ground arith
ls_no_keyword echo e = ground arith
ls_no_keyword quit e = ground arith
ls_no_keyword exit e = ground arith
ls_no_keyword bye e = ground arith
ls_no_keyword logout e = ground arith
ls_no_keyword cd e = ground arith
ls_no_keyword pwd e = ground arith
ls_no_keyword hostname e = ground arith
ls_no_keyword id e = ground arith

abbrev ls_wc : List (Str × List Str)
ls_wc = (codes "ls", []) ∷ (codes "wc", codes "-c" ∷ []) ∷ []

turn-plain_example :
    (processes : List Exec) × (turn [] a_host (codes " ls| wc -c\nexit\n")
      ≡ (started (processes, false), codes "exit\n"))
    × (length processes ≡ 2)
    × ((p : ℕ) → (1 < p) ⊎ (get_elem? processes p ≡ some (process_at ls_wc 1 p)))
turn-plain_example =
    turn-plain [] 1 0 a_host (codes "ls", []) ((codes "wc", codes "-c" ∷ []) ∷ []) (codes "exit\n")
      ((ls-IsPlain, tt), ((wc-IsPlain, (minus_c-IsPlain, tt)), tt)) (omega arith, (omega arith, tt))
      (omega arith) ls_no_keyword

-- The second of two processes.
ls_process : process_at ls_wc 1 1 ≡ record {
  stdin = terminal;
  stdout = pipe_end 0;
  from = none;
  to = none;
  argv = some (codes "ls") ∷ none ∷ [];
}
ls_process = refl

-- `echo -n` takes the argument behind it as a number and prints the one of that index from it on, with
-- the line's end.
echo_minus_n : bi_echo (codes "echo" ∷ codes "-n" ∷ codes "hello" ∷ []) ≡ printed (codes "hello\n")
unfolding bi_echo echo_nth atoi
echo_minus_n = refl

parent_lem_run :
    (has_amp (last_command (codes "ls") []) ≡ true
      → parent 5 (codes "ls") [] (failed ∷ [])
        ≡ some (returned (codes "[" ++ (decimal 5 ++ codes "]\n"))))
    × (has_amp (last_command (codes "ls") []) ≡ false
        → (parent 5 (codes "ls") [] (stopped ∷ continued ∷ []) ≡ none)
          × (parent 5 (codes "ls") [] (stopped ∷ continued ∷ exited ∷ failed ∷ [])
              ≡ some (returned []))
          × (parent 5 (codes "ls") [] (failed ∷ failed ∷ []) ≡ some undefined))
parent_lem_run =
    parent_lem 5 (codes "ls") [] (stopped ∷ continued ∷ []) (failed ∷ []) exited (tt, (tt, tt)) tt
