-- ===== src/Tests/Remote.antt =====
-- The theorems on the server and its client at concrete inputs.
use osi_s.Prelude.{
  ◌<◌, ◌≡◌, refl, subst, ◌≢◌, ◌⊎◌, inr, true, Option, none, some, List, [], ◌∷◌, ◌++◌, arith,
  length, Text, bytes, starts_with, has, before,
}
use osi_s.Remote.{Host, Site, other}
use osi_s.Remote.Server.{change_dir, list_path, token, slash}
use osi_s.Remote.Client.{session, process_lines, exchange, waiting, command}
use osi_s.Remote.Directory.{IsApart, list_path-IsReached, list_path_neighbour}
use osi_s.Remote.Lines.{IsLines, nothing, more, whole}
use osi_s.Remote.Listing.{AreNames, none_left, also}
use osi_s.Remote.Pending.{
  freed, Pending, Server, put, add, accepted, accept_failed, handle_sigint, mem, Step, adds,
  accepts, IsRun, empty, then_step,
}
use osi_s.Remote.Pending.Safety.{step_safe, accept_failed-handle_sigint}
use osi_s.Remote.Scripts.{
  start, changed, IsServing, IsInSync, IsScript, end_of_file, skipped, given,
  process_lines-IsInSync,
}
use osi_s.Remote.Waiting.{no_dir, exchange-waiting}

-- A server on '/srv' with one directory '/srv/a', to which every path leads, and a file in it.
abbrev host : Host
host = record {
  realpath = λ p. some (bytes "/srv/a");
  opendir = λ p. some (bytes "f" ∷ []);
  lstat = λ p. some other;
  readlink = λ p. none;
  is_regular = λ p. true;
  stray = 0;
}

abbrev here : Site
here = record { root_dir = bytes "/srv"; info_buf = some (bytes "hi\n") }

f-IsName : AreNames (bytes "f" ∷ [])
unfolding has
f-IsName =
    also (bytes "f") [] (record { nonempty = omega arith; no_newline = refl; no_nul = refl })
      none_left

hi-IsLines : IsLines (bytes "hi\n")
unfolding has
hi-IsLines = more (bytes "hi\n") [] (whole (bytes "hi") refl refl (λ e. cc) (omega arith)) nothing

host-IsServing : IsServing host here
host-IsServing = record {
  info = bytes "hi\n";
  info_buf = refl;
  nonempty = omega arith;
  info-IsLines = hi-IsLines;
  names = λ dir. bytes "f" ∷ [];
  opendir = λ dir r. refl;
  names-AreNames = λ dir. f-IsName;
  target-IsName = λ path target e. absurd (no_target target e);
}
  where
    no_target : (target : Text) → ◌≢◌ {A = Option Text} none (some target)
    no_target target e = ground arith

abbrev script : List Text
script = bytes "CD a\n" ∷ bytes "\n" ∷ bytes "LIST\n" ∷ bytes "QUIT\n" ∷ []

script-IsScript : IsScript script
unfolding has command token before
script-IsScript =
    given (bytes "CD a\n") (bytes "\n" ∷ bytes "LIST\n" ∷ bytes "QUIT\n" ∷ [])
      (record {
        nonempty = omega arith;
        no_newline = refl;
        no_return = refl;
        no_nul = refl;
        short = omega arith;
      })
      (skipped (bytes "\n") (bytes "LIST\n" ∷ bytes "QUIT\n" ∷ []) refl (
        given (bytes "LIST\n") (bytes "QUIT\n" ∷ [])
          (record {
            nonempty = omega arith;
            no_newline = refl;
            no_return = refl;
            no_nul = refl;
            short = omega arith;
          })
          (given (bytes "QUIT\n") []
            (record {
              nonempty = omega arith;
              no_newline = refl;
              no_return = refl;
              no_nul = refl;
              short = omega arith;
            })
            end_of_file)))

process_lines-IsInSync_example :
    IsInSync host here (process_lines host here script (session [] [] true))
process_lines-IsInSync_example =
    process_lines-IsInSync host here [] script host-IsServing start script-IsScript

-- A server that cannot open its directory.
abbrev closed_host : Host
closed_host = record host { opendir = λ p. none }

exchange-waiting_example :
    (shown : Text) × (exchange closed_host here (session [] [] true) (bytes "LIST") ≡ waiting shown)
exchange-waiting_example = exchange-waiting closed_host here [] (bytes "LIST") (no_dir refl)

the_path :
    (real : Text)
    → ◌≡◌ {A = Option Text} (some (bytes "/srv/a")) (some real)
    → bytes "/srv/a" ≡ real
the_path real e = cc

host-IsApart : IsApart host here
unfolding starts_with
host-IsApart = record {
  below = λ path real e s. inr (below_root real e);
  short = λ path real e. short_path real e;
  root_short = omega arith;
}
  where
    below_root :
        (real : Text)
        → some (bytes "/srv/a") ≡ some real
        → starts_with (bytes "/srv" ++ slash) real ≡ true
    below_root real e =
        subst (λ r. starts_with (bytes "/srv" ++ slash) r ≡ true) (the_path real e) refl

    short_path : (real : Text) → some (bytes "/srv/a") ≡ some real → length real < 4096
    short_path real e = subst (λ r. length r < 4096) (the_path real e) (omega arith)

list_path-IsReached_example :
    (list_path here (change_dir host here [] (bytes "a")) ≡ bytes "/srv/")
    ⊎ ((path : Text) × (host.realpath path
          ≡ some (list_path here (change_dir host here [] (bytes "a")))))
list_path-IsReached_example =
    list_path-IsReached host here (change_dir host here [] (bytes "a")) host-IsApart
      (changed [] (bytes "a") start)

-- A neighbour '/srvb' of the root.
abbrev neighbour : Host
neighbour = record host { realpath = λ p. some (bytes "/srvb") }

list_path_neighbour_example :
    list_path here (change_dir neighbour here [] (bytes "../srvb")) ≡ bytes "/srv/b"
list_path_neighbour_example =
    list_path_neighbour neighbour here [] (bytes "../srvb") [] b'b' (λ e. absurd (omega (arith, e)))
      refl (omega arith)

-- A connection that was accepted with the descriptor 5, and a node before it that waits.
abbrev no_cells : Pending
no_cells = record { cells = λ c. freed; pending_fds = [] }

abbrev nobody : Server
nobody = record { pending = no_cells; threads = [] }

abbrev waiting_node : Server
waiting_node = record nobody { pending = add 1 no_cells }

abbrev first_client : Server
first_client = record { pending = accepted 1 5 (add 1 no_cells); threads = 1 ∷ [] }

abbrev one_client : Server
one_client = record first_client { pending = add 2 (accepted 1 5 (add 1 no_cells)) }

one_client-IsRun : IsRun one_client
unfolding put mem
one_client-IsRun =
    then_step first_client one_client
      (then_step waiting_node first_client
        (then_step nobody waiting_node (empty nobody refl refl) (adds nobody 1 refl))
        (accepts waiting_node 1 5 refl refl (λ d m e. ground arith)))
      (adds first_client 2 refl)

step_safe_example :
    ((o : Option Server) → Step one_client o → o ≢ none) × (handle_sigint one_client.pending ≢ none)
step_safe_example = step_safe one_client one_client-IsRun

accept_failed-handle_sigint_example : handle_sigint (accept_failed 2 one_client.pending) ≡ none
unfolding mem
accept_failed-handle_sigint_example = accept_failed-handle_sigint 2 one_client.pending refl
