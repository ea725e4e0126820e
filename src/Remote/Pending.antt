-- ===== src/Remote/Pending.antt =====
-- The server's list of connections whose threads have not started (lab08/src/server.c: pending_fds,
-- the accept loop of `main`, the start of `handle_client`, handle_sigint). Each part holds the lock or
-- changes one cell, so the threads' steps come in some order.
pub mod Nodes
pub mod Safety
use osi_s.Prelude.{
  ℕ, zero, suc, ◌+◌, ◌-◌, ◌*◌, ◌/◌, ◌%◌, ◌≤◌, ◌<◌, min, ◌≡◌, refl, sym, ap, ap₂, ◌∙◌, subst, ◌≢◌,
  ◌↔◌, ◌⊎◌, inl, inr, Bool, true, false, not, ◌&&◌, ◌||◌, Option, none, some, List, [], ◌∷◌, ◌++◌,
  append-nil, append_assoc, map, reverse, arith, ltb, leb, ◌==◌, if◌then◌else◌, ==_iff, Bool-cases,
  Option-cases, length, take, drop, length-append, length-take, length-drop, Text, bytes, same,
  starts_with, has, before, before_all, has-take, take_all, take-append_le, dec_lt, dec_le, fgets,
  same_iff, starts_with-append, starts_with_self, drop_prefix, ℕ_discrete, if_both, take-append,
  starts_with_split, same_path, has-append, fgets-line, fgets_cut, before-append,
}

-- The `int` that a node points to: freed, -1, or a descriptor.
pub data Cell : Type 0 where
  freed : Cell
  unset : Cell
  holds : ℕ → Cell

-- The cells by address, and the cells of the nodes of `pending_fds` from the first.
pub record Pending : Type 0 where
  pub cells : ℕ → Cell
  pub pending_fds : List ℕ

unfoldable pub put : ℕ → Cell → (ℕ → Cell) → ℕ → Cell
put c x cells d = if c == d then x else cells d

-- `main` before `accept`.
abbrev pub add : ℕ → Pending → Pending
add c s = record { cells = put c unset s.cells; pending_fds = c ∷ s.pending_fds }

-- `accept` returned a descriptor.
abbrev pub accepted : ℕ → ℕ → Pending → Pending
accepted c fd s = record s { cells = put c (holds fd) s.cells }

-- `accept` failed: the cell is freed and its node stays.
abbrev pub accept_failed : ℕ → Pending → Pending
accept_failed c s = record s { cells = put c freed s.cells }

abbrev pub with_node : ℕ → Option (List ℕ) → Option (List ℕ)
with_node d none = none
with_node d (some ds) = some (d ∷ ds)

-- What the loop does at a node, before the nodes that follow; `none` is a read of freed memory.
abbrev pub at_node : ℕ → ℕ → List ℕ → Cell → Option (List ℕ) → Option (List ℕ)
at_node fd d ds freed rest = none
at_node fd d ds unset rest = with_node d rest
at_node fd d ds (holds g) rest = if g == fd then some ds else with_node d rest

-- The loop of `handle_client`: the first node with the descriptor is taken out.
unfoldable pub take_out : (ℕ → Cell) → ℕ → List ℕ → Option (List ℕ)
take_out cells fd [] = some []
take_out cells fd (d ∷ ds) = at_node fd d ds (cells d) (take_out cells fd ds)

abbrev pub started_with : ℕ → Pending → Option (List ℕ) → Option Pending
started_with c s none = none
started_with c s (some list) = some (record { cells = put c freed s.cells; pending_fds = list })

abbrev pub client_of : ℕ → Pending → Cell → Option Pending
client_of c s (holds fd) = started_with c s (take_out s.cells fd s.pending_fds)
client_of c s _ = none

-- The start of `handle_client` on a cell, up to `free(p_client_fd)`.
unfoldable pub start_client : ℕ → Pending → Option Pending
start_client c s = client_of c s (s.cells c)

abbrev pub close_node : Cell → Option (List ℕ) → Option (List ℕ)
close_node freed rest = none
close_node unset rest = rest
close_node (holds fd) rest = with_node fd rest

-- The loop of `handle_sigint`: the descriptors that it closes.
unfoldable pub close_all : (ℕ → Cell) → List ℕ → Option (List ℕ)
close_all cells [] = some []
close_all cells (d ∷ ds) = close_node (cells d) (close_all cells ds)

unfoldable pub handle_sigint : Pending → Option (List ℕ)
handle_sigint s = close_all s.cells s.pending_fds

unfoldable pub mem : ℕ → List ℕ → Bool
mem c [] = false
mem c (d ∷ ds) = d == c || mem c ds

-- The list with the threads that `pthread_create` has made and that have not read their cell, each
-- by the cell that it was given.
pub record Server : Type 0 where
  pub pending : Pending
  pub threads : List ℕ

unfoldable pub without : ℕ → List ℕ → List ℕ
without c [] = []
without c (d ∷ ds) = if d == c then ds else d ∷ without c ds

abbrev pub started : ℕ → Server → Option Pending → Option Server
started c s none = none
started c s (some p) = some (record { pending = p; threads = without c s.threads })

-- What the threads do before SIGINT when every `accept` and `pthread_create` succeeds: `malloc` gives
-- a cell that is not in use, `accept` a descriptor that is not open, and a thread that was made
-- starts at any time, whatever its cell is by then.
pub data Step : Server → Option Server → Type 0 where
  adds :
      (s : Server) (c : ℕ)
      → s.pending.cells c ≡ freed
      → Step s (some (record s { pending = add c s.pending }))
  accepts :
      (s : Server) (c fd : ℕ)
      → mem c s.pending.pending_fds ≡ true
      → s.pending.cells c ≡ unset
      → ((d : ℕ) → mem d s.pending.pending_fds ≡ true → s.pending.cells d ≢ holds fd)
      → Step s (some (record { pending = accepted c fd s.pending; threads = c ∷ s.threads }))
  starts :
      (s : Server) (c : ℕ)
      → mem c s.threads ≡ true
      → Step s (started c s (start_client c s.pending))

-- The states of a run from the empty list.
pub data IsRun : Server → Type 0 where
  empty : (s : Server) → s.pending.pending_fds ≡ [] → s.threads ≡ [] → IsRun s
  then_step : (s t : Server) → IsRun s → Step s (some t) → IsRun t
