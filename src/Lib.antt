-- ===== src/Lib.antt =====
-- Models and proofs for the operating systems labs of this repository: producer and consumer queues
-- for threads and processes, a threaded sort of an index file, parents with child processes, a file
-- of records under locks, a directory walk, a file server with its client, and the trash can of
-- CourseWork with its browser.
--
-- Parts and files:
--   Prelude            shared names, Boolean tests, lists as C arrays, and texts with `fgets`, `strcmp` and
--                      other functions of C on them.
--   Message            `Message`, `calculate_hash` and what producers and consumers do with them
--                      (lab05/src/5.2/queue.h, queue.c, main.c).
--   Ring               the ring that both variants of lab05 share: `put`, `get`, `resize` and `drain`
--                      are the bodies of `queue_push`, `queue_pop`, of the resizes and of
--                      `queue_destroy`. Ring/Contents reads it as a list, oldest message first.
--   CondQueue          lab05/src/5.2/queue.c. A call is a series of atomic attempts, each of which
--                      waits or returns. CondQueue/Spec states the calls on lists, CondQueue/World
--                      runs any sequence of attempts, and CondQueue/Threads is lab05/src/5.2/main.c.
--   SemQueue           lab05/src/5.1/queue.c, in turns: `sem_wait`, the section under the mutex,
--                      `sem_post`. SemQueue/Schedule runs any sequence of turns of any number of
--                      threads, SemQueue/Tokens accounts for the semaphores, SemQueue/Deadlock is about
--                      the wait inside `queue_resize_decrease`, SemQueue/Destroy about the end.
--   SharedQueue        lab04/src/queue.c: the queue in shared memory with a set of semaphores; its
--                      World has processes that are killed between any two writes, its Processes
--                      is lab04/src/main.c.
--   SortIndex          lab06/src/sort_index.c: `cmp_index_s`, `do_merge`, the phases of
--                      `worker_thread`, the claims of blocks and pairs (SortIndex/Claims), the
--                      chunks of `main` (SortIndex/Chunks) and its arguments (SortIndex/Settings);
--                      SortIndex/Files and SortIndex/Calendar are about lab06/src/gen.c and
--                      view.c.
--                      SortIndex/Program is the whole of `main`, chunk after chunk.
--   Environment        lab02/src/parent.c and child.c: the environment that the parent builds
--                      (`CreateChildEnv`, `FindChildPath`); Environment/Programs has both `main`s and
--                      `StartChild`, Environment/Runs is about whole runs.
--   Supervisor         lab03/src/parent.c: the table of children and its commands; Supervisor/Listing
--                      is about what `ListChild` prints.
--   Statistics         lab03/src/child.c: the pair of bits and the counts of the alarms.
--                      Statistics/Printing is the loop of its `main` with the parent's answers.
--   Records            lab07/src/main.c: `cmd_put` and the other commands on the file;
--                      Records/Session is its `main`.
--   Dirwalk            lab01/src/dirwalkFunc.c and mainDirwalk.c.
--   Trash              CourseWork/src/interceptor/trash_unlink.c (Trash/Delete) and the commands of
--                      CourseWork/src/cli, restore.c, purge.c and main.c (Trash/Commands), on a file
--                      system that is the record `Disk`; Trash/Info is the note beside a deleted
--                      file, Trash/Listing is CourseWork/src/cli/list.c, Trash/Memory a file
--                      system to try the theorems on.
--   Browser            CourseWork/src/cli/browser.c: its entries and rows (Browser/Entries) and its
--                      loop of keys (Browser/Keys), which calls the commands of Trash; the
--                      other windows are Browser/Panels.
--   Remote             lab08/src: one connection of server.c (Remote/Server), client.c against it
--                      (Remote/Client), and the server's list of connections whose threads have not
--                      started (Remote/Pending); Remote/Start is the start of both programs.
--   Tests              the theorems at concrete inputs.
--
-- Counters that C keeps in an `int` or a `size_t` and that stay small are plain natural numbers; the
-- arithmetic that wraps is written with `%` (the hash, the bytes, the index -1 of lab03, the sizes
-- of lab06's files, the ports of lab08). Numbers in texts are read in full, also where they do not
-- fit into the C type, which C leaves undefined. The system gives new thread and process numbers,
-- what `scandir` and `lstat` find, what users type and what other processes do to a file: these are
-- inputs. `qsort` and the order of doubles are parameters of SortIndex, with their documented
-- behaviour as hypotheses.
--
-- Loops carry the rounds that are left as their first argument. `level_loop` starts with the number
-- of blocks and `chunk_loop` with the expected size, which are more than the rounds they can make;
-- the claims of SortIndex/Claims start with the length of the map, and a claim marks an entry.
-- SortIndex/Program starts with one round more than the file has entries, each round sorts one at
-- least, and its theorems include that it ends. The loops over the lines of a file start with the
-- file's length in bytes, and each line has one at least (Environment/Files).
--
-- The client's loop in Remote/Client has one round more than the bytes it can read, and each round
-- reads a byte. What Trash and Browser call is a parameter: `Disk` with its laws as named hypotheses,
-- and `Library`; so is `Host` for Remote. Arrays of PATH_MAX bytes are taken to be large enough in
-- Trash; Remote and Browser cut what they write there. A request arrives whole in one `recv`.
--
-- Not modelled: a system call that fails where the source only reports it or stops (`malloc`,
-- `realloc`, `open`, `write`, a later `semop`); most output, prompts above all; two merges of one
-- pair that overlap in time, whose runs are left out; a `pthread_create` or a `pthread_join` of
-- lab05/src/5.2/main.c that fails or never returns; threads of lab08/src/server.c that run on behind
-- SIGINT, and its `chdir` to a relative root; the calls of curses; a `pthread_create` that fails in
-- lab08; the random time marks of lab06/src/gen.c, and rounding in its `double`s;
-- lab05/src/5.1/main.c, which does not compile against its header; the `printf` of lab06/src/view.c.
pub mod Prelude
pub mod Message
pub mod Ring
pub mod CondQueue
pub mod SemQueue
pub mod SharedQueue
pub mod SortIndex
pub mod Supervisor
pub mod Statistics
pub mod Records
pub mod Dirwalk
pub mod Environment
pub mod Trash
pub mod Remote
pub mod Browser
pub mod Tests
