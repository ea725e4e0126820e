-- ===== src/Remote/Start.antt =====
-- How the programs of lab08 start: `main` of server.c up to its accept loop, and `main` of client.c up
-- to its connection.
pub mod Ports
pub mod Relative
use osi_s.Prelude.{
  ◌^◌, Perm, take-append-drop, length-replicate, ℕ, zero, suc, ◌+◌, ◌-◌, ◌*◌, ◌/◌, ◌%◌, ◌≤◌, ◌<◌,
  min, ◌≡◌, refl, sym, ap, ap₂, ◌∙◌, subst, ◌≢◌, ◌↔◌, ◌⊎◌, inl, inr, Bool, true, false, not, ◌&&◌,
  ◌||◌, Option, none, some, List, [], ◌∷◌, ◌++◌, append-nil, append_assoc, map, reverse, arith, ltb,
  leb, ◌==◌, if◌then◌else◌, ==_iff, Bool-cases, Option-cases, length, take, drop, length-append,
  length-take, length-drop, Text, bytes, same, starts_with, has, before, before_all, has-take,
  take_all, take-append_le, dec_lt, dec_le, fgets, same_iff, starts_with-append, starts_with_self,
  drop_prefix, ℕ_discrete, if_both, take-append, starts_with_split, same_path, has-append,
  fgets-line, fgets_cut, before-append, is_space, is_digit, all_digits, read_digits, scan_number,
  scan_number-append, skip_spaces,
}
use osi_s.Remote.{Site}
use osi_s.Remote.Server.{fit, path_max}

-- `atoi`, then `htons` of its low 16 bits.
abbrev pub low_16 : Option (Bool × ℕ) → ℕ
low_16 none = 0
low_16 (some (false, n)) = n % 65536
low_16 (some (true, n)) = (65536 - n % 65536) % 65536

unfoldable pub port_of : Text → ℕ
port_of text = low_16 (scan_number text)

-- The calls that `main` of server.c checks; `fopen` gives what a file holds.
pub record ServerCalls : Type 0 where
  pub fopen : Text → Option Text
  pub chdir : Text → Bool
  pub socket : Bool
  pub bind : ℕ → Bool
  pub listen : Bool

pub data Server : Type 0 where
  usage : Server
  died : Text → Server
  listening : ℕ → Site → Server

-- `info_buf` is the whole of "info.txt". For an absolute root `chdir(root_dir)` changes no path that the
-- server uses; for a relative one it does, and that is left out.
unfoldable pub load : ServerCalls → Text → Site
load C root = record {
  root_dir = root;
  info_buf = C.fopen (fit path_max (root ++ bytes "/info.txt"));
}

unfoldable pub server_main : ServerCalls → List Text → Server
server_main C (prog ∷ root ∷ number ∷ []) =
    let port = port_of number in
    if not (C.chdir root)
    then died (bytes "chdir root_dir")
    else if not C.socket
    then died (bytes "socket")
    else if not (C.bind port)
    then died (bytes "bind")
    else if not C.listen
    then died (bytes "listen")
    else listening port (load C root)
server_main C argv = usage

-- `strchr(text, c)`
unfoldable pub strchr : ℕ → Text → Option Text
strchr c [] = none
strchr c (d ∷ ds) = let rest = strchr c ds in if d == c then some (d ∷ ds) else rest

-- The address in the array of INET_ADDRSTRLEN bytes, and the port, of "ip:port".
abbrev pub address_at : Text → Option Text → Option (Text × ℕ)
address_at text none = none
address_at text (some sep) =
    some (take 15 (take (length text - length sep) text), port_of (drop 1 sep))

unfoldable pub parse_address : Text → Option (Text × ℕ)
parse_address text = address_at text (strchr b':' text)

-- The calls that `main` of client.c checks.
pub record ClientCalls : Type 0 where
  pub socket : Bool
  pub inet_pton : Text → Bool
  pub connect : Text → ℕ → Bool
  pub fdopen : Bool

pub data Client : Type 0 where
  usage failed invalid : Client
  died : Text → Client
  connected : Text → ℕ → Client

unfoldable pub connecting : ClientCalls → Option (Text × ℕ) → Client
connecting C none = invalid
connecting C (some (ip, port)) =
    if not C.socket
    then died (bytes "socket")
    else if not (C.inet_pton ip)
    then died (bytes "inet_pton")
    else if not (C.connect ip port)
    then died (bytes "connect")
    else if C.fdopen
    then connected ip port
    else failed

unfoldable pub client_main : ClientCalls → List Text → Client
client_main C (prog ∷ address ∷ []) = connecting C (parse_address address)
client_main C argv = usage
