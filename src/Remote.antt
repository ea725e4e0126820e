-- ===== src/Remote.antt =====
-- lab08's file server and its client (lab08/src/server.c, lab08/src/client.c): what the server asks
-- of its file system, what is fixed when it starts, and the texts that both sides name.
pub mod Server
pub mod Client
pub mod Lines
pub mod Listing
pub mod Session
pub mod Scripts
pub mod Waiting
pub mod Directory
pub mod Pending
pub mod Start
use osi_s.Prelude.{
  ℕ, zero, suc, ◌+◌, ◌-◌, ◌*◌, ◌/◌, ◌%◌, ◌≤◌, ◌<◌, min, ◌≡◌, refl, sym, ap, ap₂, ◌∙◌, subst, ◌≢◌,
  ◌↔◌, ◌⊎◌, inl, inr, Bool, true, false, not, ◌&&◌, ◌||◌, Option, none, some, List, [], ◌∷◌, ◌++◌,
  append-nil, append_assoc, map, reverse, arith, ltb, leb, ◌==◌, if◌then◌else◌, ==_iff, Bool-cases,
  Option-cases, length, take, drop, length-append, length-take, length-drop, Text, bytes, same,
  starts_with, has, before, fgets, same_iff, starts_with-append, starts_with_self, drop_prefix,
  has-append, fgets-line, fgets_cut, before-append,
}

-- What `lstat` says of a file.
pub data Kind : Type 0 where
  directory : Kind
  link : Kind
  other : Kind

-- The file system, which the server only calls. `opendir` gives the names in the order of
-- `readdir`, and `is_regular` is `stat(path) == 0 && S_ISREG`.
pub record Host : Type 0 where
  pub realpath : Text → Option Text
  pub opendir : Text → Option (List Text)
  pub lstat : Text → Option Kind
  pub readlink : Text → Option Text
  pub is_regular : Text → Bool
  -- The byte that stands in memory after the text of INFO's error answer.
  pub stray : ℕ

-- `root_dir`, and `info_buf` with its `info_len` bytes.
pub record Site : Type 0 where
  pub root_dir : Text
  pub info_buf : Option Text

abbrev pub crlf : Text
crlf = b'\r' ∷ b'\n' ∷ []
