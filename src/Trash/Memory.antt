-- ===== src/Trash/Memory.antt =====
-- A file system in memory that keeps what `IsLawful` asks: a function from paths to what stands there.
-- `realpath` gives what `follow` says, `readdir` finds the names that are given, and a tree is its root alone.
use osi_s.Prelude.{
  ◌≡◌, sym, ap, ◌∙◌, List, [], ◌∷◌, ◌++◌, Bool, Option, none, some, if◌then◌else◌, Text, same,
  length, drop, drop_prefix,
}
use osi_s.Trash.{Disk, IsLawful, Node, regular, directory, link, under, is_directory, AllUnder}
use osi_s.Trash.Paths.Apart.{under_self}

abbrev pub Memory : Type 0
Memory = Text → Option Node

abbrev pub put : Text → Option Node → Memory → Memory
put a n s = λ p. if same a p then n else s p

abbrev pub carry : Text → Text → Memory → Memory
carry a b s = λ p. if under b p then s (a ++ drop (length b) p) else if under a p then none else s p

abbrev when_there : Option Node → Memory → Option Memory
when_there none s = none
when_there (some n) s = some s

abbrev when_file : Option Node → Memory → Option Memory
when_file (some (regular text)) s = some s
when_file (some (link target)) s = some s
when_file _ s = none

abbrev when_directory : Option Node → Memory → Option Memory
when_directory (some directory) s = some s
when_directory _ s = none

abbrev when_absent : Option Node → Memory → Option Memory
when_absent none s = some s
when_absent (some n) s = none

abbrev real_path : Text → Option Node → Option Text
real_path p none = none
real_path p (some n) = some p

abbrev tree : Text → Option Node → List (Text × Bool)
tree p none = []
tree p (some n) = (p, is_directory n) ∷ []

abbrev pub memory_disk : (Text → Text) → List Text → Disk
memory_disk follow names = record {
  State = Memory;
  lstat = λ s p. s p;
  stat = λ s p. s p;
  realpath = λ s p. real_path (follow p) (s p);
  names = λ s p. some names;
  walk = λ s p. tree p (s p);
  rename = λ s a b. when_there (s a) (carry a b s);
  unlink = λ s a. when_file (s a) (put a none s);
  rmdir = λ s a. when_directory (s a) (put a none s);
  write = λ s a text. some (put a (some (regular text)) s);
  mkdir = λ s a. when_absent (s a) (put a (some directory) s);
  overrun = λ s id. (s, 1);
}

or_else : Memory → Option Memory → Memory
or_else s none = s
or_else s (some t) = t

there_eq : (o : Option Node) (s t : Memory) → when_there o s ≡ some t → s ≡ t
there_eq none s t e = cc
there_eq (some n) s t e = cc

file_eq : (o : Option Node) (s t : Memory) → when_file o s ≡ some t → s ≡ t
file_eq none s t e = cc
file_eq (some directory) s t e = cc
file_eq (some (regular text)) s t e = cc
file_eq (some (link target)) s t e = cc

directory_eq : (o : Option Node) (s t : Memory) → when_directory o s ≡ some t → s ≡ t
directory_eq none s t e = cc
directory_eq (some directory) s t e = cc
directory_eq (some (regular text)) s t e = cc
directory_eq (some (link target)) s t e = cc

absent_eq : (o : Option Node) (s t : Memory) → when_absent o s ≡ some t → s ≡ t
absent_eq none s t e = cc
absent_eq (some n) s t e = cc

written_eq : (s t : Memory) → ◌≡◌ {A = Option Memory} (some s) (some t) → s ≡ t
written_eq s t e = cc

tree_under : (a : Text) (o : Option Node) → AllUnder a (tree a o)
tree_under a none = tt
tree_under a (some n) = (under_self a, tt)

pub memory_disk-IsLawful :
    (follow : Text → Text) (names : List Text) → IsLawful (memory_disk follow names)
memory_disk-IsLawful follow names = record {
  lstat-rename_new = λ s t a b rest e h.
      ap (λ f. f (b ++ rest)) (sym (there_eq (s a) _ t e))
      ∙ ap
          (λ c.
            if c
            then s (a ++ drop (length b) (b ++ rest))
            else if under a (b ++ rest)
            then none
            else s (b ++ rest))
          h
      ∙ ap (λ r. s (a ++ r)) (drop_prefix b rest);
  lstat-rename_old = λ s t a b p e h k.
      ap (λ f. f p) (sym (there_eq (s a) _ t e))
      ∙ ap (λ c. if c then s (a ++ drop (length b) p) else if under a p then none else s p) k
      ∙ ap (λ c. if c then none else s p) h;
  lstat-rename_other = λ s t a b p e h k.
      ap (λ f. f p) (sym (there_eq (s a) _ t e))
      ∙ ap (λ c. if c then s (a ++ drop (length b) p) else if under a p then none else s p) k
      ∙ ap (λ c. if c then none else s p) h;
  lstat-unlink = λ s t a p e. ap (λ f. f p) (sym (file_eq (s a) _ t e));
  lstat-rmdir = λ s t a p e. ap (λ f. f p) (sym (directory_eq (s a) _ t e));
  lstat-write = λ s t a text p e. ap (λ f. f p) (sym (written_eq _ t e));
  lstat-mkdir = λ s t a p e. ap (λ f. f p) (sym (absent_eq (s a) _ t e));
  stat_regular = λ s p text h. h;
  walk_under = λ s a. tree_under a (s a);
}
