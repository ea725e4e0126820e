-- ===== src/Remote/Directory.antt =====
-- The directory that a connection stands in (lab08/src/server.c, CD and LIST): what LIST opens after
-- CDs, for a root that `realpath` can lead back to, and for others.
use osi_s.Prelude.{
  ℕ, ◌<◌, ◌≡◌, refl, sym, ap, ◌∙◌, subst, ◌≢◌, ◌⊎◌, inl, inr, true, false, some, [], ◌∷◌, ◌++◌,
  append-nil, append_assoc, arith, ==_iff, Bool-cases, Option-cases, length, take, drop,
  length-append, Text, starts_with, take_all, starts_with_self, drop_prefix, starts_with_split,
}
use osi_s.Remote.{Host, Site}
use osi_s.Remote.Server.{slash, fit, list_path, cd_path, skip_slash, resolved, change_dir}
use osi_s.Remote.Scripts.{IsReached, start, changed}

-- What follows the root in a resolved path, without one '/'.
resolved-root :
    (S : Site) (dir sub : Text) → resolved S dir (some (S.root_dir ++ sub)) ≡ skip_slash sub
unfolding resolved
resolved-root S dir sub = rw (starts_with_self S.root_dir sub, drop_prefix S.root_dir sub) refl

list_path_short :
    (S : Site) (sub : Text)
    → length (S.root_dir ++ (b'/' ∷ sub)) < 4096
    → list_path S sub ≡ S.root_dir ++ (b'/' ∷ sub)
unfolding list_path fit
list_path_short S sub k =
    ap (take 4095) (append_assoc S.root_dir slash sub)
    ∙ take_all 4095 (S.root_dir ++ (b'/' ∷ sub)) (omega arith)

change_dir-realpath :
    (H : Host) (S : Site) (dir arg sub : Text)
    → H.realpath (cd_path S dir arg) ≡ some (S.root_dir ++ sub)
    → change_dir H S dir arg ≡ skip_slash sub
unfolding change_dir
change_dir-realpath H S dir arg sub e = ap (resolved S dir) e ∙ resolved-root S dir sub

-- After a CD that resolves to a path below the root, LIST opens that path.
pub list_path-change_dir :
    (H : Host) (S : Site) (dir arg sub : Text)
    → H.realpath (cd_path S dir arg) ≡ some (S.root_dir ++ (b'/' ∷ sub))
    → length (S.root_dir ++ (b'/' ∷ sub)) < 4096
    → list_path S (change_dir H S dir arg) ≡ S.root_dir ++ (b'/' ∷ sub)
unfolding skip_slash
list_path-change_dir H S dir arg sub e k =
    ap (list_path S) (change_dir-realpath H S dir arg (b'/' ∷ sub) e) ∙ list_path_short S sub k

-- After a CD that resolves to a neighbour of the root, whose path is the root's and more bytes that
-- begin with no '/', and that fits into the arrays, LIST opens another path: those bytes as a name
-- below the root.
pub list_path_neighbour :
    (H : Host) (S : Site) (dir arg sub : Text) (c : ℕ)
    → c ≢ b'/'
    → H.realpath (cd_path S dir arg) ≡ some (S.root_dir ++ (c ∷ sub))
    → length (S.root_dir ++ (c ∷ sub)) < 4095
    → list_path S (change_dir H S dir arg) ≡ S.root_dir ++ (b'/' ∷ c ∷ sub)
unfolding skip_slash
list_path_neighbour H S dir arg sub c n e k =
    ap (list_path S) (change_dir-realpath H S dir arg (c ∷ sub) e ∙ stays)
    ∙ list_path_short S (c ∷ sub) (
        omega
          (arith, length-append S.root_dir (c ∷ sub), length-append S.root_dir (b'/' ∷ c ∷ sub)))
  where
    stays : skip_slash (c ∷ sub) ≡ c ∷ sub
    stays = ground (arith, ==_iff c b'/')

resolved_outside :
    (S : Site) (dir real : Text)
    → starts_with S.root_dir real ≡ false
    → resolved S dir (some real) ≡ dir
unfolding resolved
resolved_outside S dir real h = rw (h) refl

relative_prefix :
    (c : ℕ) (root real : Text)
    → c ≢ b'/'
    → starts_with slash real ≡ true
    → starts_with (c ∷ root) real ≡ false
unfolding starts_with
relative_prefix c root [] n h = refl
relative_prefix c root (d ∷ real) n h = ground (arith, ==_iff c d)

-- With a root given by a relative name, no CD ever changes the directory.
pub change_dir_relative :
    (H : Host) (S : Site) (dir arg root : Text) (c : ℕ)
    → ((path real : Text) → H.realpath path ≡ some real → starts_with slash real ≡ true)
    → S.root_dir ≡ c ∷ root
    → c ≢ b'/'
    → change_dir H S dir arg ≡ dir
unfolding change_dir resolved starts_with
change_dir_relative H S dir arg root c h e n =
    elim (Option-cases (H.realpath (cd_path S dir arg))) [
      | inl q ↦ ap (resolved S dir) q
      | inr (real, q) ↦
          ap (resolved S dir) q
          ∙ resolved_outside S dir real (
              ap (λ r. starts_with r real) e
              ∙ relative_prefix c root real n (h (cd_path S dir arg) real q))
    ]

-- What `realpath` gives inside the root is the root or below it, and fits.
pub record IsApart (H : Host) (S : Site) : Type 0 where
  pub below :
      (path real : Text)
      → H.realpath path ≡ some real
      → starts_with S.root_dir real ≡ true
      → (real ≡ S.root_dir) ⊎ (starts_with (S.root_dir ++ slash) real ≡ true)
  pub short : (path real : Text) → H.realpath path ≡ some real → length real < 4096
  pub root_short : length S.root_dir < 4095

abbrev Opens : Host → Site → Text → Type 0
Opens H S dir =
    (list_path S dir ≡ S.root_dir ++ slash)
    ⊎ ((path : Text) × (H.realpath path ≡ some (list_path S dir)))

root-Opens : (H : Host) (S : Site) → IsApart H S → Opens H S []
root-Opens H S a =
    inl (list_path_short S [] (omega (arith, a.root_short, length-append S.root_dir slash)))

inside-Opens :
    (H : Host) (S : Site) (dir path real : Text)
    → IsApart H S
    → H.realpath path ≡ some real
    → starts_with S.root_dir real ≡ true
    → Opens H S (resolved S dir (some real))
unfolding skip_slash
inside-Opens H S dir path real a q s = elim (a.below path real q s) [
  | inl e ↦
      subst (Opens H S)
        (sym (
          ap (λ r. resolved S dir (some r)) (e ∙ sym (append-nil S.root_dir))
          ∙ resolved-root S dir []))
        (root-Opens H S a)
  | inr below ↦
      below-Opens (drop (length (S.root_dir ++ slash)) real)
        (sym (append_assoc S.root_dir slash _) ∙ starts_with_split (S.root_dir ++ slash) real below)
]
  where
    below-Opens :
        (sub : Text) → S.root_dir ++ (b'/' ∷ sub) ≡ real → Opens H S (resolved S dir (some real))
    below-Opens sub e =
        subst (λ r. Opens H S (resolved S dir (some r))) e
          (subst (Opens H S) (sym (resolved-root S dir (b'/' ∷ sub))) (
            inr (
              path,
              q
                  ∙ ap some (
                      sym e
                      ∙ sym (
                          list_path_short S sub (omega (arith, a.short path real q, ap length e)))),
            )))

-- After any CDs, what LIST opens is the root or a path that `realpath` has given: where the paths that
-- begin with the root's name are the root and those below it, and they fit into the arrays.
pub list_path-IsReached :
    (H : Host) (S : Site) (dir : Text)
    → IsApart H S
    → IsReached H S dir
    → (list_path S dir ≡ S.root_dir ++ slash)
      ⊎ ((path : Text) × (H.realpath path ≡ some (list_path S dir)))
unfolding change_dir resolved
list_path-IsReached H S _ a start = root-Opens H S a
list_path-IsReached H S _ a (changed dir arg p) =
    elim (Option-cases (H.realpath (cd_path S dir arg))) [
      | inl q ↦ subst (Opens H S) (sym (ap (resolved S dir) q)) (list_path-IsReached H S dir a p)
      | inr (real, q) ↦
          subst (Opens H S) (sym (ap (resolved S dir) q))
            (elim (Bool-cases (starts_with S.root_dir real)) [
              | inl s ↦ inside-Opens H S dir (cd_path S dir arg) real a q s
              | inr s ↦
                  subst (Opens H S) (sym (resolved_outside S dir real s))
                    (list_path-IsReached H S dir a p)
            ])
    ]
