-- ===== src/Remote/Start/Relative.antt =====
-- A server of lab08 that is given its root directory as a relative path.
use osi_s.Prelude.{
  ℕ, ◌≡◌, refl, ◌∙◌, true, false, Option, none, some, List, [], ◌∷◌, ◌++◌, arith, ◌==◌, drop, Text,
  starts_with, if_both,
}
use osi_s.Remote.{Host, Site}
use osi_s.Remote.Server.{
  slash, cd_path, resolved, change_dir, Turn, strtok, dispatch, handle, serve,
}
use osi_s.Remote.Start.{ServerCalls, load}

resolved_relative :
    (S : Site) (dir : Text) (o : Option Text) (c : ℕ) (root : Text)
    → S.root_dir ≡ c ∷ root
    → (c == b'/') ≡ false
    → ((real : Text) → o ≡ some real → starts_with slash real ≡ true)
    → resolved S dir o ≡ dir
unfolding resolved starts_with
resolved_relative S dir none c root r n h = refl
resolved_relative S dir (some []) c root r n h = rw r refl
resolved_relative S dir (some (d ∷ real)) c root r n h =
    let absolute = h (d ∷ real) refl in rw r (ground arith)

module _ (H : Host)
    (absolute : (p real : Text) → H.realpath p ≡ some real → starts_with slash real ≡ true)
    (S : Site) (c : ℕ) (root : Text) (is_root : S.root_dir ≡ c ∷ root)
    (relative : (c == b'/') ≡ false) where
  abbrev Stays : Text → Turn → Type 0
  Stays dir t = t.curr_dir ≡ dir

  dispatch_stays : (dir cmd : Text) → (dispatch H S dir cmd).curr_dir ≡ dir
  unfolding dispatch change_dir
  dispatch_stays dir [] = refl
  dispatch_stays dir (d ∷ ds) = ground (
    arith,
    resolved_relative S dir (H.realpath (cd_path S dir (drop 3 (d ∷ ds)))) c root is_root relative
        (absolute (cd_path S dir (drop 3 (d ∷ ds)))),
  )

  serve_stays : (dir : Text) (buffers : List Text) → (serve H S dir buffers).1 ≡ dir
  unfolding serve handle
  serve_stays dir [] = refl
  serve_stays dir (buffer ∷ buffers) =
      let t = handle H S dir buffer in
      let same_dir : t.curr_dir ≡ dir = dispatch_stays dir (strtok buffer) in
      let (sent, last) = serve H S t.curr_dir buffers in
      if_both (λ (r : Text × Text). r.1 ≡ dir) t.is_open (t.sent ++ sent, last) (t.sent, t.curr_dir)
        (serve_stays t.curr_dir buffers ∙ same_dir) same_dir

-- Where the root directory was given as a relative path, one that does not begin with '/', no CD
-- changes the directory of a session, whatever a client sends: the absolute path that `realpath`
-- gives never begins with the root's. Where LIST then looks, behind `chdir`, is not part of this.
serve-load :
    (H : Host) (C : ServerCalls) (c : ℕ) (root : Text) (buffers : List Text)
    → ((p real : Text) → H.realpath p ≡ some real → starts_with slash real ≡ true)
    → (c == b'/') ≡ false
    → (serve H (load C (c ∷ root)) [] buffers).1 ≡ []
unfolding load
serve-load H C c root buffers absolute relative =
    serve_stays H absolute (load C (c ∷ root)) c root refl relative [] buffers
