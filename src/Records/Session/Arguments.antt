-- ===== src/Records/Session/Arguments.antt =====
-- The two ways to give a command to lab07/src/main.c: as arguments, or as a line.
use osi_s.Prelude.{
  ◌<◌, length, ℕ, ◌≡◌, refl, sym, ap, ap₂, ◌∙◌, subst, inl, inr, Bool, true, false, not, ◌&&◌,
  Option, none, some, List, [], ◌∷◌, ◌++◌, append_assoc, arith, ◌==◌, Bool-cases, Text, bytes, same,
  has, before, before_all, same_path, has-append, before-append,
}
use osi_s.Records.{File, Prefix}
use osi_s.Records.Session.{
  max_cmd_len, atoi, word, skip_blanks, after_word, strtok, Command, blank, lst, init, quit, usage,
  unknown, get, put, with_number, argument, parse_words, parse_line, Printed, Around, interactive,
  goes_on, parse_arguments, run_if, with_arguments,
}

-- A word that `strtok` finds whole.
abbrev pub clean : Text → Bool
clean text = not (has b' ' text) && (not (has b'\n' text) && not (has 0 text))

word-append : (a b : Text) → has b' ' a ≡ false → word (a ++ (b' ' ∷ b)) ≡ a
unfolding word has
word-append [] b h = ground arith
word-append (c ∷ a) b h = ground (arith, word-append a b)

after_word-append : (a b : Text) → has b' ' a ≡ false → after_word (a ++ (b' ' ∷ b)) ≡ b
unfolding after_word has
after_word-append [] b h = ground arith
after_word-append (c ∷ a) b h = ground (arith, after_word-append a b)

word_all : (a : Text) → has b' ' a ≡ false → word a ≡ a
unfolding word has
word_all [] h = refl
word_all (c ∷ a) h = ground (arith, word_all a)

skip_blanks_first : (c : ℕ) (a : Text) → (c == b' ') ≡ false → skip_blanks (c ∷ a) ≡ c ∷ a
unfolding skip_blanks
skip_blanks_first c a h = ground arith

-- A line of two words, with its newline.
line_text :
    (a b : Text)
    → clean a ≡ true
    → clean b ≡ true
    → before b'\n' (before 0 (a ++ (b' ' ∷ (b ++ (b'\n' ∷ []))))) ≡ a ++ (b' ' ∷ b)
unfolding has
line_text a b h k =
    let body = a ++ (b' ' ∷ b) in
    ap (before b'\n') (before_all 0 _ whole ∙ sym (append_assoc a (b' ' ∷ b) (b'\n' ∷ [])))
    ∙ before-append b'\n' body [] inside
  where
    whole : has 0 (a ++ (b' ' ∷ (b ++ (b'\n' ∷ [])))) ≡ false
    whole = ground (arith, has-append 0 a (b' ' ∷ (b ++ (b'\n' ∷ []))), has-append 0 b (b'\n' ∷ []))

    inside : has b'\n' (a ++ (b' ' ∷ b)) ≡ false
    inside = ground (arith, has-append b'\n' a (b' ' ∷ b))

strtok_two :
    (c : ℕ) (a b : Text) → has b' ' (c ∷ a) ≡ false → strtok ((c ∷ a) ++ (b' ' ∷ b)) ≡ (c ∷ a, b)
unfolding strtok has
strtok_two c a b h =
    ap (λ t. (word t, after_word t)) (skip_blanks_first c (a ++ (b' ' ∷ b)) (ground arith))
    ∙ ap₂ (λ (x y : Text). (x, y)) (word-append (c ∷ a) b h) (after_word-append (c ∷ a) b h)

argument_word : (d : ℕ) (b : Text) → has b' ' (d ∷ b) ≡ false → argument (d ∷ b) ≡ d ∷ b
unfolding strtok has
argument_word d b h = ap word (skip_blanks_first d b (ground arith)) ∙ word_all (d ∷ b) h

abbrev pub typed : Text → Text → Text
typed cmd number = cmd ++ (b' ' ∷ (number ++ (b'\n' ∷ [])))

parse_line_two :
    (c : ℕ) (cs number : Text)
    → clean (c ∷ cs) ≡ true
    → clean number ≡ true
    → parse_line (typed (c ∷ cs) number) ≡ parse_words (c ∷ cs) number
unfolding parse_line
parse_line_two c cs number h k =
    ap (λ (p : Text × Text). parse_words p.0 p.1)
      (ap strtok (line_text (c ∷ cs) number h k) ∙ strtok_two c cs number (ground arith))

module _ (d : ℕ) (ds : Text) (k : clean (d ∷ ds) ≡ true) where
  line_lst : parse_line (typed (bytes "LST") (d ∷ ds)) ≡ lst
  unfolding parse_words same has
  line_lst = parse_line_two b'L' (bytes "ST") (d ∷ ds) refl k

  line_get : parse_line (typed (bytes "GET") (d ∷ ds)) ≡ get (atoi (d ∷ ds))
  unfolding parse_words same has
  line_get =
      parse_line_two b'G' (bytes "ET") (d ∷ ds) refl k
      ∙ ap (with_number get) (argument_word d ds (ground arith))

  line_put : parse_line (typed (bytes "PUT") (d ∷ ds)) ≡ put (atoi (d ∷ ds))
  unfolding parse_words same has
  line_put =
      parse_line_two b'P' (bytes "UT") (d ∷ ds) refl k
      ∙ ap (with_number put) (argument_word d ds (ground arith))

  -- The three commands that arguments can give.
  typed_argument :
      (cmd word : Text) (command given : Command)
      → parse_line (typed word (d ∷ ds)) ≡ given
      → same cmd word ≡ true
      → given ≡ command
      → parse_line (typed cmd (d ∷ ds)) ≡ command
  typed_argument cmd word command given e h q =
      subst (λ (c : Text). parse_line (typed c (d ∷ ds)) ≡ command) (same_path cmd word h) (e ∙ q)

  parse_line-parse_arguments :
      (cmd : Text) (command : Command)
      → parse_arguments (cmd ∷ (d ∷ ds) ∷ []) ≡ some command
      → parse_line (typed cmd (d ∷ ds)) ≡ command
  parse_line-parse_arguments cmd command e = elim (Bool-cases (same cmd (bytes "LST"))) [
    | inl h ↦ typed_argument cmd (bytes "LST") command lst line_lst h (ground arith)
    | inr h ↦ elim (Bool-cases (same cmd (bytes "GET"))) [
      | inl g ↦
          typed_argument cmd (bytes "GET") command (get (atoi (d ∷ ds))) line_get g (ground arith)
      | inr g ↦ elim (Bool-cases (same cmd (bytes "PUT"))) [
        | inl p ↦
            typed_argument cmd (bytes "PUT") command (put (atoi (d ∷ ds))) line_put p (ground arith)
        | inr p ↦ absurd (ground arith)
      ]
    ]
  ]

goes_on-parse_arguments :
    (cmd number : Text) (command : Command)
    → parse_arguments (cmd ∷ number ∷ []) ≡ some command
    → goes_on command ≡ true
goes_on-parse_arguments cmd number blank e = refl
goes_on-parse_arguments cmd number lst e = refl
goes_on-parse_arguments cmd number init e = refl
goes_on-parse_arguments cmd number quit e = ground arith
goes_on-parse_arguments cmd number usage e = refl
goes_on-parse_arguments cmd number unknown e = refl
goes_on-parse_arguments cmd number (get i) e = refl
goes_on-parse_arguments cmd number (put i) e = refl

-- A command that is accepted as two arguments does the same, on the same file and with the same
-- things going on around it, as the line of the two words in a session: it prints the same and leaves
-- the same file. The second word is one without blanks, newlines or NULs, and the line fits into one
-- `fgets`.
pub interactive-with_arguments :
    (text : Prefix → ℕ → List ℕ) (cmd : Text) (d : ℕ) (ds : Text) (a : Around) (file : Option File)
    (r : Printed × Option File)
    → clean (d ∷ ds) ≡ true
    → length (typed cmd (d ∷ ds)) < max_cmd_len
    → with_arguments text (cmd ∷ (d ∷ ds) ∷ []) a file ≡ some r
    → interactive text ((typed cmd (d ∷ ds), a) ∷ []) file ≡ (r.0 ∷ [], r.1)
unfolding with_arguments interactive
interactive-with_arguments text cmd d ds a file r k fits e =
    accepted (parse_arguments (cmd ∷ (d ∷ ds) ∷ [])) refl e
  where
    ends : Option (Printed × Option File) → List Printed × Option File
    ends none = ([], file)
    ends (some (said, next)) = (said ∷ [], next)

    accepted :
        (o : Option Command)
        → parse_arguments (cmd ∷ (d ∷ ds) ∷ []) ≡ o
        → run_if text o a file ≡ some r
        → interactive text ((typed cmd (d ∷ ds), a) ∷ []) file ≡ (r.0 ∷ [], r.1)
    accepted none q e = cc
    accepted (some command) q e =
        rw
          (
            parse_line-parse_arguments d ds k cmd command q,
            goes_on-parse_arguments cmd (d ∷ ds) command q,
          )
          (ap (λ (o : Option (Printed × Option File)). ends o) e)
