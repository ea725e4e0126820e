-- ===== src/Environment/Files.antt =====
-- The loops over env.txt (lab02/src/parent.c, child.c) read the whole file.
use osi_s.Prelude.{
  ℕ, zero, suc, ◌≤◌, ◌≡◌, refl, ap, ◌∙◌, inl, inr, List, [], ◌∷◌, ◌++◌, arith, ◌==◌, Bool-cases,
  length, length-append, Text, fgets,
}
use osi_s.Environment.{read_lines, file_lines}

fgets-append : (n : ℕ) (text : Text) → (fgets n text).0 ++ (fgets n text).1 ≡ text
unfolding fgets
fgets-append zero text = refl
fgets-append (suc n) [] = refl
fgets-append (suc n) (c ∷ cs) = elim (Bool-cases (c == b'\n')) [
  | inl e ↦ rw e refl
  | inr e ↦ rw e (ap (◌∷◌ c) (fgets-append n cs))
]

fgets-length : (n c : ℕ) (cs : Text) → length (fgets (suc n) (c ∷ cs)).1 ≤ length cs
unfolding fgets
fgets-length n c cs = elim (Bool-cases (c == b'\n')) [
  | inl e ↦ rw e (omega arith)
  | inr e ↦
      rw e
        (omega (arith, ap length (fgets-append n cs), length-append (fgets n cs).0 (fgets n cs).1))
]

abbrev joined : List Text → Text
joined [] = []
joined (line ∷ lines) = line ++ joined lines

joined-read_lines : (n : ℕ) (file : Text) → length file ≤ n → joined (read_lines n file) ≡ file
unfolding read_lines
joined-read_lines zero [] h = refl
joined-read_lines zero (c ∷ cs) h = absurd (omega arith)
joined-read_lines (suc n) [] h = refl
joined-read_lines (suc n) (c ∷ cs) h =
    ap (◌++◌ (fgets 255 (c ∷ cs)).0)
      (joined-read_lines n (fgets 255 (c ∷ cs)).1 (omega (arith, fgets-length 254 c cs)))
    ∙ fgets-append 255 (c ∷ cs)

-- The lines that the loop reads are the file.
joined-file_lines : (file : Text) → joined (file_lines file) ≡ file
joined-file_lines file = joined-read_lines (length file) file (omega arith)
