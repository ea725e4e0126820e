-- ===== src/Records/Put.antt =====
-- `cmd_put` of lab07/src/main.c against other processes: its updates and its locks.
use osi_s.Prelude.{
  ◌≡◌, ◌≢◌, refl, sym, ap, ◌∙◌, List, [], ◌∷◌, Bool, true, false, Option, none, some, inl, inr, ◌⊎◌,
  subst,
}
use mathlib.Core.Logic.{ite, if_pos, if_neg}
use osi_s.Records.{
  ℤ, Record, Record-discrete, File, read_record, write_record, Round, edit, lock_failed, left,
  updated, Act, locked, unlocked, wrote, closed, Result, finish, put_locked, if_granted, put_round,
  cmd_put,
}

-- The others have made `g` of the file where `cmd_put` last read it, and `h` of it by the end.
abbrev pub Others : List Round → File → File → File → Type 0
Others [] file g h = (file ≡ g) × (file ≡ h)
Others (r ∷ rounds) file g h =
    ((file ≡ g) × (file ≡ h))
    ⊎ (((r.others file ≡ g) × (r.others file ≡ h))
        ⊎ (((r.others file ≡ g) × (r.since (r.others file) ≡ h))
            ⊎ Others rounds (r.meanwhile (r.since (r.others file))) g h))

Others-refl : (rounds : List Round) (file : File) → Others rounds file file file
Others-refl [] file = (refl, refl)
Others-refl (r ∷ rounds) file = inl (refl, refl)

-- A result where the others left `g` and then `h`: the record that the user saw stood in `g` and the
-- edited one is written into `h`, or `h` is left as it is and no update is reported.
abbrev pub IsSafe : ℤ → File → File → Result → Type 0
IsSafe rec_no g h r =
    ((orig : Record) × (work : Record) × (r.outcome ≡ updated orig work)
      × (read_record rec_no g ≡ some orig)
      × (r.file ≡ write_record rec_no work h))
    ⊎ ((r.file ≡ h) × ((orig work : Record) → r.outcome ≢ updated orig work))

-- Nobody writes the record between its second reading and the write or the end of the lock. That is so
-- for processes that take its lock.
abbrev pub Respect : ℤ → List Round → Type 0
Respect rec_no [] = Unit
Respect rec_no (r ∷ rounds) =
    ((f : File) → read_record rec_no (r.since f) ≡ read_record rec_no f) × Respect rec_no rounds

abbrev Ends : ℤ → List Round → File → Result → Type 0
Ends rec_no rounds file r = (g : File) × (h : File) × Others rounds file g h × IsSafe rec_no g h r

-- What holds of both branches of a test.
ite-elim :
    {A : Type 0} (P : Result → Type 0) (d : Dec A) (x y : Result)
    → (A → P x)
    → (¬ A → P y)
    → P (ite d x y)
ite-elim P (yes a) x y f g = subst P (sym (if_pos (yes a) a x y)) (f a)
ite-elim P (no n) x y f g = subst P (sym (if_neg (no n) n x y)) (g n)

-- The test under the lock, on the file that the others left.
put_locked-Ends :
    (rec_no : ℤ) (orig work : Record) (fresh : Option Record) (r : Round) (now : File)
    (rounds : List Round) (rest : Result)
    → read_record rec_no now ≡ fresh
    → Ends rec_no rounds (r.meanwhile (r.since now)) rest
    → (g : File) × (h : File) × (((now ≡ g) × (r.since now ≡ h))
        ⊎ Others rounds (r.meanwhile (r.since now)) g h)
      × IsSafe rec_no g h
          (put_locked rec_no orig work fresh r.again (r.since now) (r.meanwhile (r.since now)) rest)
unfolding put_locked
put_locked-Ends rec_no orig work none r now rounds rest e h =
    (now, r.since now, inl (refl, refl), inr (refl, λ a b. cc))
put_locked-Ends rec_no orig work (some fresh) r now rounds rest e h =
    ite-elim
      (λ x.
        (g : File) × (k : File) × (((now ≡ g) × (r.since now ≡ k))
          ⊎ Others rounds (r.meanwhile (r.since now)) g k)
        × IsSafe rec_no g k x)
      (Record-discrete orig fresh) _ _
      (λ same. (
        now,
        r.since now,
        inl (refl, refl),
        inl (orig, work, refl, e ∙ ap (λ r. some r) (sym same), refl),
      ))
      (λ _. answer r.again)
  where
    next : File
    next = r.meanwhile (r.since now)

    answer :
        (b : Bool)
        → (g : File) × (k : File) × (((now ≡ g) × (r.since now ≡ k))
            ⊎ Others rounds (r.meanwhile (r.since now)) g k)
          × IsSafe rec_no g k (elim b [
            | true ↦ record rest { acts = locked ∷ unlocked ∷ rest.acts }
            | false ↦ finish left (r.meanwhile (r.since now)) (locked ∷ unlocked ∷ closed ∷ [])
          ])
    answer true = (h.0, h.1, inr h.2, h.3)
    answer false = (next, next, inr (Others-refl rounds next), inr (refl, λ a b. cc))

granted-Ends :
    (b : Bool) (rec_no : ℤ) (r : Round) (rounds : List Round) (file : File) (x : Result)
    → (g : File) × (h : File) × (((r.others file ≡ g) × (r.since (r.others file) ≡ h))
        ⊎ Others rounds (r.meanwhile (r.since (r.others file))) g h)
      × IsSafe rec_no g h x
    → Ends rec_no
        (r ∷ rounds)
        file
        (if_granted b x (finish lock_failed (r.others file) (closed ∷ [])))
granted-Ends true rec_no r rounds file x h = (h.0, h.1, inr (inr h.2), h.3)
granted-Ends false rec_no r rounds file x h =
    (r.others file, r.others file, inr (inl (refl, refl)), inr (refl, λ a b. cc))

put_round-Ends :
    (rec_no : ℤ) (r : Round) (rounds : List Round) (seen : Option Record) (file : File)
    (rest : Result)
    → Ends rec_no rounds (r.meanwhile (r.since (r.others file))) rest
    → Ends rec_no (r ∷ rounds) file (put_round rec_no r seen file rest)
unfolding put_round
put_round-Ends rec_no r rounds none file rest h =
    (file, file, inl (refl, refl), inr (refl, λ a b. cc))
put_round-Ends rec_no r rounds (some orig) file rest h =
    ite-elim (Ends rec_no (r ∷ rounds) file) (Record-discrete orig (edit r orig)) _ _
      (λ _. (r.others file, r.others file, inr (inl (refl, refl)), inr (refl, λ a b. cc)))
      (λ _. granted-Ends r.granted rec_no r rounds file _ (
        put_locked-Ends rec_no orig (edit r orig) (read_record rec_no (r.others file)) r
          (r.others file) rounds rest refl h))

pub cmd_put-Ends :
    (rec_no : ℤ) (rounds : List Round) (file : File)
    → (g : File) × (h : File) × Others rounds file g h
      × IsSafe rec_no g h (cmd_put rec_no rounds file)
unfolding cmd_put
cmd_put-Ends rec_no [] file = (file, file, (refl, refl), inr (refl, λ a b. cc))
cmd_put-Ends rec_no (r ∷ rounds) file =
    put_round-Ends rec_no r rounds (read_record rec_no file) file _
      (cmd_put-Ends rec_no rounds (r.meanwhile (r.since (r.others file))))

Others-Respect :
    (rec_no : ℤ) (rounds : List Round) (file g h : File)
    → Respect rec_no rounds
    → Others rounds file g h
    → read_record rec_no h ≡ read_record rec_no g
Others-Respect rec_no [] file g h p o = ap (read_record rec_no) (sym o.1 ∙ o.0)
Others-Respect rec_no (r ∷ rounds) file g h p (inl o) = ap (read_record rec_no) (sym o.1 ∙ o.0)
Others-Respect rec_no (r ∷ rounds) file g h p (inr (inl o)) =
    ap (read_record rec_no) (sym o.1 ∙ o.0)
Others-Respect rec_no (r ∷ rounds) file g h p (inr (inr (inl o))) =
    ap (read_record rec_no) (sym o.1) ∙ p.0 (r.others file) ∙ ap (read_record rec_no) o.0
Others-Respect rec_no (r ∷ rounds) file g h p (inr (inr (inr o))) =
    Others-Respect rec_no rounds (r.meanwhile (r.since (r.others file))) g h p.1 o

-- If nobody else writes the record between its second reading under the lock and the end of that
-- lock, `cmd_put` never overwrites what another process wrote: where it reports an update, the
-- record that the user saw before editing stood in the file at the write, and the write changes
-- that file by the edited record alone; on every other end the file is what the others made of it.
-- Processes that take the lock keep the condition. INIT, which takes none, may break it.
pub cmd_put-IsSafe :
    (rec_no : ℤ) (rounds : List Round) (file : File)
    → Respect rec_no rounds
    → (g : File) × (h : File) × Others rounds file g h
      × IsSafe rec_no h h (cmd_put rec_no rounds file)
cmd_put-IsSafe rec_no rounds file p =
    let (g, h, o, safe) = cmd_put-Ends rec_no rounds file in (g, h, o, at_end g h o safe)
  where
    at_end :
        (g h : File)
        → Others rounds file g h
        → IsSafe rec_no g h (cmd_put rec_no rounds file)
        → IsSafe rec_no h h (cmd_put rec_no rounds file)
    at_end g h o (inl (orig, work, u, e, f)) =
        inl (orig, work, u, Others-Respect rec_no rounds file g h p o ∙ e, f)
    at_end g h o (inr safe) = inr safe

-- The acts of a run that holds the lock exactly while it writes, gives it back before it ends, and
-- closes the file last; `b` says whether the lock is held.
abbrev pub Disciplined : Bool → List Act → Type 0
Disciplined b [] = b ≡ false
Disciplined false (locked ∷ acts) = Disciplined true acts
Disciplined true (wrote ∷ acts) = Disciplined true acts
Disciplined true (unlocked ∷ acts) = Disciplined false acts
Disciplined false (closed ∷ []) = Unit
Disciplined _ _ = ⊥

put_locked-Disciplined :
    (rec_no : ℤ) (orig work : Record) (fresh : Option Record) (again : Bool) (file later : File)
    (rest : Result)
    → Disciplined false rest.acts
    → Disciplined false (put_locked rec_no orig work fresh again file later rest).acts
unfolding put_locked
put_locked-Disciplined rec_no orig work none again file later rest h = tt
put_locked-Disciplined rec_no orig work (some fresh) again file later rest h =
    ite-elim (λ r. Disciplined false r.acts) (Record-discrete orig fresh) _ _ (λ _. tt)
      (λ _. answer again)
  where
    answer :
        (b : Bool)
        → Disciplined false (
            Result.acts (elim b [
              | true ↦ record rest { acts = locked ∷ unlocked ∷ rest.acts }
              | false ↦ finish left later (locked ∷ unlocked ∷ closed ∷ [])
            ]))
    answer true = h
    answer false = tt

granted-Disciplined :
    (b : Bool) (x y : Result)
    → Disciplined false x.acts
    → Disciplined false y.acts
    → Disciplined false (if_granted b x y).acts
granted-Disciplined true x y h k = h
granted-Disciplined false x y h k = k

put_round-Disciplined :
    (rec_no : ℤ) (r : Round) (seen : Option Record) (file : File) (rest : Result)
    → Disciplined false rest.acts
    → Disciplined false (put_round rec_no r seen file rest).acts
unfolding put_round
put_round-Disciplined rec_no r none file rest h = tt
put_round-Disciplined rec_no r (some orig) file rest h =
    ite-elim (λ x. Disciplined false x.acts) (Record-discrete orig (edit r orig)) _ _ (λ _. tt)
      (λ _.
        granted-Disciplined r.granted _ _
          (put_locked-Disciplined rec_no orig (edit r orig) (read_record rec_no (r.others file))
            r.again (r.since (r.others file)) (r.meanwhile (r.since (r.others file))) rest h)
          tt)

-- On every path `cmd_put` writes only under the lock of the record and gives each lock back before
-- it asks the user again, closes the file or waits for input.
pub cmd_put-Disciplined :
    (rec_no : ℤ) (rounds : List Round) (file : File)
    → Disciplined false (cmd_put rec_no rounds file).acts
unfolding cmd_put
cmd_put-Disciplined rec_no [] file = refl
cmd_put-Disciplined rec_no (r ∷ rounds) file =
    put_round-Disciplined rec_no r (read_record rec_no file) file
      (cmd_put rec_no rounds (r.meanwhile (r.since (r.others file))))
      (cmd_put-Disciplined rec_no rounds (r.meanwhile (r.since (r.others file))))
