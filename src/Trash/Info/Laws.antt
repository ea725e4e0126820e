-- ===== src/Trash/Info/Laws.antt =====
-- Writing and reading the note.
use osi_s.Prelude.{
  ℕ, ◌≡◌, ◌≢◌, refl, sym, ap, ◌∙◌, [], ◌∷◌, ◌++◌, false, some, Text, bytes, starts_with_self,
  drop_prefix, before, before-append, has, has-append, dec_le, fgets, fgets-line, fgets_cut, length,
  length-append, drop, take, take-append-drop, length-take, arith, append_assoc, before_all,
  has-take, take_all,
}
use osi_s.Trash.Info.{found_or, key, info_text, scan, not_empty, read_loop, read_original}

length-key : length key ≡ 14
unfolding key
length-key = refl

has-key : has b'\n' key ≡ false
unfolding key has
has-key = refl

-- A line of the key and a text that is not empty gives that text up to its newline.
scan-key :
    (c : ℕ) (text : Text)
    → before b'\n' (c ∷ text) ≢ []
    → scan (key ++ (c ∷ text)) ≡ some (before b'\n' (c ∷ text))
unfolding scan
scan-key c text h =
    rw (starts_with_self key (c ∷ text))
      (ap (λ t. not_empty (before b'\n' t)) (drop_prefix key (c ∷ text)) ∙ not_empty_some _ h)
  where
    not_empty_some : (t : Text) → t ≢ [] → not_empty t ≡ some t
    not_empty_some [] ne = absurd (ne refl)
    not_empty_some (d ∷ t) ne = refl

-- A note whose first line fits is read from that line.
read_original_first :
    (text line rest found : Text)
    → text ≢ []
    → fgets 255 text ≡ (line, rest)
    → scan line ≡ some found
    → read_original text ≡ found
unfolding read_loop read_original
read_original_first [] line rest found ne e f = absurd (ne refl)
read_original_first (c ∷ text) line rest found ne e f =
    ap (λ o. found_or o (read_loop (length text) (fgets 255 (c ∷ text)).1))
      (ap (λ p. scan p.0) e ∙ f)

key-ne : (text : Text) → key ++ text ≢ []
unfolding key
key-ne text = λ h. cc

-- `restore` reads back the first 241 bytes of the path that was written: a longer path is cut, where
-- the line does not fit into the array.
pub read_original-info_text :
    (path time size : Text)
    → path ≢ []
    → has b'\n' path ≡ false
    → read_original (info_text path time size) ≡ take 241 path
unfolding read_original info_text
read_original-info_text [] time size ne h = absurd (ne refl)
read_original-info_text (c ∷ path) time size ne h =
    let all = c ∷ path in
    let tail : Text =
      bytes "deleted_time=" ++ (time ++ (b'\n' ∷ (bytes "size=" ++ (size ++ (b'\n' ∷ []))))) in
    elim (dec_le (length all) 240) [
      | yes short ↦
          read_original_first _ (key ++ (all ++ (b'\n' ∷ []))) tail _ (key-ne _)
            (ap (fgets 255) (sym (append_assoc key all (b'\n' ∷ tail)))
              ∙ fgets-line 255 (key ++ all) tail (rw (has-append, has-key) h)
                  (omega (arith, length-append key all, length-key))
              ∙ ap (λ l. (l, tail)) (append_assoc key all (b'\n' ∷ [])))
            (scan-key c (path ++ (b'\n' ∷ [])) (λ e. cc (sym (before-append b'\n' all [] h) ∙ e))
              ∙ ap some (before-append b'\n' all [] h ∙ sym (take_all 241 all (omega arith))))
      | no long ↦
          let cut = take 240 path in
          let kept = drop 240 path ++ (b'\n' ∷ tail) in
          let clean = has-take b'\n' 241 all h in
          read_original_first _ (key ++ (c ∷ cut)) kept _ (key-ne _)
            (ap (λ p. fgets 255 (key ++ (c ∷ p)))
                (ap (λ p. p ++ (b'\n' ∷ tail)) (sym (take-append-drop 240 path))
                  ∙ append_assoc cut (drop 240 path) (b'\n' ∷ tail))
              ∙ ap (fgets 255) (sym (append_assoc key (c ∷ cut) kept))
              ∙ fgets_cut 255 (key ++ (c ∷ cut)) kept (rw (has-append, has-key) clean)
                  (omega (arith, length-append key (c ∷ cut), length-key, length-take 240 path)))
            (scan-key c cut (λ e. cc (sym (before_all b'\n' (c ∷ cut) clean) ∙ e))
              ∙ ap some (before_all b'\n' (c ∷ cut) clean))
    ]
