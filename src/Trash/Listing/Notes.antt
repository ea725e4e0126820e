-- ===== src/Trash/Listing/Notes.antt =====
-- How CourseWork/src/cli/list.c reads a note that the interceptor has written.
use osi_s.Prelude.{
  ℕ, zero, suc, ◌≤◌, ◌<◌, ◌≡◌, refl, sym, ap, ap₂, ◌∙◌, ◌≢◌, true, false, Option, none, some, [],
  ◌∷◌, ◌++◌, append_assoc, arith, length, drop, length-append, Text, bytes, starts_with, has,
  starts_with_self, drop_prefix, has-append, fgets-line, before-append, all_digits, read_digits,
  scan_number-append,
}
use osi_s.Trash.Info.{key, info_text}
use osi_s.Trash.Listing.{
  Fields, no_fields, scan_text, scan_size, read_line, set_original, set_deleted, set_size,
  read_note, row, checked_row, note_row,
}

abbrev newline : Text
newline = b'\n' ∷ []

-- A key with a text behind it, up to the newline.
scan_text_lem :
    (k : Text) (c : ℕ) (text : Text)
    → has b'\n' (c ∷ text) ≡ false
    → scan_text k (k ++ ((c ∷ text) ++ newline)) ≡ some (c ∷ text)
unfolding scan_text
scan_text_lem k c text h =
    rw
      (
        starts_with_self k ((c ∷ text) ++ newline),
        drop_prefix k ((c ∷ text) ++ newline),
        before-append b'\n' (c ∷ text) [] h,
      )
      refl

-- One turn of the loop, on a line that fits.
read_note-line :
    (n : ℕ) (line rest : Text) (f : Fields)
    → has b'\n' line ≡ false
    → length line < 255
    → read_note (suc n) (line ++ (b'\n' ∷ rest)) f
      ≡ read_note n rest (read_line (line ++ newline) f)
unfolding read_note
read_note-line n [] rest f h k =
    ap (λ (p : Text × Text). read_note n p.1 (read_line p.0 f)) (fgets-line 255 [] rest h k)
read_note-line n (c ∷ line) rest f h k =
    ap (λ (p : Text × Text). read_note n p.1 (read_line p.0 f)) (fgets-line 255 (c ∷ line) rest h k)

-- The same for a key and its value.
read_note-value :
    (n : ℕ) (k value rest : Text) (f g : Fields)
    → has b'\n' k ≡ false
    → has b'\n' value ≡ false
    → length k ≤ 14
    → length value ≤ 240
    → read_line (k ++ (value ++ newline)) f ≡ g
    → read_note (suc n) (k ++ (value ++ (b'\n' ∷ rest))) f ≡ read_note n rest g
read_note-value n k value rest f g a b c d e =
    ap (λ t. read_note (suc n) t f) (sym (append_assoc k value (b'\n' ∷ rest)))
    ∙ read_note-line n (k ++ value) rest f (rw (has-append, a, b) refl)
        (omega (arith, length-append k value))
    ∙ ap (read_note n rest) (ap (λ t. read_line t f) (append_assoc k value newline) ∙ e)

read_note_nil : (n : ℕ) (f : Fields) → read_note n [] f ≡ f
unfolding read_note
read_note_nil zero f = refl
read_note_nil (suc n) f = refl

read_line_original :
    (c : ℕ) (path : Text) (f : Fields)
    → has b'\n' (c ∷ path) ≡ false
    → read_line (bytes "original_path=" ++ ((c ∷ path) ++ newline)) f
      ≡ record f { original = c ∷ path }
unfolding read_line
read_line_original c path f h = rw (scan_text_lem (bytes "original_path=") c path h) refl

read_line_deleted :
    (c : ℕ) (time : Text) (f : Fields)
    → has b'\n' (c ∷ time) ≡ false
    → read_line (bytes "deleted_time=" ++ ((c ∷ time) ++ newline)) f
      ≡ record f { deleted = c ∷ time }
unfolding read_line
read_line_deleted c time f h =
    ap
      (λ (o : Option Text).
        set_original f o
          (set_deleted f (scan_text (bytes "deleted_time=") line) (set_size f (scan_size line))))
      other
    ∙ rw (scan_text_lem (bytes "deleted_time=") c time h) refl
  where
    line : Text
    line = bytes "deleted_time=" ++ ((c ∷ time) ++ newline)

    other : scan_text (bytes "original_path=") line ≡ none
    other = unfold scan_text starts_with in refl

read_line_size :
    (d : ℕ) (size : Text) (f : Fields)
    → all_digits (d ∷ size) ≡ true
    → read_line (bytes "size=" ++ ((d ∷ size) ++ newline)) f
      ≡ record f { size = (false, read_digits 0 (d ∷ size)) }
unfolding read_line
read_line_size d size f h =
    ap₂ (λ (o p : Option Text). set_original f o (set_deleted f p (set_size f (scan_size line))))
      path_none time_none
    ∙ ap (set_size f) number
  where
    line : Text
    line = bytes "size=" ++ ((d ∷ size) ++ newline)

    path_none : scan_text (bytes "original_path=") line ≡ none
    path_none = unfold scan_text starts_with in refl

    time_none : scan_text (bytes "deleted_time=") line ≡ none
    time_none = unfold scan_text starts_with in refl

    number : scan_size line ≡ some (false, read_digits 0 (d ∷ size))
    number = unfold scan_size starts_with in scan_number-append d b'\n' size [] h refl

pub digits_has : (size : Text) → all_digits size ≡ true → has b'\n' size ≡ false
unfolding has
digits_has [] h = refl
digits_has (d ∷ size) h = ground (arith, digits_has size)

-- What the interceptor may write: a path with room for it, a time and a size.
pub record IsNote (room : ℕ) (path time size : Text) : Type 0 where
  pub path_written : path ≢ []
  pub path_line : has b'\n' path ≡ false
  pub path_fits : length path ≤ room
  pub time_written : time ≢ []
  pub time_line : has b'\n' time ≡ false
  pub time_fits : length time < 32
  pub size_written : size ≢ []
  pub size_digits : all_digits size ≡ true
  pub size_fits : length size < 20

abbrev pub fields : Text → Text → Text → Fields
fields path time size = record {
  original = path;
  deleted = time;
  size = (false, read_digits 0 size);
}

read_note-info_text :
    (n : ℕ) (path time size : Text)
    → IsNote 240 path time size
    → read_note (suc (suc (suc n))) (info_text path time size) no_fields ≡ fields path time size
unfolding info_text key
read_note-info_text n [] time size h = absurd (h.path_written refl)
read_note-info_text n (c ∷ path) [] size h = absurd (h.time_written refl)
read_note-info_text n (c ∷ path) (d ∷ time) [] h = absurd (h.size_written refl)
read_note-info_text n (c ∷ path) (d ∷ time) (e ∷ size) h =
    let f = record no_fields { original = c ∷ path } in
    let g = record f { deleted = d ∷ time } in
    read_note-value (suc (suc n)) (bytes "original_path=") (c ∷ path) _ no_fields f plain
      h.path_line (omega arith) h.path_fits (read_line_original c path no_fields h.path_line)
    ∙ read_note-value (suc n) (bytes "deleted_time=") (d ∷ time) _ f g plain_time h.time_line
        (omega arith) (omega (arith, h.time_fits)) (read_line_deleted d time f h.time_line)
    ∙ read_note-value n (bytes "size=") (e ∷ size) [] g (fields (c ∷ path) (d ∷ time) (e ∷ size))
        plain_size (digits_has (e ∷ size) h.size_digits) (omega arith) (omega (arith, h.size_fits))
        (read_line_size e size g h.size_digits)
    ∙ read_note_nil n _
  where
    plain : has b'\n' (bytes "original_path=") ≡ false
    plain = unfold has in refl

    plain_time : has b'\n' (bytes "deleted_time=") ≡ false
    plain_time = unfold has in refl

    plain_size : has b'\n' (bytes "size=") ≡ false
    plain_size = unfold has in refl

pub note_row-info_text :
    (id path time size : Text)
    → IsNote 240 path time size
    → note_row id (some (info_text path time size)) ≡ row id (fields path time size)
note_row-info_text id path time size h = ap (checked_row id) (whole path time size h) ∙ checked
  where
    whole :
        (path time size : Text)
        → IsNote 240 path time size
        → read_note (length (info_text path time size)) (info_text path time size) no_fields
          ≡ fields path time size
    whole path time size h =
        unfold info_text key in
        read_note-info_text (length (drop 3 (info_text path time size))) path time size h

    checked : checked_row id (fields path time size) ≡ row id (fields path time size)
    checked = ground (arith, h.time_fits)
