-- ===== src/Persistence/Wal/Reading.antt =====
-- src/persistence/WalLogger.cpp: the loop of the constructor over the bytes of the file.
use bank_managment_system.Prelude.{
  ℕ, ◌+◌, ◌==◌, ◌≡◌, true, false, refl, ap, sym, ◌∙◌, Option, some, none, List, [], ◌∷◌, ◌++◌,
  append_assoc, append-nil, length, length-append, arith, Bool-cases, inl, inr,
}
use bank_managment_system.Prelude.Text.{Bytes}
use bank_managment_system.Persistence.Json.OneLine.{IsOneLine}
use bank_managment_system.Persistence.Wal.{Entry, parse_line, keep_entry, read_lines}

-- What is read of a file, with what is read after it.
abbrev pub followed_by : List Entry × ℕ × Bytes → Bytes → List Entry × ℕ × Bytes
followed_by (es, start, tail) ys =
    let rest = read_lines start tail ys in (es ++ rest.0, rest.1, rest.2)

keep_entry-append :
    (o : Option Entry) (es fs : List Entry) → keep_entry o es ++ fs ≡ keep_entry o (es ++ fs)
keep_entry-append none es fs = refl
keep_entry-append (some e) es fs = refl

-- The end of a line.
pub read_lines-break :
    (start : ℕ) (line : Bytes) (c : ℕ) (rest : Bytes)
    → (c == 10) ≡ true
    → read_lines start line (c ∷ rest) ≡ (
        let at_end = read_lines (start + length line + 1) [] rest in
        (keep_entry (parse_line start line) at_end.0, at_end.1, at_end.2))
unfolding read_lines
read_lines-break start line c rest e = rw e refl

read_lines-inside :
    (start : ℕ) (line : Bytes) (c : ℕ) (rest : Bytes)
    → (c == 10) ≡ false
    → read_lines start line (c ∷ rest) ≡ read_lines start (line ++ c ∷ []) rest
unfolding read_lines
read_lines-inside start line c rest e = rw e refl

pub read_lines-nil : (start : ℕ) (line : Bytes) → read_lines start line [] ≡ ([], start, line)
unfolding read_lines
read_lines-nil start line = refl

pub read_lines-append :
    (start : ℕ) (line xs ys : Bytes)
    → read_lines start line (xs ++ ys) ≡ followed_by (read_lines start line xs) ys
read_lines-append start line [] ys = rw (read_lines-nil start line) refl
read_lines-append start line (c ∷ xs) ys = elim (Bool-cases (c == 10)) [
  | inl e ↦
      let ih = read_lines-append (start + length line + 1) [] xs ys in
      let at_end = read_lines (start + length line + 1) [] xs in
      let later = read_lines at_end.1 at_end.2 ys in
      rw (read_lines-break start line c (xs ++ ys) e, read_lines-break start line c xs e, ih)
        (ap (λ es. (es, later.1, later.2))
          (sym (keep_entry-append (parse_line start line) at_end.0 later.0)))
  | inr e ↦
      read_lines-inside start line c (xs ++ ys) e
      ∙ read_lines-append start (line ++ c ∷ []) xs ys
      ∙ ap (λ t. followed_by t ys) (sym (read_lines-inside start line c xs e))
]

-- Text without a line break is part of the current line.
pub read_lines-OneLine :
    (start : ℕ) (line xs : Bytes)
    → IsOneLine xs
    → read_lines start line xs ≡ ([], start, line ++ xs)
read_lines-OneLine start line [] h =
    read_lines-nil start line ∙ ap (λ l. ([], start, l)) (sym (append-nil line))
read_lines-OneLine start line (c ∷ xs) h =
    read_lines-inside start line c xs (ground (arith, h.0))
    ∙ read_lines-OneLine start (line ++ c ∷ []) xs h.1
    ∙ ap (λ l. ([], start, l)) (append_assoc line (c ∷ []) xs)

-- A file that ends with a line break, or is empty.
abbrev pub IsWhole : Bytes → Type 0
IsWhole file = (read_lines 0 [] file).2 ≡ []

pub read_lines-offset :
    (start : ℕ) (line xs : Bytes)
    → (read_lines start line xs).1 + length (read_lines start line xs).2
      ≡ start + length line + length xs
read_lines-offset start line [] = rw (read_lines-nil start line) (omega arith)
read_lines-offset start line (c ∷ xs) = elim (Bool-cases (c == 10)) [
  | inl e ↦
      rw (read_lines-break start line c xs e)
        (omega (arith, read_lines-offset (start + length line + 1) [] xs))
  | inr e ↦
      rw (read_lines-inside start line c xs e)
        (omega (arith, read_lines-offset start (line ++ c ∷ []) xs, length-append line (c ∷ [])))
]
