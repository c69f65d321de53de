-- ===== src/Programs/Csv/Rows.antt =====
-- The rows that the loops of TestClient/main.cpp write.
use timing_proxy.Base.{
  ℕ, suc, ◌≡◌, refl, sym, ap, ◌∙◌, List, [], ◌∷◌, ◌++◌, append-nil, append_assoc, length, ok,
}
use timing_proxy.Programs.Csv.{CsvFile, row_text, at, write_row, write_rows, write_csv}
use timing_proxy.Programs.Client.Exchanges.{firsts, seconds}

-- A row: its number, the secret and the time.
pub record Row : Type 0 where
  pub ctr : ℕ
  pub secret : ℕ
  pub time : ℕ

abbrev row : ℕ → ℕ → ℕ → Row
row ctr secret time = record { ctr = ctr; secret = secret; time = time }

-- The rows of these rounds, from this number on.
abbrev pub rows : ℕ → List (ℕ × ℕ) → List Row
rows ctr [] = []
rows ctr (x ∷ xs) = row ctr 0 x.0 ∷ row (suc ctr) 1 x.1 ∷ rows (suc (suc ctr)) xs

abbrev pub rows_text : List Row → List ℕ
rows_text [] = []
rows_text (r ∷ rs) = row_text r.ctr r.secret r.time ++ rows_text rs

at-append : (xs : List ℕ) (y : ℕ) (ys : List ℕ) → at (xs ++ (y ∷ ys)) (length xs) ≡ ok y
at-append [] y ys = refl
at-append (x ∷ xs) y ys = at-append xs y ys

-- A round adds the two rows that its times give.
write_rows-round :
    (times : ℕ → List ℕ) (xs ys : List ℕ) (x y : ℕ) (xs' ys' : List ℕ) (file : CsvFile)
    → times 0 ≡ xs ++ (x ∷ xs')
    → times 1 ≡ ys ++ (y ∷ ys')
    → length ys ≡ length xs
    → write_rows times (length xs) 0 2 file
      ≡ ok (record {
        text = (file.text ++ row_text file.ctr 0 x) ++ row_text (suc file.ctr) 1 y;
        ctr = suc (suc file.ctr);
      })
unfolding write_rows write_row
write_rows-round times xs ys x y xs' ys' file first second same =
    let there : at (times 0) (length xs) ≡ ok x = rw first (at-append xs x xs') in
    let here : at (times 1) (length xs) ≡ ok y = rw (second, sym same) (at-append ys y ys') in
    rw (there, here) refl

-- Another element moves to what has been read.
append-next :
    {A : Type 0} (xs : List A) (y : A) (ys : List A) → xs ++ (y ∷ ys) ≡ (xs ++ (y ∷ [])) ++ ys
append-next xs y ys = sym (append_assoc xs (y ∷ []) ys)

length-next : {A : Type 0} (xs : List A) (y : A) → length (xs ++ (y ∷ [])) ≡ suc (length xs)
length-next [] y = refl
length-next (x ∷ xs) y = ap suc (length-next xs y)

write_csv-from :
    (times : ℕ → List ℕ) (pairs : List (ℕ × ℕ)) (xs ys : List ℕ) (file : CsvFile)
    → times 0 ≡ xs ++ firsts pairs
    → times 1 ≡ ys ++ seconds pairs
    → length ys ≡ length xs
    → (ctr : ℕ) × (write_csv times (length xs) (length pairs) file
        ≡ ok (record { text = file.text ++ rows_text (rows file.ctr pairs); ctr = ctr }))
unfolding write_csv
write_csv-from times [] xs ys file first second same = (file.ctr, rw (append-nil file.text) refl)
write_csv-from times ((x, y) ∷ pairs) xs ys file first second same =
    let text = (file.text ++ row_text file.ctr 0 x) ++ row_text (suc file.ctr) 1 y in
    let (ctr, others) =
      write_csv-from times pairs (xs ++ (x ∷ [])) (ys ++ (y ∷ []))
        (record { text = text; ctr = suc (suc file.ctr) }) (first ∙ append-next xs x (firsts pairs))
        (second ∙ append-next ys y (seconds pairs))
        (length-next ys y ∙ ap suc same ∙ sym (length-next xs x)) in
    (
      ctr,
      rw
          (
            write_rows-round times xs ys x y (firsts pairs) (seconds pairs) file first second same,
            sym (length-next xs x),
            others,
          )
          (let r = rows_text (rows (suc (suc file.ctr)) pairs) in
            let a = row_text file.ctr 0 x in
            let b = row_text (suc file.ctr) 1 y in
            rw (append_assoc (file.text ++ a) b r, append_assoc file.text a (b ++ r)) refl),
    )

pub write_csv-rows :
    (times : ℕ → List ℕ) (pairs : List (ℕ × ℕ))
    → times 0 ≡ firsts pairs
    → times 1 ≡ seconds pairs
    → (ctr : ℕ) × (write_csv times 0 (length pairs) (record { text = []; ctr = 0 })
        ≡ ok (record { text = rows_text (rows 0 pairs); ctr = ctr }))
write_csv-rows times pairs first second =
    write_csv-from times pairs [] [] (record { text = []; ctr = 0 }) first second refl
