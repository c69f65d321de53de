-- ===== src/Programs/Csv/RoundTrip.antt =====
-- The file of TestClient/main.cpp, read back.
use timing_proxy.Base.{
  ℕ, zero, suc, ◌^◌, ◌<◌, ◌≡◌, refl, ap, ◌∙◌, arith, true, List, [], ◌∷◌, ◌++◌, append_assoc,
  length, ok, Option, none, some, ◌==◌, if◌then◌else◌,
}
use timing_proxy.Proxy.Text.{digits_value}
use timing_proxy.Programs.Csv.{CsvFile, decimal, row_text, write_csv}
use timing_proxy.Programs.Csv.Rows.{Row, rows, rows_text, write_csv-rows}
use timing_proxy.Programs.Client.Exchanges.{firsts, seconds}
use timing_proxy.Programs.Csv.Digits.{skip_digits, digits_value-decimal, skip_digits-decimal}

-- The separator after a number, and what follows it.
abbrev pub after_separator : ℕ → List ℕ → Option (List ℕ)
after_separator separator [] = none
after_separator separator (c ∷ cs) = if c == separator then some cs else none

abbrev pub field_of : ℕ → Option (List ℕ) → Option (ℕ × List ℕ)
field_of value none = none
field_of value (some rest) = some (value, rest)

unfoldable pub read_field : ℕ → List ℕ → Option (ℕ × List ℕ)
read_field separator text =
    field_of (digits_value 0 text) (after_separator separator (skip_digits text))

-- What is read after something that was found.
abbrev pub then_read : {A B : Type 0} → Option (A × List ℕ) → (A → List ℕ → Option B) → Option B
then_read none next = none
then_read (some found) next = next found.0 found.1

unfoldable pub read_row : List ℕ → Option (Row × List ℕ)
read_row text = then_read (read_field 59 text) (λ ctr rest.
    then_read (read_field 59 rest) (λ secret rest.
      then_read (read_field 10 rest)
        (λ time rest. some (record { ctr = ctr; secret = secret; time = time }, rest))))

abbrev pub put_first : Row → Option (List Row) → Option (List Row)
put_first r none = none
put_first r (some rs) = some (r ∷ rs)

-- The rows at the beginning of a text, as many as this.
unfoldable pub read_rows : ℕ → List ℕ → Option (List Row)
read_rows zero text = some []
read_rows (suc n) text = then_read (read_row text) (λ r rest. put_first r (read_rows n rest))

-- Numbers of 64 bits.
pub record IsWords (r : Row) : Type 0 where
  pub ctr : r.ctr < 2 ^ 64
  pub secret : r.secret < 2 ^ 64
  pub time : r.time < 2 ^ 64

pub data AllWords : List Row → Type 0 where
  nothing : AllWords []
  also : {r : Row} {rs : List Row} → IsWords r → AllWords rs → AllWords (r ∷ rs)

read_field-at :
    (separator value : ℕ) (text rest : List ℕ)
    → digits_value 0 text ≡ value
    → skip_digits text ≡ separator ∷ rest
    → read_field separator text ≡ some (value, rest)
unfolding read_field
read_field-at separator value text rest found skipped =
    let same : (separator == separator) ≡ true = ground arith in rw (found, skipped, same) refl

read_field-semicolon :
    (n : ℕ) (rest : List ℕ) → n < 2 ^ 64 → read_field 59 (decimal n ++ (59 ∷ rest)) ≡ some (n, rest)
read_field-semicolon n rest h =
    read_field-at 59 n (decimal n ++ (59 ∷ rest)) rest (digits_value-decimal n (59 ∷ rest) h)
      (skip_digits-decimal n (59 ∷ rest) h)

read_field-newline :
    (n : ℕ) (rest : List ℕ) → n < 2 ^ 64 → read_field 10 (decimal n ++ (10 ∷ rest)) ≡ some (n, rest)
read_field-newline n rest h =
    read_field-at 10 n (decimal n ++ (10 ∷ rest)) rest (digits_value-decimal n (10 ∷ rest) h)
      (skip_digits-decimal n (10 ∷ rest) h)

row_text-append :
    (ctr secret time : ℕ) (rest : List ℕ)
    → row_text ctr secret time ++ rest
      ≡ decimal ctr ++ (59 ∷ (decimal secret ++ (59 ∷ (decimal time ++ (10 ∷ rest)))))
row_text-append ctr secret time rest =
    let end_of_row = decimal time ++ (10 ∷ []) in
    append_assoc (decimal ctr) (59 ∷ (decimal secret ++ (59 ∷ end_of_row))) rest
    ∙ ap (λ (xs : List ℕ). decimal ctr ++ (59 ∷ xs))
        (append_assoc (decimal secret) (59 ∷ end_of_row) rest
          ∙ ap (λ (xs : List ℕ). decimal secret ++ (59 ∷ xs))
              (append_assoc (decimal time) (10 ∷ []) rest))

read_row-row_text :
    (r : Row) (rest : List ℕ)
    → IsWords r
    → read_row (row_text r.ctr r.secret r.time ++ rest) ≡ some (r, rest)
unfolding read_row
read_row-row_text r rest words =
    let third = decimal r.time ++ (10 ∷ rest) in
    let second = decimal r.secret ++ (59 ∷ third) in
    ap read_row (row_text-append r.ctr r.secret r.time rest)
    ∙ rw
        (
          read_field-semicolon r.ctr second words.ctr,
          read_field-semicolon r.secret third words.secret,
          read_field-newline r.time rest words.time,
        )
        refl

pub read_rows-rows_text :
    (rs : List Row) → AllWords rs → read_rows (length rs) (rows_text rs) ≡ some rs
unfolding read_rows
read_rows-rows_text [] nothing = refl
read_rows-rows_text (r ∷ rs) (also words others) =
    rw (read_row-row_text r (rows_text rs) words, read_rows-rows_text rs others) refl

-- If both arrays of times have the times of these rounds and the numbers fit in 64 bits, then the
-- loops that write the file read no time out of range, and its text, read back, gives the rows: for
-- each round those of the two secrets, numbered from 0.
pub write_csv-read_rows :
    (times : ℕ → List ℕ) (pairs : List (ℕ × ℕ))
    → times 0 ≡ firsts pairs
    → times 1 ≡ seconds pairs
    → AllWords (rows 0 pairs)
    → (file : CsvFile) × (write_csv times 0 (length pairs) (record { text = []; ctr = 0 })
        ≡ ok file)
      × (read_rows (length (rows 0 pairs)) file.text ≡ some (rows 0 pairs))
write_csv-read_rows times pairs first second words =
    let (ctr, written) = write_csv-rows times pairs first second in
    (
      record { text = rows_text (rows 0 pairs); ctr = ctr },
      written,
      read_rows-rows_text (rows 0 pairs) words,
    )
