-- ===== src/Programs/Csv.antt =====
-- The file of samples that TestClient/main.cpp writes.
pub mod Rows
pub mod Digits
pub mod RoundTrip
use timing_proxy.Base.{
  ℕ, zero, suc, ◌+◌, ◌/◌, ◌%◌, List, [], ◌∷◌, ◌++◌, Outcome, ok, fault, ltb, if◌then◌else◌, ◌>>=◌,
  get_elem?, Option, none, some,
}

-- `<<` of an unsigned number of 64 bits, which has 20 digits at most.
abbrev pub digits : ℕ → ℕ → List ℕ
digits zero n = []
digits (suc width) n =
    if ltb n 10 then (48 + n) ∷ [] else digits width (n / 10) ++ ((48 + n % 10) ∷ [])

unfoldable pub decimal : ℕ → List ℕ
decimal n = digits 20 n

-- `ctr << ";" << i << ";" << times[i][j] << "\n"`
abbrev pub row_text : ℕ → ℕ → ℕ → List ℕ
row_text ctr i time = decimal ctr ++ (59 ∷ (decimal i ++ (59 ∷ (decimal time ++ (10 ∷ [])))))

-- What the file has so far, and `ctr`.
pub record CsvFile : Type 0 where
  pub text : List ℕ
  pub ctr : ℕ

-- `times[i][j]`
abbrev pub at : List ℕ → ℕ → Outcome ℕ
at times j = elim (get_elem? times j) [ none ↦ fault | some time ↦ ok time ]

module _ (times : ℕ → List ℕ) where
  -- The body of the loops.
  unfoldable pub write_row : ℕ → ℕ → CsvFile → Outcome CsvFile
  write_row j i file = at (times i) j >>= λ time.
      ok (record { text = file.text ++ row_text file.ctr i time; ctr = suc file.ctr })

  -- The inner `for`, from `i` on and for the number of rows left.
  unfoldable pub write_rows : ℕ → ℕ → ℕ → CsvFile → Outcome CsvFile
  write_rows j i zero file = ok file
  write_rows j i (suc left) file = write_row j i file >>= λ next. write_rows j (suc i) left next

  -- The outer `for`.
  unfoldable pub write_csv : ℕ → ℕ → CsvFile → Outcome CsvFile
  write_csv j zero file = ok file
  write_csv j (suc left) file = write_rows j 0 2 file >>= λ next. write_csv (suc j) left next
