-- ===== src/Programs/Client.antt =====
-- TestClient/main.cpp: the client that measures a server directly.
pub mod Exchanges
pub mod Report
use timing_proxy.Base.{
  ℕ, zero, suc, ◌%◌, ℤ, pos, minus_one, to_size, Bool, true, List, [], ◌∷◌, ◌++◌, Option, none,
  some, take, drop, replicate, Outcome, ok, fault, ◌==◌, if◌then◌else◌,
}
use timing_proxy.Base
use timing_proxy.Os.Calls.{System}
use timing_proxy.Os.Io.{Io, ◌>>=◌, ◌>>◌, pure, end}
use timing_proxy.Socket.Timing.{KindOfSocket, SocketClass}
use timing_proxy.Socket.Any.{Blank, AnySocket, create_timing_socket, set_socket_interface}
use timing_proxy.Proxy.Text.{to_uint16}
use timing_proxy.Programs.Options.{kind_named}
use timing_proxy.Programs.Csv.{CsvFile, write_csv}

abbrev pub bufsize : ℕ
bufsize = 1024

abbrev pub samplesize : ℕ
samplesize = 2

-- `std::string(read_buf)`: the bytes before the first zero; without one the array is read past its end.
abbrev pub string_in : List ℕ → Outcome (List ℕ)
string_in [] = fault
string_in (x ∷ xs) =
    let rest = string_in xs in if x == 0 then ok [] else Base.◌>>=◌ rest (λ text. ok (x ∷ text))

-- An element of one of the arrays over the secrets.
abbrev pub set_at : {A : Type 0} → ℕ → A → (ℕ → A) → ℕ → A
set_at i x xs k = if k == i then x else xs k

-- The variables of `main` that the measurement changes.
pub record Samples (S : Type 0) : Type 0 where
  pub ts : S
  pub read_buf : List ℕ
  pub write_buf : List ℕ
  pub correct_case : ℕ → List ℕ
  pub times : ℕ → List ℕ

-- The variables before the first measurement, for the bytes that `read_buf` happens to hold.
abbrev pub no_samples : {S : Type 0} → S → List ℕ → Samples S
no_samples ts read_buf = record {
  ts = ts;
  read_buf = read_buf;
  write_buf = replicate bufsize 0;
  correct_case = λ _. [];
  times = λ _. [];
}

module _ {S : Type 0} (class : SocketClass S) where
  -- The `if` after a measurement.
  abbrev pub keep_case : ℕ → ℕ → Samples S → Outcome (Samples S)
  keep_case zero i this =
      Base.◌>>=◌ (string_in this.read_buf)
        (λ text. ok (record this { correct_case = set_at i text this.correct_case }))
  keep_case (suc j) i this = ok this

  -- The body of the loops.
  unfoldable pub sample : ℕ → ℕ → Samples S → Io (Samples S)
  sample j i this = do
    let write_buf = (i % 256) ∷ drop 1 this.write_buf
    sent ← class.write_to this.ts write_buf
    r ← class.read_from sent bufsize true
    let read_size = to_size r.1.0
    measured ← end (class.measurement r.0)
    end (
        keep_case j i (record this {
          ts = r.0;
          write_buf = write_buf;
          read_buf = take read_size r.1.1 ++ drop read_size this.read_buf;
          times = set_at i (this.times i ++ (measured ∷ [])) this.times;
        }))

  -- The inner `for`, from `i` on and for the number of secrets left.
  unfoldable pub samples : ℕ → ℕ → ℕ → Samples S → Io (Samples S)
  samples j i zero this = pure this
  samples j i (suc left) this = sample j i this >>= λ next. samples j (suc i) left next

  -- The outer `for`.
  unfoldable pub measure_rounds : ℕ → ℕ → Samples S → Io (Samples S)
  measure_rounds j zero this = pure this
  measure_rounds j (suc left) this =
      samples j 0 samplesize this >>= λ next. measure_rounds (suc j) left next

  -- From `ts->connect` on: the samples of all rounds, and the file that is written of them.
  unfoldable pub measure_server : S → List ℕ → List ℕ → ℤ → ℕ → Io (CsvFile × S)
  measure_server ts read_buf host port measurements = do
    connected ← class.connect_to ts host (to_uint16 port)
    this ← measure_rounds 0 measurements (no_samples connected read_buf)
    closed ← class.close_of this.ts
    file ← end (write_csv this.times 0 measurements (record { text = []; ctr = 0 }))
    pure (file, closed)

-- The options as they are after parsing.
pub record Options : Type 0 where
  pub help : Bool
  pub technique : List ℕ
  pub interface : List ℕ
  pub host : List ℕ
  pub port : ℤ
  pub measurements : ℕ

module _ (system : System) (blank : Blank) (class : SocketClass AnySocket) (read_buf : List ℕ) where
  unfoldable pub start_client : Options → KindOfSocket → Io (ℤ × Option CsvFile)
  start_client options measurement_technique = do
    made ← create_timing_socket system blank measurement_technique
    ts ← set_socket_interface system blank.wrapper measurement_technique made options.interface
    done ← measure_server class ts read_buf options.host options.port options.measurements
    pure (pos 0, some done.0)

  -- The exit status, and the file if one is written.
  unfoldable pub main : Options → Io (ℤ × Option CsvFile)
  main options = if options.help then pure (pos 1, none) else elim (kind_named options.technique) [
    | none ↦ pure (minus_one, none)
    | some kind ↦ start_client options kind
  ]
