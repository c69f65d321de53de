-- ===== src/Programs/Client/Report.antt =====
-- The file that TestClient/main.cpp writes, and what it measured.
use timing_proxy.Base.{ℕ, ◌≡◌, refl, sym, ℤ, inl, inr, List, length, ok}
use timing_proxy.Os.Calls.{Trace}
use timing_proxy.Os.Triples.{Ends, returned, Ends-cases, Ends-after, Ends-anyway}
use timing_proxy.Socket.Laws.{Anything}
use timing_proxy.Socket.Timing.{SocketClass}
use timing_proxy.Proxy.Text.{to_uint16}
use timing_proxy.Programs.Csv.{CsvFile}
use timing_proxy.Programs.Csv.Rows.{rows, rows_text, write_csv-rows}
use timing_proxy.Programs.Client.{no_samples, measure_server}
use timing_proxy.Programs.Client.Exchanges.{Exchanges, measure_rounds-Rounds}

module _ {S : Type 0} (class : SocketClass S) where
  -- The times that the file has are those of the exchanges after the connection.
  pub record Wrote (ts : S) (host : List ℕ) (port : ℤ) (measurements : ℕ) (w : Trace)
      (file : CsvFile) : Type 0 where
    pub connected : S
    pub after_connect : Trace
    pub last : S
    pub after_last : Trace
    pub times : List (ℕ × ℕ)
    pub connects : class.connect_to ts host (to_uint16 port) w ≡ (ok connected, after_connect)
    pub exchanges : Exchanges class connected after_connect times last after_last
    pub rounds : length times ≡ measurements
    pub text : file.text ≡ rows_text (rows 0 times)

  -- For any class of timing sockets: if the client returns, then it has connected, has made one exchange
  -- after the other, in each round for the first and for the second secret, and has as many rounds as
  -- measurements were asked for; the text of its file is the rows of the times that these exchanges
  -- measured, in their order, numbered from 0.
  pub measure_server-Wrote :
      (ts : S) (read_buf : List ℕ) (host : List ℕ) (port : ℤ) (measurements : ℕ) (w : Trace)
      → Ends
          (λ done _. Wrote ts host port measurements w done.0)
          Anything
          (measure_server class ts read_buf host port measurements w)
  unfolding measure_server
  measure_server-Wrote ts read_buf host port measurements w =
      elim (Ends-cases (Ends-anyway (class.connect_to ts host (to_uint16 port) w))) [
        | inr (r, v, runs, nil, d) ↦ rw runs (Ends-after _ r v nil tt)
        | inl (connected, v, connects, q) ↦
            rw connects
              (elim (Ends-cases (
                measure_rounds-Rounds class 0 measurements (no_samples connected read_buf) v
                  refl)) [
                    | inr (r, u, runs, nil, d) ↦ rw runs (Ends-after _ r u nil tt)
                    | inl (that, u, runs, done) ↦
                        rw runs (elim (Ends-cases (Ends-anyway (class.close_of that.ts u))) [
                          | inr (r, t, last, nil, d) ↦ rw last (Ends-after _ r t nil tt)
                          | inl (closed, t, last, q) ↦
                              let (ctr, csv) =
                                write_csv-rows that.times done.pairs done.times0 done.times1 in
                              rw (last, sym done.rounds, csv)
                                (returned (record {
                                  connected = connected;
                                  after_connect = v;
                                  last = that.ts;
                                  after_last = u;
                                  times = done.pairs;
                                  connects = connects;
                                  exchanges = done.exchanges;
                                  rounds = refl;
                                  text = refl;
                                }))
                        ])
                  ])
      ]
