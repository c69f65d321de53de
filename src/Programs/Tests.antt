-- ===== src/Programs/Tests.antt =====
-- Runs of the programs.
use timing_proxy.Base.{
  ℕ, ◌≡◌, refl, arith, ◌<◌, ◌^◌, pos, false, List, [], ◌∷◌, length, some, Outcome, ok,
  if◌then◌else◌, ◌==◌,
}
use timing_proxy.Os.Calls.{System, send}
use timing_proxy.Os.Triples.{Ends}
use timing_proxy.Socket.Laws.{Anything}
use timing_proxy.Socket.Stream.{Delivered}
use timing_proxy.Socket.Tests.{
  reply_of, demo_system, demo_system-SendsSome, server, cpu, hello, blank_wrapper,
}
use timing_proxy.Socket.Cpu.Class.{cpu_class}
use timing_proxy.Programs.Csv.{CsvFile, decimal, write_csv, write_rows, write_row}
use timing_proxy.Programs.Csv.Rows.{Row, rows}
use timing_proxy.Programs.Csv.RoundTrip.{read_rows, IsWords, nothing, also, write_csv-read_rows}
use timing_proxy.Programs.Client.{measure_server, measure_rounds, samples, sample}
use timing_proxy.Programs.Client.Report.{Wrote, measure_server-Wrote}
use timing_proxy.Programs.Server
use timing_proxy.Programs.Server.{answer, write_buf_a, write_buf_b}
use timing_proxy.Programs.Proxy
use timing_proxy.Programs.Proxy.Status.{Status}
use timing_proxy.Packet.Tests.{raw_inet}
use timing_proxy.Socket.Any.{AnySocket, any_class, kernel_class, pcap_class}
use timing_proxy.Socket.Cpu
use timing_proxy.Socket.Cpu.{CpuTimingSocket}
use timing_proxy.Socket.Timing.{cpu_kind}
use timing_proxy.Proxy.{TimingProxy}
use timing_proxy.Socket.Cpu.{take_stamps}
use timing_proxy.Socket.Epoll.{enable_epoll_with_events}
use timing_proxy.Socket.Timing.{
  SocketClass, connect_socket, retrieve_connection_candidates, try_candidates, try_candidate,
  close_socket, write_base, read_base,
}
use timing_proxy.TimeSources.{read_time}
use timing_proxy.Programs.Server.Answers.{answer-Delivered}

-- Everything is sent at once, and the clock counts the calls.
abbrev quick_system : System
quick_system w (send sock bytes) = reply_of (pos (length bytes))
quick_system w c = demo_system w c

abbrev measured_file : Outcome CsvFile
measured_file =
    elim (measure_server (cpu_class quick_system 2) cpu (0 ∷ 0 ∷ 0 ∷ 0 ∷ 0 ∷ 0 ∷ []) hello (pos 80)
      1 []).0 [ ok done ↦ ok done.0 | _ ↦ Outcome.fault ]

abbrev two_rows : List ℕ
two_rows = 48 ∷ 59 ∷ 48 ∷ 59 ∷ 50 ∷ 10 ∷ 49 ∷ 59 ∷ 49 ∷ 59 ∷ 50 ∷ 10 ∷ []

measured-rows : measured_file ≡ ok (record { text = two_rows; ctr = 2 })
unfolding measure_server measure_rounds samples sample write_csv write_rows write_row decimal
    connect_socket retrieve_connection_candidates try_candidates try_candidate
    enable_epoll_with_events close_socket Cpu.write Cpu.read take_stamps write_base read_base
    read_time Cpu.get_last_measurement
measured-rows = refl

measure_server-Wrote_example :
    let class = cpu_class quick_system 2 in
    Ends
      (λ done _. Wrote class cpu hello (pos 80) 1 [] done.0)
      Anything
      (measure_server class cpu (0 ∷ []) hello (pos 80) 1 [])
measure_server-Wrote_example =
    measure_server-Wrote (cpu_class quick_system 2) cpu (0 ∷ []) hello (pos 80) 1 []

abbrev two_rounds : List (ℕ × ℕ)
two_rounds = (7, 8) ∷ (9, 10) ∷ []

words : {r : Row} → r.ctr < 2 ^ 64 → r.secret < 2 ^ 64 → r.time < 2 ^ 64 → IsWords r
words a b c = record { ctr = a; secret = b; time = c }

abbrev two_times : ℕ → List ℕ
two_times i = if i == 0 then 7 ∷ 9 ∷ [] else 8 ∷ 10 ∷ []

write_csv-read_rows_example :
    (file : CsvFile) × (write_csv two_times 0 2 (record { text = []; ctr = 0 }) ≡ ok file)
    × (read_rows 4 file.text ≡ some (rows 0 two_rounds))
write_csv-read_rows_example = write_csv-read_rows two_times two_rounds refl refl (
    also (words (omega arith) (omega arith) (omega arith)) (
      also (words (omega arith) (omega arith) (omega arith)) (
        also (words (omega arith) (omega arith) (omega arith))
          (also (words (omega arith) (omega arith) (omega arith)) nothing))))

abbrev times_of_answers : Server.Options
times_of_answers = record { help = false; port = 1337; sleep_time_a = 100; sleep_time_b = 0 }

answer-Delivered_example :
    let run =
      answer demo_system (λ w. 100) 1025 times_of_answers server (0 ∷ 0 ∷ 0 ∷ 0 ∷ 0 ∷ []) [] in
    Delivered (pos 7) [] write_buf_a run.0 run.1
answer-Delivered_example =
    answer-Delivered demo_system demo_system-SendsSome (λ w. 100) 1025 times_of_answers server
      (0 ∷ 0 ∷ 0 ∷ 0 ∷ 0 ∷ []) [] 104 (101 ∷ 108 ∷ 108 ∷ 111 ∷ []) refl refl (omega arith)

abbrev proxy_options : Proxy.Options
proxy_options = record {
  help = false;
  data_port = 4444;
  control_port = 5555;
  technique = 67 ∷ 80 ∷ 85 ∷ [];
  interface = 108 ∷ 111 ∷ [];
}

abbrev some_class : SocketClass AnySocket
some_class =
    any_class (cpu_class demo_system 9) (kernel_class raw_inet demo_system 9)
      (pcap_class raw_inet demo_system 9 (λ w. []) blank_wrapper)

-- native_to_big as if a byte were a number.
abbrev as_bytes : ℕ → List ℕ
as_bytes n = n ∷ 0 ∷ 0 ∷ 0 ∷ 0 ∷ 0 ∷ 0 ∷ 0 ∷ []

-- "ab" and "65979" on a line each.
abbrev far_port : List ℕ
far_port = 97 ∷ 98 ∷ 10 ∷ 54 ∷ 53 ∷ 57 ∷ 55 ∷ 57 ∷ 10 ∷ []

abbrev far_system : System
far_system w c = record (reply_of (pos 9)) { bytes = far_port }

abbrev proxy_at_start : TimingProxy CpuTimingSocket
proxy_at_start = record {
  proxy_input = server;
  control = server;
  proxy_output = cpu;
  connect_host = [];
  connect_port = pos 0;
  measurement_technique = cpu_kind;
}
