-- ===== src/Programs/Server.antt =====
-- TestServer/main.cpp: the server that answers after a time that depends on the request.
pub mod Answers
use timing_proxy.Base.{
  ℕ, zero, suc, ◌+◌, ◌%◌, ◌^◌, ℤ, pos, to_size, Bool, true, List, [], ◌∷◌, ◌++◌, Option, none, some,
  take, drop, replicate, Outcome, ok, fault, out_of_fuel, ◌==◌, if◌then◌else◌,
}
use timing_proxy.Os.Calls.{Trace, System}
use timing_proxy.Os.Io.{Io, ◌>>=◌, ◌>>◌, pure, end, catch_runtime}
use timing_proxy.Socket.Server
use timing_proxy.Socket.Server.{
  ServerSocket, bind, listen, accept, close_client, close_server, destroy,
}
use timing_proxy.Programs.Client.{bufsize}
use timing_proxy.Programs.Helper.{active_sleep}

-- The two answers, which begin with 'a' and 'b'.
abbrev pub write_buf_a : List ℕ
write_buf_a = 97 ∷ replicate 1023 0

abbrev pub write_buf_b : List ℕ
write_buf_b = 98 ∷ replicate 1023 0

abbrev pub chosen_write_buf : Bool → List ℕ
chosen_write_buf even = if even then write_buf_a else write_buf_b

-- The options as they are after parsing.
pub record Options : Type 0 where
  pub help : Bool
  pub port : ℕ
  pub sleep_time_a : ℕ
  pub sleep_time_b : ℕ

-- The time before the answer, as a number of 64 bits.
abbrev pub chosen_duration : Options → ℕ → Bool → ℕ
chosen_duration options duration even =
    (duration + (if even then options.sleep_time_a else options.sleep_time_b)) % 2 ^ 64

-- `read_buf[0] % 2 == 0`, also for a `char` that is negative.
abbrev pub is_even_first : List ℕ → Outcome Bool
is_even_first [] = fault
is_even_first (x ∷ xs) = ok (x % 2 == 0)

-- `noisy` is `basesleep + (random_percentage*noiserange)`, as a number of 64 bits, for the next draw
-- of the random engine after these calls.
module _ (system : System) (noisy : Trace → ℕ) (fuel : ℕ) (options : Options) where
  -- The body of the loop, with the bytes that `read_buf` has.
  unfoldable pub answer : ServerSocket → List ℕ → Io (List ℕ)
  answer ss read_buf w =
      (Server.read system ss bufsize true >>= λ r.
      end (is_even_first (take (to_size r.0) r.1 ++ drop (to_size r.0) read_buf)) >>= λ even.
      end (active_sleep (chosen_duration options (noisy w) even)) >>= λ slept.
      Server.write system fuel ss (chosen_write_buf even) >>= λ sent.
      pure (take (to_size r.0) r.1 ++ drop (to_size r.0) read_buf))
        w

  -- The `while (true)`, for as many requests as `rounds`.
  unfoldable pub answer_all : ℕ → ServerSocket → List ℕ → Io (Unit {0})
  answer_all zero ss read_buf = end out_of_fuel
  answer_all (suc rounds) ss read_buf = answer ss read_buf >>= λ next. answer_all rounds ss next

  -- From the `try` on.
  unfoldable pub serve_client : ℕ → ServerSocket → List ℕ → Io (Unit {0})
  serve_client rounds ss read_buf = catch_runtime (answer_all rounds ss read_buf) >>= λ finished.
      elim finished [
        | some done ↦ destroy system ss
        | none ↦ close_client system ss >>= λ closed.
            close_server system closed >>= λ _. destroy system closed
      ]

  -- An exception before the `try` is caught nowhere.
  unfoldable pub main : ℕ → ServerSocket → List ℕ → Io ℤ
  main rounds unset read_buf =
      if options.help
      then pure (pos 1)
      else (bind system unset options.port >>= λ bound. listen system bound >>= λ _.
          accept system bound >>= λ ss. serve_client rounds ss read_buf >>= λ _. pure (pos 0))
