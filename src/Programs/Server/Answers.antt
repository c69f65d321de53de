-- ===== src/Programs/Server/Answers.antt =====
-- What the client of TestServer/main.cpp receives.
use timing_proxy.Base.{
  ℕ, ◌%◌, ◌<◌, ◌≡◌, refl, arith, is_negative, to_size, Bool, true, false, List, ◌∷◌, ◌++◌, take,
  drop, length, length-replicate, ap, suc, ◌==◌, if◌then◌else◌,
}
use timing_proxy.Os.Calls.{Trace, System, recv}
use timing_proxy.Os.Io.{pure}
use timing_proxy.Socket.Server
use timing_proxy.Socket.Server.{ServerSocket}
use timing_proxy.Socket.Server.Writes.{write-Delivered}
use timing_proxy.Socket.Stream.{SendsSome, Delivered, Delivered-after, Delivered-extend}
use timing_proxy.Programs.Client.{bufsize}
use timing_proxy.Programs.Helper.{active_sleep-ok}
use timing_proxy.Programs.Server.{
  Options, write_buf_a, write_buf_b, chosen_write_buf, chosen_duration, answer,
}

length-chosen : (even : Bool) → length (chosen_write_buf even) ≡ 1024
length-chosen true = ap suc (length-replicate {A = ℕ} 1023 0)
length-chosen false = ap suc (length-replicate {A = ℕ} 1023 0)

module _ (system : System) (sends : SendsSome system) (noisy : Trace → ℕ) (fuel : ℕ)
    (options : Options) where
  -- If recv does not fail, the first byte of the buffer after it is x, sends take what they are given or
  -- a part of it, and the rounds for the sends suffice, then the server sends its first answer if x is
  -- even and its second if x is odd: all of it, once, if it returns, and the first bytes if it throws.
  pub answer-Delivered :
      (ss : ServerSocket) (read_buf : List ℕ) (w : Trace) (x : ℕ) (xs : List ℕ)
      → let reply = system w (recv ss.client_sock bufsize true) in
        is_negative reply.value ≡ false
        → take (to_size reply.value) reply.bytes ++ drop (to_size reply.value) read_buf ≡ x ∷ xs
        → 1024 < fuel
        → let run = answer system noisy fuel options ss read_buf w in
          Delivered ss.client_sock w (if x % 2 == 0 then write_buf_a else write_buf_b) run.0 run.1
  unfolding answer Server.read
  answer-Delivered ss read_buf w x xs fine first enough =
      let ask = recv ss.client_sock bufsize true in
      let reply = system w ask in
      let buf = chosen_write_buf (x % 2 == 0) in
      rw (fine, first, active_sleep-ok (chosen_duration options (noisy w) (x % 2 == 0)))
        (Delivered-after ss.client_sock w buf (λ sent. pure (x ∷ xs))
          (Delivered-extend ss.client_sock w buf 0 (omega arith) refl (
            write-Delivered system sends fuel ss buf ((ask, reply) ∷ w)
              (omega (arith, length-chosen (x % 2 == 0)))))
          (λ sent v. (x ∷ xs, v, refl, refl)))
