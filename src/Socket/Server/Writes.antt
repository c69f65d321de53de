-- ===== src/Socket/Server/Writes.antt =====
-- ServerSocket::write of Socket/ServerSocket/ServerSocket.cpp.
use timing_proxy.Base.{
  ℕ, zero, suc, ◌<◌, refl, arith, is_negative, to_size, inl, inr, List, ◌∷◌, length, drop,
  length-drop, ◌==◌, Bool-cases,
}
use timing_proxy.Os.Calls.{Trace, System, send}
use timing_proxy.Os.Io.{pure}
use timing_proxy.Socket.Server.{ServerSocket, write}
use timing_proxy.Socket.Stream.{
  SendsSome, Delivered, stream-send, Delivered-failed, Delivered-whole, Delivered-extend,
  Delivered-after,
}

module _ (system : System) (sends : SendsSome system) where
  -- However the system splits the sends, ServerSocket::write ends, given one call more than there are
  -- bytes. If it returns, the client has been sent all of them, once and in order; if it throws, the
  -- first ones. The system is one whose sends accept at most what they are given, and at least a byte
  -- of it if they succeed.
  pub write-Delivered :
      (fuel : ℕ) (this : ServerSocket) (bytes : List ℕ) (w : Trace)
      → length bytes < fuel
      → let run = write system fuel this bytes w in Delivered this.client_sock w bytes run.0 run.1
  unfolding write
  write-Delivered zero this bytes w enough = absurd (omega arith)
  write-Delivered (suc fuel) this bytes w enough =
      let reply = system w (send this.client_sock bytes) in
      let sent = reply.value in
      elim (Bool-cases (is_negative sent)) [
        | inl failed ↦ rw failed (Delivered-failed this.client_sock w bytes reply _ failed)
        | inr fine ↦ elim (Bool-cases (to_size sent == length bytes)) [
          | inl whole ↦ rw (fine, whole) (Delivered-whole this.client_sock w bytes reply sent whole)
          | inr short ↦
              rw (fine, short)
                (let (fits, some) = sends w this.client_sock bytes fine in
                  let less : length (drop (to_size sent) bytes) < fuel =
                    grind (arith, length-drop (to_size sent) bytes) in
                  Delivered-after this.client_sock w bytes (λ _. pure sent)
                    (Delivered-extend this.client_sock w bytes (to_size sent) fits
                      (stream-send this.client_sock bytes reply w)
                      (write-Delivered fuel this (drop (to_size sent) bytes)
                        ((send this.client_sock bytes, reply) ∷ w) less))
                    (λ a v. (sent, v, refl, refl)))
        ]
      ]
