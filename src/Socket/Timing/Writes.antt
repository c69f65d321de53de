-- ===== src/Socket/Timing/Writes.antt =====
-- TimingSocket::write, with what the object's class does for the rest after a short send.
use timing_proxy.Base.{
  ℕ, ◌<◌, arith, is_negative, to_size, inl, inr, List, ◌∷◌, length, drop, length-drop, ◌==◌,
  Bool-cases,
}
use timing_proxy.Os.Calls.{Trace, System, send}
use timing_proxy.Os.Io.{Io}
use timing_proxy.Socket.Timing.{TimingSocket, is_established, write_base}
use timing_proxy.Socket.Stream.{
  SendsSome, Delivered, stream-send, Delivered-failed, Delivered-whole, Delivered-nothing,
  Delivered-extend,
}

module _ (system : System) (sends : SendsSome system) {S : Type 0} (base : S → TimingSocket)
    (again : S → List ℕ → Io S) where
  pub write_base-Delivered :
      (this : S) (bytes : List ℕ) (w : Trace)
      → ((rest : List ℕ) (v : Trace)
          → length rest < length bytes
          → Delivered (base this).sock v rest (again this rest v).0 (again this rest v).1)
      → let run = write_base system base again this bytes w in
        Delivered (base this).sock w bytes run.0 run.1
  unfolding write_base
  write_base-Delivered this bytes w resumed =
      let sock = (base this).sock in
      let reply = system w (send sock bytes) in
      let sent = reply.value in
      elim (Bool-cases (is_established (base this).state)) [
        | inr closed ↦ rw closed (Delivered-nothing sock w bytes _)
        | inl live ↦ rw live (elim (Bool-cases (is_negative sent)) [
          | inl failed ↦ rw failed (Delivered-failed sock w bytes reply _ failed)
          | inr fine ↦ elim (Bool-cases (to_size sent == length bytes)) [
            | inl whole ↦ rw (fine, whole) (Delivered-whole sock w bytes reply this whole)
            | inr short ↦
                rw (fine, short)
                  (let (fits, some) = sends w sock bytes fine in
                    let less : length (drop (to_size sent) bytes) < length bytes =
                      grind (arith, length-drop (to_size sent) bytes) in
                    Delivered-extend sock w bytes (to_size sent) fits
                      (stream-send sock bytes reply w)
                      (resumed (drop (to_size sent) bytes) ((send sock bytes, reply) ∷ w) less))
          ]
        ])
      ]
