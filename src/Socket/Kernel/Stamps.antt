-- ===== src/Socket/Kernel/Stamps.antt =====
-- KernelTimingSocket::getTxTimestamp: which stamp it takes, and how often it asks.
use timing_proxy.Base.{
  ℕ, zero, suc, ◌+◌, ◌≤◌, ◌<◌, ◌≡◌, refl, arith, to_size, is_negative, Bool, true, false, inl, inr,
  List, [], ◌∷◌, some, length, >>=-returned, ok-injective, Outcome, ok, throws, terminate, fault,
  out_of_fuel, ◌==◌, Bool-cases, if◌then◌else◌,
}
use timing_proxy.Os.Calls.{Call, Reply, Message, Trace, System, recvmsg, sleep_ms}
use timing_proxy.Os.Io.{is_ok, Io, after, pure}
use timing_proxy.Packet.Types.{Inet, Decoded, tcp, new_artefacts}
use timing_proxy.Packet.Memory.{load_bytes}
use timing_proxy.Packet.Ethernet.{decode_packet}
use timing_proxy.Socket.Kernel.Compared.{StandsAfter, load_bytes-same}
use timing_proxy.Socket.Kernel.{
  KernelTimingSocket, is_stamped, carries, eagain, find_message, get_tx_timestamp,
}

-- The times that recvmsg was called.
abbrev pub polls : Trace → ℕ
polls [] = 0
polls ((recvmsg sock size errqueue blocking, reply) ∷ w) = suc (polls w)
polls (_ ∷ w) = polls w

module _ (inet : Inet) (this : KernelTimingSocket) (bytes : List ℕ) where
  abbrev pub asking : Call
  asking = recvmsg this.base.sock 1500 true true

  -- A message of the error queue with a time stamp. The `rc` bytes that recvmsg gave are decoded as a
  -- packet up to its TCP payload, and where this payload begins the data stand in the array.
  pub record IsStampOf (received : Reply) : Type 0 where
    pub fine : is_negative received.value ≡ false
    pub stamped : is_stamped received.message ≡ true
    pub packet : Decoded
    pub decodes :
        decode_packet inet tcp received.bytes
          (some 0)
          (to_size received.value)
          (new_artefacts [] [])
        ≡ ok packet
    pub data_stand : StandsAfter received.bytes packet.payload 0 bytes

  carries-IsStampOf :
      (received : Reply)
      → is_negative received.value ≡ false
      → is_stamped received.message ≡ true
      → carries inet received.bytes (to_size received.value) bytes ≡ ok true
      → IsStampOf received
  unfolding carries
  carries-IsStampOf received fine has e =
      let (d, decodes, h1) =
        >>=-returned
          (decode_packet inet tcp received.bytes (some 0) (to_size received.value)
            (new_artefacts [] []))
          _ e in
      let (sent, loaded, h2) =
        >>=-returned (load_bytes received.bytes d.payload 0 (length bytes)) _ h1 in
      record {
        fine = fine;
        stamped = has;
        packet = d;
        decodes = decodes;
        data_stand = load_bytes-same received.bytes d.payload 0 bytes sent loaded (ok-injective h2);
      }

  data Found (rounds : ℕ) (w : Trace) : Outcome Message × Trace → Type 0 where
    found :
        {u : Trace} (received : Reply)
        → IsStampOf received
        → polls u < rounds + polls w
        → Found rounds w (ok received.message, (asking, received) ∷ u)
    gave_up :
        {r : Outcome Message} {v : Trace}
        → is_ok r ≡ false
        → polls v ≤ rounds + polls w
        → Found rounds w (r, v)

  -- How getTxTimestamp ends after at most `rounds` questions.
  pub data Stamped (rounds : ℕ) (w : Trace) : Outcome KernelTimingSocket × Trace → Type 0 where
    stamped_by :
        {u : Trace} (received : Reply)
        → IsStampOf received
        → polls u < rounds + polls w
        → Stamped rounds w (
          ok (record this { tx_timestamp = received.message.stamps this.tstamp_source }),
          (asking, received) ∷ u,
        )
    no_stamp :
        {r : Outcome KernelTimingSocket} {v : Trace}
        → is_ok r ≡ false
        → polls v ≤ rounds + polls w
        → Stamped rounds w (r, v)

  Found-later :
      {rounds more : ℕ} {w u : Trace} {run : Outcome Message × Trace}
      → rounds + polls u ≤ more + polls w
      → Found rounds u run
      → Found more w run
  Found-later le (found received is few) = found received is (omega arith)
  Found-later le (gave_up nil few) = gave_up nil (omega arith)

  Found-compared :
      {rounds : ℕ} {w : Trace} (received : Reply) (compared : Outcome Bool) (rest : Io Message)
      → is_negative received.value ≡ false
      → is_stamped received.message ≡ true
      → carries inet received.bytes (to_size received.value) bytes ≡ compared
      → Found (suc rounds) w (rest ((asking, received) ∷ w))
      → Found (suc rounds) w (
          after
            (λ same. if same then pure received.message else rest)
            ((asking, received) ∷ w)
            compared)
  Found-compared received (ok true) rest fine has e more =
      found received (carries-IsStampOf received fine has e) (omega arith)
  Found-compared received (ok false) rest fine has e more = more
  Found-compared received (throws what) rest fine has e more = gave_up refl (omega arith)
  Found-compared received terminate rest fine has e more = gave_up refl (omega arith)
  Found-compared received fault rest fine has e more = gave_up refl (omega arith)
  Found-compared received out_of_fuel rest fine has e more = gave_up refl (omega arith)

  module _ (system : System) where
    find_message-Found :
        (rounds : ℕ) (w : Trace) → Found rounds w (find_message inet system rounds this bytes w)
    unfolding find_message
    find_message-Found zero w = gave_up refl (omega arith)
    find_message-Found (suc rounds) w =
        let received = system w asking in
        let asked : Trace = (asking, received) ∷ w in
        let slept : Trace = (sleep_ms 1, system asked (sleep_ms 1)) ∷ asked in
        let later =
          Found-later {w = w} {u = asked} (omega arith) (find_message-Found rounds asked) in
        elim (Bool-cases (is_negative received.value)) [
          | inl bad ↦ elim (Bool-cases (received.errno == eagain)) [
            | inl wait ↦
                rw (bad, wait)
                  (Found-later {w = w} {u = slept} (omega arith) (find_message-Found rounds slept))
            | inr other ↦ rw (bad, other) later
          ]
          | inr fine ↦ elim (Bool-cases (is_stamped received.message)) [
            | inl has ↦
                rw (fine, has)
                  (Found-compared received
                    (carries inet received.bytes (to_size received.value) bytes)
                    (find_message inet system rounds this bytes) fine has refl later)
            | inr none_there ↦ rw (fine, none_there) later
          ]
        ]

    Found-Stamped :
        {rounds : ℕ} {w : Trace} {run : Outcome Message × Trace}
        → Found rounds w run
        → Stamped rounds w (
            after
              (λ message. pure (record this { tx_timestamp = message.stamps this.tstamp_source }))
              run.1
              run.0)
    Found-Stamped (found received is few) = stamped_by received is few
    Found-Stamped (gave_up {r = ok a} nil few) = cc
    Found-Stamped (gave_up {r = throws e} nil few) = no_stamp refl few
    Found-Stamped (gave_up {r = terminate} nil few) = no_stamp refl few
    Found-Stamped (gave_up {r = fault} nil few) = no_stamp refl few
    Found-Stamped (gave_up {r = out_of_fuel} nil few) = no_stamp refl few

    -- If KernelTimingSocket::getTxTimestamp returns, the last message that it read from the error queue
    -- has a time stamp, its bytes are decoded as a TCP packet, and byte for byte the data stand in the
    -- array where the payload of this packet begins (the end of the payload is not compared); and
    -- tx_timestamp is the stamp of that message for the socket's source; nothing else in the object
    -- changes. In any case it asks for at most 1000 messages.
    pub get_tx_timestamp-Stamped :
        (w : Trace) → Stamped 1000 w (get_tx_timestamp inet system this bytes w)
    unfolding get_tx_timestamp
    get_tx_timestamp-Stamped w = Found-Stamped (find_message-Found 1000 w)
