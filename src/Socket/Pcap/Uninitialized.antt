-- ===== src/Socket/Pcap/Uninitialized.antt =====
-- PCAPTimingSocket::connect on a socket for which initPcap was not called.
use timing_proxy.Base.{ℕ, ◌≡◌, refl, List, none, false, not, invalid_argument}
use timing_proxy.Os.Calls.{Trace, System}
use timing_proxy.Os.Io.{is_ok, after-not_ok, io_throw_if, ◌>>◌}
use timing_proxy.Pcap.Open.{PcapWrapper}
use timing_proxy.Socket.Pcap.{
  PcapTimingSocket, connect_pcap, open_default, is_valid_address, start_on,
}

module _ (system : System) where
  start_on-no_wrapper :
      (this : PcapTimingSocket) (host : List ℕ) (port : ℕ) (w : Trace)
      → this.pcap ≡ none
      → is_ok (start_on system this host port w).0 ≡ false
  unfolding start_on
  start_on-no_wrapper this host port w missing = rw missing refl

  -- PCAPTimingSocket::connect does not return if the socket has no PcapWrapper, whatever the host is
  -- and the system answers: the wrapper for the default interface that it makes is not kept.
  pub connect_pcap-no_wrapper :
      (blank : PcapWrapper) (this : PcapTimingSocket) (host : List ℕ) (port : ℕ) (w : Trace)
      → this.pcap ≡ none
      → is_ok (connect_pcap system blank this host port w).0 ≡ false
  unfolding connect_pcap
  connect_pcap-no_wrapper blank this host port w missing =
      let rest = open_default system blank this >> start_on system this host port in
      let refusal =
        invalid_argument
          "Current pcap implementation needs an ip address in order to correlate packets." in
      after-not_ok (is_valid_address system host w)
        (λ valid. io_throw_if (not valid) refusal >> rest)
        (λ valid v.
          after-not_ok (io_throw_if (not valid) refusal v) (λ _. rest)
            (λ _ u.
              after-not_ok (open_default system blank this u) (λ _. start_on system this host port)
                (λ _ t. start_on-no_wrapper this host port t missing)))
