-- ===== src/Pcap/Open.antt =====
-- PcapWrapper.cpp: how a capture is opened, and its filter.
pub mod Handles
pub mod Keeps
use timing_proxy.Base.{
  ℕ, ℤ, pos, minus_one, is_negative, same_int, to_size, Bool, true, false, not, ◌||◌, List, [], ◌∷◌,
  terminate, ltb, ◌==◌, if◌then◌else◌,
}
use timing_proxy.Os.Calls.{
  Call, Reply, System, Filter, src_port, dst_port, src_host, dst_host, both, either, pcap_lookupdev,
  pcap_lookupnet, pcap_create, pcap_list_tstamp_types, pcap_free_tstamp_types, pcap_set_tstamp_type,
  pcap_get_tstamp_precision, pcap_set_tstamp_precision, pcap_set_immediate_mode, pcap_set_snaplen,
  pcap_set_promisc, pcap_set_timeout, pcap_activate, pcap_datalink, pcap_compile, pcap_setfilter,
  pcap_breakloop, pcap_close,
}
use timing_proxy.Os.Io.{Io, ◌>>=◌, ◌>>◌, pure, end, call, io_terminate_if}
use timing_proxy.Timing.Timeval.{precision_micro, precision_nano}
use timing_proxy.Pcap.UserData.{UserData}
use timing_proxy.Pcap.Reader.{start_loop, stop_loop}

-- A handle is a number, NULL is 0.
abbrev pub null_handle : ℤ
null_handle = pos 0

-- BUFSIZ of glibc.
abbrev pub bufsiz : ℕ
bufsiz = 8192

pub record PcapWrapper : Type 0 where
  pub device : List ℕ
  pub handle : ℤ
  pub usrdata : UserData

-- The `for` over the types of time stamp, from PCAP_TSTAMP_HOST, which is 0.
abbrev pub best_type : ℕ → List ℕ → ℕ
best_type best [] = best
best_type best (t ∷ types) = best_type (if ltb best t then t else best) types

abbrev pub host_filter : List ℕ → ℕ → Filter
host_filter remote_host remote_port =
    either (both (src_port remote_port) (src_host remote_host))
      (both (dst_port remote_port) (dst_host remote_host))

module _ (system : System) where
  -- `fail:`
  unfoldable pub give_up : ℤ → Io ℤ
  give_up p = do call system (pcap_close p); pure null_handle

  -- From `status = pcap_set_snaplen` on.
  unfoldable pub activate : ℤ → ℕ → ℕ → ℕ → Io ℤ
  unfolding give_up
  activate p snaplen promisc to_ms = call system (pcap_set_snaplen p snaplen) >>= λ a.
      if is_negative a.value
      then give_up p
      else (call system (pcap_set_promisc p promisc) >>= λ b.
          if is_negative b.value
          then give_up p
          else (call system (pcap_set_timeout p to_ms) >>= λ c.
              if is_negative c.value
              then give_up p
              else (call system (pcap_activate p) >>= λ d.
                  if is_negative d.value then give_up p else pure p)))

  -- `if (n_tstamp_types > 0)`
  unfoldable pub set_best_type : ℤ → Reply → Io (Unit {0})
  set_best_type p types =
      if is_negative types.value || (to_size types.value == 0)
      then pure tt
      else (call system (pcap_set_tstamp_type p (best_type 0 types.bytes)) >>= λ _. pure tt)

  unfoldable pub set_precision : ℤ → Reply → Io (Unit {0})
  set_precision p precision =
      if same_int precision.value (pos precision_micro)
      then (call system (pcap_set_tstamp_precision p precision_nano) >>= λ _. pure tt)
      else pure tt

  -- The time stamps' type and precision, and immediate mode.
  unfoldable pub prepare : ℤ → Io (Unit {0})
  unfolding set_best_type set_precision
  prepare p = do
    types ← call system (pcap_list_tstamp_types p)
    call system (pcap_free_tstamp_types p)
    set_best_type p types
    precision ← call system (pcap_get_tstamp_precision p)
    set_precision p precision
    call system (pcap_set_immediate_mode p 1)
    pure tt

  unfoldable pub custom_pcap_open_live : List ℕ → ℕ → ℕ → ℕ → Io ℤ
  unfolding activate prepare
  custom_pcap_open_live device snaplen promisc to_ms = call system (pcap_create device) >>= λ p.
      if same_int p.value null_handle
      then pure null_handle
      else (prepare p.value >>= λ _. activate p.value snaplen promisc to_ms)

  unfoldable pub open_capture : PcapWrapper → Io PcapWrapper
  open_capture this = do
    handle ← custom_pcap_open_live this.device bufsiz 1 1000
    io_terminate_if (same_int handle null_handle)
    precision ← call system (pcap_get_tstamp_precision handle)
    linktype ← call system (pcap_datalink handle)
    pure (record this {
      handle = handle;
      usrdata = record this.usrdata {
        linktype = to_size linktype.value;
        handle = to_size handle;
        tstamp_precision = to_size precision.value;
      };
    })

  unfoldable pub close_capture : PcapWrapper → Io (Unit {0})
  close_capture this = do call system (pcap_close this.handle); pure tt

  -- The two constructors, with the members as they are before.
  unfoldable pub new_on : PcapWrapper → List ℕ → Io PcapWrapper
  new_on this device = open_capture (record this { device = device })

  unfoldable pub new_on_default : PcapWrapper → Io PcapWrapper
  new_on_default this = do
    device ← call system pcap_lookupdev
    io_terminate_if (same_int device.value (pos 0))
    open_capture (record this { device = device.bytes })

  -- The answer of pcap_lookupnet is the network in `events`, or -1.
  unfoldable pub set_filter : PcapWrapper → List ℕ → ℕ → Io PcapWrapper
  set_filter this remote_host remote_port = do
    found ← call system (pcap_lookupnet this.device)
    let net = if same_int found.value minus_one then 0 else found.events
    compiled ← call system (pcap_compile this.handle (host_filter remote_host remote_port) net)
    io_terminate_if (same_int compiled.value minus_one)
    installed ← call system (pcap_setfilter this.handle)
    io_terminate_if (same_int installed.value minus_one)
    pure (record this {
      usrdata = record this.usrdata { remote_host = remote_host; remote_port = remote_port };
    })

  -- The thread that startLoop creates is the capture of Pcap/Reader.
  unfoldable pub start_capture : PcapWrapper → PcapWrapper
  start_capture this = record this { usrdata = start_loop this.usrdata }

  unfoldable pub stop_capture : PcapWrapper → Io PcapWrapper
  stop_capture this = do
    call system (pcap_breakloop this.handle)
    pure (record this { usrdata = stop_loop this.usrdata })
