-- ===== src/Pcap/Open/Keeps.antt =====
-- The calls of PcapWrapper.cpp to libpcap open and close no descriptor of the proxy's own.
use timing_proxy.Base.{
  ℕ, ◌≡◌, refl, ℤ, pos, minus_one, is_negative, same_int, to_size, ◌||◌, inl, inr, List, ◌∷◌, ◌==◌,
  Bool-cases, if◌then◌else◌,
}
use timing_proxy.Os.Calls.{
  Trace, System, Reply, pcap_set_snaplen, pcap_set_promisc, pcap_set_timeout, pcap_activate,
  pcap_create, pcap_list_tstamp_types, pcap_free_tstamp_types, pcap_get_tstamp_precision,
  pcap_lookupdev, pcap_lookupnet, pcap_compile, pcap_setfilter,
}
use timing_proxy.Os.Triples.{Triple, returned, ended, Ends-cases, Ends-after}
use timing_proxy.Os.Descriptors.{open_fds}
use timing_proxy.Pcap.Open.{
  PcapWrapper, null_handle, precision_micro, bufsiz, host_filter, give_up, activate, set_best_type,
  set_precision, prepare, custom_pcap_open_live, open_capture, new_on_default, set_filter,
}

-- Calls after which the same descriptors are open.
abbrev Same : List ℤ → Trace → Type 0
Same fds w = open_fds w ≡ fds

module _ (system : System) (fds : List ℤ) where
  activate-keeps :
      (p : ℤ) (snaplen promisc to_ms : ℕ)
      → Triple (Same fds) (activate system p snaplen promisc to_ms) (λ _. Same fds) (Same fds)
  unfolding activate give_up
  activate-keeps p snaplen promisc to_ms w same =
      let a = system w (pcap_set_snaplen p snaplen) in
      let w₁ : Trace = (pcap_set_snaplen p snaplen, a) ∷ w in
      let b = system w₁ (pcap_set_promisc p promisc) in
      let w₂ : Trace = (pcap_set_promisc p promisc, b) ∷ w₁ in
      let c = system w₂ (pcap_set_timeout p to_ms) in
      let w₃ : Trace = (pcap_set_timeout p to_ms, c) ∷ w₂ in
      let d = system w₃ (pcap_activate p) in
      elim (Bool-cases (is_negative a.value)) [
        | inl failed ↦ rw failed (returned same)
        | inr a_fine ↦ elim (Bool-cases (is_negative b.value)) [
          | inl failed ↦ rw (a_fine, failed) (returned same)
          | inr b_fine ↦ elim (Bool-cases (is_negative c.value)) [
            | inl failed ↦ rw (a_fine, b_fine, failed) (returned same)
            | inr c_fine ↦ elim (Bool-cases (is_negative d.value)) [
              | inl failed ↦ rw (a_fine, b_fine, c_fine, failed) (returned same)
              | inr d_fine ↦ rw (a_fine, b_fine, c_fine, d_fine) (returned same)
            ]
          ]
        ]
      ]

  set_best_type-keeps :
      (p : ℤ) (types : Reply)
      → Triple (Same fds) (set_best_type system p types) (λ _. Same fds) (Same fds)
  unfolding set_best_type
  set_best_type-keeps p types w same =
      elim (Bool-cases (is_negative types.value || (to_size types.value == 0))) [
        | inl none_known ↦ rw none_known (returned same)
        | inr some_known ↦ rw some_known (returned same)
      ]

  set_precision-keeps :
      (p : ℤ) (precision : Reply)
      → Triple (Same fds) (set_precision system p precision) (λ _. Same fds) (Same fds)
  unfolding set_precision
  set_precision-keeps p precision w same =
      elim (Bool-cases (same_int precision.value (pos precision_micro))) [
        | inl micro ↦ rw micro (returned same)
        | inr nano ↦ rw nano (returned same)
      ]

  prepare-keeps : (p : ℤ) → Triple (Same fds) (prepare system p) (λ _. Same fds) (Same fds)
  unfolding prepare
  prepare-keeps p w same =
      let types = system w (pcap_list_tstamp_types p) in
      let w₁ : Trace = (pcap_list_tstamp_types p, types) ∷ w in
      let w₂ : Trace = (pcap_free_tstamp_types p, system w₁ (pcap_free_tstamp_types p)) ∷ w₁ in
      elim (Ends-cases (set_best_type-keeps p types w₂ same)) [
        | inr (r, v, runs, nil, d) ↦ rw runs (Ends-after _ r v nil d)
        | inl (a, v, runs, now) ↦ rw runs (
            let precision = system v (pcap_get_tstamp_precision p) in
            elim (Ends-cases (
              set_precision-keeps p precision ((pcap_get_tstamp_precision p, precision) ∷ v) now)) [
                | inr (r, u, more, nil, d) ↦ rw more (Ends-after _ r u nil d)
                | inl (b, u, more, then_) ↦ rw more (returned then_)
              ])
      ]

  custom_pcap_open_live-keeps :
      (device : List ℕ) (snaplen promisc to_ms : ℕ)
      → Triple
          (Same fds)
          (custom_pcap_open_live system device snaplen promisc to_ms)
          (λ _. Same fds)
          (Same fds)
  unfolding custom_pcap_open_live
  custom_pcap_open_live-keeps device snaplen promisc to_ms w same =
      let p = system w (pcap_create device) in
      elim (Bool-cases (same_int p.value null_handle)) [
        | inl failed ↦ rw failed (returned same)
        | inr made ↦
            rw made (elim (Ends-cases (prepare-keeps p.value ((pcap_create device, p) ∷ w) same)) [
              | inr (r, v, runs, nil, d) ↦ rw runs (Ends-after _ r v nil d)
              | inl (a, v, runs, now) ↦ rw runs (activate-keeps p.value snaplen promisc to_ms v now)
            ])
      ]

  open_capture-keeps :
      (this : PcapWrapper) → Triple (Same fds) (open_capture system this) (λ _. Same fds) (Same fds)
  unfolding open_capture
  open_capture-keeps this w same =
      elim (Ends-cases (custom_pcap_open_live-keeps this.device bufsiz 1 1000 w same)) [
        | inr (r, v, runs, nil, d) ↦ rw runs (Ends-after _ r v nil d)
        | inl (handle, v, runs, now) ↦ rw runs (elim (Bool-cases (same_int handle null_handle)) [
          | inl failed ↦ rw failed (ended refl now)
          | inr fine ↦ rw fine (returned now)
        ])
      ]

  pub new_on_default-keeps :
      (this : PcapWrapper)
      → Triple (Same fds) (new_on_default system this) (λ _. Same fds) (Same fds)
  unfolding new_on_default
  new_on_default-keeps this w same =
      let device = system w pcap_lookupdev in
      elim (Bool-cases (same_int device.value (pos 0))) [
        | inl failed ↦ rw failed (ended refl same)
        | inr fine ↦ rw fine (
            open_capture-keeps (record this { device = device.bytes })
              ((pcap_lookupdev, device) ∷ w) same)
      ]

  pub set_filter-keeps :
      (this : PcapWrapper) (host : List ℕ) (port : ℕ)
      → Triple (Same fds) (set_filter system this host port) (λ _. Same fds) (Same fds)
  unfolding set_filter
  set_filter-keeps this host port w same =
      let found = system w (pcap_lookupnet this.device) in
      let w₁ : Trace = (pcap_lookupnet this.device, found) ∷ w in
      let net = if same_int found.value minus_one then 0 else found.events in
      let filter = pcap_compile this.handle (host_filter host port) net in
      let w₂ : Trace = (filter, system w₁ filter) ∷ w₁ in
      elim (Bool-cases (same_int (system w₁ filter).value minus_one)) [
        | inl failed ↦ rw failed (ended refl same)
        | inr compiled ↦
            elim (Bool-cases (same_int (system w₂ (pcap_setfilter this.handle)).value minus_one)) [
              | inl failed ↦ rw (compiled, failed) (ended refl same)
              | inr installed ↦ rw (compiled, installed) (returned same)
            ]
      ]
