-- ===== src/Pcap/Open/Handles.antt =====
-- custom_pcap_open_live of PcapWrapper.cpp: what becomes of the handle.
use timing_proxy.Base.{
  ℕ, ◌≡◌, refl, ℤ, is_negative, same_int, to_size, pos, true, false, ◌||◌, inl, inr, List, ◌∷◌,
  Outcome, ok, ◌==◌, Bool-cases,
}
use timing_proxy.Os.Calls.{
  Reply, Trace, System, pcap_create, pcap_set_snaplen, pcap_set_promisc, pcap_set_timeout,
  pcap_activate, pcap_close, pcap_list_tstamp_types, pcap_free_tstamp_types,
  pcap_get_tstamp_precision,
}
use timing_proxy.Timing.Timeval.{precision_micro}
use timing_proxy.Pcap.Open.{
  null_handle, give_up, activate, prepare, set_best_type, set_precision, custom_pcap_open_live,
}

-- How the opening ends for the handle `p` that pcap_create gave.
pub data Opened (p : ℤ) : Outcome ℤ × Trace → Type 0 where
  no_handle : {v : Trace} → same_int p null_handle ≡ true → Opened p (ok null_handle, v)
  active :
      {reply : Reply} {v : Trace}
      → same_int p null_handle ≡ false
      → is_negative reply.value ≡ false
      → Opened p (ok p, (pcap_activate p, reply) ∷ v)
  closed : {reply : Reply} {v : Trace} → Opened p (ok null_handle, (pcap_close p, reply) ∷ v)

module _ (system : System) where
  activate-Opened :
      (p : ℤ) (snaplen promisc to_ms : ℕ) (w : Trace)
      → same_int p null_handle ≡ false
      → Opened p (activate system p snaplen promisc to_ms w)
  unfolding activate give_up
  activate-Opened p snaplen promisc to_ms w made =
      let a = system w (pcap_set_snaplen p snaplen) in
      let wa : Trace = (pcap_set_snaplen p snaplen, a) ∷ w in
      let b = system wa (pcap_set_promisc p promisc) in
      let wb : Trace = (pcap_set_promisc p promisc, b) ∷ wa in
      let c = system wb (pcap_set_timeout p to_ms) in
      let wc : Trace = (pcap_set_timeout p to_ms, c) ∷ wb in
      let d = system wc (pcap_activate p) in
      elim (Bool-cases (is_negative a.value)) [
        | inl bad ↦ rw bad closed
        | inr fine_a ↦ elim (Bool-cases (is_negative b.value)) [
          | inl bad ↦ rw (fine_a, bad) closed
          | inr fine_b ↦ elim (Bool-cases (is_negative c.value)) [
            | inl bad ↦ rw (fine_a, fine_b, bad) closed
            | inr fine_c ↦ elim (Bool-cases (is_negative d.value)) [
              | inl bad ↦ rw (fine_a, fine_b, fine_c, bad) closed
              | inr fine_d ↦ rw (fine_a, fine_b, fine_c, fine_d) (active made fine_d)
            ]
          ]
        ]
      ]

  set_best_type-returns :
      (p : ℤ) (types : Reply) (w : Trace)
      → (v : Trace) × (set_best_type system p types w ≡ (ok tt, v))
  unfolding set_best_type
  set_best_type-returns p types w =
      elim (Bool-cases (is_negative types.value || (to_size types.value == 0))) [
        | inl none_there ↦ rw none_there (_, refl)
        | inr some_there ↦ rw some_there (_, refl)
      ]

  set_precision-returns :
      (p : ℤ) (precision : Reply) (w : Trace)
      → (v : Trace) × (set_precision system p precision w ≡ (ok tt, v))
  unfolding set_precision
  set_precision-returns p precision w =
      elim (Bool-cases (same_int precision.value (pos precision_micro))) [
        | inl micro ↦ rw micro (_, refl)
        | inr other ↦ rw other (_, refl)
      ]

  -- Preparing a handle always goes on.
  prepare-returns : (p : ℤ) (w : Trace) → (v : Trace) × (prepare system p w ≡ (ok tt, v))
  unfolding prepare
  prepare-returns p w =
      let types = system w (pcap_list_tstamp_types p) in
      let listed : Trace = (pcap_list_tstamp_types p, types) ∷ w in
      let freed : Trace =
        (pcap_free_tstamp_types p, system listed (pcap_free_tstamp_types p)) ∷ listed in
      let (typed, e₁) = set_best_type-returns p types freed in
      let precision = system typed (pcap_get_tstamp_precision p) in
      let asked : Trace = (pcap_get_tstamp_precision p, precision) ∷ typed in
      let (precise, e₂) = set_precision-returns p precision asked in rw (e₁, e₂) (_, refl)

  -- However the capture device answers, custom_pcap_open_live ends, and a handle that pcap_create made
  -- is either returned, just after it was activated without an error, or closed in the last call, with
  -- NULL as the result; NULL is the result too if no handle was made.
  pub custom_pcap_open_live-Opened :
      (device : List ℕ) (snaplen promisc to_ms : ℕ) (w : Trace)
      → Opened
          (system w (pcap_create device)).value
          (custom_pcap_open_live system device snaplen promisc to_ms w)
  unfolding custom_pcap_open_live
  custom_pcap_open_live-Opened device snaplen promisc to_ms w =
      let p = (system w (pcap_create device)).value in
      elim (Bool-cases (same_int p null_handle)) [
        | inl null ↦ rw null (no_handle null)
        | inr made ↦
            let (v, runs) =
              prepare-returns p ((pcap_create device, system w (pcap_create device)) ∷ w) in
            rw (made, runs) (activate-Opened p snaplen promisc to_ms v made)
      ]
