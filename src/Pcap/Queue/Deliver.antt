-- ===== src/Pcap/Queue/Deliver.antt =====
-- The callback against the queue: what it appends.
use timing_proxy.Base.{
  ℕ, ◌≡◌, ◌≤◌, false, refl, arith, sym, ap, ◌∙◌, subst, List, [], ◌∷◌, ◌++◌, append-nil,
  append_assoc, length, Outcome, ok, throws, terminate, fault, out_of_fuel, invalid_argument,
  out_of_range, runtime_error, Exception, ◌>>=◌, >>=-returned, ok-injective, throw_if, ltb, ◌==◌,
  Bool-cases, if-true, if-false, inl, inr,
}
use timing_proxy.Packet.Memory.{load_bytes}
use timing_proxy.Packet.Memory.Bounds.{load_bytes-length}
use timing_proxy.Packet.Types.{Inet, Decoded}
use timing_proxy.Timing.Timeval.{Timeval}
use timing_proxy.Pcap.Packets.{PacketDirection}
use timing_proxy.Pcap.UserData.{UserData, claim_slot, fill_slot}
use timing_proxy.Pcap.Callback.{direction_of, store, after_decoding, decode_link, handle_packet}
use timing_proxy.Pcap.Reader.{Arrival, deliver}
use timing_proxy.Pcap.Queue.View.{Packet, contents, IsValid}
use timing_proxy.Pcap.Queue.Settings.{settings, claim_slot-settings, fill_slot-settings}
use timing_proxy.Pcap.Queue.Brought.{
  Brings, stopped, undecoded, empty, payload, Brought, no_more, one_more, Brought-settings,
}
use timing_proxy.Pcap.Queue.Push.{Pushed, stored, push-Pushed}

-- The later queue is the earlier one with the packets behind it that these packets from libpcap bring.
pub record Extends (inet : Inet) (u : UserData) (xs : List Arrival) (u' : UserData) : Type 0 where
  pub valid : IsValid u'
  pub same : settings u' ≡ settings u
  pub added : List Packet
  pub came : Brought inet u xs added
  pub appended : contents u' ≡ contents u ++ added

-- The same for one packet.
record Adds (inet : Inet) (u : UserData) (x : Arrival) (u' : UserData) : Type 0 where
  valid : IsValid u'
  same : settings u' ≡ settings u
  added : List Packet
  came : Brings inet u x added
  appended : contents u' ≡ contents u ++ added

Adds-nothing :
    (inet : Inet) (u : UserData) (x : Arrival) (u' : UserData)
    → IsValid u
    → Brings inet u x []
    → ◌≡◌ {A = Outcome UserData} (ok u) (ok u')
    → Adds inet u x u'
Adds-nothing inet u x u' v nil e = subst (Adds inet u x) (ok-injective e) (record {
  valid = v;
  same = refl;
  added = [];
  came = nil;
  appended = sym (append-nil (contents u));
})

Extends-more :
    {inet : Inet} {u u' u'' : UserData} {x : Arrival} {xs : List Arrival}
    → Adds inet u x u'
    → Extends inet u' xs u''
    → Extends inet u (x ∷ xs) u''
Extends-more {inet} {u} {u'} {u''} a b = record {
  valid = b.valid;
  same = b.same ∙ a.same;
  added = a.added ++ b.added;
  came = one_more a.came (Brought-settings inet a.same b.came);
  appended =
      b.appended
      ∙ ap (λ (l : List Packet). l ++ b.added) a.appended
      ∙ append_assoc (contents u) a.added b.added;
}

not_over : (r : Exception) (n : ℕ) (done : Unit {0}) → throw_if (ltb 1500 n) r ≡ ok done → n ≤ 1500
not_over r n done h = ground arith

claimed_Pushed :
    (u u1 u' : UserData) (v : IsValid u) (bytes : List ℕ) (direction : PacketDirection)
    (timing : Timeval)
    → claim_slot u ≡ ok u1
    → fill_slot u1 bytes (length bytes) direction timing ≡ ok u'
    → Pushed u (stored bytes direction timing) u'
claimed_Pushed u u1 u' v bytes direction timing e f =
    let both : (claim_slot u >>= λ x. fill_slot x bytes (length bytes) direction timing) ≡ ok u' =
      rw e f in
    elim (push-Pushed u bytes direction timing v) [
      | inl (full, stop) ↦ cc (stop, both)
      | inr (u2, run, p) ↦
          subst (Pushed u (stored bytes direction timing)) (ok-injective (sym run ∙ both)) p
    ]

module _ (inet : Inet) (u : UserData) (v : IsValid u) (x : Arrival) where
  store-Adds :
      (d : Decoded) (u' : UserData)
      → decode_link inet u x.header x.packet ≡ ok d
      → u.stop_loop ≡ false
      → store u x.header x.packet d ≡ ok u'
      → Adds inet u x u'
  unfolding store
  store-Adds d u' decoded running h =
      let (done, small, h1) = >>=-returned (throw_if (ltb 1500 d.payload_size) _) _ h in
      elim (Bool-cases (d.payload_size == 0)) [
        | inl nil ↦ Adds-nothing inet u x u' v (empty d decoded (ground arith)) (rw nil at h1)
        | inr some_bytes ↦
            let h2 = rw some_bytes at h1 in
            let (u1, e, h3) = >>=-returned (claim_slot u) _ h2 in
            let (bytes, loaded, f) =
              >>=-returned (load_bytes x.packet d.payload 0 d.payload_size) _ h3 in
            let long = load_bytes-length x.packet d.payload 0 d.payload_size bytes loaded in
            let direction = direction_of u d.artefacts in
            let p = claimed_Pushed u u1 u' v bytes direction x.header.ts e (
              subst (λ (n : ℕ). fill_slot u1 bytes n direction x.header.ts ≡ ok u') (sym long) f) in
            record {
              valid = p.valid;
              same =
                  fill_slot-settings u1 bytes d.payload_size direction x.header.ts u' f
                  ∙ claim_slot-settings u u1 e;
              added = stored bytes direction x.header.ts ∷ [];
              came =
                  payload d bytes decoded running (ground arith)
                    (not_over _ d.payload_size done small) loaded;
              appended = p.appended;
            }
      ]

  after_decoding-Adds :
      (r : Outcome Decoded) (u' : UserData)
      → decode_link inet u x.header x.packet ≡ r
      → u.stop_loop ≡ false
      → after_decoding u r (store u x.header x.packet) ≡ ok u'
      → Adds inet u x u'
  unfolding after_decoding
  after_decoding-Adds (ok d) u' e running h = store-Adds d u' e running h
  after_decoding-Adds (throws (invalid_argument what)) u' e running h =
      Adds-nothing inet u x u' v (undecoded e) h
  after_decoding-Adds (throws (out_of_range what)) u' e running h = cc
  after_decoding-Adds (throws (runtime_error what)) u' e running h = cc
  after_decoding-Adds terminate u' e running h = cc
  after_decoding-Adds fault u' e running h = cc
  after_decoding-Adds out_of_fuel u' e running h = cc

  -- The callback keeps the invariant and adds to the end of the queue what the packet brings.
  handle_packet-Adds :
      (u' : UserData) → handle_packet inet u x.header x.packet ≡ ok u' → Adds inet u x u'
  unfolding handle_packet
  handle_packet-Adds u' h = elim (Bool-cases u.stop_loop) [
    | inl stop ↦
        Adds-nothing inet u x u' v (stopped stop) (sym (if-true u.stop_loop (ok u) _ stop) ∙ h)
    | inr running ↦
        after_decoding-Adds (decode_link inet u x.header x.packet) u' refl running
          (sym (if-false u.stop_loop (ok u) _ running) ∙ h)
  ]

pub deliver-Extends :
    (inet : Inet) (xs : List Arrival) (u u' : UserData)
    → IsValid u
    → deliver inet u xs ≡ ok u'
    → Extends inet u xs u'
unfolding deliver
deliver-Extends inet [] u u' v h = subst (Extends inet u []) (ok-injective h) (record {
  valid = v;
  same = refl;
  added = [];
  came = no_more;
  appended = sym (append-nil (contents u));
})
deliver-Extends inet (x ∷ xs) u u' v h =
    let (u1, e, h1) = >>=-returned (handle_packet inet u x.header x.packet) _ h in
    let a = handle_packet-Adds inet u v x u1 e in
    Extends-more a (deliver-Extends inet xs u1 u' a.valid h1)
