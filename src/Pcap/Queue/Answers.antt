-- ===== src/Pcap/Queue/Answers.antt =====
-- `timingForPacket` under every interleaving with the capture thread.
use timing_proxy.Base.{
  ℕ, ◌≡◌, refl, sym, ap, ◌∙◌, subst, List, [], ◌∷◌, ◌++◌, append_assoc, append-nil, Option, some,
  none, Outcome, ok, ◌>>=◌, >>=-returned, ok-injective,
}
use timing_proxy.Packet.Types.{Inet}
use timing_proxy.Timing.Timeval.{Timeval}
use timing_proxy.Pcap.Packets.{PacketDirection}
use timing_proxy.Pcap.UserData.{UserData}
use timing_proxy.Pcap.Reader.{Arrival, deliver, timing_for_packet}
use timing_proxy.Pcap.Queue.View.{Packet, contents, IsValid}
use timing_proxy.Pcap.Queue.Pop.{Round, waits, switches, passes, finds, fits, poll-Round}
use timing_proxy.Pcap.Queue.Search.{find, find-skip, find-take}
use timing_proxy.Pcap.Queue.Settings.{settings, SettingsKept, poll-settings}
use timing_proxy.Pcap.Queue.Brought.{Brought, Brought-append, Brought-settings}
use timing_proxy.Pcap.Queue.Deliver.{Extends, deliver-Extends}

-- The packets of several rounds, in their order.
abbrev pub arrivals : List (List Arrival) → List Arrival
arrivals [] = []
arrivals (xs ∷ rounds) = xs ++ arrivals rounds

module _ (inet : Inet) (buf : List ℕ) (buflen : ℕ) (direction : PacketDirection) where
  -- The first rounds of the schedule have passed, and `added` is what their packets bring to the queue.
  -- The answer is the oldest match among the packets that waited at the call and those, and what was
  -- behind it is left.
  pub record Answers (rounds : List (List Arrival)) (u : UserData) (t : Timeval) (u' : UserData)
      : Type 0 where
    pub valid : IsValid u'
    pub passed : List (List Arrival)
    pub left : List (List Arrival)
    pub split : rounds ≡ passed ++ left
    pub added : List Packet
    pub came : Brought inet u (arrivals passed) added
    pub oldest : find (fits buf buflen direction) (contents u ++ added) ≡ some (t, contents u')

  -- A round moves no answer.
  Answers-from :
      (xs : List Arrival) (rounds : List (List Arrival)) (u u1 u2 : UserData) (t : Timeval)
      (u' : UserData) (x : Extends inet u xs u1)
      → settings u2 ≡ settings u1
      → ((more : List Packet)
          → find (fits buf buflen direction) (contents u ++ (x.added ++ more))
            ≡ find (fits buf buflen direction) (contents u2 ++ more))
      → Answers rounds u2 t u'
      → Answers (xs ∷ rounds) u t u'
  Answers-from xs rounds u u1 u2 t u' x kept same a = record {
    valid = a.valid;
    passed = xs ∷ a.passed;
    left = a.left;
    split = ap (◌∷◌ xs) a.split;
    added = x.added ++ a.added;
    came = Brought-append inet x.came (Brought-settings inet (kept ∙ x.same) a.came);
    oldest = same a.added ∙ a.oldest;
  }

  answer-Round :
      (xs : List Arrival) (rounds : List (List Arrival)) (u u1 : UserData) (t : Timeval)
      (u' : UserData) {r : Outcome (Option Timeval × UserData)}
      → Extends inet u xs u1
      → Round buf buflen direction u1 r
      → SettingsKept u1 r
      → (r >>= λ x. elim x.0 [
        | some s ↦ ok (s, x.1)
        | none ↦ timing_for_packet inet buf buflen direction rounds x.1
      ])
        ≡ ok (t, u')
      → ((u2 : UserData)
          → IsValid u2
          → timing_for_packet inet buf buflen direction rounds u2 ≡ ok (t, u')
          → Answers rounds u2 t u')
      → Answers (xs ∷ rounds) u t u'
  answer-Round xs rounds u u1 t u' x (waits empty) kept h next =
      Answers-from xs rounds u u1 u1 t u' x refl
        (λ more. ap (find (fits buf buflen direction)) (
          sym (append_assoc (contents u) x.added more)
          ∙ ap (λ (l : List Packet). l ++ more) (sym x.appended)))
        (next u1 x.valid h)
  answer-Round xs rounds u u1 t u' x (switches {u' = u2} v same two one) kept h next =
      Answers-from xs rounds u u1 u2 t u' x kept
        (λ more. ap (find (fits buf buflen direction)) (
          sym (append_assoc (contents u) x.added more)
          ∙ ap (λ (l : List Packet). l ++ more) (sym x.appended ∙ sym same)))
        (next u2 v h)
  answer-Round xs rounds u u1 t u' x (passes {u' = u2} p v split same no_fit) kept h next =
      Answers-from xs rounds u u1 u2 t u' x kept
        (λ more.
          ap (find (fits buf buflen direction)) (
            sym (append_assoc (contents u) x.added more)
            ∙ ap (λ (l : List Packet). l ++ more) (sym x.appended ∙ split))
          ∙ find-skip (fits buf buflen direction) (p ∷ (contents u2 ++ more)) p
              (contents u2 ++ more) refl no_fit)
        (next u2 v h)
  answer-Round xs rounds u u1 t u' x (finds {u' = u2} p v split fit) kept h next =
      let same_time : p.timing ≡ t = ap (λ (q : Timeval × UserData). q.0) (ok-injective h) in
      let same_state : u2 ≡ u' = ap (λ (q : Timeval × UserData). q.1) (ok-injective h) in
      record {
        valid = subst IsValid same_state v;
        passed = xs ∷ [];
        left = rounds;
        split = refl;
        added = x.added;
        came = subst (λ (l : List Arrival). Brought inet u l x.added) (sym (append-nil xs)) x.came;
        oldest =
            find-take (fits buf buflen direction) (contents u ++ x.added) p (contents u2)
              (sym x.appended ∙ split) fit
            ∙ ap (λ (s : Timeval). some (s, contents u2)) same_time
            ∙ ap (λ (w : UserData). some (t, contents w)) same_state;
      }

  -- Whenever the reader, called on valid buffers, returns, under any schedule of the capture thread, the
  -- first rounds of the schedule have passed, and it answers with the time stamp of the oldest match in the queue as it was
  -- at the call, followed by what the packets of those rounds bring: for each packet from libpcap that
  -- is decoded and has a payload, these bytes, libpcap's time stamp and the direction. It has taken
  -- exactly the match and the packets before it.
  pub timing_for_packet-Answers :
      (rounds : List (List Arrival)) (u : UserData) (t : Timeval) (u' : UserData)
      → IsValid u
      → timing_for_packet inet buf buflen direction rounds u ≡ ok (t, u')
      → Answers rounds u t u'
  unfolding timing_for_packet
  timing_for_packet-Answers [] u t u' v h = cc
  timing_for_packet-Answers (xs ∷ rounds) u t u' v h =
      let (u1, e, h1) = >>=-returned (deliver inet u xs) _ h in
      let x = deliver-Extends inet xs u u1 v e in
      answer-Round xs rounds u u1 t u' x (poll-Round buf buflen direction u1 x.valid)
        (poll-settings buf buflen direction u1) h1
        λ u2 v2. timing_for_packet-Answers rounds u2 t u' v2
