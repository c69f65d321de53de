-- ===== src/Pcap/Queue/Search.antt =====
-- `timingForPacket` against a search of the queue.
use timing_proxy.Base.{
  ℕ, zero, suc, ◌+◌, ◌≤◌, ◌≡◌, refl, sym, ap, ◌∙◌, Bool, true, false, List, [], ◌∷◌, ◌++◌, length,
  replicate, Option, some, none, Outcome, ok, ◌>>=◌, arith, Bool-cases, if◌then◌else◌, inl, inr,
}
use timing_proxy.Packet.Types.{Inet}
use timing_proxy.Timing.Timeval.{Timeval}
use timing_proxy.Pcap.Packets.{PacketDirection}
use timing_proxy.Pcap.UserData.{UserData}
use timing_proxy.Pcap.Reader.{deliver, timing_for_packet}
use timing_proxy.Pcap.Queue.View.{Packet, contents, IsValid}
use timing_proxy.Pcap.Queue.Pop.{
  Round, waits, switches, passes, finds, fits, on_one_buffer, poll-Round,
}

-- The first packet that passes the test: its time stamp, and the packets behind it.
abbrev pub find : (Packet → Bool) → List Packet → Option (Timeval × List Packet)
find f [] = none
find f (p ∷ ps) = if f p then some (p.timing, ps) else find f ps

find-nil : (f : Packet → Bool) (l : List Packet) → l ≡ [] → find f l ≡ none
find-nil f l e = rw e

pub find-skip :
    (f : Packet → Bool) (l : List Packet) (p : Packet) (ps : List Packet)
    → l ≡ p ∷ ps
    → f p ≡ false
    → find f l ≡ find f ps
find-skip f l p ps e no_fit = rw (e, no_fit)

pub find-take :
    (f : Packet → Bool) (l : List Packet) (p : Packet) (ps : List Packet)
    → l ≡ p ∷ ps
    → f p ≡ true
    → find f l ≡ some (p.timing, ps)
find-take f l p ps e fit = rw (e, fit)

-- The packets that are left, and more behind them.
abbrev more_behind : List Packet → Option (Timeval × List Packet) → Option (Timeval × List Packet)
more_behind ys none = none
more_behind ys (some (t, rest)) = some (t, rest ++ ys)

-- More packets behind the first match are left behind it.
pub find-append :
    (f : Packet → Bool) (xs ys : List Packet) (t : Timeval) (rest : List Packet)
    → find f xs ≡ some (t, rest)
    → find f (xs ++ ys) ≡ some (t, rest ++ ys)
find-append f [] ys t rest e = cc
find-append f (x ∷ xs) ys t rest e = elim (Bool-cases (f x)) [
  | inl y ↦ rw y (ap (more_behind ys) (sym (find-take f (x ∷ xs) x xs refl y) ∙ e))
  | inr n ↦ rw n (find-append f xs ys t rest (sym (find-skip f (x ∷ xs) x xs refl n) ∙ e))
]

nil_of_length : (l : List Packet) → length l ≤ 0 → l ≡ []
nil_of_length [] h = refl
nil_of_length (x ∷ xs) h = elim h [ ]

-- Rounds that the reader needs at most: one for each packet, and one to change buffers.
abbrev pub rounds_needed : UserData → ℕ
rounds_needed u = length (contents u) + (if on_one_buffer u then 0 else 1)

-- The reader has found a packet, and the queue is what was behind it.
pub record Found (t : Timeval) (rest : List Packet) (r : Outcome (Timeval × UserData))
    : Type 0 where
  pub state : UserData
  pub result : r ≡ ok (t, state)
  pub valid : IsValid state
  pub left : contents state ≡ rest

module _ (inet : Inet) (buf : List ℕ) (buflen : ℕ) (direction : PacketDirection) where
  -- One quiet round, by the way in which it ends.
  quiet-Round :
      (n : ℕ) (u : UserData) (t : Timeval) (rest : List Packet)
      {r : Outcome (Option Timeval × UserData)}
      → find (fits buf buflen direction) (contents u) ≡ some (t, rest)
      → rounds_needed u ≤ suc n
      → Round buf buflen direction u r
      → ((u' : UserData)
          → IsValid u'
          → find (fits buf buflen direction) (contents u') ≡ some (t, rest)
          → rounds_needed u' ≤ n
          → Found t rest (timing_for_packet inet buf buflen direction (replicate n []) u'))
      → Found t rest (
          r >>= λ x. elim x.0 [
            | some s ↦ ok (s, x.1)
            | none ↦ timing_for_packet inet buf buflen direction (replicate n []) x.1
          ])
  quiet-Round n u t rest e h (waits empty) next =
      cc (find-nil (fits buf buflen direction) (contents u) empty)
  quiet-Round n u t rest e h (switches {u'} v same two one) next =
      next u' v (rw same e) (ground (arith, ap length same))
  quiet-Round n u t rest e h (passes {u'} p v split same no_fit) next =
      next u' v
        (sym (find-skip (fits buf buflen direction) (contents u) p (contents u') split no_fit) ∙ e)
        (ground (arith, ap length split))
  quiet-Round n u t rest e h (finds {u'} p v split fit) next =
      let hit =
        sym (find-take (fits buf buflen direction) (contents u) p (contents u') split fit) ∙ e in
      record { state = u'; result = ground (arith, hit); valid = v; left = ground (arith, hit) }

  -- With no packet arriving meanwhile, the reader needs at most a round for each waiting packet and one
  -- more to return the time stamp of the oldest match, and leaves what is behind it in the queue.
  pub timing_for_packet-Found :
      (n : ℕ) (u : UserData) (t : Timeval) (rest : List Packet)
      → IsValid u
      → find (fits buf buflen direction) (contents u) ≡ some (t, rest)
      → rounds_needed u ≤ n
      → Found t rest (timing_for_packet inet buf buflen direction (replicate n []) u)
  unfolding timing_for_packet deliver
  timing_for_packet-Found zero u t rest v e h = cc (
      find-nil (fits buf buflen direction) (contents u) (nil_of_length (contents u) (ground arith)))
  timing_for_packet-Found (suc n) u t rest v e h =
      quiet-Round n u t rest e h (poll-Round buf buflen direction u v)
        λ u' v' e' h'. timing_for_packet-Found n u' t rest v' e' h'
