-- ===== src/Pcap/Queue/Threads.antt =====
-- The callback's thread and the reader's thread on the shared buffers, one write at a time.
use timing_proxy.Base.{
  ℕ, zero, suc, ◌≤◌, ◌<◌, ◌≡◌, ◌↔◌, refl, subst, arith, Bool, true, false, inl, inr, Bool-cases,
  ◌⊎◌, List, [], ◌∷◌, length, Option, none, some, get_elem?, Outcome, ok, fault, ◌==◌,
}
use timing_proxy.Timing.Timeval.{Timeval}
use timing_proxy.Pcap.Packets.{PacketInfo, PacketDirection}
use timing_proxy.Pcap.UserData.{
  UserData, buffer, reset_index, flip_buffer, put_slot, claim_slot, fill_slot,
}
use timing_proxy.Pcap.Reader.{poll, caught_up, buffer_done, switch_buffer, next_slot, start_loop}
use timing_proxy.Pcap.Queue.View.{InBounds}
use timing_proxy.Pcap.Queue.Pop.{on_one_buffer}
use timing_proxy.Pcap.Queue.Push.{put_slot-IsValid}
use timing_proxy.Pcap.Queue.Race.{get_elem?-end}

-- Where the callback's thread is: between its two writes of a change of buffers, or elsewhere.
pub data Phase : Type 0 where
  steady changing : Phase

-- One step of either thread. A slot that is filled is seen by the reader when the index moves past it.
pub data Step : Phase × UserData → Phase × UserData → Type 0 where
  resets :
      {u : UserData}
      → u.shared_buffer_index_producer ≡ 1000
      → on_one_buffer u ≡ true
      → Step (steady, u) (changing, reset_index u)
  flips : {u : UserData} → Step (changing, u) (steady, flip_buffer u)
  fills :
      {u : UserData} (pinfo : PacketInfo)
      → u.shared_buffer_index_producer < 1000
      → Step (steady, u) (steady, put_slot u pinfo)
  polls :
      {phase : Phase} {u u' : UserData} {r : Option Timeval} (buf : List ℕ) (buflen : ℕ)
      (direction : PacketDirection)
      → poll buf buflen direction u ≡ ok (r, u')
      → Step (phase, u) (phase, u')

pub data Reach (s : Phase × UserData) : Phase × UserData → Type 0 where
  here : Reach s s
  next : {t v : Phase × UserData} → Reach s t → Step t v → Reach s v

-- The indices in a change of buffers: the reader is on the buffer that the callback has filled.
pub record Changing (u : UserData) : Type 0 where
  pub a_size : length u.shared_buffer_a ≡ 1000
  pub b_size : length u.shared_buffer_b ≡ 1000
  pub producer_reset : u.shared_buffer_index_producer ≡ 0
  pub consumer_in : u.shared_buffer_index_consumer ≤ 1000
  pub on_one : on_one_buffer u ≡ true

abbrev Inv : Phase × UserData → Type 0
Inv (steady, u) = InBounds u
Inv (changing, u) = Changing u

-- How a round of the reader ends.
data Ending (u : UserData) : Outcome (Option Timeval × UserData) → Type 0 where
  waits : caught_up u ≡ true → Ending u (ok (none, u))
  switches : caught_up u ≡ false → buffer_done u ≡ true → Ending u (ok (none, switch_buffer u))
  reads :
      {r : Option Timeval}
      → caught_up u ≡ false
      → buffer_done u ≡ false
      → u.shared_buffer_index_consumer < length (buffer u u.active_buffer_consumer)
      → Ending u (ok (r, next_slot u))
  leaves :
      caught_up u ≡ false
      → buffer_done u ≡ false
      → length (buffer u u.active_buffer_consumer) ≤ u.shared_buffer_index_consumer
      → Ending u fault

Option-cases : {A : Type 0} (o : Option A) → (o ≡ none) ⊎ ((a : A) × (o ≡ some a))
Option-cases none = inl refl
Option-cases (some a) = inr (a, refl)

get_elem?-in : {A : Type 0} {x : A} (xs : List A) (i : ℕ) → get_elem? xs i ≡ some x → i < length xs
get_elem?-in [] i h = cc
get_elem?-in (y ∷ xs) zero h = omega arith
get_elem?-in (y ∷ xs) (suc i) h = omega (arith, get_elem?-in xs i h)

get_elem?-out : {A : Type 0} (xs : List A) (i : ℕ) → get_elem? xs i ≡ none → length xs ≤ i
get_elem?-out [] i h = omega arith
get_elem?-out (y ∷ xs) zero h = cc
get_elem?-out (y ∷ xs) (suc i) h = omega (arith, get_elem?-out xs i h)

poll-Ending :
    (buf : List ℕ) (buflen : ℕ) (direction : PacketDirection) (u : UserData)
    → Ending u (poll buf buflen direction u)
unfolding poll
poll-Ending buf buflen direction u = elim (Bool-cases (caught_up u)) [
  | inl e ↦ rw e (waits e)
  | inr e ↦ elim (Bool-cases (buffer_done u)) [
    | inl d ↦ rw (e, d) (switches e d)
    | inr d ↦
        elim (Option-cases
          (get_elem? (buffer u u.active_buffer_consumer) u.shared_buffer_index_consumer)) [
            | inl out ↦
                rw (e, d, out)
                  (leaves e d (
                    get_elem?-out (buffer u u.active_buffer_consumer) u.shared_buffer_index_consumer
                      out))
            | inr (x, there) ↦
                rw (e, d, there)
                  (reads e d (
                    get_elem?-in (buffer u u.active_buffer_consumer) u.shared_buffer_index_consumer
                      there))
          ]
  ]
]

-- A round of the reader keeps the indices in their bounds, also during a change of buffers.
Ending-InBounds :
    {u u' : UserData} {r : Option Timeval} → InBounds u → Ending u (ok (r, u')) → InBounds u'
Ending-InBounds b (waits e) = b
Ending-InBounds b (switches e d) = ground arith
Ending-InBounds b (reads e d inside) = ground arith

Ending-Changing :
    {u u' : UserData} {r : Option Timeval} → Changing u → Ending u (ok (r, u')) → Changing u'
Ending-Changing c (waits e) = c
Ending-Changing c (switches e d) = ground arith
Ending-Changing c (reads e d inside) = ground arith

flipped-InBounds : (u : UserData) → Changing u → InBounds (flip_buffer u)
flipped-InBounds u c = ground arith

Step-Inv : {s t : Phase × UserData} → Step s t → Inv s → Inv t
Step-Inv (resets full one) b = record {
  a_size = b.a_size;
  b_size = b.b_size;
  producer_reset = refl;
  consumer_in = b.consumer_in;
  on_one = one;
}
Step-Inv (flips {u = u}) c = flipped-InBounds u c
Step-Inv (fills {u = u} pinfo room) b = (put_slot-IsValid u b room pinfo).bounds
Step-Inv (polls {phase = steady} {u = u} buf buflen direction e) b =
    Ending-InBounds b (subst (Ending u) e (poll-Ending buf buflen direction u))
Step-Inv (polls {phase = changing} {u = u} buf buflen direction e) c =
    Ending-Changing c (subst (Ending u) e (poll-Ending buf buflen direction u))

Reach-Inv : {s t : Phase × UserData} → Inv s → Reach s t → Inv t
Reach-Inv i here = i
Reach-Inv i (next r step) = Step-Inv step (Reach-Inv i r)

abbrev pub is_changing : Phase → Bool
is_changing steady = false
is_changing changing = true

-- A round that faults, and the state that it needs.
leaves-Inv :
    (s : Phase × UserData)
    → Inv s
    → Ending s.1 fault
    → (is_changing s.0 ≡ true) × (s.1.shared_buffer_index_consumer ≡ 1000)
leaves-Inv (steady, u) b (leaves e d out) = absurd (ground arith)
leaves-Inv (changing, u) c (leaves e d out) = (refl, ground arith)

changing-faults :
    (buf : List ℕ) (buflen : ℕ) (direction : PacketDirection) (s : Phase × UserData)
    → Inv s
    → is_changing s.0 ≡ true
    → s.1.shared_buffer_index_consumer ≡ 1000
    → poll buf buflen direction s.1 ≡ fault
unfolding poll
changing-faults buf buflen direction (steady, u) b there at_end = cc
changing-faults buf buflen direction (changing, u) c there at_end =
    ground (arith, get_elem?-end u.shared_buffer_a 1000, get_elem?-end u.shared_buffer_b 1000)

-- In every state that the two threads reach from startLoop, with one write of the callback or one round
-- of the reader as a step, a round of the reader reads out of bounds if and only if the callback is
-- between the two writes of a change of buffers and the reader is at the end of its buffer.
pub poll-Reach :
    (buf : List ℕ) (buflen : ℕ) (direction : PacketDirection) (start : UserData)
    (s : Phase × UserData)
    → length start.shared_buffer_a ≡ 1000
    → length start.shared_buffer_b ≡ 1000
    → Reach (steady, start_loop start) s
    → (poll buf buflen direction s.1 ≡ fault)
      ↔ ((is_changing s.0 ≡ true) × (s.1.shared_buffer_index_consumer ≡ 1000))
unfolding start_loop
poll-Reach buf buflen direction start s a b r =
    let i =
      Reach-Inv
        (record {
          a_size = a;
          b_size = b;
          producer_in = omega arith;
          consumer_in = omega arith;
          behind = λ _. omega arith;
        })
        r in
    (
      (λ faults. leaves-Inv s i (subst (Ending s.1) faults (poll-Ending buf buflen direction s.1))),
      (λ at. changing-faults buf buflen direction s i at.0 at.1),
    )

-- The callback's code takes these steps: a result that it returns is reached.
abbrev pub ReachesResult : UserData → Outcome UserData → Type 0
ReachesResult u (ok u') = Reach (steady, u) (steady, u')
ReachesResult u r = Unit

pub claim_slot-Reach : (u : UserData) → ReachesResult u (claim_slot u)
unfolding claim_slot
claim_slot-Reach u = elim (Bool-cases (u.shared_buffer_index_producer == 1000)) [
  | inr room ↦ rw room here
  | inl full ↦ elim (Bool-cases (on_one_buffer u)) [
    | inl one ↦ rw (full, one) (next (next here (resets (ground arith) one)) flips)
    | inr other ↦ rw (full, other) tt
  ]
]

pub fill_slot-Reach :
    (u : UserData) (bytes : List ℕ) (payload_size : ℕ) (direction : PacketDirection)
    (timing : Timeval)
    → u.shared_buffer_index_producer < 1000
    → ReachesResult u (fill_slot u bytes payload_size direction timing)
unfolding fill_slot
fill_slot-Reach u bytes payload_size direction timing room =
    elim (Option-cases
      (get_elem? (buffer u u.active_buffer_producer) u.shared_buffer_index_producer)) [
        | inl out ↦ rw out tt
        | inr (old, there) ↦ rw there (next here (fills _ room))
      ]
