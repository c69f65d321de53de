-- ===== src/Pcap/Queue/Race.antt =====
-- The callback's change of buffers is two writes; between them the reader can leave its buffer.
use timing_proxy.Base.{
  ℕ, zero, suc, ◌≤◌, ◌≡◌, refl, true, List, [], ◌∷◌, length, none, get_elem?, ok, fault, arith,
}
use timing_proxy.Pcap.Packets.{PacketDirection}
use timing_proxy.Pcap.UserData.{UserData, reset_index, flip_buffer, turned}
use timing_proxy.Pcap.Reader.{poll, switch_buffer}
use timing_proxy.Pcap.Queue.View.{IsValid}
use timing_proxy.Pcap.Queue.Pop.{on_one_buffer}

pub get_elem?-end {ℓ} : {A : Type ℓ} (xs : List A) (i : ℕ) → length xs ≤ i → get_elem? xs i ≡ none
get_elem?-end [] i h = refl
get_elem?-end (x ∷ xs) zero h = elim h [ ]
get_elem?-end (x ∷ xs) (suc i) h = get_elem?-end xs i (omega arith)

-- A reader that has read the whole of the buffer that the callback has just filled waits before the
-- callback changes buffers, and follows it after; but a round of its loop that runs between the
-- callback's two writes reads behind the end of the array.
pub poll-reset_index :
    (buf : List ℕ) (buflen : ℕ) (direction : PacketDirection) (u : UserData)
    → IsValid u
    → on_one_buffer u ≡ true
    → u.shared_buffer_index_producer ≡ 1000
    → u.shared_buffer_index_consumer ≡ 1000
    → (poll buf buflen direction u ≡ ok (none, u))
      × (poll buf buflen direction (reset_index u) ≡ fault)
      × (poll buf buflen direction (flip_buffer (reset_index u))
          ≡ ok (none, switch_buffer (turned u)))
unfolding poll
poll-reset_index buf buflen direction u v one p c = (
  ground arith,
  ground (arith, get_elem?-end u.shared_buffer_a 1000, get_elem?-end u.shared_buffer_b 1000),
  ground arith,
)
