-- ===== src/Pcap/Packets.antt =====
-- The slots of the shared buffers, and what C's memory functions do to them.
use timing_proxy.Base.{ℕ, Bool, true, false, ◌&&◌, List, [], ◌∷◌, ◌++◌, length, take, drop, ◌==◌}
use timing_proxy.Timing.Timeval.{Timeval}

abbrev pub max_packet_size : ℕ
max_packet_size = 1500

pub data PacketDirection : Type 0 where
  destination_remote source_remote : PacketDirection

abbrev pub same_direction : PacketDirection → PacketDirection → Bool
same_direction destination_remote destination_remote = true
same_direction source_remote source_remote = true
same_direction _ _ = false

-- `payload` is the whole array of `max_packet_size` bytes.
pub record PacketInfo : Type 0 where
  pub payload : List ℕ
  pub payload_size : ℕ
  pub timing : Timeval
  pub direction : PacketDirection

-- `memcpy(dst, src, n)` for the `n` bytes of `src`: the rest of `dst` stays.
abbrev pub memcpy : List ℕ → List ℕ → List ℕ
memcpy dst src = src ++ drop (length src) dst

-- `==` of two strings, and the loop of `memcmp`.
unfoldable pub same_bytes : List ℕ → List ℕ → Bool
same_bytes [] [] = true
same_bytes [] (y ∷ ys) = false
same_bytes (x ∷ xs) [] = false
same_bytes (x ∷ xs) (y ∷ ys) = (x == y) && same_bytes xs ys

-- `memcmp(a, b, n) == 0`
unfoldable pub memcmp_zero : List ℕ → List ℕ → ℕ → Bool
memcmp_zero a b n = same_bytes (take n a) (take n b)
