-- ===== src/Programs/Options.antt =====
-- The option `technique` of main.cpp and TestClient/main.cpp, as boost::program_options gives it.
use timing_proxy.Base.{ℕ, List, [], ◌∷◌, Option, none, some, if◌then◌else◌}
use timing_proxy.Pcap.Packets.{same_bytes}
use timing_proxy.Socket.Timing.{KindOfSocket, cpu_kind, kernel_kind, pcap_kind}

-- "CPU", "Kernel" and "PCAP"
abbrev pub cpu_name : List ℕ
cpu_name = 67 ∷ 80 ∷ 85 ∷ []

abbrev pub kernel_name : List ℕ
kernel_name = 75 ∷ 101 ∷ 114 ∷ 110 ∷ 101 ∷ 108 ∷ []

abbrev pub pcap_name : List ℕ
pcap_name = 80 ∷ 67 ∷ 65 ∷ 80 ∷ []

unfoldable pub kind_named : List ℕ → Option KindOfSocket
unfolding same_bytes
kind_named technique =
    if same_bytes technique cpu_name
    then some cpu_kind
    else if same_bytes technique kernel_name
    then some kernel_kind
    else if same_bytes technique pcap_name
    then some pcap_kind
    else none
