-- ===== src/Programs/Proxy/Ports.antt =====
-- The port that a control client writes in decimal, and TimingProxy::getProxyTarget.
use timing_proxy.Base.{ℕ, pos, List, Outcome, ok, throws, out_of_range, leb, if◌then◌else◌}
use timing_proxy.Socket.Server
use timing_proxy.Proxy.{TimingProxy}

-- The proxy with the host and the port, or the exception of std::stoi.
abbrev pub outcome_of : {S : Type 0} → TimingProxy S → List ℕ → ℕ → Outcome (TimingProxy S)
outcome_of this host port =
    if leb port 2147483647
    then ok (record this { connect_host = host; connect_port = pos port })
    else throws (out_of_range "stoi")
