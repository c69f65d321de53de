-- ===== src/Proxy/Target.antt =====
-- TimingProxy::getProxyTarget: the server that the control client names.
use timing_proxy.Base.{
  ℕ, suc, ◌≡◌, refl, ◌∙◌, sym, ℤ, is_negative, to_size, true, false, inl, inr, List, [], ◌∷◌, ◌++◌,
  some, take, ok, Bool-cases, if-false, ◌==◌,
}
use timing_proxy.Os.Calls.{Trace, System, recv}
use timing_proxy.Socket.Server
use timing_proxy.Socket.Timing.{SocketClass}
use timing_proxy.Proxy.Text.{c_string, find_line, newline, stoi}
use timing_proxy.Proxy.Lines.{lines_in, zero_lines}
use timing_proxy.Proxy.{TimingProxy, getline, get_proxy_target}

pub find_line-append :
    (head tail : List ℕ)
    → lines_in head ≡ 0
    → find_line (head ++ newline ∷ tail) ≡ some (head, tail)
find_line-append [] tail h = refl
find_line-append (x ∷ head) tail h = elim (Bool-cases (x == newline)) [
  | inl same ↦ absurd (zero_lines _ same h)
  | inr other ↦ rw (other, find_line-append head tail (sym (if-false _ _ _ other) ∙ h)) refl
]

module _ {S : Type 0} (system : System) (class : SocketClass S) where
  -- If the first recv on the control socket brings two lines and the second is a number for std::stoi,
  -- getProxyTarget returns after that one call, with the first line as the host and the number as the
  -- port.
  pub get_proxy_target-two_lines :
      (fuel : ℕ) (this : TimingProxy S) (host port rest : List ℕ) (number : ℤ) (w : Trace)
      → let reply = system w (recv this.control.client_sock 1024 true) in
        is_negative reply.value ≡ false
        → c_string (take (to_size reply.value) reply.bytes)
          ≡ host ++ newline ∷ (port ++ newline ∷ rest)
        → lines_in host ≡ 0
        → lines_in port ≡ 0
        → stoi port ≡ ok number
        → get_proxy_target system class (suc (suc fuel)) this w ≡ (
          ok (record this { connect_host = host; connect_port = number }),
          (recv this.control.client_sock 1024 true, reply) ∷ w,
        )
  unfolding get_proxy_target getline Server.read
  get_proxy_target-two_lines fuel this host port rest number w fine text one two parsed =
      rw
        (
          fine,
          text,
          find_line-append host (port ++ newline ∷ rest) one,
          find_line-append port rest two,
          parsed,
        )
        refl
