-- ===== src/Programs/Proxy.antt =====
-- src/main.cpp: the proxy as a program.
pub mod Status
pub mod Ports
use timing_proxy.Base.{ℕ, ℤ, pos, minus_one, Bool, List, [], Option, none, some, if◌then◌else◌}
use timing_proxy.Os.Calls.{System}
use timing_proxy.Os.Io.{Io, ◌>>=◌, ◌>>◌, pure}
use timing_proxy.Socket.Server.{ServerSocket}
use timing_proxy.Socket.Timing.{KindOfSocket, SocketClass}
use timing_proxy.Socket.Any.{Blank, AnySocket, create_timing_socket}
use timing_proxy.Proxy.{TimingProxy, new_timing_proxy, run}
use timing_proxy.Proxy.Interface.{set_interface}
use timing_proxy.Programs.Options.{kind_named}

-- The options as they are after parsing.
pub record Options : Type 0 where
  pub help : Bool
  pub data_port : ℕ
  pub control_port : ℕ
  pub technique : List ℕ
  pub interface : List ℕ

module _ (system : System) (blank : Blank) (unset : ServerSocket) (class : SocketClass AnySocket)
    (fuel : ℕ) (native_to_big : ℕ → List ℕ) where
  -- The object, its interface and its `run` for as many clients as `clients`.
  unfoldable pub start_proxy : ℕ → ℕ → Options → KindOfSocket → Io ℤ
  start_proxy rounds clients options measurement_technique = do
    output ← create_timing_socket system blank measurement_technique
    proxy ←
        new_timing_proxy system unset unset output options.data_port options.control_port
          measurement_technique
    ready ← set_interface system blank.wrapper proxy options.interface
    run system class fuel native_to_big rounds clients ready
    pure (pos 0)

  unfoldable pub main : ℕ → ℕ → Options → Io ℤ
  main rounds clients options =
      if options.help then pure (pos 1) else elim (kind_named options.technique) [
        | none ↦ pure minus_one
        | some kind ↦ start_proxy rounds clients options kind
      ]
