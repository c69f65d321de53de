-- ===== src/Programs/Proxy/Status.antt =====
-- The exit status of src/main.cpp.
use timing_proxy.Base.{List, ℕ, ◌≡◌, ℤ, pos, minus_one, true, false, none, some, Outcome, ok}
use timing_proxy.Os.Calls.{Trace, System}
use timing_proxy.Os.Io.{Io, is_ok}
use timing_proxy.Socket.Server.{ServerSocket}
use timing_proxy.Socket.Timing.{KindOfSocket, SocketClass}
use timing_proxy.Socket.Any.{Blank, AnySocket}
use timing_proxy.Programs.Options.{kind_named}
use timing_proxy.Programs.Proxy.{Options}

module _ (system : System) (blank : Blank) (unset : ServerSocket) (class : SocketClass AnySocket)
    (fuel : ℕ) (native_to_big : ℕ → List ℕ) where
  -- What main does with its options, from the calls before it: it returns at once, without a call, or
  -- it serves and does not return.
  pub data Status (options : Options) (w : Trace) (served : KindOfSocket → Outcome ℤ × Trace)
      : Outcome ℤ × Trace → Type 0 where
    helped : options.help ≡ true → Status options w served (ok (pos 1), w)
    refused :
        options.help ≡ false
        → kind_named options.technique ≡ none
        → Status options w served (ok minus_one, w)
    running :
        (kind : KindOfSocket)
        → options.help ≡ false
        → kind_named options.technique ≡ some kind
        → is_ok (served kind).0 ≡ false
        → Status options w served (served kind)
