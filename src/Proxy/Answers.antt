-- ===== src/Proxy/Answers.antt =====
-- TimingProxy::tryForwardOutput: what the client and the control client receive of an answer.
use timing_proxy.Base.{
  ℕ, zero, suc, ◌≤◌, ◌<◌, ◌≡◌, refl, sym, ap, ◌∙◌, arith, ℤ, pos, negsuc, is_negative, same_int,
  to_size, false, inl, inr, Bool-cases, List, ◌∷◌, ◌++◌, append-nil, length, length-take, take,
  drop, Outcome, ok, throws, terminate, fault, out_of_fuel, ◌==◌,
}
use timing_proxy.Os.Calls.{Trace, System, send}
use timing_proxy.Os.Io.{pure, after}
use timing_proxy.Os.Triples.{carry}
use timing_proxy.Socket.Server.{ServerSocket, write}
use timing_proxy.Socket.Server.Writes.{write-Delivered}
use timing_proxy.Socket.Timing.{SocketClass}
use timing_proxy.Socket.Stream.{
  stream, SendsSome, Delivered, complete, broken, Delivered-after, Delivered-extend, take-length,
}
use timing_proxy.Proxy.{TimingProxy, bufsize, try_forward_output}

-- What follows without a call leaves the calls as they are.
unchanged-after {ℓ κ} :
    {A : Type ℓ} {B : Type κ} (b : A → B) (run : Outcome A × Trace)
    → (carry (λ a. (ok (b a), run.1)) run.1 run.0).1 ≡ run.1
unchanged-after b (ok a, w) = refl
unchanged-after b (throws e, w) = refl
unchanged-after b (terminate, w) = refl
unchanged-after b (fault, w) = refl
unchanged-after b (out_of_fuel, w) = refl

same_int_sym : (x y : ℤ) → same_int x y ≡ same_int y x
same_int_sym (pos m) (pos n) = ground arith
same_int_sym (pos m) (negsuc n) = refl
same_int_sym (negsuc m) (pos n) = refl
same_int_sym (negsuc m) (negsuc n) = ground arith

-- Writing to one socket sends nothing on another.
write-elsewhere :
    (system : System) (other : ℤ) (fuel : ℕ) (this : ServerSocket) (bytes : List ℕ) (w : Trace)
    → same_int this.client_sock other ≡ false
    → stream other (write system fuel this bytes w).1 ≡ stream other w
unfolding write
write-elsewhere system other zero this bytes w apart = refl
write-elsewhere system other (suc fuel) this bytes w apart =
    let sent = system w (send this.client_sock bytes) in
    let v : Trace = (send this.client_sock bytes, sent) ∷ w in
    let nothing : stream other v ≡ stream other w = rw apart (append-nil (stream other w)) in
    elim (Bool-cases (is_negative sent.value)) [
      | inl failed ↦ rw failed nothing
      | inr fine ↦ elim (Bool-cases (to_size sent.value == length bytes)) [
        | inl whole ↦ rw (fine, whole) nothing
        | inr short ↦
            rw (fine, short)
              (ap (stream other) (
                  unchanged-after (λ _. sent.value)
                    (write system fuel this (drop (to_size sent.value) bytes) v))
                ∙ write-elsewhere system other fuel this (drop (to_size sent.value) bytes) v apart
                ∙ nothing)
      ]
    ]

module _ {A : Type 0} (v : Trace) (first second : ℤ) (bytes report : List ℕ) where
  -- All was sent before, and what follows sends nothing there.
  Delivered-before :
      {r : Outcome A} {w w' : Trace}
      → stream first w' ≡ stream first v ++ bytes
      → Delivered second w report r w'
      → Delivered first v bytes r w'
  Delivered-before all (complete more) = complete all
  Delivered-before all (broken n short some) =
      broken (length bytes) (omega arith)
        (all ∙ ap (λ (xs : List ℕ). stream first v ++ xs) (sym (take-length bytes)))

  -- Two sends on two sockets: what each peer receives.
  pub both-Delivered :
      {B : Type 0} {r : Outcome B} {w : Trace} (next : B → Outcome A × Trace)
      → Delivered first v bytes r w
      → stream second w ≡ stream second v
      → ((b : B) → Delivered second w report (next b).0 (next b).1)
      → ((b : B) → stream first (next b).1 ≡ stream first w)
      → Delivered first v bytes (carry next w r).0 (carry next w r).1
        × Delivered second v report (carry next w r).0 (carry next w r).1
  both-Delivered next (complete {a = a} all) same more quiet = (
    Delivered-before (quiet a ∙ all) (more a),
    Delivered-extend second v report 0 (omega arith) (same ∙ sym (append-nil (stream second v)))
        (more a),
  )
  both-Delivered next (broken n short some) same more quiet =
      (broken n short some, broken 0 (omega arith) (same ∙ sym (append-nil (stream second v))))

module _ {S : Type 0} (system : System) (class : SocketClass S) (sends : SendsSome system)
    (fuel : ℕ) (native_to_big : ℕ → List ℕ) where
  -- If the timing socket reads n bytes, at least one and at most as many as were asked for, and has a
  -- measurement t, native_to_big gives 8 bytes, the client and the control client are on two sockets, sends take what they are given
  -- or a part of it and the rounds for the sends suffice, then tryForwardOutput sends the bytes to the
  -- client and the eight bytes of t to the control client, all of them once and in order if it
  -- returns, and the first ones if it throws.
  pub try_forward_output-Delivered :
      (this : TimingProxy S) (w v : Trace) (output : S) (n : ℤ) (bytes : List ℕ) (t : ℕ)
      → class.read_from this.proxy_output bufsize false w ≡ (ok (output, (n, bytes)), v)
      → is_negative n ≡ false
      → same_int n (pos 0) ≡ false
      → to_size n ≤ bufsize
      → class.measurement output ≡ ok t
      → same_int this.proxy_input.client_sock this.control.client_sock ≡ false
      → bufsize < fuel
      → length (native_to_big t) ≡ 8
      → let run = try_forward_output system class fuel native_to_big this w in
        Delivered this.proxy_input.client_sock v (take (to_size n) bytes) run.0 run.1
        × Delivered this.control.client_sock v (native_to_big t) run.0 run.1
  unfolding try_forward_output
  try_forward_output-Delivered this w v output n bytes t reads fine some_bytes fits measured apart
        enough eight =
      let apart' = same_int_sym this.control.client_sock this.proxy_input.client_sock ∙ apart in
      let answer = take (to_size n) bytes in
      let sent = write system fuel this.proxy_input answer v in
      let report = native_to_big t in
      let out = record this { proxy_output = output } in
      let last = write system fuel this.control report sent.1 in
      let short : length answer ≤ bufsize = omega (arith, length-take (to_size n) bytes) in
      rw (reads, some_bytes, fine, measured)
        (both-Delivered v this.proxy_input.client_sock this.control.client_sock answer report
          (λ _. after (λ _. pure out) last.1 last.0)
          (write-Delivered system sends fuel this.proxy_input answer v (omega arith))
          (write-elsewhere system this.control.client_sock fuel this.proxy_input answer v apart)
          (λ _.
            Delivered-after this.control.client_sock sent.1 report (λ _. pure out)
              (write-Delivered system sends fuel this.control report sent.1 (omega arith))
              (λ _ u. (out, u, refl, refl)))
          (λ _.
            ap (stream this.proxy_input.client_sock) (unchanged-after (λ _. out) last)
            ∙ write-elsewhere system this.proxy_input.client_sock fuel this.control report sent.1
                apart'))
