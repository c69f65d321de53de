-- ===== src/Programs/Client/Exchanges.antt =====
-- The measurement of TestClient/main.cpp as a sequence of exchanges with the server.
use timing_proxy.Base.{
  length, ℕ, zero, suc, ◌<◌, ◌%◌, ◌≡◌, refl, sym, ap, ◌∙◌, arith, ℤ, Bool, true, inl, inr, List, [],
  ◌∷◌, ◌++◌, append-nil, append_assoc, drop, replicate, Outcome, ok, throws, terminate, fault,
  out_of_fuel,
}
use timing_proxy.Base
use timing_proxy.Os.Calls.{Trace}
use timing_proxy.Os.Triples.{Ends, returned, ended, Ends-cases, Ends-to, Ends-after, Ends-anyway}
use timing_proxy.Socket.Laws.{Anything}
use timing_proxy.Socket.Timing.{SocketClass}
use timing_proxy.Programs.Client.{
  bufsize, samplesize, string_in, set_at, Samples, keep_case, sample, samples, measure_rounds,
}

-- What the server is sent for a secret.
abbrev pub request : ℕ → List ℕ
request i = i ∷ replicate 1023 0

module _ {S : Type 0} (class : SocketClass S) where
  open class use {write_to, read_from, measurement}

  -- The request for a secret, the answer to it and the time that the socket measured.
  pub record Exchange (i : ℕ) (ts : S) (w : Trace) (m : ℕ) (ts' : S) (v : Trace) : Type 0 where
    pub sent : S
    pub after_write : Trace
    pub got : ℤ × List ℕ
    pub writes : write_to ts (request i) w ≡ (ok sent, after_write)
    pub reads : read_from sent bufsize true after_write ≡ (ok (ts', got), v)
    pub measured : measurement ts' ≡ ok m

  -- The rounds, each with the times of the two secrets.
  pub data Exchanges : S → Trace → List (ℕ × ℕ) → S → Trace → Type 0 where
    no_more : {ts : S} {w : Trace} → Exchanges ts w [] ts w
    round :
        {ts ts₁ ts₂ ts₃ : S} {w w₁ w₂ w₃ : Trace} {a b : ℕ} {rest : List (ℕ × ℕ)}
        → Exchange 0 ts w a ts₁ w₁
        → Exchange 1 ts₁ w₁ b ts₂ w₂
        → Exchanges ts₂ w₂ rest ts₃ w₃
        → Exchanges ts w ((a, b) ∷ rest) ts₃ w₃

  record SameSamples (this : Samples S) (w : Trace) (that : Samples S) (v : Trace) : Type 0 where
    ts : that.ts ≡ this.ts
    write_buf : that.write_buf ≡ this.write_buf
    times : that.times ≡ this.times
    no_calls : v ≡ w

  kept_string :
      (i : ℕ) (this : Samples S) (w : Trace) (r : Outcome (List ℕ))
      → Ends (SameSamples this w) Anything (
        Base.◌>>=◌ r (λ text. ok (record this { correct_case = set_at i text this.correct_case })),
        w,
      )
  kept_string i this w (ok text) =
      returned (record { ts = refl; write_buf = refl; times = refl; no_calls = refl })
  kept_string i this w (throws e) = ended refl tt
  kept_string i this w terminate = ended refl tt
  kept_string i this w fault = ended refl tt
  kept_string i this w out_of_fuel = ended refl tt

  keep_case-keeps :
      (j i : ℕ) (this : Samples S) (w : Trace)
      → Ends (SameSamples this w) Anything (keep_case class j i this, w)
  keep_case-keeps zero i this w = kept_string i this w (string_in this.read_buf)
  keep_case-keeps (suc j) i this w =
      returned (record { ts = refl; write_buf = refl; times = refl; no_calls = refl })

  record Sampled (i : ℕ) (this : Samples S) (w : Trace) (that : Samples S) (v : Trace)
      : Type 0 where
    m : ℕ
    exchange : Exchange i this.ts w m that.ts v
    times : that.times ≡ set_at i (this.times i ++ (m ∷ [])) this.times
    write_buf : drop 1 that.write_buf ≡ replicate 1023 0

  sample-Sampled :
      (j i : ℕ) (this : Samples S) (w : Trace)
      → i % 256 ≡ i
      → drop 1 this.write_buf ≡ replicate 1023 0
      → Ends (Sampled i this w) Anything (sample class j i this w)
  unfolding sample
  sample-Sampled j i this w small rest =
      elim (Ends-cases (Ends-anyway (write_to this.ts (i % 256 ∷ drop 1 this.write_buf) w))) [
        | inr (r, v, runs, nil, d) ↦ rw runs (Ends-after _ r v nil tt)
        | inl (sent, v, writes, q) ↦
            rw writes (elim (Ends-cases (Ends-anyway (read_from sent bufsize true v))) [
              | inr (r, u, runs, nil, d) ↦ rw runs (Ends-after _ r u nil tt)
              | inl (answer, u, reads, q) ↦
                  rw reads (elim (Ends-cases (Ends-anyway (measurement answer.0, u))) [
                    | inr (r, t, runs, nil, d) ↦ rw (ap (λ x. x.0) runs) (Ends-after _ r u nil tt)
                    | inl (m, t, runs, q) ↦
                        let is_measured : measurement answer.0 ≡ ok m = ap (λ x. x.0) runs in
                        rw is_measured (
                          Ends-to (keep_case-keeps j i _ u) (λ that t same. record {
                            m = m;
                            exchange = record {
                              sent = sent;
                              after_write = v;
                              got = answer.1;
                              writes = rw (small, rest) at writes;
                              reads = rw (same.ts, same.no_calls) reads;
                              measured = rw same.ts is_measured;
                            };
                            times = same.times;
                            write_buf = rw same.write_buf rest;
                          }))
                  ])
            ])
      ]

abbrev pub firsts : List (ℕ × ℕ) → List ℕ
firsts [] = []
firsts (x ∷ xs) = x.0 ∷ firsts xs

abbrev pub seconds : List (ℕ × ℕ) → List ℕ
seconds [] = []
seconds (x ∷ xs) = x.1 ∷ seconds xs

module _ {S : Type 0} (class : SocketClass S) where
  pub record Rounds (left : ℕ) (this : Samples S) (w : Trace) (that : Samples S) (v : Trace)
      : Type 0 where
    pub pairs : List (ℕ × ℕ)
    pub exchanges : Exchanges class this.ts w pairs that.ts v
    pub rounds : length pairs ≡ left
    pub times0 : that.times 0 ≡ this.times 0 ++ firsts pairs
    pub times1 : that.times 1 ≡ this.times 1 ++ seconds pairs

  record Round (this : Samples S) (w : Trace) (that : Samples S) (v : Trace) : Type 0 where
    half : Samples S
    after_half : Trace
    first : Sampled class 0 this w half after_half
    second : Sampled class 1 half after_half that v

  samples-Round :
      (j : ℕ) (this : Samples S) (w : Trace)
      → drop 1 this.write_buf ≡ replicate 1023 0
      → Ends (Round this w) Anything (samples class j 0 samplesize this w)
  unfolding samples
  samples-Round j this w rest = elim (Ends-cases (sample-Sampled class j 0 this w refl rest)) [
    | inr (r, v, runs, nil, d) ↦ rw runs (Ends-after _ r v nil tt)
    | inl (half, u, runs, first) ↦
        rw runs (elim (Ends-cases (sample-Sampled class j 1 half u refl first.write_buf)) [
          | inr (r, v, more, nil, d) ↦ rw more (Ends-after _ r v nil tt)
          | inl (that, v, more, second) ↦
              rw more
                (returned (record { half = half; after_half = u; first = first; second = second }))
        ])
  ]

  -- One more round before the others.
  Rounds-more :
      {left : ℕ} {this next that : Samples S} {w v t : Trace}
      → Round this w next v
      → Rounds left next v that t
      → Rounds (suc left) this w that t
  Rounds-more {this = this} one rest =
      let first = one.first in
      let second = one.second in
      record {
        pairs = (first.m, second.m) ∷ rest.pairs;
        exchanges = round first.exchange second.exchange rest.exchanges;
        rounds = ap suc rest.rounds;
        times0 =
            rest.times0
            ∙ rw (second.times, first.times)
                (append_assoc (this.times 0) (first.m ∷ []) (firsts rest.pairs));
        times1 =
            rest.times1
            ∙ rw (second.times, first.times)
                (append_assoc (this.times 1) (second.m ∷ []) (seconds rest.pairs));
      }

  pub measure_rounds-Rounds :
      (j left : ℕ) (this : Samples S) (w : Trace)
      → drop 1 this.write_buf ≡ replicate 1023 0
      → Ends (Rounds left this w) Anything (measure_rounds class j left this w)
  unfolding measure_rounds
  measure_rounds-Rounds j zero this w rest = returned (record {
    pairs = [];
    exchanges = no_more;
    rounds = refl;
    times0 = sym (append-nil (this.times 0));
    times1 = sym (append-nil (this.times 1));
  })
  measure_rounds-Rounds j (suc left) this w rest = elim (Ends-cases (samples-Round j this w rest)) [
    | inr (r, v, runs, nil, d) ↦ rw runs (Ends-after _ r v nil tt)
    | inl (next, v, runs, one) ↦
        rw runs
          (elim (Ends-cases (measure_rounds-Rounds (suc j) left next v one.second.write_buf)) [
            | inr (r, t, more, nil, d) ↦ rw more (ended nil tt)
            | inl (that, t, more, others) ↦ rw more (returned (Rounds-more one others))
          ])
  ]
