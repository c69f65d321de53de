-- ===== src/Proxy/Lines.antt =====
-- TimingProxy::getline against the text that the control socket has received.
use timing_proxy.Base.{
  ℕ, zero, suc, ◌≡◌, refl, sym, ap, ◌∙◌, subst, arith, pos, to_size, is_negative, Bool, true, false,
  inl, inr, List, [], ◌∷◌, ◌++◌, append-nil, append_assoc, length-append, Option, none, some, take,
  Outcome, ok, throws, out_of_fuel, Exception, ◌==◌, Bool-cases, Option-cases, length,
  if◌then◌else◌, if-false,
}
use timing_proxy.Os.Calls.{Call, Reply, Trace, System, recv}
use timing_proxy.Os.Io.{Io, ◌>>=◌}
use timing_proxy.Socket.Server.{ServerSocket, read}
use timing_proxy.Proxy.Text.{c_string, find_line, onto_head, newline}
use timing_proxy.Proxy.{getline, or_read_on}

-- What the loop appends for the calls made after `w`: the newest call is the last.
abbrev pub text_of : Call × Reply → List ℕ
text_of (recv sock size blocking, reply) = c_string (take (to_size reply.value) reply.bytes)
text_of (_, reply) = []

abbrev pub received : Trace → List ℕ
received [] = []
received (x ∷ w) = received w ++ text_of x

abbrev pub lines_in : List ℕ → ℕ
lines_in [] = 0
lines_in (x ∷ xs) = if x == newline then suc (lines_in xs) else lines_in xs

-- How getline ends when `str` stands before what it reads: with the first line and the rest, by an
-- exception of recv, or still reading a text without a newline.
pub data Got (str : List ℕ) (fuel : ℕ) (w : Trace)
    : Outcome (List ℕ × List ℕ) × Trace → Type 0 where
  got_line :
      {head tail : List ℕ} {v : Trace} (reads : Trace)
      → v ≡ reads ++ w
      → lines_in head ≡ 0
      → str ++ received reads ≡ head ++ newline ∷ tail
      → Got str fuel w (ok (head, tail), v)
  failed : {what : Exception} {v : Trace} → Got str fuel w (throws what, v)
  waiting :
      {v : Trace} (newest : Call × Reply) (older : Trace)
      → v ≡ newest ∷ older ++ w
      → length older ≡ fuel
      → lines_in (str ++ received older) ≡ 0
      → Got str fuel w (out_of_fuel, v)

unfoldable IsLine : List ℕ → Option (List ℕ × List ℕ) → Type 0
IsLine str none = lines_in str ≡ 0
IsLine str (some (head, tail)) = (lines_in head ≡ 0) × (str ≡ head ++ newline ∷ tail)

onto_head-IsLine :
    (x : ℕ) (xs : List ℕ) (found : Option (List ℕ × List ℕ))
    → (x == newline) ≡ false
    → IsLine xs found
    → IsLine (x ∷ xs) (onto_head x found)
unfolding IsLine
onto_head-IsLine x xs none other h = rw (other, h) refl
onto_head-IsLine x xs (some (head, tail)) other (few, split) =
    (rw (other, few) refl, ap (◌∷◌ x) split)

find_line-IsLine : (str : List ℕ) → IsLine str (find_line str)
unfolding IsLine
find_line-IsLine [] = refl
find_line-IsLine (x ∷ xs) = elim (Bool-cases (x == newline)) [
  | inl same ↦ rw same (refl, ap (λ (c : ℕ). c ∷ xs) (ground arith))
  | inr other ↦ rw other (onto_head-IsLine x xs (find_line xs) other (find_line-IsLine xs))
]

pub zero_lines : (n : ℕ) {b : Bool} → b ≡ true → (if b then suc n else n) ≡ 0 → ⊥
zero_lines n {b = true} e h = omega (arith, h)
zero_lines n {b = false} e h = cc

find_line-none : (str : List ℕ) → lines_in str ≡ 0 → find_line str ≡ none
find_line-none [] h = refl
find_line-none (x ∷ xs) h = elim (Bool-cases (x == newline)) [
  | inl same ↦ absurd (zero_lines _ same h)
  | inr other ↦ rw (other, find_line-none xs (sym (if-false _ _ _ other) ∙ h)) refl
]

received-append :
    (reads : Trace) (x : Call × Reply) → received (reads ++ x ∷ []) ≡ text_of x ++ received reads
received-append [] x = sym (append-nil (text_of x))
received-append (y ∷ reads) x =
    rw (received-append reads x, append_assoc (text_of x) (received reads) (text_of y)) refl

-- One read more, before the others.
Got-read :
    {str : List ℕ} {fuel : ℕ} {w : Trace} {run : Outcome (List ℕ × List ℕ) × Trace}
    (x : Call × Reply)
    → Got (str ++ text_of x) fuel (x ∷ w) run
    → Got str (suc fuel) w run
Got-read {str = str} {w = w} x (got_line {head = head} reads at few split) =
    got_line (reads ++ x ∷ []) (at ∙ sym (append_assoc reads (x ∷ []) w)) few
      (rw (received-append reads x, sym (append_assoc str (text_of x) (received reads))) split)
Got-read x failed = failed
Got-read {str = str} {w = w} x (waiting newest older at many few) =
    waiting newest (older ++ x ∷ []) (at ∙ ap (◌∷◌ newest) (sym (append_assoc older (x ∷ []) w)))
      (length-append older (x ∷ []) ∙ omega (arith, many))
      (rw (received-append older x, sym (append_assoc str (text_of x) (received older))) few)

module _ (system : System) where
  unfoldable reading : ServerSocket → Trace → Call × Reply
  reading control w =
      (recv control.client_sock 1024 true, system w (recv control.client_sock 1024 true))

  scan-Got :
      (fuel : ℕ) (control : ServerSocket) (str : List ℕ) (w : Trace)
      (next : List ℕ → Io (List ℕ × List ℕ))
      → (lines_in str ≡ 0
          → Got str fuel w (next (str ++ text_of (reading control w)) (reading control w ∷ w)))
      → Got str fuel w (
          or_read_on
            (find_line str)
            (read system control 1024 true >>= λ r. next (str ++ c_string (take (to_size r.0) r.1)))
            w)
  unfolding read IsLine reading
  scan-Got fuel control str w next more = elim (Option-cases (find_line str)) [
    | inr ((head, tail), found) ↦
        let (few, split) = subst (IsLine str) found (find_line-IsLine str) in
        rw found (got_line [] refl few (append-nil str ∙ split))
    | inl none_yet ↦ elim (Bool-cases (is_negative (reading control w).1.value)) [
      | inl bad ↦ rw (none_yet, bad) failed
      | inr fine ↦ rw (none_yet, fine) (more (subst (IsLine str) none_yet (find_line-IsLine str)))
    ]
  ]

  -- Given suc fuel rounds, TimingProxy::getline either returns the first line of the text that it was
  -- given and has received meanwhile, with all that follows the newline; or an exception leaves it; or
  -- after that many reads the text has no newline, but perhaps in what the last one brought.
  pub getline-Got :
      (fuel : ℕ) (control : ServerSocket) (str : List ℕ) (w : Trace)
      → Got str fuel w (getline system (suc fuel) control str w)
  unfolding getline reading
  getline-Got zero control str w =
      scan-Got zero control str w (getline system zero control)
        (λ few. waiting (reading control w) [] refl refl (ap lines_in (append-nil str) ∙ few))
  getline-Got (suc fuel) control str w =
      scan-Got (suc fuel) control str w (getline system (suc fuel) control) (λ few.
        Got-read (reading control w)
          (getline-Got fuel control (str ++ text_of (reading control w)) (reading control w ∷ w)))

  -- Once the control client has closed its side, so that recv returns 0, TimingProxy::getline never
  -- ends on a text without a newline: it is still turning after any number of rounds.
  pub getline-closed :
      (fuel : ℕ) (control : ServerSocket) (str : List ℕ) (w : Trace)
      → ((v : Trace) → (system v (recv control.client_sock 1024 true)).value ≡ pos 0)
      → lines_in str ≡ 0
      → (getline system fuel control str w).0 ≡ out_of_fuel
  unfolding getline read
  getline-closed zero control str w closed few = refl
  getline-closed (suc fuel) control str w closed few =
      rw (find_line-none str few, closed w, append-nil str)
        (getline-closed fuel control str _ closed few)
