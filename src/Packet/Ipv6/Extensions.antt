-- ===== src/Packet/Ipv6/Extensions.antt =====
-- The loop of the IPv6 parser over a printed chain of extension headers.
use timing_proxy.Base.{
  ℕ, zero, suc, ◌+◌, ◌*◌, ◌≤◌, ◌≡◌, refl, ap, ◌∙◌, subst, arith, true, false, ltb, some, List, [],
  ◌∷◌, length, length-append, ok,
}
use timing_proxy.Packet.Memory.{Memory}
use timing_proxy.Packet.Memory.Holds.{Holds, Holds-right, load8-Holds}
use timing_proxy.Packet.Wire.{ExtHeader, first_type, print_chain}
use timing_proxy.Packet.Ipv6.{Chain, is_extension_header, skip_header, extension_headers}

-- Extension headers in front of so many bytes: of types that the parser knows as such, of the length
-- that they say, and with the 64 bytes behind their start that the parser asks for.
pub data IsChain (upper size : ℕ) : List ExtHeader → Type 0 where
  ends : IsChain upper size []
  links :
      {e : ExtHeader} {es : List ExtHeader}
      → is_extension_header e.type ≡ ok true
      → 2 + length e.body ≡ e.units * 8 + 8
      → 64 ≤ length (print_chain (e ∷ es) upper) + size
      → IsChain upper size es
      → IsChain upper size (e ∷ es)

length-print_chain :
    (e : ExtHeader) (es : List ExtHeader) (upper : ℕ)
    → 2 + length e.body ≡ e.units * 8 + 8
    → length (print_chain (e ∷ es) upper) ≡ e.units * 8 + 8 + length (print_chain es upper)
length-print_chain e es upper fits = omega (arith, length-append e.body (print_chain es upper))

-- The loop stands before a chain.
abbrev pub before : List ExtHeader → ℕ → ℕ → ℕ → Chain
before es upper at size = record {
  next_hdr = first_type es upper;
  current_header = some at;
  payload_size = length (print_chain es upper) + size;
}

-- It stands behind it.
abbrev pub behind : List ExtHeader → ℕ → ℕ → ℕ → Chain
behind es upper at size = record {
  next_hdr = upper;
  current_header = some (at + length (print_chain es upper));
  payload_size = size;
}

module _ (m : Memory) (upper size : ℕ) where
  skip_header-print :
      (e : ExtHeader) (es : List ExtHeader) (at : ℕ)
      → 2 + length e.body ≡ e.units * 8 + 8
      → 64 ≤ length (print_chain (e ∷ es) upper) + size
      → Holds m at (print_chain (e ∷ es) upper)
      → skip_header m (before (e ∷ es) upper at size)
        ≡ ok (before es upper (at + (e.units * 8 + 8)) size)
  unfolding skip_header
  skip_header-print e es at fits enough held =
      let total = length (print_chain (e ∷ es) upper) + size in
      let all = length-print_chain e es upper fits in
      let long : ltb total 64 ≡ false = ground arith in
      let inside : ltb total (e.units * 8 + 8) ≡ false = ground arith in
      rw
        (
          long,
          load8-Holds m at (print_chain (e ∷ es) upper) held 0 (first_type es upper) refl,
          load8-Holds m at (print_chain (e ∷ es) upper) held 1 e.units refl,
          inside,
        )
        (ap
          (λ (k : ℕ). ok (record {
            next_hdr = first_type es upper;
            current_header = some (at + (e.units * 8 + 8));
            payload_size = k;
          }))
          (omega (arith, all)))

  Holds-rest :
      (e : ExtHeader) (es : List ExtHeader) (at : ℕ)
      → 2 + length e.body ≡ e.units * 8 + 8
      → Holds m at (print_chain (e ∷ es) upper)
      → Holds m (at + (e.units * 8 + 8)) (print_chain es upper)
  Holds-rest e es at fits held =
      let printed = first_type es upper ∷ e.units ∷ e.body in
      let there : at + length printed ≡ at + (e.units * 8 + 8) = omega (arith, fits) in
      subst (λ (n : ℕ). Holds m n (print_chain es upper)) there
        (Holds-right m at printed (print_chain es upper) held)

  -- The loop goes over a chain and stops at the header behind it.
  pub extension_headers-print :
      (fuel : ℕ) (es : List ExtHeader) (at : ℕ)
      → is_extension_header upper ≡ ok false
      → IsChain upper size es
      → length (print_chain es upper) ≤ fuel
      → Holds m at (print_chain es upper)
      → extension_headers (suc fuel) m (before es upper at size) ≡ ok (behind es upper at size)
  unfolding extension_headers
  extension_headers-print fuel [] at last ends enough held = rw last (
      ap
        (λ (n : ℕ).
          ok (record { next_hdr = upper; current_header = some n; payload_size = 0 + size }))
        (omega arith)
      ∙ ap
          (λ (n : ℕ).
            ok (record { next_hdr = upper; current_header = some (at + 0); payload_size = n }))
          (omega arith))
  extension_headers-print zero (e ∷ es) at last (links known fits room others) enough held =
      absurd (omega (arith, length-print_chain e es upper fits))
  extension_headers-print (suc fuel) (e ∷ es) at last (links known fits room others) enough held =
      let short : length (print_chain es upper) ≤ fuel =
        omega (arith, length-print_chain e es upper fits) in
      rw (known, skip_header-print e es at fits room held)
        (extension_headers-print fuel es (at + (e.units * 8 + 8)) last others short
            (Holds-rest e es at fits held)
          ∙ ap
              (λ (n : ℕ).
                ok (record { next_hdr = upper; current_header = some n; payload_size = size }))
              (omega (arith, length-print_chain e es upper fits)))
