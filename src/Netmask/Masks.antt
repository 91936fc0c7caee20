-- ===== src/Netmask/Masks.antt =====
-- What netmask_to_plen computes, on any octets and on masks.
use native.Mathlib.Nat.{pow-suc}
use archived_sweetcomb.Prelude.{
  ℕ, zero, suc, ◌+◌, ◌-◌, ◌*◌, ◌/◌, ◌%◌, ◌^◌, ◌≤◌, ◌<◌, ◌⊎◌, inl, inr, Bool-cases, Bool, true,
  false, ◌&&◌, ◌≡◌, refl, ◌∙◌, ap, Option, none, some, ltb, leb, eqb, arith, if◌then◌else◌,
}
use archived_sweetcomb.Outcome.{returns}
use archived_sweetcomb.Vom.{Vom, Octets}
use archived_sweetcomb.Netmask.{little_endian, shift_loop, rounds, count_bits, netmask_to_plen}

-- The octets of the mask with p leading ones: p - 8 k of them fall to the octet number k.
abbrev pub mask_octet : ℕ → ℕ → ℕ
mask_octet p k = if leb (8 * k + 8) p then 255 else 256 - 2 ^ (8 - (p - 8 * k))

abbrev pub mask : ℕ → Octets
mask p = record {
  first = mask_octet p 0;
  second = mask_octet p 1;
  third = mask_octet p 2;
  fourth = mask_octet p 3;
}

-- The answer of the loop on the mask with p leading ones, compared with p rounded up.
rounds_up : Option ℕ → ℕ → Bool
rounds_up none p = false
rounds_up (some m) p = eqb m (8 * ((p + 7) / 8))

eq-some_of_rounds_up : (o : Option ℕ) (p : ℕ) → rounds_up o p ≡ true → o ≡ some (8 * ((p + 7) / 8))
unfolding rounds_up
eq-some_of_rounds_up none p agrees = cc
eq-some_of_rounds_up (some m) p agrees = ground arith

shorter_masks_agree : ℕ → Bool
shorter_masks_agree zero = true
shorter_masks_agree (suc longest) =
    shorter_masks_agree longest
    && rounds_up (shift_loop rounds (little_endian (mask longest)) 0) longest

all_masks_agree : shorter_masks_agree 33 ≡ true
unfolding shorter_masks_agree rounds_up shift_loop little_endian
all_masks_agree = refl

both : (a b : Bool) → (a && b) ≡ true → (a ≡ true) × (b ≡ true)
both true b conj = (refl, conj)
both false b conj = cc

shift_loop-shorter_masks :
    (n p : ℕ)
    → p < n
    → shorter_masks_agree n ≡ true
    → shift_loop rounds (little_endian (mask p)) 0 ≡ some (8 * ((p + 7) / 8))
unfolding shorter_masks_agree
shift_loop-shorter_masks zero p short agree = absurd (omega arith)
shift_loop-shorter_masks (suc longest) p short agree =
    let (shorter, last) = both (shorter_masks_agree longest) _ agree in
    elim (Bool-cases (eqb p longest)) [
      | inl same ↦ let e : p ≡ longest = ground arith in rw e (eq-some_of_rounds_up _ longest last)
      | inr other ↦ shift_loop-shorter_masks longest p (ground arith) shorter
    ]

shift_loop-mask :
    (p : ℕ) → p ≤ 32 → shift_loop rounds (little_endian (mask p)) 0 ≡ some (8 * ((p + 7) / 8))
shift_loop-mask p short = shift_loop-shorter_masks 33 p (omega arith) all_masks_agree

-- The number of binary digits of n, and that the loop finds it: it stops after k of at most f
-- rounds.
abbrev pub IsBitLength : ℕ → ℕ → Type 0
IsBitLength n k = (n < 2 ^ k) × (((n ≡ 0) × (k ≡ 0)) ⊎ ((0 < n) × (2 ^ k ≤ 2 * n)))

IsBitLength-half : (n k : ℕ) → 0 < n → IsBitLength (n / 2) k → IsBitLength n (suc k)
IsBitLength-half n k h (lt, inl (zero_half, zero_k)) =
    rw zero_k (omega (arith, pow-suc 2 0), inr (h, omega (arith, pow-suc 2 0)))
IsBitLength-half n k h (lt, inr (pos, le)) =
    (omega (arith, pow-suc 2 k), inr (h, omega (arith, pow-suc 2 k)))

-- The loop stops after k rounds, k the number of binary digits, and i does not wrap.
shift_loop-IsBitLength :
    (f n i : ℕ)
    → n < 2 ^ f
    → i + f < 256
    → (k : ℕ) × (shift_loop (suc f) n i ≡ some (i + k)) × (k ≤ f) × IsBitLength n k
unfolding shift_loop
shift_loop-IsBitLength zero n i h b =
    (0, ground arith, omega arith, (ground arith, inl (ground arith, refl)))
shift_loop-IsBitLength (suc f) n i h b = elim (Bool-cases (ltb 0 n)) [
  | inl more ↦
      let below : n / 2 < 2 ^ f = omega (arith, pow-suc 2 f) in
      let (k, e, le, bits) = shift_loop-IsBitLength f (n / 2) (i + 1) below (omega arith) in
      let wraps : (i + 1) % 256 ≡ i + 1 = omega arith in
      (
        suc k,
        rw (more, wraps, e) (ap some (omega arith)),
        omega arith,
        IsBitLength-half n k (ground arith) bits,
      )
  | inr done ↦ (0, rw done (ground arith), omega arith, (ground arith, inl (ground arith, refl)))
]

count_bits_lem : (n k : ℕ) → shift_loop rounds n 0 ≡ some k → count_bits n ≡ returns k
unfolding count_bits
count_bits_lem n k e = rw (e, count_bits) refl

abbrev pub IsOctets : Octets → Type 0
IsOctets o = (o.first < 256) × (o.second < 256) × (o.third < 256) × (o.fourth < 256)

module _ (V : Vom) (netmask : V.Address) (v4 : V.is_v4 netmask ≡ true) where
  -- On an IPv4 address whose octets inet_pton reads, the loop ends and the function returns the
  -- number of binary digits, at most 32, of the octets read with the first one lowest.
  pub netmask_to_plen-IsBitLength :
      (o : Octets)
      → IsOctets o
      → V.inet_pton (V.address_to_string netmask) ≡ some o
      → (k : ℕ) × (netmask_to_plen V netmask ≡ returns k)
        × (k ≤ 32)
        × IsBitLength (little_endian o) k
  unfolding netmask_to_plen little_endian
  netmask_to_plen-IsBitLength o h e =
      let below : little_endian o < 2 ^ 32 = omega arith in
      let (k, done, le, bits) = shift_loop-IsBitLength 32 (little_endian o) 0 below (omega arith) in
      (k, rw (v4, e) (count_bits_lem _ _ (done ∙ ap some (omega arith))), le, bits)

  -- The mask with p leading ones, p at most 32, is turned into p rounded up to a multiple of 8.
  pub netmask_to_plen-mask :
      (p : ℕ)
      → p ≤ 32
      → V.inet_pton (V.address_to_string netmask) ≡ some (mask p)
      → netmask_to_plen V netmask ≡ returns (8 * ((p + 7) / 8))
  unfolding netmask_to_plen
  netmask_to_plen-mask p h e = rw (v4, e) (count_bits_lem _ _ (shift_loop-mask p h))
