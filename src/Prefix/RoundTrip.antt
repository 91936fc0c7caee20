-- ===== src/Prefix/RoundTrip.antt =====
-- The text of a prefix, read back and tested for emptiness.
use text.Mathlib.TextLemmas.{nil-append, cons-append, nil≢cons, head-eq_of_cons-eq}
use archived_sweetcomb.Prelude.{
  ℕ, zero, suc, ◌+◌, ◌*◌, ◌/◌, ◌%◌, ◌≤◌, ◌<◌, String, Char, code, ◌<>◌, true, false, ◌≡◌, refl, sym,
  ◌∙◌, ap, ◌≢◌, none, some, arith, ltb, leb, is_empty, Bool-cases, inl, inr,
}
use archived_sweetcomb.Outcome.{returns}
use archived_sweetcomb.Vom.{Vom}
use archived_sweetcomb.Prefix.{
  split_last, is_digit, is_space, leading, magnitude, signed, stoi, to_ushort, digit, print,
  decimal, Prefix, parse_prefix, make_prefix, prefix_to_string, prefix_is_empty,
}

code-digit : (d : ℕ) → d < 10 → code (digit d) ≡ d + 48
unfolding digit
code-digit zero h = refl
code-digit (suc zero) h = refl
code-digit (suc (suc zero)) h = refl
code-digit (suc (suc (suc zero))) h = refl
code-digit (suc (suc (suc (suc zero)))) h = refl
code-digit (suc (suc (suc (suc (suc zero))))) h = refl
code-digit (suc (suc (suc (suc (suc (suc zero)))))) h = refl
code-digit (suc (suc (suc (suc (suc (suc (suc zero))))))) h = refl
code-digit (suc (suc (suc (suc (suc (suc (suc (suc zero)))))))) h = refl
code-digit (suc (suc (suc (suc (suc (suc (suc (suc (suc zero))))))))) h = refl
code-digit (suc (suc (suc (suc (suc (suc (suc (suc (suc (suc n)))))))))) h = absurd (omega arith)

split_last-append :
    (s t : String) → split_last t ≡ none → split_last (s <> String.◌∷◌ "/" t) ≡ some (s, t)
unfolding split_last
split_last-append String.[] t h = rw nil-append (rw (h, split_last) refl)
split_last-append (String.◌∷◌ c s) t h =
    rw cons-append (rw (split_last-append s t h, split_last) refl)

split_last-cons :
    (d : ℕ) (s : String) → d < 10 → split_last s ≡ none → split_last (String.◌∷◌ (digit d) s) ≡ none
unfolding split_last
split_last-cons d s h e = rw (e, split_last) (ground (arith, code-digit d))

split_last-print : (f n : ℕ) (s : String) → split_last s ≡ none → split_last (print f n s) ≡ none
unfolding print
split_last-print zero n s h = split_last-cons (n % 10) s (omega arith) h
split_last-print (suc f) n s h =
    let one = split_last-cons (n % 10) s (omega arith) h in
    ground (arith, one, split_last-print f (n / 10) (String.◌∷◌ (digit (n % 10)) s) one)

is_digit-digit : (d : ℕ) → d < 10 → is_digit (digit d) ≡ true
unfolding is_digit
is_digit-digit d h = ground (arith, code-digit d)

leading-cons :
    (acc d : ℕ) (s : String)
    → d < 10
    → leading acc (String.◌∷◌ (digit d) s) ≡ leading (acc * 10 + d) s
unfolding leading
leading-cons acc d s h =
    rw (is_digit-digit d h) (ap (λ v. leading v s) (omega (arith, code-digit d h)))

leading-print : (f n : ℕ) (s : String) → n ≤ f → leading 0 (print f n s) ≡ leading n s
unfolding print
leading-print zero n s h =
    leading-cons 0 (n % 10) s (omega arith) ∙ ap (λ v. leading v s) (omega arith)
leading-print (suc f) n s h = elim (Bool-cases (ltb n 10)) [
  | inl small ↦
      rw small (leading-cons 0 (n % 10) s (omega arith) ∙ ap (λ v. leading v s) (ground arith))
  | inr large ↦ rw large (
      leading-print f (n / 10) (String.◌∷◌ (digit (n % 10)) s) (ground arith)
      ∙ leading-cons (n / 10) (n % 10) s (omega arith)
      ∙ ap (λ v. leading v s) (omega arith))
]

-- A printed number begins with a digit.
print-head :
    (f n : ℕ) (s : String)
    → (d : ℕ) × (t : String) × (d < 10) × (print f n s ≡ String.◌∷◌ (digit d) t)
unfolding print
print-head zero n s = (n % 10, s, omega arith, refl)
print-head (suc f) n s = elim (Bool-cases (ltb n 10)) [
  | inl small ↦ (n % 10, s, omega arith, rw small refl)
  | inr large ↦
      let (d, t, h, e) = print-head f (n / 10) (String.◌∷◌ (digit (n % 10)) s) in
      (d, t, h, rw large e)
]

is_space-digit : (d : ℕ) → d < 10 → is_space (digit d) ≡ false
unfolding is_space
is_space-digit d h = ground (arith, code-digit d)

signed-cons :
    (d : ℕ) (t : String)
    → d < 10
    → signed (String.◌∷◌ (digit d) t) ≡ magnitude false (String.◌∷◌ (digit d) t)
unfolding signed
signed-cons d t h = ground (arith, code-digit d)

-- A text that begins with a digit is read up to its first other character.
stoi-cons :
    (d : ℕ) (t : String)
    → d < 10
    → leading 0 (String.◌∷◌ (digit d) t) ≤ 2_147_483_647
    → stoi (String.◌∷◌ (digit d) t) ≡ some (false, leading 0 (String.◌∷◌ (digit d) t))
unfolding stoi
stoi-cons d t h small =
    rw (is_space-digit d h) (signed-cons d t h ∙ rw (is_digit-digit d h, small_enough) refl)
  where
    small_enough : leb (leading 0 (String.◌∷◌ (digit d) t)) 2_147_483_647 ≡ true
    small_enough = ground arith

stoi-decimal : (n : ℕ) → n ≤ 2_147_483_647 → stoi (decimal n) ≡ some (false, n)
unfolding decimal leading
stoi-decimal n h =
    let (d, t, below, e) = print-head n n "" in
    let value : leading 0 (String.◌∷◌ (digit d) t) ≡ n =
      ap (leading 0) (sym e) ∙ leading-print n n "" (omega arith) in
    rw e (rw (stoi-cons d t below (rw value h)) (rw value refl))

-- A text that begins with another character than a digit is not a printed number.
pub decimal_starts : (i : ℕ) (c : Char) (t : String) → 57 < code c → decimal i ≢ String.◌∷◌ c t
unfolding decimal
decimal_starts i c t h e =
    let (d, u, below, first) = print-head i i "" in
    let same : digit d ≡ c = head-eq_of_cons-eq (sym first ∙ e) in
    omega (arith, code-digit d below, ap code same)

pub decimal_not_empty : (i : ℕ) → decimal i ≢ ""
unfolding decimal
decimal_not_empty i h = let (d, u, below, first) = print-head i i "" in nil≢cons (sym h ∙ first)

-- Different numbers print differently.
leading-decimal : (n : ℕ) → leading 0 (decimal n) ≡ n
unfolding decimal leading
leading-decimal n = leading-print n n "" (omega arith)

pub decimal_injective : (i j : ℕ) → decimal i ≡ decimal j → i ≡ j
decimal_injective i j e = sym (leading-decimal i) ∙ ap (leading 0) e ∙ leading-decimal j

split_last-decimal : (n : ℕ) → split_last (decimal n) ≡ none
unfolding decimal split_last
split_last-decimal n = split_last-print n n "" refl

is_empty-append : (s : String) (c : Char) (t : String) → is_empty (s <> String.◌∷◌ c t) ≡ false
is_empty-append String.[] c t = rw nil-append refl
is_empty-append (String.◌∷◌ d s) c t = rw cons-append refl

module _ (V : Vom) where
  -- A prefix is never empty, whatever its address and its length: `empty` answers false for the
  -- default prefix too.
  pub prefix_is_empty-eq-false : (p : Prefix V) → prefix_is_empty V p ≡ false
  unfolding prefix_is_empty
  prefix_is_empty-eq-false p =
      is_empty-append (V.address_to_string p.m_address) "/" (decimal p.m_prefix_len)

  -- The text of a prefix whose address boost can read back, and whose length is an unsigned short,
  -- is parsed to the same prefix.
  pub make_prefix-prefix_to_string :
      (p : Prefix V)
      → V.from_string (V.address_to_string p.m_address) ≡ some p.m_address
      → p.m_prefix_len < 65_536
      → make_prefix V (prefix_to_string V p) ≡ returns p
  unfolding make_prefix prefix_to_string to_ushort
  make_prefix-prefix_to_string p h small =
      rw
        (
          split_last-append (V.address_to_string p.m_address) _ (split_last-decimal p.m_prefix_len),
          parse_prefix,
        )
        (rw (h, stoi-decimal p.m_prefix_len (omega arith)) (ap returns ground arith))
