-- ===== src/Oper/Dump/Filter.antt =====
-- The name that VPP reads in a request.
use archived_sweetcomb.Prelude.{
  ℕ, zero, suc, String, ◌≡◌, refl, ap, ◌≢◌, ◌≤◌, ◌<◌, ◌+◌, List, [], ◌∷◌, ◌++◌, true, false, arith,
  eqb, leb, if◌then◌else◌, length, length-append, All, is_empty,
}
use archived_sweetcomb.Outcome.{returns, crash}
use archived_sweetcomb.Procfs.{codes}
use archived_sweetcomb.Oper.Dump.{DumpRequest, drop, zeros, dump_one, issue}

-- The bytes of a C string, up to its NUL.
abbrev pub c_string : List ℕ → List ℕ
c_string [] = []
c_string (b ∷ bs) = let rest = c_string bs in if eqb b 0 then [] else b ∷ rest

length-zeros : (n : ℕ) → length (zeros n) ≡ n
length-zeros zero = refl
length-zeros (suc n) = omega (arith, length-zeros n)

length-drop : (n : ℕ) (bs : List ℕ) → n ≤ length bs → length (drop n bs) + n ≡ length bs
length-drop zero bs h = omega arith
length-drop (suc n) [] h = absurd (omega arith)
length-drop (suc n) (b ∷ bs) h = omega (arith, length-drop n bs (omega arith))

nonzero_byte : (b : ℕ) → b ≢ 0 → eqb b 0 ≡ false
nonzero_byte zero h = absurd (h refl)
nonzero_byte (suc b) h = ground arith

-- Text without a NUL, and behind it zeros that go further than the text.
c_string-overwrite :
    (text : List ℕ) (n : ℕ) (rest : List ℕ)
    → All (λ b. b ≢ 0) text
    → length text < n
    → c_string (text ++ drop (length text) (zeros n ++ rest)) ≡ text
c_string-overwrite [] zero rest h small = absurd (omega arith)
c_string-overwrite [] (suc n) rest h small = refl
c_string-overwrite (b ∷ text) zero rest h small = absurd (omega arith)
c_string-overwrite (b ∷ text) (suc n) rest h small =
    let nonzero : eqb b 0 ≡ false = nonzero_byte b h.0 in
    rw nonzero (ap (λ bs. b ∷ bs) (c_string-overwrite text n rest h.1 (omega arith)))

module _ (name : String) (payload : DumpRequest) (named : is_empty name ≡ false)
    (room : payload.filter_length ≤ length payload.filter_buf) where
  abbrev zeroed : List ℕ
  zeroed =
      zeros payload.filter_length ++ drop (length (zeros payload.filter_length)) payload.filter_buf

  length-zeroed : length zeroed ≡ length payload.filter_buf
  length-zeroed = omega (
    arith,
    length-append (zeros payload.filter_length)
        (drop (length (zeros payload.filter_length)) payload.filter_buf),
    length-zeros payload.filter_length,
    length-drop (length (zeros payload.filter_length)) payload.filter_buf
        (omega (arith, length-zeros payload.filter_length)),
  )

  zeros-fit : leb (length (zeros payload.filter_length)) (length payload.filter_buf) ≡ true
  zeros-fit = ground (arith, length-zeros payload.filter_length)

  -- If the length of the request is larger than that of the name and its buffer has that room,
  -- issue turns the filter on, and the C string in the buffer is the name, whatever stood there
  -- before.
  pub issue-c_string :
      All (λ b. b ≢ 0) (codes name)
      → length (codes name) < payload.filter_length
      → (request : DumpRequest) × (issue (dump_one name) payload ≡ returns request)
        × (request.name_filter_valid ≡ 1)
        × (c_string request.filter_buf ≡ codes name)
  unfolding issue dump_one
  issue-c_string text small = (
    record payload {
      name_filter_valid = 1;
      filter_buf = codes name ++ drop (length (codes name)) zeroed;
    },
    rw (named, zeros-fit, name_fits) refl,
    refl,
    c_string-overwrite (codes name) payload.filter_length _ text small,
  )
    where
      name_fits : leb (length (codes name)) (length zeroed) ≡ true
      name_fits = ground (arith, length-zeroed)

  -- The length of the name is not tested: with more bytes than the buffer has, issue writes past
  -- its end.
  issue-overrun :
      length payload.filter_buf < length (codes name) → issue (dump_one name) payload ≡ crash
  unfolding issue dump_one
  issue-overrun large = rw (named, zeros-fit, name_too_long) refl
    where
      name_too_long : leb (length (codes name)) (length zeroed) ≡ false
      name_too_long = ground (arith, length-zeroed)
