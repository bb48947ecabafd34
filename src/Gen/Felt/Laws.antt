-- ===== src/Gen/Felt/Laws.antt =====
-- What `Felt::try_new` of src/gen.rs accepts, and what it makes of it.
use beerus.Prelude.{
  ℕ, zero, suc, ◌≡◌, inl, inr, refl, sym, subst, Bool, true, [], ◌∷◌, ◌++◌, arith, Bool-cases,
  replicate, Str, text, trim_start_matches, is_nonzero_hex_digit, ok, err,
}
use beerus.Gen.Felt.{
  Felt, nonzero_digits, felt_digits, after_0x, is_match, fix_unprefixed, fix, not_a_felt, try_new,
}

-- Digits of a felt do not start with a zero, but for the one digit "0".
fix_digits : (v s : Str) → felt_digits s ≡ true → fix_unprefixed v s ≡ v
unfolding felt_digits fix_unprefixed
fix_digits v [] h = cc
fix_digits v (c ∷ s) h = ground arith

pub try_new_of_digits :
    (s : Str)
    → felt_digits s ≡ true
    → try_new (text "0x" ++ s) ≡ ok (record { value = text "0x" ++ s })
unfolding try_new
try_new_of_digits s h = rw (fix_digits (text "0x" ++ s) s h, h)

pub after_0x-inv :
    (p : Str → Bool) (w : Str)
    → after_0x p w ≡ true
    → (s : Str) × (w ≡ text "0x" ++ s) × (p s ≡ true)
unfolding after_0x
after_0x-inv p [] h = cc
after_0x-inv p (a ∷ []) h = ground arith
after_0x-inv p (a ∷ b ∷ s) h = (s, ground arith, ground arith)

-- The text of an accepted felt is `0x` and the digits of a felt.
pub IsFelt-try_new :
    (v : Str) {f : Felt}
    → try_new v ≡ ok f
    → (s : Str) × (f.value ≡ text "0x" ++ s) × (felt_digits s ≡ true)
unfolding try_new
IsFelt-try_new v h = elim (Bool-cases (is_match (fix v))) [
  | inl match ↦ let (s, e, d) = after_0x-inv felt_digits (fix v) match in (s, ground arith, d)
  | inr other ↦ absurd (ground arith)
]

-- Leading zeros are dropped in front of a digit that is not zero.
zeros_dropped :
    (n c : ℕ) (s : Str)
    → is_nonzero_hex_digit c ≡ true
    → trim_start_matches b'0' (replicate n b'0' ++ (c ∷ s)) ≡ c ∷ s
unfolding trim_start_matches
zeros_dropped zero c s h = ground arith
zeros_dropped (suc n) c s h = zeros_dropped n c s h

felt_of_nonzero : (s : Str) → nonzero_digits 62 s ≡ true → felt_digits s ≡ true
unfolding felt_digits
felt_of_nonzero s h = ground arith

-- A text is repaired to `0x` and its digits: the zeros in front of them are dropped.
fix_zeros :
    (n c : ℕ) (s : Str)
    → is_nonzero_hex_digit c ≡ true
    → fix (text "0x" ++ (replicate (suc n) b'0' ++ (c ∷ s))) ≡ text "0x" ++ (c ∷ s)
unfolding fix
fix_zeros zero c s h = ground arith
fix_zeros (suc n) c s h = rw (zeros_dropped n c s h)

-- Zeros in front of up to 63 digits, the first of them not zero, are dropped: the felt is the text of
-- the digits behind `0x`.
pub try_new_of_zeros :
    (n c : ℕ) (s : Str)
    → nonzero_digits 62 (c ∷ s) ≡ true
    → try_new (text "0x" ++ (replicate n b'0' ++ (c ∷ s)))
      ≡ ok (record { value = text "0x" ++ (c ∷ s) })
unfolding try_new
try_new_of_zeros zero c s h = try_new_of_digits (c ∷ s) (felt_of_nonzero (c ∷ s) h)
try_new_of_zeros (suc n) c s h =
    rw (fix_zeros n c s (unfold nonzero_digits in ground arith), felt_of_nonzero (c ∷ s) h)

-- What `try_new` accepts once it accepts again, unchanged.
pub try_new_idem : (v : Str) {f : Felt} → try_new v ≡ ok f → try_new f.value ≡ ok f
try_new_idem v {f} h =
    let (s, e, d) = IsFelt-try_new v h in
    subst (λ (x : Str). try_new x ≡ ok (record { value = x })) (sym e) (try_new_of_digits s d)

trim_zeros : (n : ℕ) → trim_start_matches b'0' (replicate n b'0') ≡ []
unfolding trim_start_matches
trim_zeros zero = refl
trim_zeros (suc n) = trim_zeros n

-- Two or more zeros after `0x` are all dropped, and the `0x` that is left is refused.
pub try_new-zeros :
    (n : ℕ) → try_new (text "0x" ++ replicate (suc (suc n)) b'0') ≡ err (not_a_felt (text "0x"))
unfolding try_new
try_new-zeros n = rw (trim_zeros n, fix)
