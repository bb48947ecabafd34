-- ===== src/Tests/Bits.antt =====
-- A bit view as `bitvec` with `Msb0` has it, for runs of src/util.rs.
use beerus.Prelude.{
  ℕ, zero, suc, ◌+◌, ◌*◌, ◌%◌, ◌/◌, ◌≡◌, refl, ap, ◌∙◌, Bool, true, false, List, [], ◌∷◌, ◌++◌,
  arith, ◌==◌, length, take, drop, replicate, length-append, ◌≤◌,
}
use beerus.Util.{BitView}
use beerus.Util.Laws.{BitLaws}

abbrev pub push : ℕ → Bool → ℕ
push n true = 2 * n + 1
push n false = 2 * n

abbrev pub odd : ℕ → Bool
odd n = n % 2 == 1

abbrev pub half : ℕ → ℕ
half n = n / 2

odd-push : (n : ℕ) (b : Bool) → odd (push n b) ≡ b
odd-push n true = ground arith
odd-push n false = ground arith

half-push : (n : ℕ) (b : Bool) → half (push n b) ≡ n
half-push n true = omega arith
half-push n false = omega arith

abbrev pub octet : Bool → Bool → Bool → Bool → Bool → Bool → Bool → Bool → ℕ
octet a b c d e f g h = push (push (push (push (push (push (push (push 0 a) b) c) d) e) f) g) h

abbrev pub byte_bits : ℕ → List Bool
byte_bits n =
    let n1 = half n in
    let n2 = half n1 in
    let n3 = half n2 in
    let n4 = half n3 in
    let n5 = half n4 in
    let n6 = half n5 in
    let n7 = half n6 in odd n7 ∷ odd n6 ∷ odd n5 ∷ odd n4 ∷ odd n3 ∷ odd n2 ∷ odd n1 ∷ odd n ∷ []

byte_bits-octet :
    (a b c d e f g h : Bool)
    → byte_bits (octet a b c d e f g h) ≡ a ∷ b ∷ c ∷ d ∷ e ∷ f ∷ g ∷ h ∷ []
byte_bits-octet a b c d e f g h = simp (odd-push, half-push)

abbrev pub bytes_bits : List ℕ → List Bool
bytes_bits [] = []
bytes_bits (n ∷ ns) = byte_bits n ++ bytes_bits ns

-- The bit at an index, and zeros behind the end.
abbrev pub bit_at : List Bool → ℕ → Bool
bit_at [] n = false
bit_at (b ∷ bs) zero = b
bit_at (b ∷ bs) (suc n) = bit_at bs n

abbrev pub pack : ℕ → List Bool → List ℕ
pack zero xs = []
pack (suc m) xs =
    octet (bit_at xs 0) (bit_at xs 1) (bit_at xs 2) (bit_at xs 3) (bit_at xs 4) (bit_at xs 5)
      (bit_at xs 6) (bit_at xs 7)
    ∷ pack m (drop 8 xs)

length-bytes_bits : (ns : List ℕ) → length (bytes_bits ns) ≡ 8 * length ns
length-bytes_bits [] = refl
length-bytes_bits (n ∷ ns) = omega (arith, length-bytes_bits ns)

length-pack : (m : ℕ) (xs : List Bool) → length (pack m xs) ≡ m
length-pack zero xs = refl
length-pack (suc m) xs = ap suc (length-pack m (drop 8 xs))

bytes_bits-pack : (m : ℕ) (xs : List Bool) → length xs ≡ 8 * m → bytes_bits (pack m xs) ≡ xs
bytes_bits-pack zero [] e = refl
bytes_bits-pack zero (x ∷ xs) e = absurd (omega arith)
bytes_bits-pack (suc m) [] e = absurd (omega arith)
bytes_bits-pack (suc m) (a ∷ []) e = absurd (omega arith)
bytes_bits-pack (suc m) (a ∷ b ∷ []) e = absurd (omega arith)
bytes_bits-pack (suc m) (a ∷ b ∷ c ∷ []) e = absurd (omega arith)
bytes_bits-pack (suc m) (a ∷ b ∷ c ∷ d ∷ []) e = absurd (omega arith)
bytes_bits-pack (suc m) (a ∷ b ∷ c ∷ d ∷ i ∷ []) e = absurd (omega arith)
bytes_bits-pack (suc m) (a ∷ b ∷ c ∷ d ∷ i ∷ f ∷ []) e = absurd (omega arith)
bytes_bits-pack (suc m) (a ∷ b ∷ c ∷ d ∷ i ∷ f ∷ g ∷ []) e = absurd (omega arith)
bytes_bits-pack (suc m) (a ∷ b ∷ c ∷ d ∷ i ∷ f ∷ g ∷ h ∷ xs) e =
    ap (λ (o : List Bool). o ++ bytes_bits (pack m xs)) (byte_bits-octet a b c d i f g h)
    ∙ ap (λ (r : List Bool). a ∷ b ∷ c ∷ d ∷ i ∷ f ∷ g ∷ h ∷ r) (bytes_bits-pack m xs (omega arith))

abbrev pub msb0 : BitView
msb0 = record {
  view_bits = bytes_bits;
  copy_bits = λ bs n xs. pack (length bs) (take n (bytes_bits bs) ++ xs);
}

length-take : (n : ℕ) (xs : List Bool) → n ≤ length xs → length (take n xs) ≡ n
length-take zero xs h = refl
length-take (suc n) [] h = absurd (omega arith)
length-take (suc n) (x ∷ xs) h = ap suc (length-take n xs (omega arith))

zeros_bits : (n : ℕ) → bytes_bits (replicate n 0) ≡ replicate (8 * n) false
zeros_bits zero = refl
zeros_bits (suc n) =
    let e : 8 * suc n ≡ suc (suc (suc (suc (suc (suc (suc (suc (8 * n)))))))) = omega arith in
    rw (e, zeros_bits n)

pub msb0_laws : BitLaws msb0
msb0_laws = record {
  length-view_bits = length-bytes_bits;
  length-copy_bits = λ bs n xs. length-pack (length bs) (take n (bytes_bits bs) ++ xs);
  view_bits-copy_bits = λ bs n xs e. bytes_bits-pack (length bs) (take n (bytes_bits bs) ++ xs) (
      omega (
        arith,
        length-append (take n (bytes_bits bs)) xs,
        length-bytes_bits bs,
        length-take n (bytes_bits bs) (omega (arith, length-bytes_bits bs)),
      ));
  view_bits-zeros = zeros_bits;
}
