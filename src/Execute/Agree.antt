-- ===== src/Execute/Agree.antt =====
-- src/client.rs and src/exe/map.rs: the two ways a field element of the virtual machine is written.
use beerus.Prelude.{
  ℕ, ◌≤◌, ◌≡◌, ◌↔◌, refl, ap, sym, ◌∙◌, true, false, ◌&&◌, ◌==◌, Bool-cases, inl, inr, [], ◌∷◌,
  ◌++◌, all, length, arith, Str, text, trim_start_matches, is_hex_digit, ok, map_err, map_err-inv,
}
use beerus.Gen.Felt
use beerus.Gen.Felt.{Felt, felt_digits, nonzero_digits}
use beerus.Gen.Felt.Laws.{try_new_of_digits}
use beerus.Exe.Map.{ExeError, VmFelt, felt_from_vm, zero_if_empty}
use beerus.Feeder.{Report, felt_or_report}
use beerus.Execute.{as_felt}

nonzero_start :
    (c : ℕ) (s : Str)
    → (c == b'0') ≡ false
    → is_hex_digit c && all is_hex_digit s ≡ true
    → length (c ∷ s) ≤ 63
    → felt_digits (c ∷ s) ≡ true
unfolding felt_digits nonzero_digits
nonzero_start c s h digits short = ground arith

-- What is left after the zeros is nothing, or starts with a digit that is not zero.
trimmed_digits :
    (s : Str)
    → all is_hex_digit s ≡ true
    → length (trim_start_matches b'0' s) ≤ 63
    → felt_digits (zero_if_empty (trim_start_matches b'0' s)) ≡ true
unfolding trim_start_matches felt_digits zero_if_empty
trimmed_digits [] h short = refl
trimmed_digits (c ∷ s) h short = elim (Bool-cases (c == b'0')) [
  | inl zero_there ↦ rw zero_there (trimmed_digits s (ground arith) (rw zero_there at short))
  | inr other ↦ rw other (nonzero_start c s other (ground arith) (rw other at short))
]

module _ {F : Type 0} (vm : VmFelt F) where
  abbrev trimmed : F → Str
  trimmed felt = trim_start_matches b'0' (vm.hex_encode (vm.vm_bytes_be felt))

  -- A field element whose bytes are encoded in hexadecimal digits, at most 63 of them behind the
  -- leading zeros, is written as `0x` and these digits, or as `0x0` if none is left.
  pub felt_from_vm_of_digits :
      (felt : F)
      → all is_hex_digit (vm.hex_encode (vm.vm_bytes_be felt)) ≡ true
      → length (trimmed felt) ≤ 63
      → felt_from_vm vm felt ≡ ok (record { value = text "0x" ++ zero_if_empty (trimmed felt) })
  unfolding felt_from_vm
  felt_from_vm_of_digits felt digits short = rw (
      try_new_of_digits (zero_if_empty (trimmed felt))
        (trimmed_digits (vm.hex_encode (vm.vm_bytes_be felt)) digits short))

  same_text :
      (s : Str) → Felt.try_new (text "0x" ++ zero_if_empty s) ≡ Felt.try_new (text "0x" ++ s)
  unfolding Felt.try_new zero_if_empty
  same_text [] = refl
  same_text (c ∷ s) = refl

  -- The client writes the result of a call just as the executor writes the arguments of its requests:
  -- one accepts a field element exactly if the other does, with one text.
  pub as_felt_iff :
      (felt : F) (f : Felt)
      → (as_felt vm (vm.vm_bytes_be felt) ≡ ok f) ↔ (felt_from_vm vm felt ≡ ok f)
  unfolding as_felt felt_or_report felt_from_vm
  as_felt_iff felt f = (
    λ h. ap (map_err ExeError.iam_groot) (same_text (trimmed felt) ∙ map_err-inv _ _ h),
    λ h. ap (map_err Report.rpc_failed) (sym (same_text (trimmed felt)) ∙ map_err-inv _ _ h),
  )
