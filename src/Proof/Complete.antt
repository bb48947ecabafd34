-- ===== src/Proof/Complete.antt =====
-- src/proof.rs on the proofs that are read off a trie.
use beerus.Prelude.{
  suc, ◌+◌, ◌-◌, ◌≡◌, ◌⊎◌, inl, inr, refl, ap, sym, ◌∙◌, Bool, true, false, some, List, [], ◌∷◌,
  ◌++◌, reverse, arith, length, get_elem?-append, length-append, Str, ok,
}
use mathlib.Core.List.{reverse-append, append_assoc}
use beerus.Gen.Types.{Node, Proof}
use beerus.Util.{StarkCrypto, BitView, felt_to_bits}
use beerus.Util.Laws.{FieldLaws, BitLaws, length-felt_to_bits}
use beerus.Proof.{Walk, climb, parse_proof, expected_hash, direction}
use beerus.Proof.Steps.{felt_text, parse_proof-of_climb, hash_text_lem}
use beerus.Proof.Trie.{
  Trie, fork, Opens, here, go_left, go_right, along, trie_hash, prove, fork_node, path_node,
  climb-snoc, visit-fork, visit-path,
}

module _ {F : Type 0} {crypto : StarkCrypto F} (laws : FieldLaws crypto) (bits : BitView) where
  -- Either the leaf itself, or a node stands above it.
  prove-cases :
      {v : F} {t : Trie F} {key : List Bool} (o : Opens v t key)
      → ((prove crypto bits o ≡ []) × (trie_hash crypto bits t ≡ v) × (key ≡ []))
        ⊎ ((n : Node) × (nodes : Proof) × (prove crypto bits o ≡ n ∷ nodes))
  unfolding prove trie_hash
  prove-cases here = inl (refl, refl, refl)
  prove-cases (go_left {l = l} {r = r} o) =
      inr (fork_node crypto bits l r, prove crypto bits o, refl)
  prove-cases (go_right {l = l} {r = r} o) =
      inr (fork_node crypto bits l r, prove crypto bits o, refl)
  prove-cases (along {t = t} path e o) =
      inr (path_node crypto bits path t, prove crypto bits o, refl)

  abbrev end_of : F → Trie F → List Bool → Walk F
  end_of v t key = record { hold = trie_hash crypto bits t; path_len = length key }

  lowest-cases :
      {v : F} {t : Trie F} {key : List Bool} (o : Opens v t key)
      → 0 + length (reverse (prove crypto bits o)) ≡ 0
      → (trie_hash crypto bits t ≡ v) × (key ≡ [])
  lowest-cases o h = elim (prove-cases o) [
    | inl p ↦ (p.1, p.2)
    | inr (n, nodes, e) ↦ absurd (
        omega (
          arith,
          ap (λ (ns : Proof). length (reverse ns)) e,
          ap (length {0}) (reverse-append (n ∷ []) nodes),
          length-append {0} (reverse nodes) (n ∷ []),
        ))
  ]

  climb-fork :
      (v h : F) (l r : Trie F) (key pre k : List Bool) (flag : Bool) (nodes : Proof)
      → key ≡ pre ++ (flag ∷ k)
      → length key ≡ 251
      → expected_hash crypto bits
          (direction flag)
          h
          (trie_hash crypto bits l)
          (trie_hash crypto bits r)
        ≡ crypto.pedersen_hash (trie_hash crypto bits l) (trie_hash crypto bits r)
      → climb crypto bits key v 0 (reverse nodes) (record { hold = v; path_len = 0 })
        ≡ ok (some (record { hold = h; path_len = length k }))
      → climb crypto bits key v 0
          (reverse (fork_node crypto bits l r ∷ nodes))
          (record { hold = v; path_len = 0 })
        ≡ ok (some (end_of v (fork l r) (flag ∷ k)))
  climb-fork v h l r key pre k flag nodes e len side ih =
      let lens : length pre + suc (length k) ≡ 251 =
        omega (arith, ap (length {0}) e, length-append {0} pre (flag ∷ k)) in
      let index : 250 - length k ≡ length pre = omega arith in
      let node = fork_node crypto bits l r in
      rw (reverse-append (node ∷ []) nodes) (
        climb-snoc laws bits key v 0 _ (reverse nodes) node _ _ _ refl ih (
          visit-fork laws bits key v _ (length k) l r flag h (omega arith)
            (rw (index, e) (get_elem?-append pre k flag)) side))

  -- The run over the proof of a key arrives at the hash of the trie, with the whole key walked.
  climb-prove :
      {v : F} {t : Trie F} {rest : List Bool} (o : Opens v t rest) (key pre : List Bool)
      → key ≡ pre ++ rest
      → length key ≡ 251
      → climb crypto bits key v 0
          (reverse (prove crypto bits o))
          (record { hold = v; path_len = 0 })
        ≡ ok (some (end_of v t rest))
  unfolding prove
  climb-prove here key pre e len = unfold climb trie_hash in refl
  climb-prove {v} (go_left {l = l} {r = r} {key = k} o) key pre e len =
      climb-fork v (trie_hash crypto bits l) l r key pre k false (prove crypto bits o) e len
        (unfold expected_hash direction in refl)
        (climb-prove o key (pre ++ (false ∷ [])) (e ∙ sym (append_assoc pre (false ∷ []) k)) len)
  climb-prove {v} (go_right {l = l} {r = r} {key = k} o) key pre e len =
      climb-fork v (trie_hash crypto bits r) l r key pre k true (prove crypto bits o) e len
        (unfold expected_hash direction in refl)
        (climb-prove o key (pre ++ (true ∷ [])) (e ∙ sym (append_assoc pre (true ∷ []) k)) len)
  climb-prove {v} (along {t = t} {rest = rest} path e' o) key pre e len =
      let whole : key ≡ pre ++ (path ++ rest) = rw (← e') e in
      let node = path_node crypto bits path t in
      rw (reverse-append (node ∷ []) (prove crypto bits o), e')
        (climb-snoc laws bits key v 0 _ (reverse (prove crypto bits o)) node _ _ _ refl
          (climb-prove o key (pre ++ path) (whole ∙ sym (append_assoc pre path rest)) len)
          (visit-path laws bits key pre rest v _ path t len whole (lowest-cases o)))

module _ {F : Type 0} {crypto : StarkCrypto F} {bits : BitView} (laws : FieldLaws crypto)
    (bit_laws : BitLaws bits) where
  -- A trie in which the key opens a value: the proof for the key is accepted, and what comes out is
  -- the hash of the trie.
  pub parse_proof-prove :
      (name : Str) (k v : F) (t : Trie F) (o : Opens v t (felt_to_bits bits (crypto.to_bytes_be k)))
      → crypto.from_hex name ≡ some k
      → parse_proof crypto bits name (felt_text crypto v) (prove crypto bits o)
        ≡ ok (some (felt_text crypto (trie_hash crypto bits t)))
  parse_proof-prove name k v t o ek =
      parse_proof-of_climb laws bit_laws name (felt_text crypto v) (prove crypto bits o) k v _ ek
        (laws.from_hex-to_hex v)
        (climb-prove laws bits o (felt_to_bits bits (crypto.to_bytes_be k)) [] refl
          (length-felt_to_bits bit_laws (crypto.to_bytes_be k) (laws.length-to_bytes_be k)))
        (hash_text_lem laws (trie_hash crypto bits t))
