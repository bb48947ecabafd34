-- ===== src/Proof/Sound.antt =====
-- src/proof.rs: what the check of a proof against the hash of a trie shows, for a proof that is
-- whole.
use beerus.Prelude.{
  ℕ, ◌≡◌, ◌⊎◌, inl, inr, refl, ap, sym, subst, get_elem?, ◌∙◌, Bool, some, List, [], ◌∷◌, reverse,
  arith, length, Str, ok,
}
use beerus.Gen.Felt.{Felt}
use beerus.Gen.Types.{Node, binary_node, edge_node, Proof}
use beerus.Util.{StarkCrypto, BitView, felt_to_bits}
use beerus.Util.Laws.{FieldLaws, BitLaws, length-felt_to_bits}
use beerus.Proof.{from_251, add_i64, Walk, visit, climb, parse_proof}
use beerus.Proof.Steps.{visit_edge-inv, climb-cons-inv, parse_proof-inv, hash_text_lem, felt_text}
use beerus.Proof.Trie.{Trie, Opens, trie_hash}
use beerus.Proof.Nodes.{
  children, child_path, NodeCollision, node_hash, Linked, bits_of, IsWhole, visit-binary_data,
  visit-edge_data, node_hash-read,
}
use beerus.Proof.Descent.{Canonical, Subtrie, below_fork, below_edge, at_leaf, follow_above}

module _ {F : Type 0} {crypto : StarkCrypto F} (laws : FieldLaws crypto) (bits : BitView)
    (trie : Trie F) (key : List Bool) where
  Subtrie-leaf : {v h : F} → Subtrie laws bits trie key v h 0 → h ≡ v
  Subtrie-leaf sub = sub.has_hash ∙ at_leaf laws bits trie key sub.opens sub.has_len sub.canonical

  -- The trie itself, for the whole key.
  whole :
      {v : F} (h : F)
      → length key ≡ 251
      → Opens v trie key
      → Canonical trie
      → h ≡ trie_hash crypto bits trie
      → Subtrie laws bits trie key v h 251
  whole h len o canonical top = record {
    trie = trie;
    before = [];
    rest = key;
    splits = refl;
    has_len = len;
    opens = o;
    canonical = canonical;
    within = λ d o. o;
    has_hash = top;
  }

  -- The walk from the root to the leaf.
  follow :
      {v : F} (value : F) (nodes : List Node) (w u : Walk F)
      → length key ≡ 251
      → w.hold ≡ value
      → w.path_len ≡ 0
      → climb crypto bits key value 0 nodes w ≡ ok (some u)
      → Linked crypto nodes
      → bits_of nodes ≡ 251
      → Subtrie laws bits trie key v u.hold 251
      → (value ≡ v) ⊎ NodeCollision crypto bits trie
  follow value [] w u len at_value at_start run linked size top = absurd (omega arith)
  follow {v = v} value (binary_node node ∷ nodes) w u len at_value at_start run linked size top =
      let (m, s, k) = climb-cons-inv laws bits key value 0 (binary_node node) nodes w u run in
      let (flag, l, r, read, turn, hash, side, next) =
        visit-binary_data laws bits key value 0 node w m s in
      let below : node_hash crypto (binary_node node) ≡ some m.hold =
        node_hash-read crypto (binary_node node) (children l r) m.hold read hash in
      let bit : m.path_len ≡ 1 = omega arith in
      elim (follow_above laws bits trie key value 0 251 nodes m u len k (rw below at linked)
        (omega arith) (omega arith) (omega arith) top) [
          | inr c ↦ inr c
          | inl sub ↦
              elim (below_fork laws bits trie key sub.opens sub.before 0 flag l r w.hold len
                sub.splits (sub.has_len ∙ bit) sub.canonical sub.within
                (subst (λ (n : ℕ). get_elem? key (from_251 (add_i64 n 1)) ≡ some flag) at_start
                  turn)
                (sym hash ∙ sub.has_hash) (sym sub.has_hash ∙ side)) [
                  | inr c ↦ inr c
                  | inl low ↦ inl (sym at_value ∙ Subtrie-leaf low)
                ]
        ]
  follow {v = v} value (edge_node node ∷ nodes) w u len at_value at_start run linked size top =
      let (m, s, k) = climb-cons-inv laws bits key value 0 (edge_node node) nodes w u run in
      let (c, p, child, read, hash, next) = visit-edge_data laws bits key value 0 node w m s in
      let size_of = node.edge.path.len in
      let (mask, _, checked, _) = visit_edge-inv laws bits key value node w m (unfold visit in s) in
      let below : node_hash crypto (edge_node node) ≡ some m.hold =
        node_hash-read crypto (edge_node node) (child_path c p size_of) m.hold read hash in
      let bit : m.path_len ≡ size_of = omega arith in
      elim (follow_above laws bits trie key value 0 251 nodes m u len k (rw below at linked.1)
        (omega arith) (omega arith) (omega arith) top) [
          | inr c ↦ inr c
          | inl sub ↦
              elim (below_edge laws bits trie key sub.opens sub.before 0 size_of value mask
                sub.splits (omega (arith, sub.has_len)) (omega arith) sub.canonical sub.within
                (sym checked ∙ sub.has_hash)) [ inr c ↦ inr c | inl low ↦ inl (Subtrie-leaf low) ]
        ]

module _ {F : Type 0} {crypto : StarkCrypto F} {bits : BitView} (laws : FieldLaws crypto)
    (bit_laws : BitLaws bits) where
  -- A value from which a whole proof comes to the hash of a trie is the one that the key opens in the
  -- trie, if every edge of the trie stands for a bit at least, or other data have the hash of a
  -- node of the trie. A proof is whole if its nodes stand for the 251 bits of a key, an edge at the
  -- leaf for a bit at least, and every other edge names the hash of the node below it.
  pub parse_proof_sound :
      (name : Str) (value root : Felt) (proof : Proof) (k v : F) (t : Trie F)
      → Opens v t (felt_to_bits bits (crypto.to_bytes_be k))
      → Canonical t
      → crypto.from_hex name ≡ some k
      → crypto.from_hex root.value ≡ some (trie_hash crypto bits t)
      → IsWhole crypto proof
      → parse_proof crypto bits name value proof ≡ ok (some root)
      → (crypto.from_hex value.value ≡ some v) ⊎ NodeCollision crypto bits t
  parse_proof_sound name value root proof k v t o canonical ek er shape h =
      let (k', f, u, ek', ef, run, text_of) = parse_proof-inv crypto bits name value proof h in
      let same : k' ≡ k = cc in
      let len = length-felt_to_bits bit_laws (crypto.to_bytes_be k) (laws.length-to_bytes_be k) in
      let shown : felt_text crypto u.hold ≡ root = cc (hash_text_lem laws u.hold) in
      let read : crypto.from_hex (felt_text crypto u.hold).value ≡ crypto.from_hex root.value =
        ap (λ (f : Felt). crypto.from_hex f.value) shown in
      let top : u.hold ≡ trie_hash crypto bits t = cc (laws.from_hex-to_hex u.hold) in
      let key = felt_to_bits bits (crypto.to_bytes_be k) in
      elim (follow laws bits t key f (reverse proof) (record { hold = f; path_len = 0 }) u len refl
        refl (rw same at run) shape.linked shape.whole_key
        (whole laws bits t key u.hold len o canonical top)) [ inl e ↦ inl (cc) | inr c ↦ inr c ]
