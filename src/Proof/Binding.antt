-- ===== src/Proof/Binding.antt =====
-- src/proof.rs: two accepted proofs for one key that come to one root.
use beerus.Prelude.{
  ℕ, suc, ◌≡◌, ◌⊎◌, inl, inr, refl, ap, sym, ◌∙◌, Bool, Option, none, some, List, [], ◌∷◌, map,
  reverse, arith, length, Str, ok,
}
use beerus.Gen.Felt.{Felt}
use beerus.Gen.Types.{EdgeNode, BinaryNode, Node, binary_node, edge_node, Proof}
use beerus.Util.{StarkCrypto, BitView, felt_to_bits}
use beerus.Util.Laws.{FieldLaws, Collision, pedersen-cases}
use beerus.Proof.Steps.{
  climb-cons-inv, visit_binary-inv, visit_edge-inv, parse_proof-inv, hash_text-injective,
}
use beerus.Proof.{
  Walk, Direction, left, right, direction, expected_hash, visit_binary, visit, climb, parse_proof,
  add_i64,
}

-- The nodes of a proof from the leaf up: an edge node at the leaf, or none, and binary nodes.
abbrev pub from_leaf : Option EdgeNode → List BinaryNode → List Node
from_leaf none nodes = map binary_node nodes
from_leaf (some edge) nodes = edge_node edge ∷ map binary_node nodes

-- The bits that the edge at the leaf stands for.
abbrev pub leaf_len : Option EdgeNode → Option ℕ
leaf_len none = none
leaf_len (some edge) = some edge.edge.path.len

module _ {F : Type 0} {crypto : StarkCrypto F} (laws : FieldLaws crypto) (bits : BitView)
    (key : List Bool) where
  expected-cases :
      (d : Direction) (h h' l l' r r' : F)
      → expected_hash crypto bits d h l r ≡ expected_hash crypto bits d h' l' r'
      → (h ≡ h') ⊎ Collision crypto
  unfolding expected_hash
  expected-cases left h h' l l' r r' e = elim (pedersen-cases laws h r h' r' e) [
    | inl p ↦ inl p.0
    | inr c ↦ inr c
  ]
  expected-cases right h h' l l' r r' e = elim (pedersen-cases laws l h l' h' e) [
    | inl p ↦ inl p.1
    | inr c ↦ inr c
  ]

  -- One step: from equal hashes after it to equal hashes before it.
  visit_binary-binds :
      (node node' : BinaryNode) (w w' u u' : Walk F)
      → w.path_len ≡ w'.path_len
      → visit_binary crypto bits key node w ≡ ok (some u)
      → visit_binary crypto bits key node' w' ≡ ok (some u')
      → u.hold ≡ u'.hold
      → (w.hold ≡ w'.hold) ⊎ Collision crypto
  visit_binary-binds node node' w w' u u' same h h' e =
      let (f, l, r, g, p, _) = visit_binary-inv laws bits key node w u h in
      let (f', l', r', g', p', _) = visit_binary-inv laws bits key node' w' u' h' in
      let flags : f ≡ f' = cc in
      expected-cases (direction f') w.hold w'.hold l l' r r' (rw (← flags) (sym p) ∙ (e ∙ p'))

  climb-binds :
      (value value' : F) (i : ℕ) (nodes nodes' : List BinaryNode) (w w' u u' : Walk F)
      → length nodes ≡ length nodes'
      → w.path_len ≡ w'.path_len
      → climb crypto bits key value i (map binary_node nodes) w ≡ ok (some u)
      → climb crypto bits key value' i (map binary_node nodes') w' ≡ ok (some u')
      → u.hold ≡ u'.hold
      → (w.hold ≡ w'.hold) ⊎ Collision crypto
  unfolding climb visit
  climb-binds value value' i [] [] w w' u u' len same h h' e = inl (ground arith)
  climb-binds value value' i [] (n' ∷ ns') w w' u u' len same h h' e = absurd (omega arith)
  climb-binds value value' i (n ∷ ns) [] w w' u u' len same h h' e = absurd (omega arith)
  climb-binds value value' i (n ∷ ns) (n' ∷ ns') w w' u u' len same h h' e =
      let (m, s, k) =
        climb-cons-inv laws bits key value i (binary_node n) (map binary_node ns) w u h in
      let (m', s', k') =
        climb-cons-inv laws bits key value' i (binary_node n') (map binary_node ns') w' u' h' in
      let (_, _, _, _, _, p) = visit_binary-inv laws bits key n w m s in
      let (_, _, _, _, _, p') = visit_binary-inv laws bits key n' w' m' s' in
      elim (climb-binds value value' (suc i) ns ns' m m' u u' (omega arith)
        (p ∙ (ap (λ (x : ℕ). add_i64 x 1) same ∙ sym p')) k k' e) [
          | inl q ↦ visit_binary-binds n n' w w' m m' same s s' q
          | inr c ↦ inr c
        ]

  climb_leaf-binds :
      (v v' : F) (leaf leaf' : Option EdgeNode) (nodes nodes' : List BinaryNode) (u u' : Walk F)
      → leaf_len leaf ≡ leaf_len leaf'
      → length nodes ≡ length nodes'
      → climb crypto bits key v 0 (from_leaf leaf nodes) (record { hold = v; path_len = 0 })
        ≡ ok (some u)
      → climb crypto bits key v' 0 (from_leaf leaf' nodes') (record { hold = v'; path_len = 0 })
        ≡ ok (some u')
      → u.hold ≡ u'.hold
      → (v ≡ v') ⊎ Collision crypto
  climb_leaf-binds v v' none none nodes nodes' u u' lens len h h' e =
      climb-binds v v' 0 nodes nodes' _ _ u u' len refl h h' e
  climb_leaf-binds v v' none (some x') nodes nodes' u u' lens len h h' e = absurd (cc)
  climb_leaf-binds v v' (some x) none nodes nodes' u u' lens len h h' e = absurd (cc)
  climb_leaf-binds v v' (some x) (some x') nodes nodes' u u' lens len h h' e =
      let w : Walk F = record { hold = v; path_len = 0 } in
      let w' : Walk F = record { hold = v'; path_len = 0 } in
      let same : x.edge.path.len ≡ x'.edge.path.len = cc in
      let (m, s, k) =
        climb-cons-inv laws bits key v 0 (edge_node x) (map binary_node nodes) w u h in
      let (m', s', k') =
        climb-cons-inv laws bits key v' 0 (edge_node x') (map binary_node nodes') w' u' h' in
      let (f, g, p, q) = visit_edge-inv laws bits key v x w m (unfold visit in s) in
      let (f', g', p', q') = visit_edge-inv laws bits key v' x' w' m' (unfold visit in s') in
      elim (climb-binds v v' 1 nodes nodes' m m' u u' len
        (q ∙ (ap (λ (n : ℕ). add_i64 0 n) same ∙ sym q')) k k' e) [
          | inr c ↦ inr c
          | inl eq ↦
              let sums : crypto.field_add (crypto.pedersen_hash v f)
                    (crypto.from_u64 x.edge.path.len)
                  ≡ crypto.field_add (crypto.pedersen_hash v' f')
                      (crypto.from_u64 x.edge.path.len) =
                cc in
              elim (pedersen-cases laws v f v' f' (laws.field_add_cancel _ _ _ sums)) [
                | inl both ↦ inl both.0
                | inr c ↦ inr c
              ]
        ]

module _ {F : Type 0} {crypto : StarkCrypto F} (laws : FieldLaws crypto) (bits : BitView) where
  -- Two proofs for one key, each of binary nodes above at most one leaf edge, with equal numbers of
  -- nodes and equal leaf lengths, that come to the same root: they prove one value, or there are two
  -- inputs of `pedersen_hash` with one hash.
  pub parse_proof-binds :
      (key : Str) (value value' : Felt) (proof proof' : Proof) (leaf leaf' : Option EdgeNode)
      (nodes nodes' : List BinaryNode) (root : Felt)
      → reverse proof ≡ from_leaf leaf nodes
      → reverse proof' ≡ from_leaf leaf' nodes'
      → leaf_len leaf ≡ leaf_len leaf'
      → length nodes ≡ length nodes'
      → parse_proof crypto bits key value proof ≡ ok (some root)
      → parse_proof crypto bits key value' proof' ≡ ok (some root)
      → (crypto.from_hex value.value ≡ crypto.from_hex value'.value) ⊎ Collision crypto
  parse_proof-binds key value value' proof proof' leaf leaf' nodes nodes' root s s' lens len h h' =
      let (k, v, u, ek, ev, c, r) = parse_proof-inv crypto bits key value proof h in
      let (k', v', u', ek', ev', c', r') = parse_proof-inv crypto bits key value' proof' h' in
      let keys : k' ≡ k = cc in
      elim (climb_leaf-binds laws bits (felt_to_bits bits (crypto.to_bytes_be k)) v v' leaf leaf'
        nodes nodes' u u' lens len (rw s at c) (rw (keys, s') at c')
        (hash_text-injective laws u.hold u'.hold r r')) [ inl e ↦ inl (cc) | inr c ↦ inr c ]
