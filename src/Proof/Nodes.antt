-- ===== src/Proof/Nodes.antt =====
-- What the nodes of a proof of src/proof.rs commit to: the data that a node's hash is taken of, and
-- how the nodes of one proof hang together.
use beerus.Prelude.{
  ℕ, ◌+◌, ◌≤◌, ◌≡◌, ◌≢◌, ◌⊎◌, inl, inr, Bool, Option, none, some, List, [], ◌∷◌, reverse, arith,
  ◌==◌, Bool-cases, ok, Option-cases, Outcome-cases, get_elem?, length,
}
use beerus.Gen.Types.{EdgeNode, BinaryNode, Node, binary_node, edge_node, Proof}
use beerus.Util.{StarkCrypto, BitView, felt_from_bits}
use beerus.Util.Laws.{FieldLaws, eq-cases}
use beerus.Proof.{
  Walk, visit, visit_edge, visit_binary, direction, expected_hash, from_251, add_i64,
}
use beerus.Proof.Trie.{Trie, leaf, fork, edge, trie_hash, path_felt}

-- What a node's hash is taken of: two children, or a child, a path and the path's length.
pub data NodeData (F : Type 0) : Type 0 where
  children : F → F → NodeData F
  child_path : F → F → ℕ → NodeData F

module _ {F : Type 0} (crypto : StarkCrypto F) where
  abbrev pub node_digest : NodeData F → F
  node_digest (children l r) = crypto.pedersen_hash l r
  node_digest (child_path c p n) = crypto.field_add (crypto.pedersen_hash c p) (crypto.from_u64 n)

  -- The data of a node, if its texts are field elements.
  abbrev pub read_node : Node → Option (NodeData F)
  read_node (binary_node node) = elim (crypto.from_hex node.binary.left.value) [
    | none ↦ none
    | some l ↦ elim (crypto.from_hex node.binary.right.value) [
      | none ↦ none
      | some r ↦ some (children l r)
    ]
  ]
  read_node (edge_node node) = elim (crypto.from_hex node.edge.child.value) [
    | none ↦ none
    | some c ↦ elim (crypto.from_hex node.edge.path.value.value) [
      | none ↦ none
      | some p ↦ some (child_path c p node.edge.path.len)
    ]
  ]

  abbrev pub node_hash : Node → Option F
  node_hash node = elim (read_node node) [ none ↦ none | some d ↦ some (node_digest d) ]

  -- Nodes, from the leaf up, above a node with this hash: the child of an edge is the node below it.
  abbrev pub LinkedAbove : Option F → List Node → Type 0
  LinkedAbove hash [] = Unit
  LinkedAbove hash (binary_node node ∷ nodes) = LinkedAbove (node_hash (binary_node node)) nodes
  LinkedAbove hash (edge_node node ∷ nodes) =
      (crypto.from_hex node.edge.child.value ≡ hash)
      × LinkedAbove (node_hash (edge_node node)) nodes

  -- The same of all nodes of a proof; an edge at the leaf stands for a bit at least.
  abbrev pub Linked : List Node → Type 0
  Linked [] = Unit
  Linked (binary_node node ∷ nodes) = LinkedAbove (node_hash (binary_node node)) nodes
  Linked (edge_node node ∷ nodes) =
      (1 ≤ node.edge.path.len) × LinkedAbove (node_hash (edge_node node)) nodes

-- The bits of a key that nodes stand for.
abbrev pub bits_of : List Node → ℕ
bits_of [] = 0
bits_of (binary_node node ∷ nodes) = 1 + bits_of nodes
bits_of (edge_node node ∷ nodes) = node.edge.path.len + bits_of nodes

-- What `parse_proof` does not look at: the nodes stand for a whole key, an edge at the leaf for a bit
-- at least, and every other edge names the hash of the node below it.
pub record IsWhole {F : Type 0} (crypto : StarkCrypto F) (proof : Proof) : Type 0 where
  pub whole_key : bits_of (reverse proof) ≡ 251
  pub linked : Linked crypto (reverse proof)

module _ {F : Type 0} {crypto : StarkCrypto F} (laws : FieldLaws crypto) where
  NodeData-cases : (a b : NodeData F) → (a ≡ b) ⊎ (a ≢ b)
  NodeData-cases (children l r) (child_path c p n) = inr (λ e. cc)
  NodeData-cases (child_path c p n) (children l r) = inr (λ e. cc)
  NodeData-cases (children l r) (children l' r') = elim (eq-cases laws l l') [
    | inr ne ↦ inr (λ e. ne (cc))
    | inl p ↦ elim (eq-cases laws r r') [ inr ne ↦ inr (λ e. ne (cc)) | inl q ↦ inl (cc) ]
  ]
  NodeData-cases (child_path c p n) (child_path c' p' n') = elim (eq-cases laws c c') [
    | inr ne ↦ inr (λ e. ne (cc))
    | inl s ↦ elim (eq-cases laws p p') [
      | inr ne ↦ inr (λ e. ne (cc))
      | inl q ↦ elim (Bool-cases (n == n')) [
        | inl t ↦ let same : n ≡ n' = ground arith in inl (cc)
        | inr t ↦ inr (λ e. let same : n ≡ n' = cc in absurd (ground arith))
      ]
    ]
  ]

module _ {F : Type 0} (crypto : StarkCrypto F) (bits : BitView) where
  -- The data of the nodes of a trie.
  abbrev pub NodeOf : Trie F → NodeData F → Type 0
  NodeOf (leaf v) d = ⊥
  NodeOf (fork l r) d =
      (d ≡ children (trie_hash crypto bits l) (trie_hash crypto bits r)) ⊎ (NodeOf l d ⊎ NodeOf r d)
  NodeOf (edge path t) d =
      (d ≡ child_path (trie_hash crypto bits t) (path_felt crypto bits path) (length path))
      ⊎ NodeOf t d

  -- Other data with the hash of a node of the trie.
  pub record NodeCollision (t : Trie F) : Type 0 where
    pub one : NodeData F
    pub other : NodeData F
    pub in_trie : NodeOf t other
    pub same_hash : node_digest crypto one ≡ node_digest crypto other
    pub differ : one ≢ other

module _ {F : Type 0} {crypto : StarkCrypto F} (laws : FieldLaws crypto) (bits : BitView) where
  -- Data with the hash of a node of a trie are those of the node, or collide with it.
  pub digest-cases :
      (t : Trie F) (a b : NodeData F)
      → NodeOf crypto bits t b
      → node_digest crypto a ≡ node_digest crypto b
      → (a ≡ b) ⊎ NodeCollision crypto bits t
  digest-cases t a b o h = elim (NodeData-cases laws a b) [
    | inl e ↦ inl e
    | inr ne ↦ inr (record { one = a; other = b; in_trie = o; same_hash = h; differ = ne })
  ]

module _ {F : Type 0} (crypto : StarkCrypto F) where
  pub node_hash-read :
      (node : Node) (d : NodeData F) (h : F)
      → read_node crypto node ≡ some d
      → h ≡ node_digest crypto d
      → node_hash crypto node ≡ some h
  node_hash-read node d h read e = ground arith

module _ {F : Type 0} {crypto : StarkCrypto F} (laws : FieldLaws crypto) (bits : BitView)
    (key : List Bool) where
  -- What the loop has read of a binary node, and that the hash from below is on the key's side.
  pub visit-binary_data :
      (v : F) (i : ℕ) (node : BinaryNode) (w u : Walk F)
      → visit crypto bits key v i (binary_node node) w ≡ ok (some u)
      → (flag : Bool) × (l : F) × (r : F) × (read_node crypto (binary_node node)
          ≡ some (children l r))
        × (get_elem? key (from_251 (add_i64 w.path_len 1)) ≡ some flag)
        × (u.hold ≡ crypto.pedersen_hash l r)
        × (u.hold ≡ expected_hash crypto bits (direction flag) w.hold l r)
        × (u.path_len ≡ add_i64 w.path_len 1)
  unfolding visit visit_binary
  visit-binary_data v i node w u h = elim (Option-cases (crypto.from_hex node.binary.left.value)) [
    | inl e ↦ absurd (ground arith)
    | inr (l, el) ↦ elim (Option-cases (crypto.from_hex node.binary.right.value)) [
      | inl e ↦ absurd (ground arith)
      | inr (r, er) ↦ elim (Option-cases (get_elem? key (from_251 (add_i64 w.path_len 1)))) [
        | inl e ↦ absurd (ground arith)
        | inr (flag, ef) ↦
            let expected = expected_hash crypto bits (direction flag) w.hold l r in
            let eq = laws.field_eq_iff (crypto.pedersen_hash l r) expected in
            (
              flag,
              l,
              r,
              ground arith,
              ef,
              ground (arith, eq),
              ground (arith, eq),
              ground (arith, eq),
            )
      ]
    ]
  ]

  -- What the loop has read of an edge node.
  pub visit-edge_data :
      (v : F) (i : ℕ) (node : EdgeNode) (w u : Walk F)
      → visit crypto bits key v i (edge_node node) w ≡ ok (some u)
      → (c : F) × (p : F) × (crypto.from_hex node.edge.child.value ≡ some c)
        × (read_node crypto (edge_node node) ≡ some (child_path c p node.edge.path.len))
        × (u.hold ≡ node_digest crypto (child_path c p node.edge.path.len))
        × (u.path_len ≡ add_i64 w.path_len node.edge.path.len)
  unfolding visit visit_edge
  visit-edge_data v i node w u h = elim (Option-cases (crypto.from_hex node.edge.child.value)) [
    | inl e ↦ absurd (ground arith)
    | inr (c, ec) ↦ elim (Option-cases (crypto.from_hex node.edge.path.value.value)) [
      | inl e ↦ absurd (ground arith)
      | inr (p, ep) ↦ elim (Bool-cases (i == 0)) [
        | inr later ↦ (c, p, ec, ground arith, ground arith, ground arith)
        | inl first ↦
            elim (Outcome-cases
              (felt_from_bits bits crypto key (some (from_251 node.edge.path.len)))) [
                | inr (inl (e, ee)) ↦ absurd (ground arith)
                | inr (inr e) ↦ absurd (ground arith)
                | inl (m, em) ↦ (c, p, ec, ground arith, ground arith, ground arith)
              ]
      ]
    ]
  ]
