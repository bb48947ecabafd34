-- ===== src/Proof/Returns.antt =====
-- src/proof.rs: the steps of the loop, which return while the walk is on the key.
use beerus.Prelude.{
  ℕ, zero, suc, ◌+◌, ◌≤◌, ◌<◌, ◌≡◌, ◌≢◌, refl, ap, ◌∙◌, Bool, Option, none, some, List, [], ◌∷◌,
  ◌++◌, reverse, arith, ◌==◌, length, get_elem?, Bool-cases, Option-cases, Str, Outcome,
  Outcome-cases, ok, err, panic, inl, inr, ◌>>=◌, Error, >>=-inv,
}
use mathlib.Core.List.{reverse-append}
use beerus.Gen.Types.{EdgeNodeEdge, BinaryNode, Node, binary_node, edge_node}
use beerus.Util.{StarkCrypto, BitView, felt_from_bits}
use beerus.Util.Laws.{felt_from_bits-returns}
use beerus.Proof.{
  Walk, field_element, visit_edge, check_leaf, visit_binary, visit, climb, from_251, add_i64,
}

-- The bits of the key that the nodes of a proof go over.
abbrev pub bits_of : Node → ℕ
bits_of (edge_node node) = node.edge.path.len
bits_of (binary_node node) = 1

abbrev pub path_bits : List Node → ℕ
path_bits [] = 0
path_bits (node ∷ nodes) = bits_of node + path_bits nodes

path_bits-append : (xs ys : List Node) → path_bits (xs ++ ys) ≡ path_bits xs + path_bits ys
path_bits-append [] ys = omega arith
path_bits-append (x ∷ xs) ys = let e = path_bits-append xs ys in omega arith

pub path_bits-reverse : (xs : List Node) → path_bits (reverse xs) ≡ path_bits xs
path_bits-reverse [] = refl
path_bits-reverse (x ∷ xs) =
    rw (reverse-append (x ∷ []) xs) (
      let e = path_bits-append (reverse xs) (x ∷ []) in
      let ih = path_bits-reverse xs in omega arith)

-- A test that keeps two runs from a panic.
pub bind-returns :
    {A B : Type 0} (m : Outcome Error A) (k : A → Outcome Error B)
    → m ≢ panic
    → ((a : A) → m ≡ ok a → k a ≢ panic)
    → m >>= k ≢ panic
bind-returns (ok a) k safe go h = go a refl h
bind-returns (err e) k safe go h = cc
bind-returns panic k safe go h = safe refl

pub get_elem?-some :
    (key : List Bool) (n : ℕ) → n < length key → (b : Bool) × (get_elem? key n ≡ some b)
get_elem?-some [] n h = absurd (omega arith)
get_elem?-some (b ∷ key) zero h = (b, refl)
get_elem?-some (b ∷ key) (suc n) h = get_elem?-some key n (omega arith)

pub field_element-returns :
    {F : Type 0} (crypto : StarkCrypto F) (s : Str) → field_element crypto s ≢ panic
unfolding field_element
field_element-returns crypto s h = elim (Option-cases (crypto.from_hex s)) [
  | inl e ↦ absurd (ground arith)
  | inr (a, e) ↦ absurd (ground arith)
]

module _ {F : Type 0} (crypto : StarkCrypto F) (bits : BitView) (key : List Bool)
    (whole : length key ≡ 251) where
  check_leaf-returns :
      (len : ℕ) (value provided : F) (next : Walk F)
      → check_leaf crypto bits key len value provided next ≢ panic
  unfolding check_leaf
  check_leaf-returns len value provided next h =
      elim (Outcome-cases (felt_from_bits bits crypto key (some (from_251 len)))) [
        | inl (m, e) ↦ absurd (ground arith)
        | inr (inl (x, e)) ↦ absurd (ground arith)
        | inr (inr e) ↦ felt_from_bits-returns bits crypto key (some (from_251 len)) e
      ]

  visit_edge-returns :
      (value : F) (i : ℕ) (edge : EdgeNodeEdge) (w : Walk F)
      → visit_edge crypto bits key value i edge w ≢ panic
  unfolding visit_edge
  visit_edge-returns value i edge w =
      bind-returns (field_element crypto edge.child.value) _
        (field_element-returns crypto edge.child.value)
        (λ c e.
          bind-returns (field_element crypto edge.path.value.value) _
            (field_element-returns crypto edge.path.value.value)
            (λ p e'. elim (Bool-cases (i == 0)) [
              | inl first ↦ rw first (check_leaf-returns edge.path.len value _ _)
              | inr later ↦ rw later (λ h. ground arith)
            ]))

  -- The index of the next bit is on the key.
  from_251_on_key : (n : ℕ) → n + 1 ≤ 251 → from_251 (add_i64 n 1) < 251
  from_251_on_key n h = omega arith

  visit_binary-returns :
      (node : BinaryNode) (w : Walk F)
      → w.path_len + 1 ≤ 251
      → visit_binary crypto bits key node w ≢ panic
  unfolding visit_binary
  visit_binary-returns node w small =
      bind-returns (field_element crypto node.binary.left.value) _
        (field_element-returns crypto node.binary.left.value)
        (λ l e.
          bind-returns (field_element crypto node.binary.right.value) _
            (field_element-returns crypto node.binary.right.value)
            (λ r e' h.
              let on = from_251_on_key w.path_len small in
              let (b, g) = get_elem?-some key (from_251 (add_i64 w.path_len 1)) (omega arith) in
              ground arith))

  visit-returns :
      (value : F) (i : ℕ) (node : Node) (w : Walk F)
      → w.path_len + bits_of node ≤ 251
      → visit crypto bits key value i node w ≢ panic
  unfolding visit
  visit-returns value i (edge_node node) w small = visit_edge-returns value i node.edge w
  visit-returns value i (binary_node node) w small = visit_binary-returns node w small

  -- A node takes the walk as many bits further as it has.
  check_leaf-path_len :
      (len : ℕ) (value provided : F) (next m : Walk F)
      → check_leaf crypto bits key len value provided next ≡ ok (some m)
      → m ≡ next
  unfolding check_leaf
  check_leaf-path_len len value provided next m h =
      elim (Outcome-cases (felt_from_bits bits crypto key (some (from_251 len)))) [
        | inl (k, e) ↦ ground arith
        | inr (inl (x, e)) ↦ absurd (ground arith)
        | inr (inr e) ↦ absurd (ground arith)
      ]

  visit_edge-path_len :
      (value : F) (i : ℕ) (edge : EdgeNodeEdge) (w m : Walk F)
      → visit_edge crypto bits key value i edge w ≡ ok (some m)
      → m.path_len ≡ add_i64 w.path_len edge.path.len
  unfolding visit_edge
  visit_edge-path_len value i edge w m h =
      let (c, e, h₁) = >>=-inv (field_element crypto edge.child.value) _ h in
      let (p, e', h₂) = >>=-inv (field_element crypto edge.path.value.value) _ h₁ in
      elim (Bool-cases (i == 0)) [
        | inl first ↦
            ap (λ (x : Walk F). x.path_len)
              (check_leaf-path_len edge.path.len value _ _ m (rw first at h₂))
        | inr later ↦ let k = rw later at h₂ in ground arith
      ]

  visit_binary-path_len :
      (node : BinaryNode) (w m : Walk F)
      → visit_binary crypto bits key node w ≡ ok (some m)
      → m.path_len ≡ add_i64 w.path_len 1
  unfolding visit_binary
  visit_binary-path_len node w m h =
      let (l, e, h₁) = >>=-inv (field_element crypto node.binary.left.value) _ h in
      let (r, e', h₂) = >>=-inv (field_element crypto node.binary.right.value) _ h₁ in
      elim (Option-cases (get_elem? key (from_251 (add_i64 w.path_len 1)))) [
        | inl g ↦ absurd (ground arith)
        | inr (b, g) ↦ ground arith
      ]

  visit-path_len :
      (value : F) (i : ℕ) (node : Node) (w m : Walk F)
      → w.path_len + bits_of node ≤ 251
      → visit crypto bits key value i node w ≡ ok (some m)
      → m.path_len ≡ w.path_len + bits_of node
  unfolding visit
  visit-path_len value i (edge_node node) w m small h =
      let e = visit_edge-path_len value i node.edge w m h in omega arith
  visit-path_len value i (binary_node node) w m small h =
      let e = visit_binary-path_len node w m h in omega arith

  -- What the loop does after a node, given that it returns from a walk that is as far as it should be.
  next-returns :
      (value : F) (i : ℕ) (nodes : List Node) (step : Option (Walk F))
      → ((m : Walk F) → step ≡ some m → climb crypto bits key value (suc i) nodes m ≢ panic)
      → elim step [ none ↦ ok none | some m ↦ climb crypto bits key value (suc i) nodes m ] ≢ panic
  next-returns value i nodes none go h = cc
  next-returns value i nodes (some m) go h = go m refl h

  pub climb-returns :
      (value : F) (i : ℕ) (nodes : List Node) (w : Walk F)
      → w.path_len + path_bits nodes ≤ 251
      → climb crypto bits key value i nodes w ≢ panic
  unfolding climb
  climb-returns value i [] w small h = cc
  climb-returns value i (node ∷ nodes) w small h =
      bind-returns (visit crypto bits key value i node w) _
        (visit-returns value i node w (omega arith))
        (λ step e. next-returns value i nodes step (λ m e'.
          let there = visit-path_len value i node w m (omega arith) (e ∙ ap ok e') in
          climb-returns value (suc i) nodes m (omega arith)))
        h
