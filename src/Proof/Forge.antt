-- ===== src/Proof/Forge.antt =====
-- src/proof.rs at an edge node above the leaf, whose child the code does not compare with the hash
-- that comes from below.
use beerus.Prelude.{
  ℕ, suc, ◌-◌, ◌≤◌, ◌≡◌, refl, ap, sym, ◌∙◌, Bool, Option, none, some, List, [], ◌∷◌, ◌++◌, reverse,
  arith, length, Str, Outcome, ok, err, panic, ◌>>=◌, Error,
}
use mathlib.Core.List.{reverse-reverse}
use beerus.Gen.Felt.{Felt}
use beerus.Gen.Types.{EdgeNode, Node, binary_node, edge_node, Proof}
use beerus.Util.{StarkCrypto, BitView, felt_to_bits, felt_from_bits}
use beerus.Util.Laws.{FieldLaws, BitLaws, length-felt_to_bits, felt_from_bits-masked}
use beerus.Proof.{Walk, visit, climb, parse_proof, from_251, add_i64}
use beerus.Proof.Steps.{
  climb-cons-inv, visit_binary-inv, parse_proof-inv, felt_text, climb-cons, parse_proof-of_climb,
}

-- The bits of the key that the nodes walk, from `n` on, as the loop counts them.
abbrev pub walked : ℕ → List Node → ℕ
walked n [] = n
walked n (edge_node edge ∷ nodes) = walked (add_i64 n edge.edge.path.len) nodes
walked n (binary_node node ∷ nodes) = walked (add_i64 n 1) nodes

-- Two loops that go on alike.
step-ext {ℓ} :
    {A : Type ℓ} (m : Outcome Error (Option A)) (f g : A → Outcome Error (Option A))
    → ((a : A) → f a ≡ g a)
    → (m >>= λ o. elim o [ none ↦ ok none | some a ↦ f a ])
      ≡ (m >>= λ o. elim o [ none ↦ ok none | some a ↦ g a ])
step-ext (ok none) f g h = refl
step-ext (ok (some a)) f g h = h a
step-ext (err e) f g h = refl
step-ext panic f g h = refl

walked-one :
    {F : Type 0} (w m : Walk F) (node : Node) (below : List Node)
    → m.path_len ≡ walked w.path_len (node ∷ [])
    → walked m.path_len below ≡ walked w.path_len (node ∷ below)
walked-one w m (edge_node edge) below h = ap (λ (n : ℕ). walked n below) h
walked-one w m (binary_node node) below h = ap (λ (n : ℕ). walked n below) h

module _ {F : Type 0} {crypto : StarkCrypto F} (laws : FieldLaws crypto) (bits : BitView)
    (key : List Bool) where
  -- Above the first node of the walk neither the value nor the counter is looked at.
  visit-suc :
      (v v' : F) (i j : ℕ) (node : Node) (w : Walk F)
      → visit crypto bits key v (suc i) node w ≡ visit crypto bits key v' (suc j) node w
  unfolding visit
  visit-suc v v' i j (edge_node edge) w = ground arith
  visit-suc v v' i j (binary_node node) w = refl

  climb-suc :
      (v v' : F) (i j : ℕ) (nodes : List Node) (w : Walk F)
      → climb crypto bits key v (suc i) nodes w ≡ climb crypto bits key v' (suc j) nodes w
  unfolding climb
  climb-suc v v' i j [] w = refl
  climb-suc v v' i j (node ∷ nodes) w = rw (visit-suc v v' i j node w) (
      step-ext (visit crypto bits key v' (suc j) node w) _ _ (climb-suc v v' (suc i) (suc j) nodes))

  visit-walked :
      (v : F) (i : ℕ) (node : Node) (w u : Walk F)
      → visit crypto bits key v i node w ≡ ok (some u)
      → u.path_len ≡ walked w.path_len (node ∷ [])
  unfolding visit
  visit-walked v i (binary_node node) w u h =
      let (_, _, _, _, _, p) = visit_binary-inv laws bits key node w u h in p
  visit-walked v i (edge_node edge) w u h = ground arith

  -- A run over two parts above the leaf is a run over the first, and then over the second.
  climb-append-inv :
      (v : F) (below above : List Node) (w u : Walk F)
      → climb crypto bits key v 1 (below ++ above) w ≡ ok (some u)
      → (m : Walk F) × (m.path_len ≡ walked w.path_len below)
        × (climb crypto bits key v 1 above m ≡ ok (some u))
  climb-append-inv v [] above w u h = (w, refl, h)
  climb-append-inv v (node ∷ below) above w u h =
      let (m, s, k) = climb-cons-inv laws bits key v 1 node (below ++ above) w u h in
      let k' : climb crypto bits key v 1 (below ++ above) m ≡ ok (some u) =
        climb-suc v v 0 1 (below ++ above) m ∙ k in
      let (n, p, r) = climb-append-inv v below above m u k' in
      (n, p ∙ walked-one w m node below (visit-walked v 1 node w m s), r)

  visit_edge-same :
      (v v' : F) (edge : EdgeNode) (w w' : Walk F)
      → w'.path_len ≡ w.path_len
      → visit crypto bits key v' 1 (edge_node edge) w'
        ≡ visit crypto bits key v 1 (edge_node edge) w
  unfolding visit
  visit_edge-same v v' edge w w' same = rw same

  -- An edge node above the leaf only moves on: its own hash takes the place of the one below.
  climb-edge-inv :
      (v : F) (edge : EdgeNode) (above : List Node) (w u : Walk F)
      → climb crypto bits key v 1 (edge_node edge ∷ above) w ≡ ok (some u)
      → (w' : Walk F) → w'.path_len ≡ w.path_len
      → (v' : F) → climb crypto bits key v' 1 (edge_node edge ∷ above) w' ≡ ok (some u)
  unfolding climb
  climb-edge-inv v edge above w u h w' same v' =
      rw (visit_edge-same v v' edge w w' same)
        (step-ext (visit crypto bits key v 1 (edge_node edge) w) _ _ (climb-suc v' v 1 1 above))
      ∙ h

  -- A leaf edge made for the occasion: it names the value as its child, and the key's own bits.
  forged_leaf : Felt → ℕ → F → EdgeNode
  forged_leaf value len masked = record {
    edge = record { child = value; path = record { len = len; value = felt_text crypto masked } };
  }

  visit-forged :
      (value : Felt) (f masked : F) (len : ℕ)
      → len ≤ 251
      → crypto.from_hex value.value ≡ some f
      → felt_from_bits bits crypto key (some (251 - len)) ≡ ok masked
      → (m : Walk F) × (m.path_len ≡ len)
        × (visit crypto bits key f 0
              (edge_node (forged_leaf value len masked))
              (record { hold = f; path_len = 0 })
            ≡ ok (some m))
  unfolding visit forged_leaf
  visit-forged value f masked len below ef em =
      let back : from_251 len ≡ 251 - len = omega arith in
      let em' : felt_from_bits bits crypto key (some (from_251 len)) ≡ ok masked = rw back em in
      let hash = crypto.field_add (crypto.pedersen_hash f masked) (crypto.from_u64 len) in
      (
        record { hold = hash; path_len = add_i64 0 len },
        omega arith,
        ground (arith, laws.from_hex-to_hex masked, laws.field_eq_iff hash hash),
      )

module _ {F : Type 0} {crypto : StarkCrypto F} {bits : BitView} (laws : FieldLaws crypto)
    (bit_laws : BitLaws bits) where
  -- From an accepted proof with an edge node above its lowest node, at most 251 bits of the key
  -- below that edge, a proof with the same root is made for any other value: a leaf edge of the
  -- forger's own and the nodes from the inner edge on.
  pub parse_proof-forged :
      (name : Str) (value forged : Felt) (proof : Proof) (lowest : Node) (below : List Node)
      (edge : EdgeNode) (above : List Node) (root : Felt) (f : F)
      → reverse proof ≡ lowest ∷ (below ++ (edge_node edge ∷ above))
      → walked 0 (lowest ∷ below) ≤ 251
      → parse_proof crypto bits name value proof ≡ ok (some root)
      → crypto.from_hex forged.value ≡ some f
      → (leaf : EdgeNode) × (parse_proof crypto bits name forged
            (reverse (edge_node leaf ∷ (edge_node edge ∷ above)))
          ≡ ok (some root))
  parse_proof-forged name value forged proof lowest below edge above root f shape short h ef =
      let (k, v, u, ek, ev, c, r) = parse_proof-inv crypto bits name value proof h in
      let key = felt_to_bits bits (crypto.to_bytes_be k) in
      let len_key : length key ≡ 251 =
        length-felt_to_bits bit_laws (crypto.to_bytes_be k) (laws.length-to_bytes_be k) in
      let start : Walk F = record { hold = v; path_len = 0 } in
      let (m, s, c₁) =
        climb-cons-inv laws bits key v 0 lowest (below ++ (edge_node edge ∷ above)) start u
          (rw shape at c) in
      let (n, p, c₂) = climb-append-inv laws bits key v below (edge_node edge ∷ above) m u c₁ in
      let len = walked 0 (lowest ∷ below) in
      let total : n.path_len ≡ len =
        p ∙ walked-one start m lowest below (visit-walked laws bits key v 0 lowest start m s) in
      let (bs, em, _, _) =
        felt_from_bits-masked bit_laws crypto key (251 - len) len_key (omega arith) in
      let masked = crypto.from_bytes_be bs in
      let leaf = forged_leaf laws bits key forged len masked in
      let (w, q, visited) = visit-forged laws bits key forged f masked len short ef em in
      let c₃ : climb crypto bits key f 1 (edge_node edge ∷ above) w ≡ ok (some u) =
        climb-edge-inv laws bits key v edge above n u c₂ w (q ∙ sym total) f in
      let c₄ : climb crypto bits key f 0 (edge_node leaf ∷ (edge_node edge ∷ above))
            (record { hold = f; path_len = 0 })
          ≡ ok (some u) =
        climb-cons crypto bits key f 0 (edge_node leaf) (edge_node edge ∷ above) _ w u visited c₃ in
      (
        leaf,
        parse_proof-of_climb laws bit_laws name forged
            (reverse (edge_node leaf ∷ (edge_node edge ∷ above))) k f u ek ef
            (rw reverse-reverse c₄) r,
      )
