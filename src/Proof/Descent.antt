-- ===== src/Proof/Descent.antt =====
-- src/proof.rs, read from the root down: an accepted proof that is whole follows the trie.
use beerus.Prelude.{
  ℕ, suc, ◌+◌, ◌≤◌, ◌≡◌, ◌⊎◌, inl, inr, refl, ap, sym, ◌∙◌, Bool, true, false, some, List, [], ◌∷◌,
  ◌++◌, arith, length, get_elem?, length-append, get_elem?-append, ok,
}
use mathlib.Core.List.{append_assoc}
use beerus.Gen.Types.{Node, binary_node, edge_node}
use beerus.Util.{StarkCrypto, BitView}
use beerus.Util.Laws.{FieldLaws}
use beerus.Proof.{Walk, climb, direction, expected_hash, from_251, add_i64}
use beerus.Proof.Steps.{climb-cons-inv}
use beerus.Proof.Trie.{
  Trie, leaf, fork, edge, Opens, here, go_left, go_right, along, trie_hash, path_felt,
}
use beerus.Proof.Nodes.{
  NodeData, children, child_path, node_digest, NodeCollision, node_hash, LinkedAbove, bits_of,
  digest-cases, NodeOf, visit-binary_data, visit-edge_data, node_hash-read,
}

-- Every edge of the trie stands for a bit at least.
abbrev pub Canonical : {F : Type 0} → Trie F → Type 0
Canonical (leaf v) = Unit
Canonical (fork l r) = Canonical l × Canonical r
Canonical (edge path t) = (1 ≤ length path) × Canonical t

module _ {F : Type 0} {crypto : StarkCrypto F} (laws : FieldLaws crypto) (bits : BitView)
    (whole : Trie F) (key : List Bool) where
  -- The part of the trie that the rest of the key leads through, with the hash `h`.
  pub record Subtrie (v : F) (h : F) (n : ℕ) : Type 0 where
    pub trie : Trie F
    pub before : List Bool
    pub rest : List Bool
    pub splits : key ≡ before ++ rest
    pub has_len : length rest ≡ n
    pub opens : Opens v trie rest
    pub canonical : Canonical trie
    pub within : (d : NodeData F) → NodeOf crypto bits trie d → NodeOf crypto bits whole d
    pub has_hash : h ≡ trie_hash crypto bits trie

  head-flag :
      (before rest : List Bool) (b flag : Bool) (n : ℕ)
      → length key ≡ 251
      → key ≡ before ++ (b ∷ rest)
      → length rest ≡ n
      → get_elem? key (from_251 (add_i64 n 1)) ≡ some flag
      → flag ≡ b
  head-flag before rest b flag n len e has_len h =
      let total : length before + (1 + n) ≡ 251 =
        omega (arith, ap (length {0}) e, length-append {0} before (b ∷ rest)) in
      let index : from_251 (add_i64 n 1) ≡ length before = omega arith in
      let at : get_elem? key (length before) ≡ some b = rw e (get_elem?-append before rest b) in
      let at' : get_elem? key (length before) ≡ some flag = rw (← index) h in cc

  -- A binary node that has the hash of a part of the trie: the node below it has the hash of the part
  -- below.
  pub below_fork :
      {v : F} {t : Trie F} {rest : List Bool} (o : Opens v t rest) (before : List Bool) (n : ℕ)
      (flag : Bool) (l r h : F)
      → length key ≡ 251
      → key ≡ before ++ rest
      → length rest ≡ suc n
      → Canonical t
      → ((d : NodeData F) → NodeOf crypto bits t d → NodeOf crypto bits whole d)
      → get_elem? key (from_251 (add_i64 n 1)) ≡ some flag
      → node_digest crypto (children l r) ≡ trie_hash crypto bits t
      → trie_hash crypto bits t ≡ expected_hash crypto bits (direction flag) h l r
      → Subtrie v h n ⊎ NodeCollision crypto bits whole
  unfolding trie_hash expected_hash direction
  below_fork here before n flag l r h len e size canonical within at hash side =
      absurd (omega arith)
  below_fork (go_left {l = l'} {r = r'} {key = k} o) before n flag l r h len e size canonical within
        at hash side =
      let turn : flag ≡ false = head-flag before k false flag n len e (omega arith) at in
      let side' : node_digest crypto (children h r) ≡ trie_hash crypto bits (fork l' r') =
        sym (rw turn at side) in
      elim (digest-cases laws bits whole (children h r)
        (children (trie_hash crypto bits l') (trie_hash crypto bits r')) (within _ (inl refl))
        side') [
          | inr c ↦ inr c
          | inl same ↦ inl (record {
            trie = l';
            before = before ++ (false ∷ []);
            rest = k;
            splits = e ∙ sym (append_assoc before (false ∷ []) k);
            has_len = omega arith;
            opens = o;
            canonical = canonical.0;
            within = λ d o. within d (inr (inl o));
            has_hash = cc;
          })
        ]
  below_fork (go_right {l = l'} {r = r'} {key = k} o) before n flag l r h len e size canonical
        within at hash side =
      let turn : flag ≡ true = head-flag before k true flag n len e (omega arith) at in
      let side' : node_digest crypto (children l h) ≡ trie_hash crypto bits (fork l' r') =
        sym (rw turn at side) in
      elim (digest-cases laws bits whole (children l h)
        (children (trie_hash crypto bits l') (trie_hash crypto bits r')) (within _ (inl refl))
        side') [
          | inr c ↦ inr c
          | inl same ↦ inl (record {
            trie = r';
            before = before ++ (true ∷ []);
            rest = k;
            splits = e ∙ sym (append_assoc before (true ∷ []) k);
            has_len = omega arith;
            opens = o;
            canonical = canonical.1;
            within = λ d o. within d (inr (inr o));
            has_hash = cc;
          })
        ]
  below_fork (along {t = t} path e' o) before n flag l r h len e size canonical within at hash
        side =
      elim (digest-cases laws bits whole (children l r)
        (child_path (trie_hash crypto bits t) (path_felt crypto bits path) (length path))
        (within _ (inl refl)) hash) [ inl same ↦ absurd (cc) | inr c ↦ inr c ]

  -- The same at an edge: its child has the hash of the part below.
  pub below_edge :
      {v : F} {t : Trie F} {rest : List Bool} (o : Opens v t rest) (before : List Bool) (n len : ℕ)
      (c p : F)
      → key ≡ before ++ rest
      → length rest ≡ len + n
      → 1 ≤ len + n
      → Canonical t
      → ((d : NodeData F) → NodeOf crypto bits t d → NodeOf crypto bits whole d)
      → node_digest crypto (child_path c p len) ≡ trie_hash crypto bits t
      → Subtrie v c n ⊎ NodeCollision crypto bits whole
  unfolding trie_hash
  below_edge here before n len c p e size some_bit canonical within hash = absurd (omega arith)
  below_edge (go_left {l = l} {r = r} o) before n len c p e size some_bit canonical within hash =
      elim (digest-cases laws bits whole (child_path c p len)
        (children (trie_hash crypto bits l) (trie_hash crypto bits r)) (within _ (inl refl)) hash) [
          | inl same ↦ absurd (cc)
          | inr collision ↦ inr collision
        ]
  below_edge (go_right {l = l} {r = r} o) before n len c p e size some_bit canonical within hash =
      elim (digest-cases laws bits whole (child_path c p len)
        (children (trie_hash crypto bits l) (trie_hash crypto bits r)) (within _ (inl refl)) hash) [
          | inl same ↦ absurd (cc)
          | inr collision ↦ inr collision
        ]
  below_edge (along {t = t} {rest = rest} path e' o) before n len c p e size some_bit canonical
        within hash =
      elim (digest-cases laws bits whole (child_path c p len)
        (child_path (trie_hash crypto bits t) (path_felt crypto bits path) (length path))
        (within _ (inl refl)) hash) [
          | inr collision ↦ inr collision
          | inl same ↦
              let lens : len ≡ length path = cc in
              inl (record {
                trie = t;
                before = before ++ path;
                rest = rest;
                splits =
                    e
                    ∙ (ap (λ (x : List Bool). before ++ x) e'
                        ∙ sym (append_assoc before path rest));
                has_len = omega (arith, ap (length {0}) e', length-append {0} path rest);
                opens = o;
                canonical = canonical.1;
                within = λ d o. within d (inr o);
                has_hash = cc;
              })
        ]

  -- Where no bit is left there is the value.
  pub at_leaf :
      {v : F} {t : Trie F} {rest : List Bool} (o : Opens v t rest)
      → length rest ≡ 0
      → Canonical t
      → trie_hash crypto bits t ≡ v
  unfolding trie_hash
  at_leaf here size canonical = refl
  at_leaf (go_left o) size canonical = absurd (omega arith)
  at_leaf (go_right o) size canonical = absurd (omega arith)
  at_leaf (along {rest = rest} path e' o) size canonical =
      absurd (omega (arith, ap (length {0}) e', length-append {0} path rest))

  -- From the hash at the top to the hash above the first node.
  pub follow_above :
      {v : F} (value : F) (i n : ℕ) (nodes : List Node) (w u : Walk F)
      → length key ≡ 251
      → climb crypto bits key value (suc i) nodes w ≡ ok (some u)
      → LinkedAbove crypto (some w.hold) nodes
      → 1 ≤ w.path_len
      → n ≤ 251
      → n ≡ w.path_len + bits_of nodes
      → Subtrie v u.hold n
      → Subtrie v w.hold w.path_len ⊎ NodeCollision crypto bits whole
  unfolding climb
  follow_above value i n [] w u len run linked some_bit le size top =
      let same : w ≡ u = ground arith in
      let lens : w.path_len ≡ n = omega arith in
      inl (rw (ap (λ (x : Walk F). x.hold) same, lens) top)
  follow_above {v = v} value i n (binary_node node ∷ nodes) w u len run linked some_bit le size
        top =
      let (m, s, k) = climb-cons-inv laws bits key value (suc i) (binary_node node) nodes w u run in
      let (flag, l, r, read, at, hash, side, next) =
        visit-binary_data laws bits key value (suc i) node w m s in
      let below : node_hash crypto (binary_node node) ≡ some m.hold =
        node_hash-read crypto (binary_node node) (children l r) m.hold read hash in
      let next' : m.path_len ≡ suc w.path_len = omega arith in
      elim (follow_above {v = v} value (suc i) n nodes m u len k (rw below at linked) (omega arith)
        le (omega arith) top) [
          | inr c ↦ inr c
          | inl sub ↦
              below_fork sub.opens sub.before w.path_len flag l r w.hold len sub.splits
                (sub.has_len ∙ next') sub.canonical sub.within at (sym hash ∙ sub.has_hash)
                (sym sub.has_hash ∙ side)
        ]
  follow_above {v = v} value i n (edge_node node ∷ nodes) w u len run linked some_bit le size top =
      let (m, s, k) = climb-cons-inv laws bits key value (suc i) (edge_node node) nodes w u run in
      let (c, p, child, read, hash, next) =
        visit-edge_data laws bits key value (suc i) node w m s in
      let size_of = node.edge.path.len in
      let below : node_hash crypto (edge_node node) ≡ some m.hold =
        node_hash-read crypto (edge_node node) (child_path c p size_of) m.hold read hash in
      let same : c ≡ w.hold = cc in
      let next' : m.path_len ≡ size_of + w.path_len = omega arith in
      elim (follow_above {v = v} value (suc i) n nodes m u len k (rw below at linked.1)
        (omega arith) le (omega arith) top) [
          | inr c ↦ inr c
          | inl sub ↦ rw (← same) (
              below_edge sub.opens sub.before w.path_len size_of c p sub.splits
                (sub.has_len ∙ next') (omega arith) sub.canonical sub.within
                (sym hash ∙ sub.has_hash))
        ]
