-- ===== src/Proof/Whole.antt =====
-- src/proof.rs: the proofs that are read off a trie are whole.
use beerus.Prelude.{
  ◌+◌, ◌≡◌, refl, ap, sym, subst, ◌∙◌, Bool, Option, some, List, [], ◌∷◌, ◌++◌, reverse, arith,
  length, length-append,
}
use mathlib.Core.List.{reverse-append}
use beerus.Gen.Types.{Node, binary_node, edge_node}
use beerus.Util.{StarkCrypto, BitView}
use beerus.Util.Laws.{FieldLaws}
use beerus.Proof.Trie.{
  Trie, fork, edge, Opens, here, go_left, go_right, along, trie_hash, path_felt, prove, fork_node,
  path_node,
}
use beerus.Proof.Nodes.{node_hash, LinkedAbove, Linked, bits_of, IsWhole}
use beerus.Proof.Descent.{Canonical}

bits_of-append : (xs ys : List Node) → bits_of (xs ++ ys) ≡ bits_of xs + bits_of ys
bits_of-append [] ys = omega arith
bits_of-append (binary_node n ∷ xs) ys = omega (arith, bits_of-append xs ys)
bits_of-append (edge_node n ∷ xs) ys = omega (arith, bits_of-append xs ys)

bits_of-reverse : (xs : List Node) → bits_of (reverse xs) ≡ bits_of xs
bits_of-reverse [] = refl
bits_of-reverse (x ∷ xs) = rw (reverse-append (x ∷ []) xs) (
    omega
      (arith, bits_of-append (reverse xs) (x ∷ []), bits_of-reverse xs, bits_of-append (x ∷ []) xs))

module _ {F : Type 0} (crypto : StarkCrypto F) where
  -- The hash of the last node, or that of the node below them.
  abbrev top_hash : Option F → List Node → Option F
  top_hash hash [] = hash
  top_hash hash (node ∷ nodes) = top_hash (node_hash crypto node) nodes

  -- A node on top of nodes that are linked.
  LinkedAbove-append :
      (hash : Option F) (nodes : List Node) (node : Node)
      → ((above : Option F) → above ≡ top_hash hash nodes → LinkedAbove crypto above (node ∷ []))
      → LinkedAbove crypto hash nodes
      → LinkedAbove crypto hash (nodes ++ (node ∷ []))
  LinkedAbove-append hash [] node top h = top hash refl
  LinkedAbove-append hash (binary_node n ∷ nodes) node top h =
      LinkedAbove-append (node_hash crypto (binary_node n)) nodes node top h
  LinkedAbove-append hash (edge_node n ∷ nodes) node top h =
      (h.0, LinkedAbove-append (node_hash crypto (edge_node n)) nodes node top h.1)

  top_hash-append :
      (hash : Option F) (nodes : List Node) (node : Node)
      → top_hash hash (nodes ++ (node ∷ [])) ≡ node_hash crypto node
  top_hash-append hash [] node = refl
  top_hash-append hash (n ∷ nodes) node = top_hash-append (node_hash crypto n) nodes node

  -- Nodes from the leaf up that end in a hash: none, or linked ones.
  abbrev EndsIn : F → List Node → Type 0
  EndsIn hash [] = Unit
  EndsIn hash (node ∷ nodes) =
      Linked crypto (node ∷ nodes) × (top_hash (node_hash crypto node) nodes ≡ some hash)

  -- A node on top of nodes that end in a hash, if it stands for nothing else.
  EndsIn-append :
      (hash hash' : F) (nodes : List Node) (node : Node)
      → Linked crypto (node ∷ [])
      → LinkedAbove crypto (some hash) (node ∷ [])
      → node_hash crypto node ≡ some hash'
      → EndsIn hash nodes
      → EndsIn hash' (nodes ++ (node ∷ []))
  EndsIn-append hash hash' [] node alone above e h = (alone, e)
  EndsIn-append hash hash' (binary_node n ∷ nodes) node alone above e (linked, top) = (
    LinkedAbove-append (node_hash crypto (binary_node n)) nodes node
        (λ o eo. subst (λ (x : Option F). LinkedAbove crypto x (node ∷ [])) (sym (eo ∙ top)) above)
        linked,
    top_hash-append (node_hash crypto (binary_node n)) nodes node ∙ e,
  )
  EndsIn-append hash hash' (edge_node n ∷ nodes) node alone above e (linked, top) = (
    (
      linked.0,
      LinkedAbove-append (node_hash crypto (edge_node n)) nodes node
          (λ o eo.
            subst (λ (x : Option F). LinkedAbove crypto x (node ∷ [])) (sym (eo ∙ top)) above)
          linked.1,
    ),
    top_hash-append (node_hash crypto (edge_node n)) nodes node ∙ e,
  )

module _ {F : Type 0} {crypto : StarkCrypto F} (laws : FieldLaws crypto) (bits : BitView) where
  node_hash-fork :
      (l r : Trie F)
      → node_hash crypto (fork_node crypto bits l r) ≡ some (trie_hash crypto bits (fork l r))
  unfolding fork_node trie_hash
  node_hash-fork l r = ground (
    arith,
    laws.from_hex-to_hex (trie_hash crypto bits l),
    laws.from_hex-to_hex (trie_hash crypto bits r),
  )

  node_hash-path :
      (path : List Bool) (t : Trie F)
      → node_hash crypto (path_node crypto bits path t) ≡ some (trie_hash crypto bits (edge path t))
  unfolding path_node trie_hash
  node_hash-path path t = ground (
    arith,
    laws.from_hex-to_hex (trie_hash crypto bits t),
    laws.from_hex-to_hex (path_felt crypto bits path),
  )

  -- The nodes of an honest proof, from the leaf up.
  EndsIn-prove :
      {v : F} {t : Trie F} {key : List Bool} (o : Opens v t key)
      → Canonical t
      → EndsIn crypto (trie_hash crypto bits t) (reverse (prove crypto bits o))
  unfolding prove
  EndsIn-prove here canonical = tt
  EndsIn-prove (go_left {l = l} {r = r} o) canonical =
      rw (reverse-append (fork_node crypto bits l r ∷ []) (prove crypto bits o)) (
        EndsIn-append crypto (trie_hash crypto bits l) _ (reverse (prove crypto bits o))
          (fork_node crypto bits l r) (unfold fork_node in tt) (unfold fork_node in tt)
          (node_hash-fork l r) (EndsIn-prove o canonical.0))
  EndsIn-prove (go_right {l = l} {r = r} o) canonical =
      rw (reverse-append (fork_node crypto bits l r ∷ []) (prove crypto bits o)) (
        EndsIn-append crypto (trie_hash crypto bits r) _ (reverse (prove crypto bits o))
          (fork_node crypto bits l r) (unfold fork_node in tt) (unfold fork_node in tt)
          (node_hash-fork l r) (EndsIn-prove o canonical.1))
  EndsIn-prove (along {t = t} path e o) canonical =
      rw (reverse-append (path_node crypto bits path t ∷ []) (prove crypto bits o)) (
        EndsIn-append crypto (trie_hash crypto bits t) _ (reverse (prove crypto bits o))
          (path_node crypto bits path t) (unfold path_node in (canonical.0, tt))
          (unfold path_node in (laws.from_hex-to_hex (trie_hash crypto bits t), tt))
          (node_hash-path path t) (EndsIn-prove o canonical.1))

  bits_of-prove :
      {v : F} {t : Trie F} {key : List Bool} (o : Opens v t key)
      → bits_of (prove crypto bits o) ≡ length key
  unfolding prove fork_node path_node
  bits_of-prove here = refl
  bits_of-prove (go_left o) = omega (arith, bits_of-prove o)
  bits_of-prove (go_right o) = omega (arith, bits_of-prove o)
  bits_of-prove (along {rest = rest} path e o) =
      omega (arith, bits_of-prove o, ap (length {0}) e, length-append {0} path rest)

  EndsIn-Linked : (hash : F) (nodes : List Node) → EndsIn crypto hash nodes → Linked crypto nodes
  EndsIn-Linked hash [] h = tt
  EndsIn-Linked hash (node ∷ nodes) h = h.0

  -- The proof that is read off a trie whose edges stand for a bit at least is whole.
  pub prove-IsWhole :
      {v : F} {t : Trie F} {key : List Bool} (o : Opens v t key)
      → Canonical t
      → length key ≡ 251
      → IsWhole crypto (prove crypto bits o)
  prove-IsWhole {t = t} o canonical len = record {
    whole_key = bits_of-reverse (prove crypto bits o) ∙ (bits_of-prove o ∙ len);
    linked =
        EndsIn-Linked (trie_hash crypto bits t) (reverse (prove crypto bits o))
          (EndsIn-prove o canonical);
  }
