-- ===== src/Proof/Trie.antt =====
-- The Merkle-Patricia trie that src/proof.rs is about, as a specification: its hash, which value a
-- key opens, and the proof that a node sends for it.
use beerus.Prelude.{
  ℕ, zero, suc, ◌+◌, ◌-◌, ◌<◌, ◌≡◌, refl, ap, Bool, true, false, some, List, [], ◌∷◌, ◌++◌, arith,
  length, drop, drop-append, get_elem?, length-append, replicate, ok,
}
use mathlib.Core.List.{append-nil}
use beerus.Gen.Types.{Node, binary_node, edge_node, Proof}
use beerus.Util.{StarkCrypto, BitView, felt_from_bits}
use beerus.Util.Laws.{FieldLaws}
use beerus.Proof.{Walk, expected_hash, direction, visit, climb, from_251, add_i64}
use beerus.Proof.Steps.{felt_text, climb-cons-inv, climb-cons}

-- A trie over keys of bits: the value at a leaf, two branches, or a run of bits without a branch.
pub data Trie (F : Type 0) : Type 0 where
  leaf : F → Trie F
  fork : Trie F → Trie F → Trie F
  edge : List Bool → Trie F → Trie F

-- The key, most significant bit first, leads to the value. The proof for it is read off this.
pub data Opens {F : Type 0} (v : F) : Trie F → List Bool → Type 0 where
  here : Opens v (leaf v) []
  go_left : {l r : Trie F} {key : List Bool} → Opens v l key → Opens v (fork l r) (false ∷ key)
  go_right : {l r : Trie F} {key : List Bool} → Opens v r key → Opens v (fork l r) (true ∷ key)
  along :
      {t : Trie F} {rest key : List Bool} (path : List Bool)
      → key ≡ path ++ rest
      → Opens v t rest
      → Opens v (edge path t) key

module _ {F : Type 0} (crypto : StarkCrypto F) (bits : BitView) where
  -- A run of bits as a field element: it ends at the least significant bit.
  unfoldable pub path_felt : List Bool → F
  path_felt path = crypto.from_bytes_be (bits.copy_bits (replicate 32 0) (256 - length path) path)

  -- H(left, right) at a fork, and H(child, path) + length at an edge.
  unfoldable pub trie_hash : Trie F → F
  trie_hash (leaf v) = v
  trie_hash (fork l r) = crypto.pedersen_hash (trie_hash l) (trie_hash r)
  trie_hash (edge path t) =
      crypto.field_add (crypto.pedersen_hash (trie_hash t) (path_felt path))
        (crypto.from_u64 (length path))

  unfoldable pub fork_node : Trie F → Trie F → Node
  fork_node l r = binary_node (record {
    binary = record {
      left = felt_text crypto (trie_hash l);
      right = felt_text crypto (trie_hash r);
    };
  })

  unfoldable pub path_node : List Bool → Trie F → Node
  path_node path t = edge_node (record {
    edge = record {
      child = felt_text crypto (trie_hash t);
      path = record { len = length path; value = felt_text crypto (path_felt path) };
    };
  })

  -- The nodes on the way from the root to the leaf.
  unfoldable pub prove : {v : F} {t : Trie F} {key : List Bool} → Opens v t key → Proof
  prove here = []
  prove (go_left {l = l} {r = r} o) = fork_node l r ∷ prove o
  prove (go_right {l = l} {r = r} o) = fork_node l r ∷ prove o
  prove (along {t = t} path e o) = path_node path t ∷ prove o

module _ {F : Type 0} {crypto : StarkCrypto F} (laws : FieldLaws crypto) (bits : BitView) where
  pub climb-snoc :
      (key : List Bool) (v : F) (i j : ℕ) (nodes : List Node) (node : Node) (w m u : Walk F)
      → j ≡ i + length nodes
      → climb crypto bits key v i nodes w ≡ ok (some m)
      → visit crypto bits key v j node m ≡ ok (some u)
      → climb crypto bits key v i (nodes ++ (node ∷ [])) w ≡ ok (some u)
  unfolding climb
  climb-snoc key v i j [] node w m u at h s =
      let same : i ≡ j = omega arith in
      let start : w ≡ m = ground arith in
      climb-cons crypto bits key v i node [] w u u (rw (same, start) s) refl
  climb-snoc key v i j (n ∷ nodes) node w m u at h s =
      let (k, t, c) = climb-cons-inv laws bits key v i n nodes w m h in
      climb-cons crypto bits key v i n (nodes ++ (node ∷ [])) w k u t
        (climb-snoc key v (suc i) j nodes node k m u (omega arith) c s)

  -- A fork above the hash of one of its sides.
  pub visit-fork :
      (key : List Bool) (v : F) (i n : ℕ) (l r : Trie F) (flag : Bool) (h : F)
      → n < 251
      → get_elem? key (250 - n) ≡ some flag
      → expected_hash crypto bits
          (direction flag)
          h
          (trie_hash crypto bits l)
          (trie_hash crypto bits r)
        ≡ crypto.pedersen_hash (trie_hash crypto bits l) (trie_hash crypto bits r)
      → visit crypto bits key v i (fork_node crypto bits l r) (record { hold = h; path_len = n })
        ≡ ok (some (record { hold = trie_hash crypto bits (fork l r); path_len = suc n }))
  unfolding visit trie_hash fork_node
  visit-fork key v i n l r flag h small bit side =
      let index : from_251 (add_i64 n 1) ≡ 250 - n = omega arith in
      let next : add_i64 n 1 ≡ suc n = omega arith in
      let l_hash = trie_hash crypto bits l in
      let r_hash = trie_hash crypto bits r in
      rw (index, next)
        (ground (
          arith,
          laws.from_hex-to_hex l_hash,
          laws.from_hex-to_hex r_hash,
          laws.field_eq_iff (crypto.pedersen_hash l_hash r_hash)
              (expected_hash crypto bits (direction flag) h l_hash r_hash),
        ))

  path-total :
      (key pre rest path : List Bool)
      → length key ≡ 251
      → key ≡ pre ++ (path ++ rest)
      → add_i64 (length rest) (length path) ≡ length (path ++ rest)
  path-total key pre rest path len e =
      omega (
        arith,
        ap (length {0}) e,
        length-append {0} pre (path ++ rest),
        length-append {0} path rest,
      )

  -- The mask at the leaf keeps the bits of the key that the edge stands for.
  pub masked-path :
      (key pre path : List Bool)
      → length key ≡ 251
      → key ≡ pre ++ path
      → felt_from_bits bits crypto key (some (from_251 (length path)))
        ≡ ok (path_felt crypto bits path)
  unfolding felt_from_bits path_felt
  masked-path key pre path len e =
      let lens : length pre + length path ≡ 251 =
        omega (arith, ap (length {0}) e, length-append {0} pre path) in
      let index : from_251 (length path) ≡ length pre = omega arith in
      let offset : 5 + length pre ≡ 256 - length path = omega arith in
      let low : drop (length pre) key ≡ path = rw e (drop-append pre path) in
      rw index (ground arith)

  -- A run of bits above the hash of what it leads to; at the leaf its bits are those of the key.
  pub visit-path :
      (key pre rest : List Bool) (v : F) (i : ℕ) (path : List Bool) (t : Trie F)
      → length key ≡ 251
      → key ≡ pre ++ (path ++ rest)
      → (i ≡ 0 → (trie_hash crypto bits t ≡ v) × (rest ≡ []))
      → visit crypto bits key v i
          (path_node crypto bits path t)
          (record { hold = trie_hash crypto bits t; path_len = length rest })
        ≡ ok (
            some (record {
              hold = trie_hash crypto bits (edge path t);
              path_len = length (path ++ rest);
            }))
  unfolding visit trie_hash path_node
  visit-path key pre rest v zero path t len e lowest =
      let (same, none_left) = lowest refl in
      let total = path-total key pre rest path len e in
      let masked = masked-path key pre path len (rw (← append-nil path, ← none_left) e) in
      let value = path_felt crypto bits path in
      let hash = crypto.field_add (crypto.pedersen_hash v value) (crypto.from_u64 (length path)) in
      rw same (
        ground
          (arith, laws.from_hex-to_hex v, laws.from_hex-to_hex value, laws.field_eq_iff hash hash))
  visit-path key pre rest v (suc i) path t len e lowest =
      let total = path-total key pre rest path len e in
      ground (
        arith,
        laws.from_hex-to_hex (trie_hash crypto bits t),
        laws.from_hex-to_hex (path_felt crypto bits path),
      )
