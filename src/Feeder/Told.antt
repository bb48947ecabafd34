-- ===== src/Feeder/Told.antt =====
-- src/feeder.rs: which answers of the gateway are taken.
use beerus.Prelude.{
  ◌≡◌, ◌↔◌, refl, ap, ◌∙◌, true, Option, none, some, List, [], ◌∷◌, arith, Bool-cases, inl, inr,
  Str, text, str_eq, str_eq→≡, str_eq_refl, ok, ok_or, ok_or-inv, map_err-inv, >>=-inv, length,
  ◌==◌,
}
use beerus.Gen.Felt
use beerus.Gen.Felt.{Felt}
use beerus.Client.{State}
use beerus.Feeder.{
  JsonView, felt_or_report, text_of, element, read_state, read_signature, is_text, read_pair,
}

module _ {V : Type 0} (json : JsonView V) where
  open json use {member, as_str, as_number, as_array}

  -- An answer about a block that was accepted on the second layer, and the state that it tells.
  pub record Told (answer : V) (state : State) : Type 0 where
    pub hash : Str
    pub root : Str
    pub has_status : as_str (member answer (text "status")) ≡ some (text "ACCEPTED_ON_L2")
    pub has_number : as_number (member answer (text "block_number")) ≡ some state.block_number
    pub has_hash : as_str (member answer (text "block_hash")) ≡ some hash
    pub has_root : as_str (member answer (text "state_root")) ≡ some root
    pub hash_is_felt : Felt.try_new hash ≡ ok state.block_hash
    pub root_is_felt : Felt.try_new root ≡ ok state.root

  is_text-inv : (o : Option Str) (s : Str) → is_text json o s ≡ true → o ≡ some s
  unfolding is_text
  is_text-inv none s h = cc
  is_text-inv (some t) s h = ap some (str_eq→≡ t s h)

  felt-inv : (s : Str) {f : Felt} → felt_or_report s ≡ ok f → Felt.try_new s ≡ ok f
  unfolding felt_or_report
  felt-inv s h = map_err-inv _ (Felt.try_new s) h

  text_of-inv :
      (message : Str) (v : V) {s : Str} → text_of json message v ≡ ok s → as_str v ≡ some s
  unfolding text_of
  text_of-inv message v h = ok_or-inv _ (as_str v) h

  read_state-Told :
      (answer : V) (state : State) → read_state json answer ≡ ok state → Told answer state
  unfolding read_state
  read_state-Told answer state h =
      elim (Bool-cases
        (is_text json (as_str (member answer (text "status"))) (text "ACCEPTED_ON_L2"))) [
          | inr other ↦ absurd (cc (rw other at h))
          | inl status ↦
              let h₀ = rw status at h in
              let (number, e₁, h₁) =
                >>=-inv (ok_or _ (as_number (member answer (text "block_number")))) _ h₀ in
              let (hash, e₂, h₂) =
                >>=-inv (text_of json _ (member answer (text "block_hash"))) _ h₁ in
              let (root, e₃, h₃) =
                >>=-inv (text_of json _ (member answer (text "state_root"))) _ h₂ in
              let (f, e₄, h₄) = >>=-inv (felt_or_report hash) _ h₃ in
              let (g, e₅, h₅) = >>=-inv (felt_or_report root) _ h₄ in
              let same : record { block_number = number; block_hash = f; root = g } ≡ state = cc in
              record {
                hash = hash;
                root = root;
                has_status = is_text-inv _ _ status;
                has_number = ok_or-inv _ _ e₁ ∙ ap (λ (s : State). some s.block_number) same;
                has_hash = text_of-inv _ _ e₂;
                has_root = text_of-inv _ _ e₃;
                hash_is_felt = felt-inv hash e₄ ∙ ap (λ (s : State). ok s.block_hash) same;
                root_is_felt = felt-inv root e₅ ∙ ap (λ (s : State). ok s.root) same;
              }
        ]

  Told-read_state :
      (answer : V) (state : State) → Told answer state → read_state json answer ≡ ok state
  unfolding read_state text_of felt_or_report is_text str_eq
  Told-read_state answer state told = rw (
    told.has_status, told.has_number, told.has_hash, told.has_root, told.hash_is_felt,
    told.root_is_felt,
  )

  -- An answer is read as a state exactly if it is about a block that was accepted on the second layer
  -- and tells that state: a number, and two texts that `Felt::try_new` takes.
  pub read_state_iff :
      (answer : V) (state : State) → (read_state json answer ≡ ok state) ↔ Told answer state
  read_state_iff answer state = (read_state-Told answer state, Told-read_state answer state)

  -- An answer with the hash that was asked for and an array of two texts.
  pub record Signed (block_hash : Str) (answer : V) (r s : Str) : Type 0 where
    pub first : V
    pub second : V
    pub has_hash : as_str (member answer (text "block_hash")) ≡ some block_hash
    pub has_pair : as_array (member answer (text "signature")) ≡ some (first ∷ second ∷ [])
    pub has_r : as_str first ≡ some r
    pub has_s : as_str second ≡ some s

  two_elements : (vs : List V) → (length vs == 2) ≡ true → (a : V) × (b : V) × (vs ≡ a ∷ b ∷ [])
  two_elements [] h = cc
  two_elements (a ∷ []) h = absurd (ground arith)
  two_elements (a ∷ b ∷ []) h = (a, b, refl)
  two_elements (a ∷ b ∷ c ∷ vs) h = absurd (ground arith)

  read_pair-inv :
      (vs : List V) {r s : Str}
      → length vs == 2 ≡ true
      → (read_pair json vs ≡ ok (r, s))
      → (a : V) × (b : V) × (vs ≡ a ∷ b ∷ []) × (as_str a ≡ some r) × (as_str b ≡ some s)
  unfolding read_pair element
  read_pair-inv vs two h =
      let (a, b, e) = two_elements vs two in
      let h' = rw e at h in
      let (r', e₁, h₁) = >>=-inv (text_of json _ a) _ h' in
      let (s', e₂, h₂) = >>=-inv (text_of json _ b) _ h₁ in
      (a, b, e, cc (text_of-inv _ a e₁), cc (text_of-inv _ b e₂))

  read_signature-Signed :
      (block_hash : Str) (answer : V) (r s : Str)
      → read_signature json block_hash answer ≡ ok (r, s)
      → Signed block_hash answer r s
  unfolding read_signature
  read_signature-Signed block_hash answer r s h =
      let (hash, e₁, h₁) = >>=-inv (text_of json _ (member answer (text "block_hash"))) _ h in
      elim (Bool-cases (str_eq hash block_hash)) [
        | inr other ↦ absurd (cc (rw other at h₁))
        | inl same ↦
            let (vs, e₂, h₂) =
              >>=-inv (ok_or _ (as_array (member answer (text "signature")))) _ (rw same at h₁) in
            elim (Bool-cases (length vs == 2)) [
              | inr other ↦ absurd (cc (rw other at h₂))
              | inl two ↦
                  let (a, b, e, ea, eb) = read_pair-inv vs two (rw two at h₂) in
                  record {
                    first = a;
                    second = b;
                    has_hash = text_of-inv _ _ e₁ ∙ ap some (str_eq→≡ hash block_hash same);
                    has_pair = ok_or-inv _ _ e₂ ∙ ap some e;
                    has_r = ea;
                    has_s = eb;
                  }
            ]
      ]

  Signed-read_signature :
      (block_hash : Str) (answer : V) (r s : Str)
      → Signed block_hash answer r s
      → read_signature json block_hash answer ≡ ok (r, s)
  unfolding read_signature text_of read_pair element
  Signed-read_signature block_hash answer r s t =
      rw (t.has_hash, str_eq_refl block_hash, t.has_pair, t.has_r, t.has_s)

  -- An answer is read as a signature exactly if it has the hash that was asked for and, as the
  -- signature, an array of just the two texts.
  pub read_signature_iff :
      (block_hash : Str) (answer : V) (r s : Str)
      → (read_signature json block_hash answer ≡ ok (r, s)) ↔ Signed block_hash answer r s
  read_signature_iff block_hash answer r s =
      (read_signature-Signed block_hash answer r s, Signed-read_signature block_hash answer r s)
