-- ===== src/Rpc/Batch.antt =====
-- `handle_request` of src/rpc.rs: one request or a batch. A request without an id is a notification,
-- which is carried out and not answered.
use beerus.Prelude.{◌≡◌, refl, ℕ, ap, Option, none, some, List, [], ◌∷◌, ◌++◌}
use mathlib.Core.List.{append-nil, append_assoc}
use beerus.Gen.Client.{Request}

-- `Request` and `Response` of src/rpc.rs; `R` is a JSON-RPC response.
pub data Incoming (V : Type 0) : Type 0 where
  single : Request V → Incoming V
  batch : List (Request V) → Incoming V

pub data Outgoing (R : Type 0) : Type 0 where
  nothing : Outgoing R
  one : R → Outgoing R
  many : List R → Outgoing R

module _ {V R W : Type 0} (handle : Request V → W → R × W) where
  -- The loop over a batch, with the answers so far.
  handle_all : List (Request V) → List R → W → List R × W
  handle_all [] ret w = (ret, w)
  handle_all (req ∷ reqs) ret w =
      handle_all reqs (elim req.id [ some _ ↦ ret ++ ((handle req w).0 ∷ []) | none ↦ ret ])
        (handle req w).1

  unfoldable pub handle_request : Incoming V → W → Outgoing R × W
  unfolding handle_all
  handle_request (single req) w =
      (elim req.id [ some _ ↦ one (handle req w).0 | none ↦ nothing ], (handle req w).1)
  handle_request (batch reqs) w = let done = handle_all reqs [] w in (many done.0, done.1)

  -- The reference: each request in turn, and an answer for each that has an id.
  pub answers : List (Request V) → W → List R
  answers [] w = []
  answers (req ∷ reqs) w =
      let rest = answers reqs (handle req w).1 in
      elim req.id [ some _ ↦ (handle req w).0 ∷ rest | none ↦ rest ]

  -- The world after all requests, notifications included.
  pub after_all : List (Request V) → W → W
  after_all [] w = w
  after_all (req ∷ reqs) w = after_all reqs (handle req w).1

  keep-append :
      (id : Option ℕ) (ret : List R) (res : R) (rest : List R)
      → elim id as (λ _. List R) [ some _ ↦ ret ++ (res ∷ []) | none ↦ ret ] ++ rest
        ≡ ret ++ elim id as (λ _. List R) [ some _ ↦ res ∷ rest | none ↦ rest ]
  keep-append none ret res rest = refl
  keep-append (some i) ret res rest = append_assoc ret (res ∷ []) rest

  handle_all-answers :
      (reqs : List (Request V)) (ret : List R) (w : W)
      → handle_all reqs ret w ≡ (ret ++ answers reqs w, after_all reqs w)
  unfolding handle_all answers after_all
  handle_all-answers [] ret w = rw append-nil
  handle_all-answers (req ∷ reqs) ret w =
      rw
        (handle_all-answers reqs
          (elim req.id [ some _ ↦ ret ++ ((handle req w).0 ∷ []) | none ↦ ret ]) (handle req w).1)
        (ap (λ (rs : List R). (rs, after_all reqs (handle req w).1))
          (keep-append req.id ret (handle req w).0 (answers reqs (handle req w).1)))

  -- A batch is handled in order, and answered by one list: the answers to the requests with an id, in
  -- the order of the requests; notifications are carried out too.
  pub handle_request-answers :
      (reqs : List (Request V)) (w : W)
      → handle_request (batch reqs) w ≡ (many (answers reqs w), after_all reqs w)
  unfolding handle_request
  handle_request-answers reqs w = rw (handle_all-answers reqs [] w)
