-- ===== src/Poll.antt =====
-- The update loop of src/bin/beerus.rs, over the answers of the gateway.
use beerus.Prelude.{
  ◌≡◌, refl, ap, sym, ◌∙◌, true, not, List, [], ◌∷◌, ℕ, Str, arith, if◌then◌else◌, Bool-cases, inl,
  inr, str_eq, str_eq→≡, Outcome, ok, err, panic,
}
use beerus.Gen.Felt.{Felt}
use beerus.Client.{State, state_eq}

felt_eq : (a b : Felt) → str_eq a.value b.value ≡ true → a ≡ b
felt_eq a b h = ap (λ (v : Str). record { value = v }) (str_eq→≡ a.value b.value h)

state_eq→≡ : (a b : State) → state_eq a b ≡ true → a ≡ b
unfolding state_eq
state_eq→≡ a b h =
    let n : a.block_number ≡ b.block_number = ground arith in
    let r = felt_eq a.root b.root (ground arith) in
    let k = felt_eq a.block_hash b.block_hash (ground arith) in
    ap (λ (x : ℕ). record a { block_number = x }) n
    ∙ (ap
          (λ (x : Felt). record {
            block_number = b.block_number;
            block_hash = a.block_hash;
            root = x;
          })
          r
        ∙ ap (λ (x : Felt). record b { block_hash = x }) k)

-- The state behind the lock, and the loop's own copy.
pub record Polling : Type 0 where
  pub shared : State
  pub current : State

unfoldable pub poll_start : State → Polling
poll_start state = record { shared = state; current = state }

module _ {E : Type 0} where
  -- What the loop makes of one answer.
  unfoldable pub poll_step : Outcome E State → Polling → Polling
  unfolding state_eq
  poll_step (ok update) p =
      if not (state_eq update p.current) then record { shared = update; current = update } else p
  poll_step (err e) p = p
  poll_step panic p = p

  -- The loop over the answers; a panic ends the task, and the shared state stays.
  unfoldable pub poll_all : List (Outcome E State) → Polling → Polling
  unfolding poll_step
  poll_all [] p = p
  poll_all (panic ∷ answers) p = p
  poll_all (ok update ∷ answers) p = poll_all answers (poll_step (ok update) p)
  poll_all (err e ∷ answers) p = poll_all answers (poll_step (err e) p)

  -- The last state that was told before a panic, or the one at the start.
  abbrev pub last_told : State → List (Outcome E State) → State
  last_told s [] = s
  last_told s (panic ∷ answers) = s
  last_told s (ok update ∷ answers) = last_told update answers
  last_told s (err e ∷ answers) = last_told s answers

  step_lem :
      (answer : Outcome E State) (update s : State)
      → answer ≡ ok update
      → poll_step answer (poll_start s) ≡ poll_start update
  unfolding poll_step poll_start
  step_lem answer update s e = elim (Bool-cases (state_eq update s)) [
    | inl same ↦ rw (e, same) (ap poll_start (sym (state_eq→≡ update s same)))
    | inr other ↦ rw (e, other)
  ]

  -- After any sequence of answers the shared state and the loop's copy are the last state that the
  -- gateway told, or the one at the start; failures change nothing, and a panic ends the updates.
  pub poll_all-last_told :
      (answers : List (Outcome E State)) (s : State)
      → poll_all answers (poll_start s) ≡ poll_start (last_told s answers)
  unfolding poll_all poll_step
  poll_all-last_told [] s = refl
  poll_all-last_told (panic ∷ answers) s = refl
  poll_all-last_told (ok update ∷ answers) s =
      rw (step_lem (ok update) update s refl) (poll_all-last_told answers update)
  poll_all-last_told (err e ∷ answers) s = poll_all-last_told answers s
