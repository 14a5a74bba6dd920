-- ===== src/Client/Retry.antt =====
-- The loops of src/client.c that try again after a failure: `while (errCode == CODE_FAILURE)` around
-- an error window whose answer is to try once more or to leave (lines 42 to 59 and 81 to 97 of
-- `main`, lines 257 to 274 of `wait_players`).
use intellect_battle.Prelude.{
  ℕ, zero, suc, ◌≤◌, ◌<◌, ◌≡◌, ap, ◌∙◌, ◌⊎◌, inl, inr, true, false, none, some, List, [], ◌∷◌, ℤ,
  eqb_ℤ, ◌==◌, length, arith, Option-cases, Bool-cases, Yields_at,
}
use intellect_battle.Client.Logic.{code_failure}
use intellect_battle.Client.Menu.{Key}
use intellect_battle.Client.Errors.{error_window, error_window-IsAnswer, handle_retry, handle_stop}

-- How such a loop ends: with a code that is no failure, the state, and the attempts and keys that are
-- left; with `exit(APPLICATION_ERROR)`; or not yet, when it still waits for the user or the network.
pub data Retried {ℓ κ} (A : Type ℓ) (S : Type κ) : Type (ℓ ⊔ κ) where
  settled : (errCode : ℤ) → S → List A → List Key → Retried A S
  stopped : S → Retried A S
  waiting : S → Retried A S
  out_of_fuel : Retried A S

-- A window that may be retried gives no answer yet, or one of its two answers.
window-answers :
    (error_type : ℕ) (keys : List Key)
    → (error_window error_type true keys ≡ none)
      ⊎ ((left : List Key) × ((error_window error_type true keys ≡ some (handle_stop, left))
            ⊎ (error_window error_type true keys ≡ some (handle_retry, left))))
window-answers error_type keys = elim (Option-cases (error_window error_type true keys)) [
  | inl none_yet ↦ inl none_yet
  | inr ((answer, left), at) ↦ inr (
    left,
    elim (Yields_at (error_window-IsAnswer error_type true keys) at) [
      | inl stop ↦ inl (at ∙ ap (λ a. some (a, left)) stop)
      | inr (again, _) ↦ inr (at ∙ ap (λ a. some (a, left)) again)
    ],
  )
]

module _ {ℓ κ} {A : Type ℓ} {S : Type κ} (error_type : ℕ) (attempt : A → S → ℤ × S) where
  -- The loop, with fuel for its rounds. An attempt is described by what it meets; it has a code and
  -- may change the state.
  unfoldable pub retry : ℕ → (errCode : ℤ) → S → List A → List Key → Retried A S
  retry zero errCode s tries keys = out_of_fuel
  retry (suc fuel) errCode s tries keys = elim (eqb_ℤ errCode code_failure) [
    | false ↦ settled errCode s tries keys
    | true ↦ elim (error_window error_type true keys) [
      | none ↦ waiting s
      | some (error_handle, left) ↦ elim (error_handle == handle_retry) [
        | true ↦ elim tries [
          | [] ↦ waiting s
          | a ∷ later ↦ let (errCode', s') = attempt a s in retry fuel errCode' s' later left
        ]
        | false ↦ elim (error_handle == handle_stop) [
          | true ↦ stopped s
          | false ↦ retry fuel errCode s tries left
        ]
      ]
    ]
  ]

  -- What is known at the end of a loop that has at most `n` attempts left: it has not run out of fuel,
  -- and it settles for no failure.
  unfoldable pub IsEnd : (P : ℤ → S → Type 0) → (n : ℕ) → Retried A S → Type 0
  IsEnd P n (settled errCode s tries keys) =
      (eqb_ℤ errCode code_failure ≡ false) × P errCode s × (length tries ≤ n)
  IsEnd P n (stopped s) = (c : ℤ) × P c s
  IsEnd P n (waiting s) = (c : ℤ) × P c s
  IsEnd P n out_of_fuel = ⊥

  IsEnd-more : (P : ℤ → S → Type 0) (n : ℕ) (r : Retried A S) → IsEnd P n r → IsEnd P (suc n) r
  unfolding IsEnd
  IsEnd-more P n (settled c s tries keys) (ok, p, few) = (ok, p, omega arith)
  IsEnd-more P n (stopped s) p = p
  IsEnd-more P n (waiting s) p = p
  IsEnd-more P n out_of_fuel p = p

  -- What holds of the first code and state, and after every attempt, holds at the end. More fuel than
  -- attempts is enough: each round but the last makes an attempt, because an error window that may
  -- be retried has no third answer.
  pub retry-IsEnd :
      (P : ℤ → S → Type 0)
      → ((a : A) (s : S) → ((c : ℤ) × P c s) → P (attempt a s).0 (attempt a s).1)
      → (fuel : ℕ) (errCode : ℤ) (s : S) (tries : List A) (keys : List Key) → length tries < fuel
      → P errCode s
      → IsEnd P (length tries) (retry fuel errCode s tries keys)
  unfolding retry IsEnd
  retry-IsEnd P keep zero errCode s tries keys enough p = absurd (omega arith)
  retry-IsEnd P keep (suc fuel) errCode s tries keys enough p =
      elim (Bool-cases (eqb_ℤ errCode code_failure)) [
        | inr ok ↦ rw (ok, retry) (ok, p, omega arith)
        | inl fail ↦ elim (window-answers error_type keys) [
          | inl none_yet ↦ rw (fail, none_yet, retry) (errCode, p)
          | inr (left, inl stop) ↦ rw (fail, stop, retry) (errCode, p)
          | inr (left, inr again) ↦
              elim tries
                  as (λ ts.
                    length ts < suc fuel
                    → IsEnd P (length ts) (retry (suc fuel) errCode s ts keys)) [
                      | [] ↦ λ enough. rw (fail, again, retry) (errCode, p)
                      | a ∷ later ↦ λ enough.
                          rw (fail, again, retry)
                            (IsEnd-more P (length later) _ (
                              retry-IsEnd P keep fuel (attempt a s).0 (attempt a s).1 later left
                                (omega arith) (keep a s (errCode, p))))
                    ]
                enough
        ]
      ]
