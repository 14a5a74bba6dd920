-- ===== src/Client/Errors.antt =====
-- `error_window` of src/client.c (include/client_ui.h): the answer to an error.
use intellect_battle.Prelude.{
  ℕ, ◌+◌, ◌≡◌, refl, ◌⊎◌, inl, inr, Bool, true, false, ◌&&◌, ◌||◌, Option, none, some, List, [],
  ◌∷◌, ◌==◌, if◌then◌else◌, Bool-cases, Option-cases, Yields, fails, yields, Yields_at,
}
use intellect_battle.Client.Menu.{Key, mouse, other, within}

abbrev pub handle_retry : ℕ
handle_retry = 201

abbrev pub handle_stop : ℕ
handle_stop = 202

abbrev pub err_box_offt_y : ℕ
err_box_offt_y = 9

abbrev pub err_box_offt_x : ℕ
err_box_offt_x = 25

abbrev pub retry_box_h : ℕ
retry_box_h = 3

abbrev pub retry_box_w : ℕ
retry_box_w = 7

abbrev pub rel_retry_box_offt_y : ℕ
rel_retry_box_offt_y = 6

abbrev pub rel_retry_box_offt_x : ℕ
rel_retry_box_offt_x = 2

abbrev pub exit_box_h : ℕ
exit_box_h = 3

abbrev pub exit_box_w : ℕ
exit_box_w = 7

abbrev pub rel_exit_box_offt_x : ℕ
rel_exit_box_offt_x = 21

abbrev pub game_lost_type : ℕ
game_lost_type = 301

abbrev pub err_conn_fail : ℕ
err_conn_fail = 101

abbrev pub err_conf_send_fail : ℕ
err_conf_send_fail = 102

abbrev pub err_wait_fail : ℕ
err_wait_fail = 103

-- The body of the loop of `error_window`, for a click (lines 694 to 710).
unfoldable pub error_click : Bool → (x y : ℕ) → Option ℕ
error_click is_retryable x y =
    if is_retryable && within (err_box_offt_x + rel_retry_box_offt_x) retry_box_w x
    then (if within (err_box_offt_y + rel_retry_box_offt_y) retry_box_h y
        then some handle_retry
        else none)
    else if within (err_box_offt_x + rel_exit_box_offt_x) exit_box_w x
        && within (err_box_offt_y + rel_retry_box_offt_y) exit_box_h y
    then some handle_stop
    else none

-- The loop of `error_window`: the answer and the keys that are left.
unfoldable pub error_loop : Bool → List Key → Option (ℕ × List Key)
unfolding error_click
error_loop is_retryable [] = none
error_loop is_retryable (mouse x y ∷ keys) =
    let rest = error_loop is_retryable keys in
    elim (error_click is_retryable x y) [ some answer ↦ some (answer, keys) | none ↦ rest ]
error_loop is_retryable (other ∷ keys) = error_loop is_retryable keys

-- The types that the `switch` of lines 654 to 680 knows.
unfoldable pub is_known : ℕ → Bool
is_known error_type =
    error_type == err_conn_fail
    || error_type == err_conf_send_fail
    || error_type == err_wait_fail
    || error_type == game_lost_type

-- `error_window`
unfoldable pub error_window : (error_type : ℕ) → Bool → List Key → Option (ℕ × List Key)
unfolding is_known error_loop
error_window error_type is_retryable keys =
    if is_known error_type then error_loop is_retryable keys else some (handle_stop, keys)

-- The answers that a window may give.
abbrev pub IsAnswer : Bool → ℕ → Type 0
IsAnswer is_retryable answer =
    (answer ≡ handle_stop) ⊎ ((answer ≡ handle_retry) × (is_retryable ≡ true))

error_click-IsAnswer : (b : Bool) (x y : ℕ) → Yields (IsAnswer b) (error_click b x y)
unfolding error_click
error_click-IsAnswer b x y = elim (Bool-cases (b && within 27 7 x)) [
  | inl e ↦ elim (Bool-cases (within 15 3 y)) [
    | inl e1 ↦ rw (e, e1) (yields (inr (refl, first b (within 27 7 x) e)))
    | inr e1 ↦ rw (e, e1) fails
  ]
  | inr e ↦ elim (Bool-cases (within 46 7 x && within 15 3 y)) [
    | inl e1 ↦ rw (e, e1) (yields (inl refl))
    | inr e1 ↦ rw (e, e1) fails
  ]
]
  where
    first : (b c : Bool) → (b && c) ≡ true → b ≡ true
    first true c e = refl
    first false c e = e

error_loop-IsAnswer :
    (b : Bool) (keys : List Key) → Yields (λ (a, left). IsAnswer b a) (error_loop b keys)
unfolding error_loop
error_loop-IsAnswer b [] = fails
error_loop-IsAnswer b (mouse x y ∷ keys) = elim (Option-cases (error_click b x y)) [
  | inl miss ↦ rw (miss, error_loop) (error_loop-IsAnswer b keys)
  | inr (a, hit) ↦ rw (hit, error_loop) (yields (Yields_at (error_click-IsAnswer b x y) hit))
]
error_loop-IsAnswer b (other ∷ keys) = error_loop-IsAnswer b keys

-- An error window of any type answers HANDLE_STOP, or HANDLE_RETRY if it is retryable, and nothing
-- else, whatever is clicked.
pub error_window-IsAnswer :
    (error_type : ℕ) (is_retryable : Bool) (keys : List Key)
    → Yields (λ (a, left). IsAnswer is_retryable a) (error_window error_type is_retryable keys)
unfolding error_window
error_window-IsAnswer error_type is_retryable keys = elim (Bool-cases (is_known error_type)) [
  | inl e ↦ rw e (error_loop-IsAnswer is_retryable keys)
  | inr e ↦ rw e (yields (inl refl))
]
