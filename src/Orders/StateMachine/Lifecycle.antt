-- ===== src/Orders/StateMachine/Lifecycle.antt =====
-- The lifecycle of an order as a relation, which `validate_transition` decides, and its bounds.
use chat_to_sales.Base.{
  ℕ, ◌<◌, ◌≡◌, ◌≢◌, ◌↔◌, refl, sym, ◌∙◌, String, Option, none, some, arith, str_eq, eq_of_str_eq,
}
use chat_to_sales.Models.{OrderState, inquiry, confirmed, paid, failed}
use chat_to_sales.Orders.StateMachine.{
  value, parse_state, check_states, check_parsed, validate_transition, InvalidTransitionError,
}

-- The steps that the module's description allows.
infix 40 ◌⟶◌ ◌⟶*◌
pub data ◌⟶◌ : OrderState → OrderState → Type 0 where
  agree : inquiry ⟶ confirmed
  drop : inquiry ⟶ failed
  pay : confirmed ⟶ paid
  cancel : confirmed ⟶ failed

-- Any number of steps.
pub data ◌⟶*◌ : OrderState → OrderState → Type 0 where
  here : {s : OrderState} → s ⟶* s
  then : {s t u : OrderState} → s ⟶ t → t ⟶* u → s ⟶* u

pub parse_state-value : (s : OrderState) → parse_state (value s) ≡ some s
unfolding parse_state value str_eq
parse_state-value inquiry = refl
parse_state-value confirmed = refl
parse_state-value paid = refl
parse_state-value failed = refl

-- Only a state's own text is read as the state.
pub value-parse_state : (t : String) (s : OrderState) → parse_state t ≡ some s → t ≡ value s
unfolding parse_state value
value-parse_state t s h = ground (
  arith,
  eq_of_str_eq t "inquiry",
  eq_of_str_eq t "confirmed",
  eq_of_str_eq t "paid",
  eq_of_str_eq t "failed",
)

refused : (e : InvalidTransitionError) → some e ≢ none
refused e h = cc

check_states-paid : (e : InvalidTransitionError) (t : OrderState) → check_states e paid t ≡ some e
unfolding check_states
check_states-paid e inquiry = refl
check_states-paid e _ = refl

check_states-failed :
    (e : InvalidTransitionError) (t : OrderState) → check_states e failed t ≡ some e
unfolding check_states
check_states-failed e inquiry = refl
check_states-failed e _ = refl

check_states-⟶ : (e : InvalidTransitionError) (s t : OrderState) → check_states e s t ≡ none → s ⟶ t
unfolding check_states
check_states-⟶ e inquiry confirmed h = agree
check_states-⟶ e inquiry failed h = drop
check_states-⟶ e confirmed paid h = pay
check_states-⟶ e confirmed failed h = cancel
check_states-⟶ e inquiry inquiry h = absurd (refused e h)
check_states-⟶ e inquiry paid h = absurd (refused e h)
check_states-⟶ e confirmed inquiry h = absurd (refused e h)
check_states-⟶ e confirmed confirmed h = absurd (refused e h)
check_states-⟶ e paid t h = absurd (refused e (sym (check_states-paid e t) ∙ h))
check_states-⟶ e failed t h = absurd (refused e (sym (check_states-failed e t) ∙ h))

⟶-check_states : (e : InvalidTransitionError) {s t : OrderState} → s ⟶ t → check_states e s t ≡ none
unfolding check_states
⟶-check_states e agree = refl
⟶-check_states e drop = refl
⟶-check_states e pay = refl
⟶-check_states e cancel = refl

abbrev pub refusal : String → String → String → InvalidTransitionError
refusal id s t = record { order_id = id; from_state = s; to_state = t }

validate_transition-value :
    (id : String) (s t : OrderState)
    → validate_transition id (value s) (value t) ≡ check_states (refusal id (value s) (value t)) s t
unfolding validate_transition
validate_transition-value id s t = rw (parse_state-value s, parse_state-value t)

pub validate_transition-⟶ :
    (id : String) (s t : OrderState) → (validate_transition id (value s) (value t) ≡ none) ↔ (s ⟶ t)
validate_transition-⟶ id s t = rw (validate_transition-value id s t) (
  check_states-⟶ (refusal id (value s) (value t)) s t,
  ⟶-check_states (refusal id (value s) (value t)),
)

-- What an accepted request names.
abbrev pub Accepted : String → String → Type 0
Accepted s t = (a : OrderState) × (b : OrderState) × (s ≡ value a) × (t ≡ value b) × (a ⟶ b)

check_parsed-Accepted :
    (e : InvalidTransitionError) (s t : String) (a b : Option OrderState)
    → parse_state s ≡ a
    → parse_state t ≡ b
    → check_parsed e a b ≡ none
    → Accepted s t
unfolding check_parsed
check_parsed-Accepted e s t none b p q h = absurd (refused e h)
check_parsed-Accepted e s t (some a) none p q h = absurd (refused e h)
check_parsed-Accepted e s t (some a) (some b) p q h =
    (a, b, value-parse_state s a p, value-parse_state t b q, check_states-⟶ e a b h)

-- For any two texts, `validate_transition` returns normally exactly when they are the values of
-- two states and the lifecycle has the step from the first to the second; otherwise it raises.
pub validate_transition_iff : (id s t : String) → (validate_transition id s t ≡ none) ↔ Accepted s t
unfolding validate_transition
validate_transition_iff id s t = (
  check_parsed-Accepted (refusal id s t) s t (parse_state s) (parse_state t) refl refl,
  λ (a, b, p, q, step). rw (p, q) ((validate_transition-⟶ id a b).1 step),
)

check_parsed_refusal :
    (e x : InvalidTransitionError) (a b : Option OrderState) → check_parsed e a b ≡ some x → x ≡ e
unfolding check_parsed check_states
check_parsed_refusal e x a b h = ground arith

-- A refusal names the order and the two texts as they were given.
pub validate_transition-refusal :
    (id s t : String) (x : InvalidTransitionError)
    → validate_transition id s t ≡ some x
    → x ≡ refusal id s t
unfolding validate_transition
validate_transition-refusal id s t x h =
    check_parsed_refusal (refusal id s t) x (parse_state s) (parse_state t) h

-- How many steps are left at most.
unfoldable pub steps_left : OrderState → ℕ
steps_left inquiry = 2
steps_left confirmed = 1
steps_left paid = 0
steps_left failed = 0

pub steps_left-⟶ : {s t : OrderState} → s ⟶ t → steps_left t < steps_left s
unfolding steps_left
steps_left-⟶ agree = omega arith
steps_left-⟶ drop = omega arith
steps_left-⟶ pay = omega arith
steps_left-⟶ cancel = omega arith
