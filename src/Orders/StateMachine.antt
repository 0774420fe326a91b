-- ===== src/Orders/StateMachine.antt =====
-- app/modules/orders/state_machine.py: the transition table and `validate_transition`. The states
-- travel as texts (`OrderState` is a `StrEnum`), which the function reads back first.
pub mod Lifecycle
use chat_to_sales.Base.{
  String, Bool, true, false, Option, none, some, List, [], ◌∷◌, ◌||◌, str_eq, if◌then◌else◌,
}
use chat_to_sales.Models.{OrderState, inquiry, confirmed, paid, failed}

-- `OrderState.X.value`
unfoldable pub value : OrderState → String
value inquiry = "inquiry"
value confirmed = "confirmed"
value paid = "paid"
value failed = "failed"

-- `OrderState(text)`, where `none` is the `ValueError`.
unfoldable pub parse_state : String → Option OrderState
parse_state s =
    if str_eq s "inquiry"
    then some inquiry
    else if str_eq s "confirmed"
    then some confirmed
    else if str_eq s "paid"
    then some paid
    else if str_eq s "failed"
    then some failed
    else none

unfoldable pub same_state : OrderState → OrderState → Bool
same_state inquiry inquiry = true
same_state confirmed confirmed = true
same_state paid paid = true
same_state failed failed = true
same_state _ _ = false

unfoldable pub state_in : OrderState → List OrderState → Bool
unfolding same_state
state_in s [] = false
state_in s (t ∷ ts) = same_state s t || state_in s ts

-- `_VALID_TRANSITIONS`
unfoldable pub valid_transitions : OrderState → List OrderState
valid_transitions inquiry = confirmed ∷ failed ∷ []
valid_transitions confirmed = paid ∷ failed ∷ []
valid_transitions paid = []
valid_transitions failed = []

pub record InvalidTransitionError : Type 0 where
  pub order_id : String
  pub from_state : String
  pub to_state : String

-- The two tests after both texts were read.
unfoldable pub check_states :
    InvalidTransitionError → OrderState → OrderState → Option InvalidTransitionError
unfolding same_state state_in valid_transitions
check_states e from to =
    if same_state from to
    then some e
    else if state_in to (valid_transitions from)
    then none
    else some e

-- The tests after both texts were read; `none` for a text is a `ValueError`.
unfoldable pub check_parsed :
    InvalidTransitionError → Option OrderState → Option OrderState → Option InvalidTransitionError
check_parsed e none _ = some e
check_parsed e (some from) none = some e
check_parsed e (some from) (some to) = check_states e from to

-- `none` is the normal return; the error names the texts as they were given.
unfoldable pub validate_transition : String → String → String → Option InvalidTransitionError
unfolding check_parsed
validate_transition order_id current_state new_state =
    check_parsed (record { order_id = order_id; from_state = current_state; to_state = new_state })
      (parse_state current_state) (parse_state new_state)
