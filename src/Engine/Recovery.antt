-- ===== src/Engine/Recovery.antt =====
-- crates/cheetah-media-engine/src/recovery.rs: classification of errors, retry budgets, and the
-- tracker of past attempts.
pub mod Decide
pub mod Classify
pub mod Window
mod Tests
use cheetah_media_engine.Prelude.{
  ℕ, zero, suc, ◌-◌, ◌*◌, ◌^◌, min, max, String, str_eq, Bool, true, false, ◌&&◌, ◌||◌, List, [],
  ◌∷◌, ◌++◌, length, get_or, Option, none, some, sat_mul, ltb, leb, ◌==◌, if◌then◌else◌,
}
use Prim.Native.String.{len}
use text.Mathlib.Text.{starts_with}

pub data RecoveryAction : Type 0 where
  retry_same rebuild_stage fallback_backend reconnect_source fatal_action : RecoveryAction

pub RecoveryAction-discrete : Discrete RecoveryAction
RecoveryAction-discrete = hlevel

pub data RecoveryDecision : Type 0 where
  -- the action, the delay in milliseconds, the attempts left
  retry : RecoveryAction → ℕ → ℕ → RecoveryDecision
  escalate : RecoveryAction → RecoveryDecision
  give_up : RecoveryDecision

pub record RetryBudget : Type 0 where
  pub max_attempts : ℕ
  pub window_ms : ℕ
  pub base_ms : ℕ
  pub cap_ms : ℕ

default_retry : RetryBudget
default_retry = record { max_attempts = 3; window_ms = 30000; base_ms = 100; cap_ms = 5000 }

unfoldable pub delay_for : RetryBudget → ℕ → ℕ
delay_for b attempt = min (sat_mul b.base_ms (2 ^ min attempt 30)) b.cap_ms

pub record ClassificationRule : Type 0 where
  pub code : Option ℕ
  pub stage : String
  pub action : RecoveryAction

-- `budgets` has one entry for each action, in declaration order.
pub record RecoveryPolicy : Type 0 where
  pub rules : List ClassificationRule
  pub budgets : List RetryBudget

abbrev pub any_code : String → RecoveryAction → ClassificationRule
any_code s a = record { code = none; stage = s; action = a }

abbrev pub no_budget : RetryBudget
no_budget = record { max_attempts = 0; window_ms = 0; base_ms = 0; cap_ms = 0 }

abbrev pub default_player : RecoveryPolicy
default_player = record {
  rules =
      any_code "network" reconnect_source
      ∷ any_code "decoder" fallback_backend
      ∷ any_code "render" rebuild_stage
      ∷ any_code "limit" fatal_action
      ∷ any_code "backend" retry_same
      ∷ [];
  budgets =
      record { max_attempts = 3; window_ms = 10000; base_ms = 250; cap_ms = 2000 }
      ∷ record { max_attempts = 2; window_ms = 15000; base_ms = 500; cap_ms = 3000 }
      ∷ record { max_attempts = 2; window_ms = 20000; base_ms = 250; cap_ms = 2000 }
      ∷ record { max_attempts = 5; window_ms = 60000; base_ms = 500; cap_ms = 8000 }
      ∷ no_budget
      ∷ [];
}

abbrev pub action_index : RecoveryAction → ℕ
action_index retry_same = 0
action_index rebuild_stage = 1
action_index fallback_backend = 2
action_index reconnect_source = 3
action_index fatal_action = 4

-- `rule.code.is_none_or(|c| c == code)`.
abbrev code_matches : Option ℕ → ℕ → Bool
code_matches none code = true
code_matches (some c) code = c == code

abbrev matches : ℕ → String → ClassificationRule → Bool
matches code stage r = code_matches r.code code && starts_with stage r.stage

abbrev is_some : Option ℕ → Bool
is_some none = false
is_some (some c) = true

-- Whether `r` replaces the best rule so far.
abbrev better : ClassificationRule → Option ClassificationRule → Bool
better r none = true
better r (some b) =
    ltb (len b.stage) (len r.stage)
    || (len r.stage == len b.stage && (is_some r.code && (if is_some b.code then false else true)))

best_rule :
    ℕ → String → Option ClassificationRule → List ClassificationRule → Option ClassificationRule
best_rule code stage best [] = best
best_rule code stage best (r ∷ rs) =
    best_rule code stage (if matches code stage r && better r best then some r else best) rs

abbrev action_of : Option ClassificationRule → RecoveryAction
action_of none = fatal_action
action_of (some r) = r.action

unfoldable pub classify : RecoveryPolicy → ℕ → String → RecoveryAction
unfolding best_rule
classify p code stage = action_of (best_rule code stage none p.rules)

abbrev pub budget : RecoveryPolicy → RecoveryAction → RetryBudget
budget p a = get_or p.budgets (action_index a) no_budget

largest_window : List RetryBudget → ℕ
largest_window [] = 0
largest_window (b ∷ bs) = max b.window_ms (largest_window bs)

unfoldable pub max_window_ms : RecoveryPolicy → ℕ
unfolding largest_window
max_window_ms p = largest_window p.budgets

-- The attempts `t` with `start ≤ t ≤ now`.
count_between : ℕ → ℕ → List ℕ → ℕ
count_between start now [] = 0
count_between start now (t ∷ ts) =
    if leb start t && leb t now
    then suc (count_between start now ts)
    else count_between start now ts

unfoldable pub in_window : RetryBudget → ℕ → List ℕ → ℕ
unfolding count_between
in_window b now attempts = count_between (now - b.window_ms) now attempts

abbrev pub next_action : RecoveryAction → RecoveryAction
next_action retry_same = rebuild_stage
next_action rebuild_stage = fallback_backend
next_action fallback_backend = reconnect_source
next_action reconnect_source = fatal_action
next_action fatal_action = fatal_action

-- The end of the chain is fatal.
abbrev escalation : RecoveryAction → RecoveryDecision
escalation fatal_action = give_up
escalation a = escalate a

abbrev within_budget : RetryBudget → RecoveryAction → ℕ → List ℕ → RecoveryDecision
within_budget b a now attempts =
    if leb b.max_attempts (in_window b now attempts)
    then escalation (next_action a)
    else retry a (delay_for b (min (length attempts) 30))
        (b.max_attempts - in_window b now attempts)

decide_action : RecoveryPolicy → RecoveryAction → ℕ → List ℕ → RecoveryDecision
decide_action p fatal_action now attempts = give_up
decide_action p a now attempts = within_budget (budget p a) a now attempts

-- The loop of `decide`, with the rounds that are left.
decide_loop : RecoveryPolicy → ℕ → (RecoveryAction → List ℕ) → ℕ → RecoveryAction → RecoveryDecision
decide_loop p now attempts_for zero a = give_up
decide_loop p now attempts_for (suc n) a = elim (decide_action p a now (attempts_for a)) [
  | retry b delay left ↦ decide_action p a now (attempts_for a)
  | give_up ↦ give_up
  | escalate next ↦ decide_loop p now attempts_for n next
]

unfoldable pub decide :
    RecoveryPolicy → ℕ → String → ℕ → (RecoveryAction → List ℕ) → RecoveryDecision
unfolding decide_action decide_loop
decide p code stage now attempts_for = decide_loop p now attempts_for 5 (classify p code stage)

pub record Attempt : Type 0 where
  pub code : ℕ
  pub stage : String
  pub action : RecoveryAction
  pub at_ms : ℕ

pub record RecoveryTracker : Type 0 where
  pub history : List Attempt

abbrev pub new_tracker : RecoveryTracker
new_tracker = record { history = [] }

unfoldable pub record_attempt : RecoveryTracker → ℕ → String → RecoveryAction → ℕ → RecoveryTracker
record_attempt t code stage action now = record {
  history = t.history ++ (record { code = code; stage = stage; action = action; at_ms = now } ∷ []);
}

abbrev same_key : ℕ → String → RecoveryAction → Attempt → Bool
same_key code stage action e =
    e.code == code && str_eq e.stage stage && action_index e.action == action_index action

attempts_in : ℕ → String → RecoveryAction → List Attempt → List ℕ
attempts_in code stage action [] = []
attempts_in code stage action (e ∷ es) =
    let rest = attempts_in code stage action es in
    if same_key code stage action e then e.at_ms ∷ rest else rest

unfoldable pub attempts : RecoveryTracker → ℕ → String → RecoveryAction → List ℕ
unfolding attempts_in
attempts t code stage action = attempts_in code stage action t.history

keep_from : ℕ → List Attempt → List Attempt
keep_from before [] = []
keep_from before (e ∷ es) =
    let rest = keep_from before es in if leb before e.at_ms then e ∷ rest else rest

unfoldable pub prune : RecoveryTracker → ℕ → RecoveryTracker
unfolding keep_from
prune t before = record { history = keep_from before t.history }
