-- ===== src/Types/Budget.antt =====
-- crates/cheetah-media-types/src/buffer/budget.rs: copy budgets and per-stage budgets.
pub mod Copies
pub mod Stages
mod Tests
use cheetah_media_engine.Prelude.{
  ℕ, String, str_eq, Bool, true, false, not, ◌&&◌, List, [], ◌∷◌, Option, none, some, and_then,
  map_option, unwrap_or, sat_add, ltb, leb, if◌then◌else◌,
}
use cheetah_media_engine.Types.Error.{resource_limit, Result, ok, err}

pub data CopyReason : Type 0 where
  network_to_wasm parser_reassembly demux_to_decoder demux_to_mse decoder_to_renderer : CopyReason
  other : String → CopyReason

unfoldable pub reason_name : CopyReason → String
reason_name network_to_wasm = "network_to_wasm"
reason_name parser_reassembly = "parser_reassembly"
reason_name demux_to_decoder = "demux_to_decoder"
reason_name demux_to_mse = "demux_to_mse"
reason_name decoder_to_renderer = "decoder_to_renderer"
reason_name (other s) = s

-- `==` of reasons.
unfoldable pub same_reason : CopyReason → CopyReason → Bool
same_reason network_to_wasm network_to_wasm = true
same_reason parser_reassembly parser_reassembly = true
same_reason demux_to_decoder demux_to_decoder = true
same_reason demux_to_mse demux_to_mse = true
same_reason decoder_to_renderer decoder_to_renderer = true
same_reason (other s) (other t) = str_eq s t
same_reason _ _ = false

pub record CopyCounter : Type 0 where
  pub bytes : ℕ
  pub count : ℕ

-- The map of counters as an association list: nothing that is read of it depends on its order.
pub record CopyBudget : Type 0 where
  pub counters : List (CopyReason × CopyCounter)
  pub total_limit : Option ℕ

unfoldable pub new_budget : Option ℕ → CopyBudget
new_budget limit = record { counters = []; total_limit = limit }

abbrev pub no_copies : CopyCounter
no_copies = record { bytes = 0; count = 0 }

abbrev bump : CopyCounter → ℕ → CopyCounter
bump c n = record { bytes = sat_add c.bytes n; count = sat_add c.count 1 }

-- `entry(reason).or_default()`, then the update of the counter.
record_in : CopyReason → ℕ → List (CopyReason × CopyCounter) → List (CopyReason × CopyCounter)
record_in r n [] = (r, bump no_copies n) ∷ []
record_in r n ((k, c) ∷ m) = if same_reason k r then (k, bump c n) ∷ m else (k, c) ∷ record_in r n m

unfoldable pub record_copy : CopyBudget → CopyReason → ℕ → CopyBudget
unfolding record_in
record_copy b reason n = record b { counters = record_in reason n b.counters }

sum_bytes : ℕ → List (CopyReason × CopyCounter) → ℕ
sum_bytes acc [] = acc
sum_bytes acc ((k, c) ∷ m) = sum_bytes (sat_add acc c.bytes) m

sum_count : ℕ → List (CopyReason × CopyCounter) → ℕ
sum_count acc [] = acc
sum_count acc ((k, c) ∷ m) = sum_count (sat_add acc c.count) m

pub total : CopyBudget → ℕ
unfolding sum_bytes
total b = sum_bytes 0 b.counters

pub total_count : CopyBudget → ℕ
unfolding sum_count
total_count b = sum_count 0 b.counters

find : CopyReason → List (CopyReason × CopyCounter) → Option CopyCounter
find r [] = none
find r ((k, c) ∷ m) = if same_reason k r then some c else find r m

pub get_bytes : CopyBudget → CopyReason → ℕ
unfolding find
get_bytes b r = unwrap_or (map_option (λ c. c.bytes) (find r b.counters)) 0

pub get_count : CopyBudget → CopyReason → ℕ
unfolding find
get_count b r = unwrap_or (map_option (λ c. c.count) (find r b.counters)) 0

pub check_copies : CopyBudget → Result (Unit {0})
check_copies b = elim b.total_limit [
  | none ↦ ok tt
  | some limit ↦
      (if ltb limit (total b) then err (resource_limit "copy_budget" (total b) limit) else ok tt)
]

pub data DropPolicy : Type 0 where
  never drop_non_keyframe drop_oldest : DropPolicy

pub record StageBudget : Type 0 where
  pub max_in_flight : ℕ
  pub high_watermark : ℕ
  pub low_watermark : ℕ
  pub drop_policy : DropPolicy

pub new_stage : ℕ → ℕ → ℕ → DropPolicy → StageBudget
new_stage most high low policy =
    let h = if ltb most high then most else high in
    record {
      max_in_flight = most;
      high_watermark = h;
      low_watermark = if ltb h low then h else low;
      drop_policy = policy;
    }

pub is_over_high : StageBudget → ℕ → Bool
is_over_high b current = leb b.high_watermark current

pub is_below_low : StageBudget → ℕ → Bool
is_below_low b current = leb current b.low_watermark

pub is_over_max : StageBudget → ℕ → Bool
is_over_max b current = ltb b.max_in_flight current

-- The `match` on the drop policy, at or over the limit.
admit_at_limit : DropPolicy → Bool → Bool → Bool → Bool → Bool
admit_at_limit never at_most live video key = false
admit_at_limit drop_oldest at_most live video key = at_most
admit_at_limit drop_non_keyframe at_most live video key =
    if live && video && not key then false else at_most

pub should_admit : StageBudget → ℕ → Bool → Bool → Bool → Bool
unfolding admit_at_limit
should_admit b current is_live is_video is_keyframe =
    if ltb current b.max_in_flight
    then true
    else admit_at_limit b.drop_policy (leb current b.max_in_flight) is_live is_video is_keyframe

pub backpressure : StageBudget → ℕ → Result (Unit {0})
backpressure b current =
    if ltb b.max_in_flight current
    then err (resource_limit "stage_in_flight" current b.max_in_flight)
    else ok tt
