-- ===== src/ClaimStore/Tests.antt =====
-- Runs of two stores that share one file system.
use swisstokint_open_risk_in.Prelude.{
  ℕ, ◌-◌, String, ◌≡◌, refl, true, false, Option, none, some, List, [], ◌∷◌, get_elem?,
  hash_pattern, utf16_length, ◌>>=◌,
}
use swisstokint_open_risk_in.Data.{Data}
use swisstokint_open_risk_in.Value
use swisstokint_open_risk_in.Value.{Value}
use swisstokint_open_risk_in.Data.{is_safe_integer}
use swisstokint_open_risk_in.Value.Exact.{exact_own_data, value_at}
use swisstokint_open_risk_in.Authorization.Checks.{capability_id_pattern}
use swisstokint_open_risk_in.Canonical.{canonicalize_payload}
use swisstokint_open_risk_in.Canonical.Safe.{validate_safe_value, payload_key_pattern, is_sensitive}
use swisstokint_open_risk_in.Canonical.Render.{canonicalize_value, join_entries, sort_entries}
use swisstokint_open_risk_in.Canonical.Number.{json_string}
use swisstokint_open_risk_in.ClaimStore.Programs.{claim}
use swisstokint_open_risk_in.Samples.{hash_a, object_of, sample_platform}
use swisstokint_open_risk_in.ClaimStore.Records.{
  ClaimRecord, durable_replay, durable_io, durable_stale, claim_data,
}
use swisstokint_open_risk_in.ClaimStore.Io.{capability_directory, is_directory, ◌>>=ᵢ◌}
use swisstokint_open_risk_in.ClaimStore.Durable.{RootFacts, root_found, check_root}
use swisstokint_open_risk_in.ClaimStore.Files.{
  works, fails_before, lookup, directory, same_place, attempted,
}
use swisstokint_open_risk_in.ClaimStore.World.{
  World, Call, Progress, Event, claimed, failed, handle_open, add_call, new_call, step,
  start_complete, start_claim, resume, empty_world, run, settled,
}
use swisstokint_open_risk_in.ClaimStore.Exclusive.{claim_exclusive, run-Sound, empty_world-Sound}
use swisstokint_open_risk_in.ClaimStore.Handles.{Used}
use swisstokint_open_risk_in.ClaimStore.Lifecycle.{IsOpenHandle, handle_single_use}
use swisstokint_open_risk_in.ClaimStore.Staged.{Owner}

abbrev cap_id : String
cap_id = "cap-0123456789abcdef0123456789abcdef"

abbrev request_value : Value
request_value =
    object_of
      (("capabilityId", Value.text cap_id) ∷ ("authorizationCommitment", Value.text hash_a) ∷ [])

abbrev good_root : RootFacts
good_root = root_found (record {
  kind = is_directory;
  resolves_to_itself = true;
  mode = 448;
  on_windows = false;
  uid = 1000;
  current_uid = some 1000;
  parent_synced = true;
})

abbrev no_parser : String → Option Data
no_parser s = none

abbrev next_of : ℕ → Event
next_of i = resume i works good_root

-- Two claims of one capability, by two stores. The second reaches its `mkdir` after the first.
abbrev race : List Event
race =
    start_claim 0 request_value 1
    ∷ start_claim 1 request_value 2
    ∷ next_of 0
    ∷ next_of 1
    ∷ next_of 0
    ∷ next_of 1
    ∷ next_of 0
    ∷ next_of 0
    ∷ next_of 0
    ∷ next_of 0
    ∷ next_of 0
    ∷ next_of 0
    ∷ next_of 0
    ∷ next_of 0
    ∷ []

-- The same with an operation that fails: the directory stays as a tombstone.
abbrev unlucky : List Event
unlucky =
    start_claim 0 request_value 1
    ∷ next_of 0
    ∷ next_of 0
    ∷ resume 0 fails_before good_root
    ∷ start_claim 0 request_value 3
    ∷ next_of 1
    ∷ next_of 1
    ∷ []

abbrev progress_of : World → ℕ → Option Progress
progress_of w i = elim (get_elem? w.calls i) [ none ↦ none | some c ↦ some c.progress ]

abbrev winner : ClaimRecord
winner = record {
  capability_id = cap_id;
  authorization_commitment = hash_a;
  claim_commitment = hash_a;
}

race_won :
    progress_of (run sample_platform no_parser empty_world race) 0
    ≡ some (claimed winner handle_open)
unfolding run sample_platform ◌>>=◌ claim ◌>>=ᵢ◌ exact_own_data Value.property_names
    Value.descriptor_of value_at capability_id_pattern hash_pattern settled check_root attempted
    same_place canonicalize_payload validate_safe_value payload_key_pattern is_sensitive
    utf16_length canonicalize_value is_safe_integer claim_data join_entries sort_entries json_string
race_won = refl

race_lost :
    progress_of (run sample_platform no_parser empty_world race) 1 ≡ some (failed durable_replay)
unfolding run sample_platform ◌>>=◌ claim ◌>>=ᵢ◌ exact_own_data Value.property_names
    Value.descriptor_of value_at capability_id_pattern hash_pattern settled check_root attempted
    same_place canonicalize_payload validate_safe_value payload_key_pattern is_sensitive
    utf16_length canonicalize_value is_safe_integer claim_data join_entries sort_entries json_string
race_lost = refl

unlucky_first :
    progress_of (run sample_platform no_parser empty_world unlucky) 0 ≡ some (failed durable_io)
unfolding run sample_platform ◌>>=◌ claim ◌>>=ᵢ◌ exact_own_data Value.property_names
    Value.descriptor_of value_at capability_id_pattern hash_pattern settled check_root attempted
    same_place canonicalize_payload validate_safe_value payload_key_pattern is_sensitive
    utf16_length canonicalize_value is_safe_integer claim_data join_entries sort_entries json_string
unlucky_first = refl

unlucky_second :
    progress_of (run sample_platform no_parser empty_world unlucky) 1 ≡ some (failed durable_replay)
unfolding run sample_platform ◌>>=◌ claim ◌>>=ᵢ◌ exact_own_data Value.property_names
    Value.descriptor_of value_at capability_id_pattern hash_pattern settled check_root attempted
    same_place canonicalize_payload validate_safe_value payload_key_pattern is_sensitive
    utf16_length canonicalize_value is_safe_integer claim_data join_entries sort_entries json_string
unlucky_second = refl

abbrev won : Call
won = record { store = 0; progress = claimed winner handle_open }

race_call : get_elem? (run sample_platform no_parser empty_world race).calls 0 ≡ some won
unfolding run sample_platform ◌>>=◌ claim ◌>>=ᵢ◌ exact_own_data Value.property_names
    Value.descriptor_of value_at capability_id_pattern hash_pattern settled check_root attempted
    same_place canonicalize_payload validate_safe_value payload_key_pattern is_sensitive
    utf16_length canonicalize_value is_safe_integer claim_data join_entries sort_entries json_string
race_call = refl

race_directory :
    lookup (capability_directory cap_id) (run sample_platform no_parser empty_world race).files
    ≡ some (directory 0)
unfolding run sample_platform ◌>>=◌ claim ◌>>=ᵢ◌ exact_own_data Value.property_names
    Value.descriptor_of value_at capability_id_pattern hash_pattern settled check_root attempted
    same_place canonicalize_payload validate_safe_value payload_key_pattern is_sensitive
    utf16_length canonicalize_value is_safe_integer claim_data join_entries sort_entries json_string
race_directory = refl

claim_exclusive_example : ◌≡◌ {A = ℕ} 0 0
claim_exclusive_example =
    claim_exclusive sample_platform no_parser race 0 0 won won winner winner handle_open handle_open
      race_call race_call refl refl refl

abbrev won_world : World
won_world = run sample_platform no_parser empty_world race

won-IsOpenHandle : IsOpenHandle won_world 0 0
won-IsOpenHandle = record {
  holder = won;
  claim = winner;
  found = race_call;
  claims = refl;
  own = refl;
}

-- The winner begins to complete its handle, then completes it once more.
handle_single_use_example :
    Used (run sample_platform no_parser won_world (start_complete 0 0 (some true) 9 ∷ unlucky)) 0
    × (step sample_platform no_parser
          (run sample_platform no_parser won_world (start_complete 0 0 (some true) 9 ∷ unlucky))
          (start_complete 0 0 (some false) 10)
        ≡ add_call
            (run sample_platform no_parser won_world (start_complete 0 0 (some true) 9 ∷ unlucky))
            (new_call 0 (failed durable_stale)))
handle_single_use_example =
    handle_single_use sample_platform no_parser won_world unlucky 0 0 9 true 0 10 (some false)
      (run-Sound sample_platform no_parser empty_world race empty_world-Sound) won-IsOpenHandle

-- Call `i` draws `i + 1`.
abbrev drawn_by : Owner
drawn_by n = n - 1

-- The winner completes its handle while a third claim runs.
abbrev later : List Event
later =
    start_complete 0 0 (some true) 3
    ∷ start_claim 1 request_value 4
    ∷ next_of 2
    ∷ next_of 3
    ∷ resume 3 fails_before good_root
    ∷ []
