-- ===== src/Proxy/Filter/Tests.antt =====
-- The theorems on the filter at concrete inputs.
use atemproxy.Prelude.{arith, ℕ, ◌≡◌, refl, not, List, [], ◌∷◌, ◌++◌, is_empty}
use atemproxy.Protocol.Command.{CommandRef, command_name, name_eq, serialize_command}
use atemproxy.Protocol.Classify.{
  lock, one_of, is_lock_request, lock_store_id, lock_request_enabled, is_audio_levels_subscribe,
}
use atemproxy.Proxy.Config.{single_owner, default_media}
use atemproxy.Proxy.Locks.{client_lock_request, request_on, entry, decide_lock}
use atemproxy.Proxy.Net.{get}
use atemproxy.Proxy.Filter.{
  FilterAction, FilterPolicy, new_filter, on_lock_request, process_command, process_payload,
}
use atemproxy.Proxy.Filter.Verdicts.{Outcome, process_payload-Outcome}
use atemproxy.Protocol.Command.Parsing.{IsFramed, serialize_command-IsFramed}
use atemproxy.Proxy.Filter.Audio.{
  AudioOp, request, leave, IsRequest, audio_run, audio_run-subscribed,
}

abbrev policy : FilterPolicy
policy = record { lock_mode = single_owner; media = default_media }

abbrev ask : List ℕ
ask = 0 ∷ 0 ∷ 1 ∷ 0 ∷ []

abbrev lock_request : CommandRef
lock_request = record { name = lock; raw = serialize_command lock ask; body = ask }

forwards :
    (process_command policy 7 9 lock_request new_filter).1 ≡ FilterAction.forward lock_request.raw
unfolding process_command on_lock_request client_lock_request is_lock_request one_of name_eq
    lock_store_id lock_request_enabled request_on entry get decide_lock
forwards = refl

abbrev two : List ℕ
two = serialize_command lock ask ++ serialize_command (command_name b'S' b'A' b'L' b'N') (1 ∷ [])

process_payload-Outcome_example :
    Outcome policy 7 9 two new_filter (process_payload policy 7 9 two new_filter)
process_payload-Outcome_example = process_payload-Outcome policy 7 9 two new_filter

abbrev levels_on : CommandRef
levels_on = record {
  name = command_name b'S' b'A' b'L' b'N';
  raw = serialize_command (command_name b'S' b'A' b'L' b'N') (1 ∷ []);
  body = 1 ∷ [];
}

abbrev ops : List AudioOp
ops = leave 7 ∷ request 8 levels_on ∷ request 7 levels_on ∷ []

levels_on-IsFramed : IsFramed levels_on
levels_on-IsFramed =
    serialize_command-IsFramed (command_name b'S' b'A' b'L' b'N') (1 ∷ []) (omega arith)

levels_on-IsRequest : IsRequest levels_on
unfolding is_audio_levels_subscribe one_of name_eq
levels_on-IsRequest = record {
  framed = levels_on-IsFramed;
  about_audio = refl;
  front = [];
  flag = 1;
  spelled = refl;
}

audio_run-subscribed_example :
    (audio_run ops new_filter).0 ≡ not (is_empty ((audio_run ops new_filter).1.audio.clients))
audio_run-subscribed_example =
    audio_run-subscribed ops new_filter (levels_on-IsRequest, (levels_on-IsRequest, tt)) refl
