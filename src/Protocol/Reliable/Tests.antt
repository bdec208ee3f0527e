-- ===== src/Protocol/Reliable/Tests.antt =====
-- The theorems on ids, packing and delivery at concrete inputs.
use atemproxy.Prelude.{ℕ, ◌≡◌, ◌++◌, List, [], ◌∷◌}
use atemproxy.Protocol.Reliable.{
  ReliableEndpoint, new_endpoint, default_config, queue_commands_packed,
}
use atemproxy.Protocol.Reliable.Packing.{Grouping, queue_commands_packed-Grouping}

abbrev endpoint : ReliableEndpoint
endpoint = new_endpoint 0x8001 default_config 0

abbrev two_commands : List (List ℕ)
two_commands = (1 ∷ 2 ∷ []) ∷ (3 ∷ []) ∷ []

queue_commands_packed-Grouping_example :
    (payloads : List (List ℕ)) × ((queue_commands_packed two_commands endpoint).outbound
      ≡ endpoint.outbound ++ payloads)
    × Grouping two_commands payloads
queue_commands_packed-Grouping_example =
    queue_commands_packed-Grouping two_commands endpoint ((λ e. cc), ((λ e. cc), tt))
