-- ===== src/PeerForwarder.antt =====
-- The detection of stateful processors, internal/peerforwarder/detector.go.
use dataprepper_operator.Base.{String, ◌<>◌, Bool, false, ◌||◌, List, [], ◌∷◌, contains, string_eq}
use dataprepper_operator.Base.Int.{pos}
use dataprepper_operator.Api.Json.{Fields, end, field, str, num, obj}

abbrev pub stateful_processors : List String
stateful_processors =
    "aggregate" ∷ "service_map" ∷ "service_map_stateful" ∷ "otel_traces" ∷ "otel_trace_raw"
    ∷ "otel_traces_raw" ∷ []

-- The loop over the keys of one processor.
any_stateful : Fields → Bool
any_stateful end = false
any_stateful (field name v fs) = contains stateful_processors name || any_stateful fs

any_processor : List Fields → Bool
unfolding any_stateful
any_processor [] = false
any_processor (p ∷ ps) = any_stateful p || any_processor ps

unfoldable pub needs_forwarding : List (List Fields) → Bool
unfolding any_processor
needs_forwarding [] = false
needs_forwarding (ps ∷ rest) = any_processor ps || needs_forwarding rest

unfoldable pub generate_config : (name namespace : String) → Fields
generate_config name namespace =
    field "peer_forwarder"
      (obj (
        field "discovery_mode" (str "dns") (
          field "domain_name" (str (name <> "-headless." <> namespace <> ".svc.cluster.local"))
            (field "port" (num (pos 4994)) end))))
      end
