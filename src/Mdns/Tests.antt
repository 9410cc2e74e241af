-- ===== src/Mdns/Tests.antt =====
-- The multicast DNS packets at concrete names.
use mathlib.Core.Option.{IsSome}
use llamaste.Mdns.Packets.{build_service_response, txt_data, txt_strings}
use llamaste.Mdns.Parse.{parse_service_responses, dotted}
use llamaste.Mdns.Encoding.{IsLabel, join_dots}
use llamaste.Mdns.Kinds.{IsTxt}
use llamaste.Mdns.Discovery.{parse_service_responses-build_service_response}
use llamaste.Mdns.Safety.{parse_service_responses-IsSome}
use llamaste.Prelude.{◌<◌, ◌≡◌, refl, some, List, [], ◌∷◌, Bytes, codes, All, length, arith}

abbrev service : List Bytes
service = codes "_rpc" ∷ codes "_tcp" ∷ codes "local" ∷ []

abbrev node : List Bytes
node = codes "n1" ∷ service

abbrev host : List Bytes
host = codes "n1" ∷ codes "local" ∷ []

service_labels : All IsLabel service
service_labels = ground arith

node_labels : All IsLabel node
node_labels = ground arith

host_labels : All IsLabel host
host_labels = ground arith

-- A header that promises 65535 records, and none behind it.
parse_service_responses-IsSome_example :
    IsSome
      (parse_service_responses (0 ∷ 0 ∷ 132 ∷ 0 ∷ 0 ∷ 9 ∷ 255 ∷ 255 ∷ 0 ∷ 0 ∷ 0 ∷ 0 ∷ 192 ∷ []) [])
parse_service_responses-IsSome_example =
    parse_service_responses-IsSome (0 ∷ 0 ∷ 132 ∷ 0 ∷ 0 ∷ 9 ∷ 255 ∷ 255 ∷ 0 ∷ 0 ∷ 0 ∷ 0 ∷ 192 ∷ [])
      []

strings : All IsTxt (codes "ram_mb=4096" ∷ [])
strings = ground arith

bound : length (txt_data (codes "ram_mb=4096" ∷ [])) < 65536
unfolding txt_data txt_strings
bound = omega arith

parse_service_responses-build_service_response_example :
    parse_service_responses
      (build_service_response
        (record {
          browse_name = join_dots service;
          instance_name = join_dots node;
          port = 50052;
          txt = codes "ram_mb=4096" ∷ [];
        })
        (join_dots host)
        (10 ∷ 0 ∷ 0 ∷ 7 ∷ [])
        0)
      (codes "_rpc._tcp")
    ≡ some (
        record {
          hostname = codes "n1";
          ip = dotted 10 0 0 7;
          port = 50052;
          txt = codes "ram_mb=4096" ∷ [];
        }
        ∷ [])
parse_service_responses-build_service_response_example =
    parse_service_responses-build_service_response service node host (codes "n1")
      (codes "_rpc._tcp") (codes "n1.") (codes ".local") (codes "ram_mb=4096" ∷ []) 10 0 0 7 50052
      (service_labels, (node_labels, host_labels)) refl (omega arith) refl strings bound
      (omega arith) (omega arith) (omega arith) 0
