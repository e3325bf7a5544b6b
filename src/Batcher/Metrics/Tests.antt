-- ===== src/Batcher/Metrics/Tests.antt =====
-- batcher/metrics/metrics.go at given payloads: a test's payload is a list of numbers of services,
-- one for each resource.
use tcg.Common.{
  decimal_padded, ℕ, zero, suc, ◌+◌, ◌≤◌, ◌≡◌, refl, Option, none, some, String, List, [], ◌∷◌, map,
  returns, arith, Bytes, All,
}
use tcg.Transit.Status.{MonitorStatus, host_up, host_unchanged, service_ok}
use tcg.Transit.Monitored.{
  MonitoredInfo, MonitoredService, MonitoredResource, MetricsRequest, ResourceGroup, ResourceRef,
  no_metrics,
}
use tcg.Batcher.Metrics.{MetricsCodec, no_resource, number_token, count_services, xxl2qq}
use tcg.Batcher.Metrics.Split.{sent, xxl2qq_loses}
use tcg.Batcher.Metrics.Collect.{requests}
use tcg.Batcher.Metrics.Collect.Order.{all_resources, buffered_resources, Unmixed, requests-Unmixed}

abbrev info : MonitorStatus → MonitoredInfo
info s = record {
  status = s;
  last_check_time = none;
  next_check_time = none;
  last_plugin_output = "";
}

abbrev service : MonitoredService
service = record { info = no_resource.info; monitored = info service_ok; metrics = [] }

abbrev services : ℕ → List MonitoredService
services zero = []
services (suc n) = service ∷ services n

-- A resource without services reports that it is up.
abbrev resource : ℕ → MonitoredResource
resource zero = record no_resource { monitored = info host_up }
resource (suc n) = record no_resource {
  monitored = info host_unchanged;
  services = services (suc n);
}

abbrev read : Bytes → Option MetricsRequest
read [] = none
read (b ∷ bs) = some (record no_metrics { resources = map resource (b ∷ bs) })

abbrev codec : MetricsCodec
codec = record { unmarshal = read; marshal = λ q. some (map (λ r. 0) q.resources) }

-- Five services in two resources: the limit is three, and two services are lost.
xxl2qq_loses_example :
    (qq : List MetricsRequest) × (xxl2qq codec [] (2 ∷ 3 ∷ []) 2 ≡ returns qq) × (sent qq + 2 ≤ 5)
unfolding count_services
xxl2qq_loses_example =
    xxl2qq_loses codec (2 ∷ 3 ∷ []) (record no_metrics { resources = map resource (2 ∷ 3 ∷ []) }) 2
      (omega arith) refl

abbrev host : String → ResourceRef
host owner = record { name = "h"; type = "host"; owner = owner }

abbrev group : List ResourceRef → ResourceGroup
group rs = record { group_name = "g"; type = "HostGroup"; description = ""; resources = rs }

abbrev buffer : List Bytes
buffer = (1 ∷ []) ∷ (0 ∷ 2 ∷ []) ∷ (2 ∷ []) ∷ []

requests-Unmixed_example :
    (qq : List MetricsRequest) × (requests codec 9 buffer ≡ returns qq)
    × (all_resources qq ≡ buffered_resources codec buffer)
    × All (Unmixed codec) qq
requests-Unmixed_example =
    requests-Unmixed codec 9 buffer (omega arith, (omega arith, (omega arith, tt)))

token_numbered : number_token 12 "01234567-89ab-cdef" ≡ "01234567-0012-cdef"
unfolding number_token decimal_padded
token_numbered = refl
