-- ===== src/Batcher/Metrics.antt =====
-- batcher/metrics/metrics.go. The JSON codec is encoding/json's, a parameter; so is the order in
-- which Go yields the entries of a map. A size limit of 0 makes the division panic.
pub mod Groups
pub mod Split
pub mod Collect
mod Tests
use Prim.Native.String.{len, slice as cut}
use Prim.Native.String.{◌++◌ as join}
use tcg.Common.{
  ℕ, zero, suc, ◌+◌, Bool, true, false, Option, none, some, List, [], ◌∷◌, ◌++◌, String, Outcome,
  returns, ◌>>=◌, Bytes, length, ltb, leb, if◌then◌else◌, decimal_padded,
}
use tcg.Transit.Status.{MonitorStatus, host_unchanged}
use tcg.Transit.Monitored.{
  TracerContext, ResourceGroup, MonitoredService, MonitoredResource, MetricsRequest, no_context,
  no_metrics, set_context,
}
use tcg.Batcher.Events.{split_limit}

-- json.Unmarshal and json.Marshal at ResourcesWithServicesRequest; none is an error.
pub record MetricsCodec : Type 0 where
  pub unmarshal : Bytes → Option MetricsRequest
  pub marshal : MetricsRequest → Option Bytes

abbrev is_unchanged : MonitorStatus → Bool
is_unchanged host_unchanged = true
is_unchanged _ = false

unfoldable pub has_status_in : List MonitoredResource → Bool
has_status_in [] = false
has_status_in (r ∷ rs) = if is_unchanged r.monitored.status then has_status_in rs else true

-- hasStatus
unfoldable pub has_status : MetricsRequest → Bool
unfolding has_status_in
has_status q = has_status_in q.resources

unfoldable pub count_services : List MonitoredResource → ℕ
count_services [] = 0
count_services (r ∷ rs) = length r.services + count_services rs

-- The variables of the loops of xxl2qq: `c`, `x`, `pr`, and the requests appended to `qq`.
pub record Cut : Type 0 where
  pub c : ℕ
  pub x : MetricsRequest
  pub pr : MonitoredResource
  pub qq : List MetricsRequest

abbrev pub without_services : MonitoredResource → MonitoredResource
without_services r = record r { services = [] }

abbrev pub with_service : MonitoredResource → MonitoredService → MonitoredResource
with_service r svc = record r { services = r.services ++ svc ∷ [] }

abbrev pub fresh : MetricsRequest → MetricsRequest
fresh q = record no_metrics { groups = q.groups }

abbrev pub put_context : MetricsRequest → TracerContext → MetricsRequest
put_context x c = record x { context = set_context x.context c }

abbrev pub no_resource : MonitoredResource
no_resource = record {
  info = record {
    name = "";
    type = "";
    owner = "";
    category = "";
    description = "";
    properties = [];
  };
  device = "";
  monitored = record {
    status = MonitorStatus.other_status "";
    last_check_time = none;
    next_check_time = none;
    last_plugin_output = "";
  };
  services = [];
}

abbrev pub cut_start : MetricsRequest → Cut
cut_start q = record { c = 0; x = fresh q; pr = no_resource; qq = [] }

abbrev pub cut_flush : MetricsRequest → Cut → List MetricsRequest
cut_flush q s =
    if ltb 0 (length s.x.resources) then s.qq ++ put_context s.x q.context ∷ [] else s.qq

-- The request that is appended once `lim` services are counted.
unfoldable pub next_part : MetricsRequest → Cut → MonitoredService → MetricsRequest
next_part q s svc =
    put_context (record (s.x) { resources = s.x.resources ++ with_service s.pr svc ∷ [] }) q.context

module _ (q : MetricsRequest) (lim : ℕ) where
  -- One round of the loop over the services of `res`.
  unfoldable pub cut_service : MonitoredResource → MonitoredService → Cut → Cut
  cut_service res svc s =
      if ltb (s.c + 1) lim then record s { c = s.c + 1; pr = with_service s.pr svc } else record {
        c = 0;
        x = fresh q;
        pr = without_services res;
        qq = s.qq ++ next_part q s svc ∷ [];
      }

  unfoldable pub cut_services : MonitoredResource → List MonitoredService → Cut → Cut
  unfolding cut_service
  cut_services res [] s = s
  cut_services res (svc ∷ svcs) s = cut_services res svcs (cut_service res svc s)

  unfoldable pub cut_resources : List MonitoredResource → Cut → Cut
  unfolding cut_services
  cut_resources [] s = s
  cut_resources (res ∷ rs) s =
      cut_resources rs (cut_services res res.services (record s { pr = without_services res }))

  -- The requests that xxl2qq makes of an oversized one.
  unfoldable pub parts : List MetricsRequest
  unfolding cut_resources
  parts = cut_flush q (cut_resources q.resources (cut_start q))

-- The trace token of the request at place `i`; the token is ASCII.
unfoldable pub number_token : ℕ → String → String
number_token i t =
    if ltb 14 (len t)
    then join (cut t 0 8) (join "-" (join (decimal_padded i) (join "-" (cut t 14 (len t)))))
    else t

abbrev pub number_request : ℕ → MetricsRequest → MetricsRequest
number_request i q = record q {
  context = record (q.context) { trace_token = number_token i q.context.trace_token };
}

-- The last loop of xxl2qq, over all of `qq`.
unfoldable pub number_requests : ℕ → List MetricsRequest → List MetricsRequest
unfolding number_token decimal_padded
number_requests i [] = []
number_requests i (q ∷ qs) = number_request i q ∷ number_requests (suc i) qs

module _ (codec : MetricsCodec) where
  unfoldable pub xxl2qq : List MetricsRequest → Bytes → ℕ → Outcome (List MetricsRequest)
  unfolding count_services split_limit parts number_requests
  xxl2qq qq p max_bytes = elim (codec.unmarshal p) [
    | none ↦ returns qq
    | some q ↦ (do
      lim ← split_limit (count_services q.resources) (length p) max_bytes
      returns (number_requests 0 (qq ++ parts q lim)))
  ]
