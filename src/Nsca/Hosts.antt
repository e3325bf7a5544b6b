-- ===== src/Nsca/Hosts.antt =====
-- connectors/nsca/parser/parser.go, Parse: a resource from its services, some of which are results of
-- the host itself.
use tcg.Common.{
  ◌≡◌, inl, inr, refl, ap, sym, ◌∙◌, Bool, true, false, not, ◌||◌, some, List, [], ◌∷◌, ◌++◌,
  String, filter_by, Bool-cases,
}
use mathlib.Core.List.{append_assoc, append-nil}
use tcg.Transit.Value.{Timestamp}
use tcg.Transit.Status.{host_up}
use tcg.Transit.Monitored.{MonitoredInfo, MonitoredService, MonitoredResource}
use tcg.Connectors.Service.{base_info, no_info}
use tcg.Nsca.Distinct.{
  named_other, nameless, distinct, take_first, keeps_head, drops_head, nameless-distinct,
}
use tcg.Nsca.{apply_host_checks, finish_resource, new_resource, make_resource}

-- The result of the host: that of the first service without a name, else up at this time.
abbrev host_of : Timestamp → List MonitoredService → MonitoredInfo
host_of now [] = record (no_info host_up) { last_check_time = some now }
host_of now (s ∷ ss) = s.monitored

abbrev pub resource_of : Timestamp → String → List MonitoredService → MonitoredResource
resource_of now name ss = record {
  info = base_info name "host" "";
  device = "";
  monitored = host_of now (filter_by nameless ss);
  services = filter_by (named_other "") (distinct ss);
}

last_of : MonitoredInfo → List MonitoredService → MonitoredInfo
last_of i [] = i
last_of i (s ∷ ss) = last_of s.monitored ss

is_any : List MonitoredService → Bool
is_any [] = false
is_any (s ∷ ss) = true

-- What a loop over the services leaves, from those without a name and the others.
gathered :
    Bool
    → MonitoredResource
    → List MonitoredService
    → List MonitoredService
    → Bool × MonitoredResource
unfolding last_of is_any
gathered flag res hosts others = (
  flag || is_any hosts,
  record res { monitored = last_of res.monitored hosts; services = res.services ++ others },
)

abbrev named : List MonitoredService → List MonitoredService
named = filter_by (named_other "")

gathered_nothing : (flag : Bool) (res : MonitoredResource) → gathered flag res [] [] ≡ (flag, res)
unfolding gathered last_of is_any
gathered_nothing true res = rw (append-nil res.services) refl
gathered_nothing false res = rw (append-nil res.services) refl

gathered_host :
    (flag : Bool) (res : MonitoredResource) (s : MonitoredService)
    → (hosts others : List MonitoredService)
    → gathered true (record res { monitored = s.monitored }) hosts others
      ≡ gathered flag res (s ∷ hosts) others
unfolding gathered last_of is_any
gathered_host true res s hosts others = refl
gathered_host false res s hosts others = refl

gathered_other :
    (flag : Bool) (res : MonitoredResource) (s : MonitoredService)
    → (hosts others : List MonitoredService)
    → gathered flag (record res { services = res.services ++ s ∷ [] }) hosts others
      ≡ gathered flag res hosts (s ∷ others)
unfolding gathered
gathered_other flag res s hosts others =
    ap
      (λ l. (
        flag || is_any hosts,
        record res { monitored = last_of res.monitored hosts; services = l },
      ))
      (append_assoc res.services (s ∷ []) others)

check_host :
    (flag : Bool) (res : MonitoredResource) (s : MonitoredService) (ss : List MonitoredService)
    → nameless s ≡ true
    → apply_host_checks flag res (s ∷ ss)
      ≡ apply_host_checks true (record res { monitored = s.monitored }) ss
unfolding apply_host_checks
check_host flag res s ss e = rw (e, apply_host_checks) refl

check_other :
    (flag : Bool) (res : MonitoredResource) (s : MonitoredService) (ss : List MonitoredService)
    → nameless s ≡ false
    → apply_host_checks flag res (s ∷ ss)
      ≡ apply_host_checks flag (record res { services = res.services ++ s ∷ [] }) ss
unfolding apply_host_checks
check_other flag res s ss e = rw (e, apply_host_checks) refl

apply_host_checks-gathered :
    (flag : Bool) (res : MonitoredResource) (ss : List MonitoredService)
    → apply_host_checks flag res ss ≡ gathered flag res (filter_by nameless ss) (named ss)
unfolding apply_host_checks
apply_host_checks-gathered flag res [] = sym (gathered_nothing flag res)
apply_host_checks-gathered flag res (s ∷ ss) = elim (Bool-cases (nameless s)) [
  | inl e ↦
      check_host flag res s ss e
      ∙ apply_host_checks-gathered true (record res { monitored = s.monitored }) ss
      ∙ gathered_host flag res s (filter_by nameless ss) (named ss)
      ∙ ap (λ l. gathered flag res l (named ss)) (sym (keeps_head nameless s ss e))
      ∙ ap (gathered flag res (filter_by nameless (s ∷ ss)))
          (sym (drops_head (named_other "") s ss (ap not e)))
  | inr e ↦
      check_other flag res s ss e
      ∙ apply_host_checks-gathered flag (record res { services = res.services ++ s ∷ [] }) ss
      ∙ gathered_other flag res s (filter_by nameless ss) (named ss)
      ∙ ap (λ l. gathered flag res l (s ∷ named ss)) (sym (drops_head nameless s ss e))
      ∙ ap (gathered flag res (filter_by nameless (s ∷ ss)))
          (sym (keeps_head (named_other "") s ss (ap not e)))
]

finish-gathered :
    (now : Timestamp) (name : String) (hosts others : List MonitoredService)
    → finish_resource now (gathered false (new_resource name) (take_first hosts) others)
      ≡ record (new_resource name) { monitored = host_of now hosts; services = others }
unfolding gathered take_first last_of is_any
finish-gathered now name [] others = refl
finish-gathered now name (h ∷ hs) others = refl

pub make_resource-distinct :
    (now : Timestamp) (name : String) (ss : List MonitoredService)
    → make_resource now (name, distinct ss) ≡ resource_of now name ss
unfolding make_resource
make_resource-distinct now name ss =
    ap (finish_resource now) (
      apply_host_checks-gathered false (new_resource name) (distinct ss)
      ∙ ap (λ l. gathered false (new_resource name) l (named (distinct ss))) (nameless-distinct ss))
    ∙ finish-gathered now name (filter_by nameless ss) (named (distinct ss))
