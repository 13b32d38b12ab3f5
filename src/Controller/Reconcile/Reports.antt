-- ===== src/Controller/Reconcile/Reports.antt =====
-- A concrete encoding of the statuses that a reconciliation reports. Any other status fails to encode.
use flow_pipe.Prelude.{◌≡◌, Bool, true, false, ◌&&◌, Option, none, some, ◌∷◌, arith, if◌then◌else◌}
use flow_pipe.Text.{Text, codes, text_eq, text_eq_iff}
use flow_pipe.Proto.{FlowStatus, FlowState}
use flow_pipe.Etcd.{Codec}
use flow_pipe.Controller.Reconcile.{deploying_status}

abbrev is_deploying : FlowState → Bool
is_deploying FlowState.deploying = true
is_deploying s = false

unfoldable pub marshal_report : FlowStatus → Option Text
marshal_report s =
    if is_deploying s.state && text_eq s.message (codes "flow runtime created")
    then some (s.active_version ∷ s.last_updated ∷ s.workload)
    else none

unfoldable pub unmarshal_report : Text → Option FlowStatus
unmarshal_report (v ∷ t ∷ workload) = some (deploying_status v workload t)
unmarshal_report b = none

pub unmarshal-marshal_report :
    (s : FlowStatus) (b : Text) → marshal_report s ≡ some b → unmarshal_report b ≡ some s
unfolding marshal_report unmarshal_report
unmarshal-marshal_report s b h =
    ground (arith, text_eq_iff s.message (codes "flow runtime created"))

abbrev pub reports : Codec FlowStatus
reports = record {
  marshal = marshal_report;
  unmarshal = unmarshal_report;
  unmarshal-marshal = unmarshal-marshal_report;
}
