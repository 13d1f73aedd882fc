-- ===== src/Collector/Binding.antt =====
-- lib/libfc.cpp: the C interface.
use libfc.Prelude.{
  ℕ, Bool, true, false, ltb, ◌==◌, Option, none, some, Outcome, ok, ◌>>=◌, if◌then◌else◌,
}
use libfc.Errors.{Reply, failed, fatal, aborted_by_user}
use libfc.Info.Model.{InfoModel}
use libfc.Info.Default.Tables.{default_ipfix}
use libfc.Octets.{Memory}
use libfc.Placement.Template.{PlacementTemplate}
use libfc.Handler.State.{Collector}
use libfc.Collector.Base.{
  Protocol, ipfix, netflowv9, PlacementCollector, new_collector, give_me_unhandled_data_sets,
}

-- The `int` of a callback.
pub data ℤ : Type 0 where
  pos : ℕ → ℤ
  negsuc : ℕ → ℤ

unfoldable pub is_positive : ℤ → Bool
is_positive (pos n) = ltb 0 n
is_positive (negsuc n) = false

-- The callbacks of the C program, which it has registered for each template: their result, and what
-- they do to the program's memory.
abbrev pub Callbacks : Type 0
Callbacks = PlacementTemplate → Memory → ℤ × Memory

-- The members of CBinding.
unfoldable pub end_placement : Callbacks → PlacementTemplate → Memory → Reply × Memory
end_placement callbacks t memory =
    let (result, memory') = callbacks t memory in
    (if is_positive result then none else failed fatal aborted_by_user, memory')

abbrev pub c_binding : Callbacks → Collector
c_binding callbacks = record {
  start_message = λ header memory. (none, memory);
  start_placement = λ t memory. (none, memory);
  end_placement = end_placement callbacks;
  unhandled_data_set = λ domain id buf memory. (none, memory);
}

-- The constructor of CBinding.
unfoldable pub new_binding : Protocol → Callbacks → InfoModel → Memory → PlacementCollector
new_binding protocol callbacks model memory =
    give_me_unhandled_data_sets (new_collector protocol (c_binding callbacks) model memory)

-- The initialisation of the information model, which is done once; the flag is infomodel_initialized.
unfoldable pub initialize : Bool → InfoModel → Outcome InfoModel
initialize true model = ok model
initialize false model = default_ipfix model

abbrev pub protocol_of : ℕ → Option Protocol
protocol_of version =
    if version == 9 then some netflowv9 else if version == 10 then some ipfix else none

-- libfc_template_group_new: `none` is a null pointer. The flag is set in any case.
unfoldable pub libfc_template_group_new :
    ℕ → Callbacks → Bool → InfoModel → Memory → Outcome (Option PlacementCollector × InfoModel)
libfc_template_group_new version callbacks initialized model memory =
    initialize initialized model >>= λ model'. elim (protocol_of version) [
      | none ↦ ok (none, model')
      | some protocol ↦ ok (some (new_binding protocol callbacks model' memory), model')
    ]
