-- ===== src/Info/Default/Tables.antt =====
-- lib/InfoModel.cpp: InfoModel::defaultIPFIX and InfoModel::default5103.
use libfc.Prelude.{ℕ, List, ◌++◌, Outcome, ◌>>=◌}
use libfc.Info.Model.{InfoModel, add_specs}
use libfc.Info.Default.Ipfix1.{ipfix_specs_1}
use libfc.Info.Default.Ipfix2.{ipfix_specs_2}
use libfc.Info.Default.Ipfix3.{ipfix_specs_3}
use libfc.Info.Default.Reverse1.{reverse_specs_1}
use libfc.Info.Default.Reverse2.{reverse_specs_2}
use libfc.Info.Default.Reverse3.{reverse_specs_3}

-- The arguments of the calls of InfoModel::add, in order.
unfoldable pub ipfix_specs : List (List ℕ)
ipfix_specs = ipfix_specs_1 ++ (ipfix_specs_2 ++ ipfix_specs_3)

unfoldable pub reverse_specs : List (List ℕ)
reverse_specs = reverse_specs_1 ++ (reverse_specs_2 ++ reverse_specs_3)

-- InfoModel::defaultIPFIX and InfoModel::default5103.
unfoldable pub default_ipfix : InfoModel → Outcome InfoModel
default_ipfix m = add_specs m ipfix_specs

unfoldable pub default_5103 : InfoModel → Outcome InfoModel
default_5103 m = default_ipfix m >>= λ m'. add_specs m' reverse_specs
