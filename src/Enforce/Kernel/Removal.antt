-- ===== src/Enforce/Kernel/Removal.antt =====
-- What `down` leaves of degc in the host.
use degc.Prelude.{ℕ, ◌≡◌, false, none, List, [], ◌∷◌, ◌++◌, ok}
use degc.Text.{Text}
use degc.Text.Numbers.{show}
use degc.Api.{Gateway, GatewayList}
use degc.Api.Values.{mark_value, table_id}
use degc.Enforce.Route.{mark_text}
use degc.Enforce.Kernel.{Host, Command, del_rule, flush, Kernel}

abbrev undo_effects : ℕ → Gateway → List Command
undo_effects mark gw =
    del_rule (mark_text mark) (show (table_id gw)) ∷ flush (show (table_id gw)) ∷ []

data IsRemoval : GatewayList → List Command → Type 0 where
  none_removed : IsRemoval [] []
  removal_for :
      {gw : Gateway} {rest : GatewayList} {cs : List Command} (mark : ℕ)
      → mark_value gw ≡ ok mark
      → IsRemoval rest cs
      → IsRemoval (gw ∷ rest) (undo_effects mark gw ++ cs)

-- No rule from the mark to the table, and no route of degc's in the table.
pub record IsGone (mark table : Text) (h : Host) : Type 0 where
  pub rule : h.rule mark table ≡ false
  pub live : h.live table ≡ none
  pub floor : h.floor table ≡ false

abbrev pub IsRemoved : Host → Gateway → Type 0
IsRemoved h gw =
    (mark : ℕ) × (mark_value gw ≡ ok mark) × IsGone (mark_text mark) (show (table_id gw)) h
