-- ===== src/Adapter/Filter.antt =====
-- pkg/adapter/options.go: the filter that lets a block be published once the network module has softly
-- confirmed it.
pub mod Confirmed
use go_execution_abci.Prelude.{
  ℕ, Bool, true, false, ◌==◌, nat_eq, if◌then◌else◌, Option, none, some,
}
use go_execution_abci.Prelude.Int.{ℤ, pos, ltb_ℤ}
use go_execution_abci.Compat.Types.{Bytes}
use go_execution_abci.Network.Query.{SoftConfirmationStatus}

-- The protobuf forms of the request and of the answer, and the application's Query for the path of
-- SoftConfirmationStatus, which fails or answers with a code and a value.
pub record Querier : Type 0 where
  pub marshal : ℤ → Option Bytes
  pub query : Bytes → Option (ℕ × Bytes)
  pub unmarshal : Bytes → Option SoftConfirmationStatus

module _ (app : Querier) where
  abbrev confirmed : Option SoftConfirmationStatus → Bool
  confirmed none = false
  confirmed (some status) = status.is_soft_confirmed

  abbrev answered : Option (ℕ × Bytes) → Bool
  answered none = false
  answered (some (code, value)) = if code == 0 then confirmed (app.unmarshal value) else false

  abbrev asked : Option Bytes → Bool
  asked none = false
  asked (some request) = answered (app.query request)

  -- NetworkSoftConfirmationBlockFilter.
  unfoldable pub is_publishable : ℤ → Bool
  is_publishable height = if ltb_ℤ height (pos 2) then false else asked (app.marshal height)
