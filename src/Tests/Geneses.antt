-- ===== src/Tests/Geneses.antt =====
-- A genesis state with one validator and one confirmed height.
use go_execution_abci.Prelude.{true, [], ◌∷◌}
use go_execution_abci.Prelude.Int.{pos}
use go_execution_abci.Network.Types.{GenesisState}
use go_execution_abci.Tests.Samples.{rules}

abbrev pub genesis : GenesisState
genesis = record {
  params = rules;
  validator_indices = record { address = "alice"; index = 0; power = 60 } ∷ [];
  attestation_bitmaps =
      record {
        height = pos 10;
        bitmap = 1 ∷ [];
        voted_power = 60;
        total_power = 60;
        soft_confirmed = true;
      }
      ∷ [];
}
