-- ===== src/PerfTools/Tests.antt =====
-- The theorems on the programs of arm_pmu_experiments under a sample system.
use dreamscape.Base.{◌≡◌, [], ◌∷◌, ◌++◌, codes}
use dreamscape.PerfTools.Cli.{flag_p, flag_e, unset, pmu_events_cli_main}
use dreamscape.PerfTools.Cli.Requested.{
  log_of, opened_configs, requested, settings_of, pmu_events_cli_main-requested,
}
use dreamscape.PerfTools.Sample.{board}

pmu_events_cli_main-requested_example :
    opened_configs (
      log_of (pmu_events_cli_main board [] (flag_p (codes "/bin/ls") ∷ flag_e (codes "4") ∷ []) []))
    ≡ requested (settings_of board unset (flag_p (codes "/bin/ls") ∷ flag_e (codes "4") ∷ [])) ++ []
pmu_events_cli_main-requested_example =
    pmu_events_cli_main-requested board [] (flag_p (codes "/bin/ls") ∷ flag_e (codes "4") ∷ []) []
