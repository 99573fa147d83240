-- ===== src/PmuUtils/Tests.antt =====
-- The theorems on pmu_utils at a sample state of the registers and of the module.
use dreamscape.Base.{◌≡◌, [], ◌∷◌, ◌++◌, codes, arith}
use dreamscape.Base.Int.{pos}
use dreamscape.Base.Decimal.{print_u64}
use dreamscape.PerfTools.{value, fopen, fclose, printf}
use dreamscape.PerfTools.Sample.{board}
use dreamscape.PmuModule.{PmuCounters}
use dreamscape.PmuUtils.Reader.{
  access_label, refill_label, read_pmu_counters_main, read_pmu_counters_main-pmu_proc_show,
}
use dreamscape.PmuModule.{pmu_proc_show}

abbrev busy : PmuCounters
busy = record {
  l1_data_cache_access = 123456789;
  l1_data_cache_refill = 4096;
  l1_inst_cache_access = 0;
  l1_inst_cache_refill = 7;
}

read_pmu_counters_main-pmu_proc_show_example :
    read_pmu_counters_main board 1 2 (pmu_proc_show busy) []
    ≡ value 0 (
        printf (refill_label ++ (print_u64 4096 ++ codes "\n"))
        ∷ printf (access_label ++ (print_u64 123456789 ++ codes "\n"))
        ∷ fclose 5 (pos 0)
        ∷ fopen (codes "/proc/pmu_counters") (codes "r") 5
        ∷ [])
read_pmu_counters_main-pmu_proc_show_example =
    read_pmu_counters_main-pmu_proc_show board 1 2 busy [] (omega arith) (omega arith) (omega arith)
