-- ===== src/PerfTools/Cli/Requested.antt =====
-- Which events `pmu_events_cli.c` opens.
use dreamscape.Base.{
  ℕ, ◌%◌, ◌^◌, ◌≡◌, refl, inl, inr, true, false, ◌&&◌, List, [], ◌∷◌, ◌++◌, Option, some, none,
  Bool-cases, Option-cases, ==_cases, ==_ne, arith, ◌==◌, if◌then◌else◌,
}
use dreamscape.Base.Int.{ℤ, pos, neg, eq_ℤ, is_neg}
use dreamscape.Kernel.{raw}
use dreamscape.PerfTools.{
  System, Log, Run, value, exited, segfault, perf_event_open, attr_of, perf_event_open_any, ◌>>=◌,
}
use dreamscape.PerfTools.Cli.{
  Flag, flag_p, flag_e, flag_other, is_valid_perf_event, Settings, unset, has_path, read_options,
  run_counter, pmu_events_cli_main,
}

abbrev pub log_of : {A : Type 0} → Run A → Log
log_of (value a t) = t
log_of (exited n t) = t
log_of (segfault t) = t

-- The events that were asked for, the newest first.
abbrev pub opened_configs : Log → List ℕ
opened_configs [] = []
opened_configs (perf_event_open attr pid cpu group_fd fd ∷ t) = attr.config ∷ opened_configs t
opened_configs (_ ∷ t) = opened_configs t

-- The last path and the last event on the command line; none where it has an unknown option.
pub settings_of : System → Settings → List Flag → Option Settings
settings_of m s [] = some s
settings_of m s (flag_p optarg ∷ rest) = settings_of m (record s { binary_path = some optarg }) rest
settings_of m s (flag_e optarg ∷ rest) =
    settings_of m (record s { perf_event = m.strtoul optarg % 2 ^ 32 }) rest
settings_of m s (flag_other ∷ rest) = none

abbrev pub requested : Option Settings → List ℕ
requested none = []
requested (some s) = elim s.binary_path [
  | none ↦ []
  | some path ↦
      if s.perf_event == 0x03
      then 0x03 ∷ []
      else if s.perf_event == 0x04
      then 0x04 ∷ []
      else if s.perf_event == 0x05
      then 0x05 ∷ []
      else []
]

module _ (m : System) where
  read_options-some :
      (argv0 : List ℕ) (s s' : Settings) (flags : List Flag) (t : Log)
      → settings_of m s flags ≡ some s'
      → read_options m argv0 s flags t ≡ value s' t
  unfolding read_options settings_of
  read_options-some argv0 s s' [] t e = ground (arith, e)
  read_options-some argv0 s s' (flag_p optarg ∷ rest) t e =
      read_options-some argv0 (record s { binary_path = some optarg }) s' rest t e
  read_options-some argv0 s s' (flag_e optarg ∷ rest) t e =
      read_options-some argv0 (record s { perf_event = m.strtoul optarg % 2 ^ 32 }) s' rest t e
  read_options-some argv0 s s' (flag_other ∷ rest) t e = cc

  read_options-none :
      (argv0 : List ℕ) (s : Settings) (flags : List Flag) (t : Log)
      → settings_of m s flags ≡ none
      → (t' : Log) × (read_options m argv0 s flags t ≡ exited 1 t')
        × (opened_configs t' ≡ opened_configs t)
  unfolding read_options settings_of
  read_options-none argv0 s [] t e = cc
  read_options-none argv0 s (flag_p optarg ∷ rest) t e =
      read_options-none argv0 (record s { binary_path = some optarg }) rest t e
  read_options-none argv0 s (flag_e optarg ∷ rest) t e =
      read_options-none argv0 (record s { perf_event = m.strtoul optarg % 2 ^ 32 }) rest t e
  read_options-none argv0 s (flag_other ∷ rest) t e = (_, refl, refl)

  run_counter-opened :
      (event : ℕ) (fd : ℤ) (t : Log)
      → opened_configs (log_of (run_counter m event fd t)) ≡ opened_configs t
  unfolding run_counter
  run_counter-opened event fd t = elim (Bool-cases (is_neg (m.fork_reply t))) [
    | inl bad ↦ rw bad refl
    | inr good ↦ elim (Bool-cases (eq_ℤ (m.fork_reply t) (pos 0))) [
      | inl child ↦ rw good (rw child refl)
      | inr parent ↦ rw good (rw parent refl)
    ]
  ]

valid_requested :
    (s : Settings)
    → requested (some s)
      ≡ (if has_path s && is_valid_perf_event s.perf_event then s.perf_event ∷ [] else [])
unfolding is_valid_perf_event
valid_requested s = elim (Option-cases s.binary_path) [
  | inl no_path ↦ rw no_path refl
  | inr (path, given) ↦ elim (==_cases s.perf_event 0x03) [
    | inl e ↦ rw (given, e) refl
    | inr ne3 ↦ elim (==_cases s.perf_event 0x04) [
      | inl e ↦ rw (given, e) refl
      | inr ne4 ↦ elim (==_cases s.perf_event 0x05) [
        | inl e ↦ rw (given, e) refl
        | inr ne5 ↦
            rw
              (
                given,
                ==_ne s.perf_event 0x03 ne3,
                ==_ne s.perf_event 0x04 ne4,
                ==_ne s.perf_event 0x05 ne5,
              )
              refl
      ]
    ]
  ]
]

valid_not_zero : (event : ℕ) → is_valid_perf_event event ≡ true → (event == 0) ≡ false
unfolding is_valid_perf_event
valid_not_zero event h = ground arith

module _ (m : System) (argv0 : List ℕ) where
  -- Whatever the command line and the system's answers, the program asks for the event given last
  -- on the command line, once, if a path was given and the event is 0x03, 0x04 or 0x05;
  -- otherwise, and where an option is unknown, it asks for none.
  pub pmu_events_cli_main-requested :
      (flags : List Flag) (t : Log)
      → opened_configs (log_of (pmu_events_cli_main m argv0 flags t))
        ≡ requested (settings_of m unset flags) ++ opened_configs t
  unfolding pmu_events_cli_main perf_event_open_any
  pmu_events_cli_main-requested flags t = elim (Option-cases (settings_of m unset flags)) [
    | inl unknown ↦
        let (t', run, same) = read_options-none m argv0 unset flags t unknown in
        rw unknown (rw (run, ◌>>=◌) same)
    | inr (s, is) ↦
        let run = read_options-some m argv0 unset s flags t is in
        let fd = m.open_reply t (attr_of m raw s.perf_event) in
        elim (Bool-cases (has_path s)) [
          | inr no_path ↦ rw (is, valid_requested s) (rw (run, ◌>>=◌) (rw no_path refl))
          | inl path ↦ elim (Bool-cases (is_valid_perf_event s.perf_event)) [
            | inr bad ↦ elim (Bool-cases (s.perf_event == 0)) [
              | inl zero_event ↦
                  rw (is, valid_requested s)
                    (rw (run, ◌>>=◌) (rw path (rw zero_event (rw bad refl))))
              | inr event ↦
                  rw (is, valid_requested s) (rw (run, ◌>>=◌) (rw path (rw event (rw bad refl))))
            ]
            | inl good ↦ elim (Bool-cases (eq_ℤ fd (neg 1))) [
              | inl failed ↦
                  rw (is, valid_requested s)
                    (rw (run, ◌>>=◌)
                      (rw path (rw (valid_not_zero s.perf_event good) (rw good (rw failed refl)))))
              | inr there ↦
                  rw (is, valid_requested s)
                    (rw (run, ◌>>=◌)
                      (rw path (
                        rw (valid_not_zero s.perf_event good)
                          (rw good (rw there (run_counter-opened m s.perf_event fd _))))))
            ]
          ]
        ]
  ]
