-- ===== src/Team/Resources.antt =====
-- src/team/resources.rs: how many ephemeral subagents the host's load allows.
use rust_ia_micro_agents.Base.{
  ℕ, ◌+◌, ◌-◌, ◌*◌, ◌/◌, ◌≤◌, min, max, ◌≡◌, Bool, ◌||◌, arith, if◌then◌else◌, ltb, ◌==◌, DateTime,
  usize_max,
}

-- What `sysinfo` reports, in bytes and cores. The operations on `f32` are parameters: the mean
-- usage of the cores in percent, the share of two numbers in percent, and the test `>=`.
pub record SystemReading : Type 0 where
  pub cpus : ℕ
  pub total_memory : ℕ
  pub available_memory : ℕ
  pub free_memory : ℕ
  pub used_memory : ℕ

pub record Floats : Type 1 where
  pub F32 : Type 0
  pub zero_f32 : F32
  pub mean_usage : SystemReading → F32
  pub percent : ℕ → ℕ → F32
  pub at_least : F32 → ℕ → Bool

module _ (floats : Floats) where
  open floats use {F32, zero_f32, mean_usage, percent, at_least}

  pub record ResourceSnapshot : Type 0 where
    pub cpu_cores : ℕ
    pub cpu_usage_pct : F32
    pub total_memory_mb : ℕ
    pub used_memory_mb : ℕ
    pub available_memory_mb : ℕ
    pub memory_pressure_pct : F32
    pub suggested_ephemeral_capacity : ℕ
    pub captured_at : DateTime

  unfoldable pub pressure_limiter : F32 → ℕ → F32 → ℕ → ℕ
  pressure_limiter cpu_usage_pct available_memory_mb memory_pressure_pct requested =
      if at_least cpu_usage_pct 95 || ltb available_memory_mb 256
      then 0
      else if at_least cpu_usage_pct 88 || ltb available_memory_mb 384
      then 1
      else if at_least cpu_usage_pct 78
          || ltb available_memory_mb 768
          || at_least memory_pressure_pct 92
      then max (requested / 2) 1
      else requested

  unfoldable pub capture_snapshot : DateTime → SystemReading → ℕ → ℕ → ResourceSnapshot
  capture_snapshot now system persistent_pool requested_ephemeral_cap =
      let cpu_cores = max system.cpus 1 in
      let cpu_usage_pct = if system.cpus == 0 then zero_f32 else mean_usage system in
      let total_memory_mb = system.total_memory / 1024 / 1024 in
      let available_memory_mb = max system.available_memory system.free_memory / 1024 / 1024 in
      let used_memory_mb =
        max (system.used_memory / 1024 / 1024) (total_memory_mb - available_memory_mb) in
      let memory_pressure_pct =
        if total_memory_mb == 0 then zero_f32 else percent used_memory_mb total_memory_mb in
      let cpu_budget = max (min (cpu_cores * 2) usize_max - persistent_pool) 1 in
      let memory_budget = max (available_memory_mb / 384) 1 in
      let limiter =
        pressure_limiter cpu_usage_pct available_memory_mb memory_pressure_pct
          requested_ephemeral_cap in
      record {
        cpu_cores = cpu_cores;
        cpu_usage_pct = cpu_usage_pct;
        total_memory_mb = total_memory_mb;
        used_memory_mb = used_memory_mb;
        available_memory_mb = available_memory_mb;
        memory_pressure_pct = memory_pressure_pct;
        suggested_ephemeral_capacity =
            min (min (min requested_ephemeral_cap cpu_budget) memory_budget) limiter;
        captured_at = now;
      }

  -- Without pressure, at least one ephemeral subagent is allowed whenever one was asked for; none
  -- is exactly when none was, the processors are at 95 percent or less than 256 MB are available.
  pub suggested-zero :
      (now : DateTime) (system : SystemReading) (persistent_pool requested : ℕ)
      → let r = capture_snapshot now system persistent_pool requested in
        (r.suggested_ephemeral_capacity == 0)
        ≡ (requested == 0 || at_least r.cpu_usage_pct 95 || ltb r.available_memory_mb 256)
  unfolding capture_snapshot pressure_limiter
  suggested-zero now system persistent_pool requested = ground arith

  -- The suggestion never passes the requested cap, the processors' budget or, when an extra
  -- subagent needs it, 384 MB of available memory for each.
  pub suggested-le :
      (now : DateTime) (system : SystemReading) (persistent_pool requested : ℕ)
      → let r = capture_snapshot now system persistent_pool requested in
        (r.suggested_ephemeral_capacity ≤ requested)
        × (r.suggested_ephemeral_capacity + persistent_pool
            ≤ max (r.cpu_cores * 2) (persistent_pool + 1))
        × (r.suggested_ephemeral_capacity * 384 ≤ max r.available_memory_mb 384)
  unfolding capture_snapshot
  suggested-le now system persistent_pool requested = ground arith
